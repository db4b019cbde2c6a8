-- ===== src/Config/Merge.antt =====
-- Who may log in after config/config.go has merged the configurations.
use fleare.Prelude.{
  ◌≡◌, ◌≢◌, refl, sym, ◌∙◌, ap, inl, inr, Bool, true, false, Bool-cases, none, some, List, [], ◌∷◌,
  ◌++◌, All, ◌||◌, if◌then◌else◌, if_true, if_false, arith,
}
use mathlib.Core.Option.{some-injective, none-ne-some}
use fleare.Prelude.Bytes.{Bytes, same}
use fleare.Prelude.Dict.{lookup, insert, lookup-insert, lookup-insert_here, lookup-insert_other}
use fleare.Server.Sessions.{User, Users, add, root}
use fleare.Server.Sessions.Granted.{Admits, by_password, without_password}
use fleare.Config.{
  Account, Configuration, add_users, is_root_found, list_over, merged, merge_configs,
}

abbrev pub user_of : Account → User
user_of u = record { username = u.username; password = u.password; role = u.role }

-- The account of a name is the last one that the configuration has for it.
abbrev pub Unnamed : Bytes → Account → Type 0
Unnamed name u = same u.username name ≡ false

lookup-add_users :
    (name : Bytes) (us : List Account) (store : Users)
    → All (Unnamed name) us
    → lookup name (add_users us store) ≡ lookup name store
unfolding add_users add
lookup-add_users name [] store a = refl
lookup-add_users name (u ∷ us) store (n, a) =
    lookup-add_users name us (add u.username u.password u.role store) a
    ∙ lookup-insert_other u.username name (user_of u) store n

last_added :
    (before after : List Account) (u : Account) (store : Users)
    → All (Unnamed u.username) after
    → lookup u.username (add_users (before ++ u ∷ after) store) ≡ some (user_of u)
unfolding add_users add
last_added [] after u store a =
    lookup-add_users u.username after (add u.username u.password u.role store) a
    ∙ lookup-insert_here u.username (user_of u) store
last_added (b ∷ before) after u store a =
    last_added before after u (add b.username b.password b.role store) a

-- An account that is there stays, maybe changed.
lookup_stays :
    (name : Bytes) (us : List Account) (store : Users) (v : User)
    → lookup name store ≡ some v
    → (w : User) × (lookup name (add_users us store) ≡ some w)
unfolding add_users add
lookup_stays name [] store v e = (v, e)
lookup_stays name (u ∷ us) store v e = elim (Bool-cases (same u.username name)) [
  | inl s ↦ lookup_stays name us (insert u.username (user_of u) store) (user_of u) (
      lookup-insert u.username name (user_of u) store
      ∙ if_true (same u.username name) (some (user_of u)) (lookup name store) s)
  | inr s ↦
      lookup_stays name us (insert u.username (user_of u) store) v
        (lookup-insert_other u.username name (user_of u) store s ∙ e)
]

root_added :
    (us : List Account) (store : Users)
    → is_root_found us ≡ true
    → (w : User) × (lookup root (add_users us store) ≡ some w)
unfolding add_users add is_root_found
root_added [] store h = absurd (ground (arith, h))
root_added (u ∷ us) store h = elim (Bool-cases (same u.username root)) [
  | inl s ↦ lookup_stays root us (insert u.username (user_of u) store) (user_of u) (
      lookup-insert u.username root (user_of u) store
      ∙ if_true (same u.username root) (some (user_of u)) (lookup root store) s)
  | inr s ↦ root_added us (insert u.username (user_of u) store) (rw s at h)
]

or_if : (a b : Bool) → (if b then b else a) ≡ (a || b)
or_if a true = ground arith
or_if a false = ground arith

-- The equation of a merging that does not end the program.
merge_configs-added :
    (d o config : Configuration) (store users : Users)
    → merge_configs d o store ≡ some (config, users)
    → (is_root_found config.security.users ≡ true)
      × ((config ≡ merged d o) × (users ≡ add_users config.security.users store))
unfolding merge_configs
merge_configs-added d o config store users e =
    elim (Bool-cases (is_root_found (list_over d.security.users o.security.users))) [
      | inl s ↦
          let q =
            some-injective
              (merged d o, add_users (list_over d.security.users o.security.users) store)
              (config, users)
              (sym (
                  if_true (is_root_found (list_over d.security.users o.security.users))
                    (some
                      (merged d o, add_users (list_over d.security.users o.security.users) store))
                    none s)
                ∙ e) in
          let c = sym (ap (λ (p : Configuration × Users). p.0) q) in
          (
            ap (λ (k : Configuration). is_root_found k.security.users) c ∙ s,
            (
              c,
              sym (ap (λ (p : Configuration × Users). p.1) q)
                  ∙ ap (λ (k : Configuration). add_users k.security.users store) (sym c),
            ),
          )
      | inr s ↦ absurd (
          none-ne-some (config, users)
            (sym (
                if_false (is_root_found (list_over d.security.users o.security.users))
                  (some (merged d o, add_users (list_over d.security.users o.security.users) store))
                  none s)
              ∙ e))
    ]

-- If the configurations are merged, then a client that gives no name and no password is admitted
-- as long as authentication is off, whatever the accounts before; and when it is on, the name and
-- the password of an account of the merged configuration are admitted, with that account's role, if
-- neither is empty and no later account has the same name.
pub Admits-merge_configs :
    (d o config : Configuration) (store users : Users) (before after : List Account) (u : Account)
    → merge_configs d o store ≡ some (config, users)
    → config.security.users ≡ before ++ u ∷ after
    → All (Unnamed u.username) after
    → u.username ≢ []
    → u.password ≢ []
    → ((user : User) × Admits users false [] [] user)
      × Admits users true u.username u.password (user_of u)
Admits-merge_configs d o config store users before after u e parts last name password =
    let (found, (is, added)) = merge_configs-added d o config store users e in
    let (w, at) = root_added config.security.users store found in
    (
      (w, without_password (ap (λ (us : Users). lookup root us) added ∙ at)),
      by_password name password
          (ap (λ (us : Users). lookup u.username us)
              (added ∙ ap (λ (t : List Account). add_users t store) parts)
            ∙ last_added before after u store last)
          refl,
    )

-- The settings that an override cannot change, or always changes: the shards' stay as they are;
-- authentication, persistence and backups are on if they were or the override has them on; the
-- strict mode is that of the override, also when the override does not name it.
merge_configs-settings :
    (d o config : Configuration) (store users : Users)
    → merge_configs d o store ≡ some (config, users)
    → (config.shard ≡ d.shard)
      × ((config.security.enable_auth ≡ (d.security.enable_auth || o.security.enable_auth))
          × ((config.persistence.enable ≡ (d.persistence.enable || o.persistence.enable))
              × ((config.backup.enable ≡ (d.backup.enable || o.backup.enable))
                  × (config.misc.strict_mode ≡ o.misc.strict_mode))))
merge_configs-settings d o config store users e =
    let (found, (is, added)) = merge_configs-added d o config store users e in
    rw is (
      refl,
      (
        or_if d.security.enable_auth o.security.enable_auth,
        (
          or_if d.persistence.enable o.persistence.enable,
          (or_if d.backup.enable o.backup.enable, refl),
        ),
      ),
    )
