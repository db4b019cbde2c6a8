-- ===== src/Server/Sessions/History.antt =====
-- The session table of internal/auth/session.go over logins and disconnects, which each take its
-- lock once: who has a session.
use fleare.Prelude.{
  ◌≡◌, ◌≢◌, refl, sym, ◌∙◌, ap, ◌↔◌, inl, inr, Bool, true, false, Bool-cases, Option, none, some,
  Option-cases, if◌then◌else◌, List, [], ◌∷◌, arith,
}
use fleare.Prelude.Bytes.{Bytes, same, same_iff, same_refl, same→eq}
use fleare.Prelude.Dict.{lookup, lookup-insert, lookup-without, lookup-nil}
use fleare.Server.Sessions.{
  User, Users, Answer, active, Clock, Session, Sessions, activate, expire_by_id, get_by_id,
  request_auth, on_disconnect,
}
use fleare.Server.Sessions.Granted.{Admits, request_auth-Admits, request_auth-cases}

pub data Event : Type 0 where
  login : Clock → Bytes → Bytes → Bytes → Event
  leave : Bytes → Event

module _ (enable_auth : Bool) (users : Users) where
  -- The table after the events, the latest of which stands first.
  unfoldable pub sessions_after : List Event → Sessions
  sessions_after [] = []
  sessions_after (login clock username password id ∷ events) =
      (request_auth enable_auth users clock username password id (sessions_after events)).1
  sessions_after (leave id ∷ events) = on_disconnect id (sessions_after events)

  abbrev pub opened : Clock → User → Bytes → Session
  opened clock user id = record {
    session_id = id;
    user = user;
    status = active;
    created_at = clock.activated;
    last_accessed_at = clock.activated_accessed;
  }

  -- The client's last login that was let in is where its session comes from, and it has not left
  -- since then.
  pub data LoggedIn (id : Bytes) : List Event → Session → Type 0 where
    let_in :
        {clock : Clock} {username password : Bytes} {user : User} {events : List Event}
        → Admits users enable_auth username password user
        → LoggedIn id (login clock username password id ∷ events) (opened clock user id)
    turned_away :
        {clock : Clock} {username password other : Bytes} {events : List Event} {session : Session}
        → ((user : User) → ¬ Admits users enable_auth username password user)
        → LoggedIn id events session
        → LoggedIn id (login clock username password other ∷ events) session
    other_login :
        {clock : Clock} {username password other : Bytes} {events : List Event} {session : Session}
        → id ≢ other
        → LoggedIn id events session
        → LoggedIn id (login clock username password other ∷ events) session
    other_left :
        {other : Bytes} {events : List Event} {session : Session}
        → id ≢ other
        → LoggedIn id events session
        → LoggedIn id (leave other ∷ events) session

pub expire_by_id-lookup :
    (id j : Bytes) (sessions : Sessions)
    → lookup j (expire_by_id id sessions) ≡ (if same id j then none else lookup j sessions)
unfolding expire_by_id
expire_by_id-lookup id j sessions = elim (Option-cases (lookup id sessions)) [
  | inl e ↦ rw e (elim (Bool-cases (same id j)) [
    | inl s ↦ rw (s, ← same→eq id j s, e) refl
    | inr s ↦ rw s refl
  ])
  | inr (session, e) ↦ rw (e, lookup-without id j sessions) refl
]

-- What a conditional on two ids gives.
on_same :
    (b : Bool) (kept : Option Session) {session fresh : Session}
    → b ≡ true
    → (if b then some fresh else kept) ≡ some session
    → fresh ≡ session
on_same true kept h e = cc
on_same false kept h e = cc

on_other :
    (b : Bool) (other kept : Option Session) {session : Session}
    → b ≡ false
    → (if b then other else kept) ≡ some session
    → kept ≡ some session
on_other true other kept h e = cc
on_other false other kept h e = e

none_if : (b : Bool) (kept : Option Session) → b ≡ true → (if b then none else kept) ≡ none
none_if true kept h = refl
none_if false kept h = cc

nothing : {o : Option Session} {session : Session} → o ≡ none → ¬ (o ≡ some session)
nothing h e = cc

differ : (i j : Bytes) → same i j ≡ false → j ≢ i
differ i j h e = absurd (ground (arith, same_iff i j, sym e, h))

unlike : (i j : Bytes) → j ≢ i → same i j ≡ false
unlike i j n = elim (Bool-cases (same i j)) [ inl s ↦ absurd (n (sym (same→eq i j s))) | inr s ↦ s ]

module _ (enable_auth : Bool) (users : Users) where
  after_login :
      (clock : Clock) (username password other id : Bytes) (events : List Event) (user : User)
      → Admits users enable_auth username password user
      → lookup id (sessions_after enable_auth users (login clock username password other ∷ events))
        ≡ (if same other id
            then some (opened enable_auth users clock user other)
            else lookup id (sessions_after enable_auth users events))
  unfolding sessions_after activate
  after_login clock username password other id events user a =
      ap (λ (r : Answer × Sessions). lookup id (r.1))
        (request_auth-Admits users clock other (sessions_after enable_auth users events) enable_auth
          username password user a)
      ∙ lookup-insert other id (opened enable_auth users clock user other)
          (sessions_after enable_auth users events)

  after_denied :
      (clock : Clock) (username password other id : Bytes) (events : List Event)
      → ((user : User) → ¬ Admits users enable_auth username password user)
      → lookup id (sessions_after enable_auth users (login clock username password other ∷ events))
        ≡ lookup id (sessions_after enable_auth users events)
  unfolding sessions_after
  after_denied clock username password other id events n =
      elim (request_auth-cases users clock other (sessions_after enable_auth users events)
        enable_auth username password) [
          | inl (user, (a, e)) ↦ absurd (n user a)
          | inr (m, (reason, e)) ↦ ap (λ (r : Answer × Sessions). lookup id (r.1)) e
        ]

  after_leave :
      (other id : Bytes) (events : List Event)
      → lookup id (sessions_after enable_auth users (leave other ∷ events))
        ≡ (if same other id then none else lookup id (sessions_after enable_auth users events))
  unfolding sessions_after
  after_leave other id events =
      expire_by_id-lookup other id (sessions_after enable_auth users events)

  -- The session of a login that was let in.
  login_LoggedIn :
      (id : Bytes) (clock : Clock) (username password other : Bytes) (user : User)
      (events : List Event) (session : Session)
      → Admits users enable_auth username password user
      → (lookup id (sessions_after enable_auth users events) ≡ some session
          → LoggedIn enable_auth users id events session)
      → (if same other id
          then some (opened enable_auth users clock user other)
          else lookup id (sessions_after enable_auth users events))
        ≡ some session
      → LoggedIn enable_auth users id (login clock username password other ∷ events) session
  login_LoggedIn id clock username password other user events session a before e =
      elim (Bool-cases (same other id)) [
        | inl s ↦ rw (← on_same _ _ s e, same→eq other id s) (let_in a)
        | inr s ↦ other_login (differ other id s) (before (on_other _ _ _ s e))
      ]

  session-LoggedIn :
      (id : Bytes) (events : List Event) (session : Session)
      → lookup id (sessions_after enable_auth users events) ≡ some session
      → LoggedIn enable_auth users id events session
  unfolding sessions_after
  session-LoggedIn id [] session e = absurd (nothing (lookup-nil id) e)
  session-LoggedIn id (login clock username password other ∷ events) session e =
      elim (request_auth-cases users clock other (sessions_after enable_auth users events)
        enable_auth username password) [
          | inl (user, (a, _)) ↦
              login_LoggedIn id clock username password other user events session a
                (session-LoggedIn id events session)
                (sym (after_login clock username password other id events user a) ∙ e)
          | inr (n, _) ↦ turned_away n (
              session-LoggedIn id events session
                (sym (after_denied clock username password other id events n) ∙ e))
        ]
  session-LoggedIn id (leave other ∷ events) session e = elim (Bool-cases (same other id)) [
    | inl s ↦ absurd (nothing (after_leave other id events ∙ none_if _ _ s) e)
    | inr s ↦ other_left (differ other id s) (
        session-LoggedIn id events session
          (on_other _ _ _ s (sym (after_leave other id events) ∙ e)))
  ]

  LoggedIn-session :
      (id : Bytes) (events : List Event) (session : Session)
      → LoggedIn enable_auth users id events session
      → lookup id (sessions_after enable_auth users events) ≡ some session
  LoggedIn-session id [] session l = elim l [ ]
  LoggedIn-session id (login clock username password other ∷ events) session (let_in {user} a) =
      after_login clock username password id id events user a ∙ rw (same_refl id) refl
  LoggedIn-session id (login clock username password other ∷ events) session (turned_away n l) =
      after_denied clock username password other id events n ∙ LoggedIn-session id events session l
  LoggedIn-session id (login clock username password other ∷ events) session (other_login n l) =
      elim (request_auth-cases users clock other (sessions_after enable_auth users events)
        enable_auth username password) [
          | inl (user, (a, _)) ↦
              after_login clock username password other id events user a
              ∙ rw (unlike other id n) (LoggedIn-session id events session l)
          | inr (m, _) ↦
              after_denied clock username password other id events m
              ∙ LoggedIn-session id events session l
        ]
  LoggedIn-session id (leave other ∷ events) session (other_left n l) =
      after_leave other id events ∙ rw (unlike other id n) (LoggedIn-session id events session l)

  -- A client has a session in the table, with the user and the times that the session names, if and
  -- only if its last login that was let in opened that session and it has not left since.
  pub get_by_id-LoggedIn :
      (id : Bytes) (events : List Event) (session : Session)
      → (get_by_id id (sessions_after enable_auth users events) ≡ some session)
        ↔ LoggedIn enable_auth users id events session
  get_by_id-LoggedIn id events session =
      (session-LoggedIn id events session, LoggedIn-session id events session)
