-- ===== src/Server/Sessions/Granted.antt =====
-- When RequestAuth of server/service_manager.go lets a client in.
use fleare.Prelude.{
  ℕ, ◌≡◌, ◌≢◌, refl, sym, ◌∙◌, ◌⊎◌, inl, inr, Bool, true, false, some, Option-cases, Bool-cases, [],
  ◌∷◌,
}
use fleare.Prelude.Bytes.{Bytes, same, same_refl, same→eq}
use fleare.Prelude.Dict.{lookup}
use fleare.Server.Sessions.{
  User, Users, Refusal, validate, validate_default, Clock, Sessions, new_session, activate, Answer,
  granted, denied, incorrect_credentials, missing_credentials, unexpected_credentials,
  user_not_found, root, request_auth,
}

-- Who is let in, as which user: with authentication the user of the name, if name and password are
-- not empty and the password is the user's; without it root, if neither is given.
pub data Admits (users : Users) : Bool → Bytes → Bytes → User → Type 0 where
  by_password :
      {username password : Bytes} {user : User}
      → username ≢ []
      → password ≢ []
      → lookup username users ≡ some user
      → user.password ≡ password
      → Admits users true username password user
  without_password : {user : User} → lookup root users ≡ some user → Admits users false [] [] user

not_both :
    {s t : Sessions} {reason : Refusal}
    → ¬ (◌≡◌ {A = Answer × Sessions} (granted, s) (denied reason, t))
not_both e = cc

module _ (users : Users) (clock : Clock) (client_id : Bytes) (sessions : Sessions) where
  pub request_auth-Admits :
      (enable_auth : Bool) (username password : Bytes) (user : User)
      → Admits users enable_auth username password user
      → request_auth enable_auth users clock username password client_id sessions
        ≡ (granted, activate clock (new_session clock user client_id) sessions)
  unfolding request_auth validate validate_default same
  request_auth-Admits true [] password user (by_password n p e q) = absurd (n refl)
  request_auth-Admits true (x ∷ xs) [] user (by_password n p e q) = absurd (p refl)
  request_auth-Admits true (x ∷ xs) (y ∷ ys) user (by_password n p e q) =
      rw (e, q, same_refl (y ∷ ys)) refl
  request_auth-Admits false username password user (without_password e) = rw e refl

  -- A request that is denied changes no session.
  Denied : Bool → Bytes → Bytes → Type 0
  Denied enable_auth username password =
      (reason : Refusal) × (request_auth enable_auth users clock username password client_id
          sessions
        ≡ (denied reason, sessions))

  user-Admits :
      (x : ℕ) (xs : Bytes) (y : ℕ) (ys : Bytes) (user : User)
      → lookup (x ∷ xs) users ≡ some user
      → ((given : User) × Admits users true (x ∷ xs) (y ∷ ys) given) ⊎ Denied true (x ∷ xs) (y ∷ ys)
  unfolding Denied request_auth validate same
  user-Admits x xs y ys user e = elim (Bool-cases (same user.password (y ∷ ys))) [
    | inl s ↦ inl (user, by_password (cc) (cc) e (same→eq user.password (y ∷ ys) s))
    | inr s ↦ inr (incorrect_credentials, rw (e, s) refl)
  ]

  Admits-or-Denied :
      (enable_auth : Bool) (username password : Bytes)
      → ((user : User) × Admits users enable_auth username password user)
        ⊎ Denied enable_auth username password
  unfolding Denied request_auth validate validate_default same
  Admits-or-Denied true [] password = inr (missing_credentials, refl)
  Admits-or-Denied true (x ∷ xs) [] = inr (missing_credentials, refl)
  Admits-or-Denied true (x ∷ xs) (y ∷ ys) = elim (Option-cases (lookup (x ∷ xs) users)) [
    | inl e ↦ inr (incorrect_credentials, rw e refl)
    | inr (user, e) ↦ user-Admits x xs y ys user e
  ]
  Admits-or-Denied false (x ∷ xs) password = inr (unexpected_credentials, refl)
  Admits-or-Denied false [] (y ∷ ys) = inr (unexpected_credentials, refl)
  Admits-or-Denied false [] [] = elim (Option-cases (lookup root users)) [
    | inl e ↦ inr (user_not_found, rw e refl)
    | inr (user, e) ↦ inl (user, without_password e)
  ]

  Denied-not-Admits :
      (enable_auth : Bool) (username password : Bytes)
      → Denied enable_auth username password
      → (user : User) → ¬ Admits users enable_auth username password user
  unfolding Denied
  Denied-not-Admits enable_auth username password (reason, d) user a =
      not_both (sym (request_auth-Admits enable_auth username password user a) ∙ d)

  pub request_auth-cases :
      (enable_auth : Bool) (username password : Bytes)
      → ((user : User) × (Admits users enable_auth username password user
            × (request_auth enable_auth users clock username password client_id sessions
                ≡ (granted, activate clock (new_session clock user client_id) sessions))))
        ⊎ (((user : User) → ¬ Admits users enable_auth username password user)
            × ((reason : Refusal) × (request_auth enable_auth users clock username password
                    client_id sessions
                  ≡ (denied reason, sessions))))
  unfolding Denied
  request_auth-cases enable_auth username password =
      elim (Admits-or-Denied enable_auth username password) [
        | inl (user, a) ↦ inl (user, (a, request_auth-Admits enable_auth username password user a))
        | inr d ↦ inr (Denied-not-Admits enable_auth username password d, d)
      ]
