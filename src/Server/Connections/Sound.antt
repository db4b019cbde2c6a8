-- ===== src/Server/Connections/Sound.antt =====
-- Sessions and threads of server/eventloop/main.go that agree, and the steps that change no thread.
use mathlib.Core.Option.{some-injective}
use fleare.Prelude.{
  ℕ, ◌+◌, ◌<◌, List, [], ◌∷◌, if_true, arith, ◌≤◌, ◌≡◌, sym, ◌∙◌, ◌⊎◌, inl, inr, Bool, true, false,
  Bool-cases, Option, none, some, length, if_false,
}
use fleare.Prelude.Bytes.{Bytes, same, same→eq}
use fleare.Prelude.Dict.{
  lookup, insert, without, lookup-insert_cases, lookup-insert_other, lookup-insert_here,
  lookup-without_cases, lookup-without_other,
}
use fleare.Server.Sessions.{
  User, Users, Clock, Session, Sessions, new_session, activate, granted, on_disconnect,
}
use fleare.Server.Sessions.Granted.{request_auth-cases}
use fleare.Server.Sessions.History.{expire_by_id-lookup}
use fleare.Server.Connections.{
  IoThread, max_io_threads, Phase, accepted, serving, closing, unloaded, Server, on_answer, accept,
  give_up, finish,
}

abbrev pub is_unloaded : Phase → ℕ
is_unloaded (unloaded t) = 1
is_unloaded _ = 0

-- How many threads were taken from the table and are not yet counted off.
unfoldable pub unloaded_count : List (Bytes × Phase) → ℕ
unloaded_count [] = 0
unloaded_count ((id, p) ∷ phases) = is_unloaded p + unloaded_count phases

-- Every connection that is let in and not cleared away has a session, and the registered threads
-- are those that are served, of which there are, with those that are being stopped, at most as many
-- as are counted.
pub record Sound (s : Server) : Type 0 where
  pub has_session :
      (id : Bytes) (p : Phase)
      → lookup id s.phases ≡ some p
      → (session : Session) × (lookup id s.sessions ≡ some session)
  pub serves :
      (id : Bytes) (t : IoThread)
      → lookup id s.threads.connected_clients ≡ some t
      → lookup id s.phases ≡ some serving
  pub served :
      (id : Bytes)
      → lookup id s.phases ≡ some serving
      → (t : IoThread) × (lookup id s.threads.connected_clients ≡ some t)
  pub counted :
      length s.threads.connected_clients + unloaded_count s.phases ≤ s.threads.num_io_threads
  pub bounded : s.threads.num_io_threads ≤ max_io_threads

-- Writing or clearing away a connection.
pub unloaded-without :
    (id : Bytes) (l : List (Bytes × Phase)) → unloaded_count (without id l) ≤ unloaded_count l
unfolding unloaded_count without
unloaded-without id [] = omega arith
unloaded-without id ((j, p) ∷ l) = ground (arith, unloaded-without id l)

pub unloaded-insert :
    (id : Bytes) (p : Phase) (l : List (Bytes × Phase))
    → unloaded_count (insert id p l) ≤ is_unloaded p + unloaded_count l
unfolding unloaded_count insert
unloaded-insert id p l = omega (arith, unloaded-without id l)

-- The connection whose thread was taken is among them.
pub unloaded-without_found :
    (id : Bytes) (t : Option IoThread) (l : List (Bytes × Phase))
    → lookup id l ≡ some (unloaded t)
    → unloaded_count (without id l) < unloaded_count l
unfolding unloaded_count without lookup
unloaded-without_found id t [] h = cc
unloaded-without_found id t ((j, p) ∷ l) h = elim (Bool-cases (same j id)) [
  | inl q ↦
      let one : p ≡ unloaded t =
        some-injective p (unloaded t) (sym (if_true (same j id) (some p) (lookup id l) q) ∙ h) in
      rw (q, one) (omega (arith, unloaded-without id l))
  | inr q ↦ rw q (
      omega (
        arith,
        unloaded-without_found id t l (sym (if_false (same j id) (some p) (lookup id l) q) ∙ h),
      ))
]

pub closing≢serving : ¬ (closing ≡ serving)
closing≢serving e = cc

-- A phase that is not `serving`, written for a connection that is not served.
module _ (id : Bytes) (p : Phase) (s : Server) (h : Sound s) (not_serving : ¬ (p ≡ serving))
    (idle : ¬ (lookup id s.phases ≡ some serving)) where
  pub serves-insert :
      (j : Bytes) (t : IoThread)
      → lookup j s.threads.connected_clients ≡ some t
      → lookup j (insert id p s.phases) ≡ some serving
  serves-insert j t e = elim (Bool-cases (same id j)) [
    | inl q ↦ absurd (idle (rw (same→eq id j q) (h.serves j t e)))
    | inr q ↦ lookup-insert_other id j p s.phases q ∙ h.serves j t e
  ]

  pub served-insert :
      (j : Bytes)
      → lookup j (insert id p s.phases) ≡ some serving
      → (t : IoThread) × (lookup j s.threads.connected_clients ≡ some t)
  served-insert j e = elim (lookup-insert_cases id j p serving s.phases e) [
    | inl (q, w) ↦ absurd (not_serving w)
    | inr (q, w) ↦ h.served j w
  ]

pub idle_if :
    (id : Bytes) (s : Server) (o : Option Phase)
    → lookup id s.phases ≡ o
    → ¬ (o ≡ some serving)
    → ¬ (lookup id s.phases ≡ some serving)
idle_if id s o e n f = n (sym e ∙ f)

pub session-insert :
    (id j : Bytes) (new : Session) (sessions : Sessions)
    → (same id j ≡ true) ⊎ ((session : Session) × (lookup j sessions ≡ some session))
    → (session : Session) × (lookup j (insert id new sessions) ≡ some session)
session-insert id j new sessions (inl q) =
    (new, rw (← same→eq id j q) (lookup-insert_here id new sessions))
session-insert id j new sessions (inr (session, e)) = elim (Bool-cases (same id j)) [
  | inl q ↦ (new, rw (← same→eq id j q) (lookup-insert_here id new sessions))
  | inr q ↦ (session, lookup-insert_other id j new sessions q ∙ e)
]

pub on_answer-Sound :
    (clock : Clock) (user : User) (id : Bytes) (s : Server)
    → Sound s
    → lookup id s.phases ≡ none
    → Sound (on_answer id s (granted, activate clock (new_session clock user id) s.sessions))
unfolding activate
on_answer-Sound clock user id s h n = record {
  has_session = λ j p e. session-insert id j _ s.sessions (after_accept j p e);
  serves = serves-insert id accepted s h (λ e. cc) (idle_if id s none n (λ e. cc));
  served = served-insert id accepted s h (λ e. cc) (idle_if id s none n (λ e. cc));
  counted = omega (arith, h.counted, unloaded-insert id accepted s.phases);
  bounded = h.bounded;
}
  where
    after_accept :
        (j : Bytes) (p : Phase)
        → lookup j (insert id accepted s.phases) ≡ some p
        → (same id j ≡ true) ⊎ ((session : Session) × (lookup j s.sessions ≡ some session))
    after_accept j p e = elim (lookup-insert_cases id j accepted p s.phases e) [
      | inl (q, _) ↦ inl q
      | inr (_, w) ↦ inr (h.has_session j p w)
    ]

pub accept-Sound :
    (enable_auth : Bool) (users : Users) (clock : Clock) (username password id : Bytes) (s : Server)
    → Sound s
    → lookup id s.phases ≡ none
    → Sound (accept enable_auth users clock username password id s)
unfolding accept
accept-Sound enable_auth users clock username password id s h n =
    elim (request_auth-cases users clock id s.sessions enable_auth username password) [
      | inl (user, (_, e)) ↦ rw e (on_answer-Sound clock user id s h n)
      | inr (_, (reason, e)) ↦ rw e (record {
        has_session = h.has_session;
        serves = h.serves;
        served = h.served;
        counted = h.counted;
        bounded = h.bounded;
      })
    ]

-- Clearing away a connection that is not served, and that no longer needs its session.
module _ (id : Bytes) (s : Server) (h : Sound s)
    (idle : ¬ (lookup id s.phases ≡ some serving)) where
  pub serves-without :
      (j : Bytes) (t : IoThread)
      → lookup j s.threads.connected_clients ≡ some t
      → lookup j (without id s.phases) ≡ some serving
  serves-without j t e = elim (Bool-cases (same id j)) [
    | inl q ↦ absurd (idle (rw (same→eq id j q) (h.serves j t e)))
    | inr q ↦ lookup-without_other id j s.phases q ∙ h.serves j t e
  ]

  pub served-without :
      (j : Bytes)
      → lookup j (without id s.phases) ≡ some serving
      → (t : IoThread) × (lookup j s.threads.connected_clients ≡ some t)
  served-without j e = h.served j ((lookup-without_cases id j serving s.phases e).1)

  pub give_up-Sound : Sound (give_up id s)
  unfolding give_up
  give_up-Sound = record {
    has_session = λ j p e. h.has_session j p ((lookup-without_cases id j p s.phases e).1);
    serves = serves-without;
    served = served-without;
    counted = omega (arith, h.counted, unloaded-without id s.phases);
    bounded = h.bounded;
  }

  pub finish-Sound : Sound (finish id s)
  unfolding finish
  finish-Sound = record {
    has_session = λ j p e. session-kept j p (lookup-without_cases id j p s.phases e);
    serves = serves-without;
    served = served-without;
    counted = omega (arith, h.counted, unloaded-without id s.phases);
    bounded = h.bounded;
  }
    where
      session-kept :
          (j : Bytes) (p : Phase)
          → (same id j ≡ false) × (lookup j s.phases ≡ some p)
          → (session : Session) × (lookup j (on_disconnect id s.sessions) ≡ some session)
      session-kept j p (q, w) =
          let (session, e) = h.has_session j p w in
          (
            session,
            expire_by_id-lookup id j s.sessions
                ∙ if_false (same id j) none (lookup j s.sessions) q
                ∙ e,
          )
