-- ===== src/Server/Connections/Threads.antt =====
-- The steps of server/eventloop/main.go that register and unregister a thread.
use fleare.Prelude.{
  ℕ, ◌+◌, ◌%◌, ◌^◌, ◌≤◌, ◌≡◌, ◌∙◌, ◌⊎◌, inl, inr, Bool, true, false, Bool-cases, Option, none, some,
  Option-cases, leb, arith,
}
use fleare.Prelude.Bytes.{Bytes, same, same→eq}
use fleare.Prelude.Dict.{
  lookup, insert, without, lookup-insert_cases, lookup-insert_other, lookup-insert_here,
  lookup-without_cases, lookup-without_other, length-without, length-without_found,
}
use fleare.Server.Sessions.{Session}
use fleare.Server.Connections.{
  IoThread, max_io_threads, register, load_and_delete, stop_thread, Phase, accepted, serving,
  closing, unloaded, Server, on_register, start, on_unload, unload, stop,
}
use fleare.Server.Connections.Sound.{
  Sound, unloaded_count, unloaded-without, unloaded-insert, unloaded-without_found, closing≢serving,
  idle_if, serves-insert, served-insert, serves-without, served-without,
}

pub register-Sound :
    (id : Bytes) (fd : ℕ) (s : Server)
    → Sound s
    → lookup id s.phases ≡ some accepted
    → leb max_io_threads s.threads.num_io_threads ≡ false
    → Sound (on_register id s (register (record { client_id = id; fd = fd }) s.threads))
unfolding register insert
register-Sound id fd s h a room = rw room (record {
  has_session = λ j p e. has j p (lookup-insert_cases id j serving p s.phases e);
  serves = λ j t e. serves_now j t (lookup-insert_cases id j _ t s.threads.connected_clients e);
  served = λ j e. served_now j (lookup-insert_cases id j serving serving s.phases e);
  counted = omega (
    arith,
    h.counted,
    h.bounded,
    length-without id s.threads.connected_clients,
    unloaded-insert id serving s.phases,
  );
  bounded = few;
})
  where
    has :
        (j : Bytes) (p : Phase)
        → ((same id j ≡ true) × (serving ≡ p))
          ⊎ ((same id j ≡ false) × (lookup j s.phases ≡ some p))
        → (session : Session) × (lookup j s.sessions ≡ some session)
    has j p (inl (q, _)) = h.has_session j accepted (rw (← same→eq id j q) a)
    has j p (inr (_, w)) = h.has_session j p w

    serves_now :
        (j : Bytes) (t : IoThread)
        → ((same id j ≡ true) × (record { client_id = id; fd = fd } ≡ t))
          ⊎ ((same id j ≡ false) × (lookup j s.threads.connected_clients ≡ some t))
        → lookup j (insert id serving s.phases) ≡ some serving
    serves_now j t (inl (q, _)) = rw (← same→eq id j q) (lookup-insert_here id serving s.phases)
    serves_now j t (inr (q, w)) = lookup-insert_other id j serving s.phases q ∙ h.serves j t w

    served_now :
        (j : Bytes)
        → ((same id j ≡ true) × (serving ≡ serving))
          ⊎ ((same id j ≡ false) × (lookup j s.phases ≡ some serving))
        → (t : IoThread) × (lookup j
              (insert id (record { client_id = id; fd = fd }) s.threads.connected_clients)
            ≡ some t)
    served_now j (inl (q, _)) = (
      record { client_id = id; fd = fd },
      rw (← same→eq id j q)
          (lookup-insert_here id (record { client_id = id; fd = fd }) s.threads.connected_clients),
    )
    served_now j (inr (q, w)) =
        let (t, e) = h.served j w in
        (
          t,
          lookup-insert_other id j (record { client_id = id; fd = fd }) s.threads.connected_clients
                q
              ∙ e,
        )

    few : (s.threads.num_io_threads + 1) % 2 ^ 32 ≤ max_io_threads
    few = ground (arith, room)

pub refused-Sound :
    (id : Bytes) (fd : ℕ) (s : Server)
    → Sound s
    → ¬ (lookup id s.phases ≡ some serving)
    → leb max_io_threads s.threads.num_io_threads ≡ true
    → Sound (on_register id s (register (record { client_id = id; fd = fd }) s.threads))
unfolding register
refused-Sound id fd s h idle full = rw full (record {
  has_session = λ j p e. h.has_session j p ((lookup-without_cases id j p s.phases e).1);
  serves = serves-without id s h idle;
  served = served-without id s h idle;
  counted = omega (arith, h.counted, unloaded-without id s.phases);
  bounded = h.bounded;
})

pub start-Sound :
    (id : Bytes) (fd : ℕ) (s : Server)
    → Sound s
    → lookup id s.phases ≡ some accepted
    → Sound (start id fd s)
unfolding start
start-Sound id fd s h a = elim (Option-cases (lookup id s.threads.connected_clients)) [
  | inl e ↦ rw e (elim (Bool-cases (leb max_io_threads s.threads.num_io_threads)) [
    | inl full ↦ refused-Sound id fd s h idle full
    | inr room ↦ register-Sound id fd s h a room
  ])
  | inr (t, e) ↦ absurd (not_served t e)
]
  where
    idle : ¬ (lookup id s.phases ≡ some serving)
    idle = idle_if id s (some accepted) a (λ e. cc)

    not_served : (t : IoThread) → ¬ (lookup id s.threads.connected_clients ≡ some t)
    not_served t e = idle (h.serves id t e)

-- The thread of a connection is taken from the table.
pub unload-found :
    (id : Bytes) (t : IoThread) (s : Server)
    → Sound s
    → lookup id s.phases ≡ some serving
    → lookup id s.threads.connected_clients ≡ some t
    → Sound (
        on_unload id s
          (some t, record s.threads { connected_clients = without id s.threads.connected_clients }))
unload-found id t s h a e = record {
  has_session = λ j p e. has j p (lookup-insert_cases id j (unloaded (some t)) p s.phases e);
  serves = λ j t' e. serves_still j t' (lookup-without_cases id j t' s.threads.connected_clients e);
  served = λ j e. served_still j (lookup-insert_cases id j (unloaded (some t)) serving s.phases e);
  counted = omega (
    arith,
    h.counted,
    length-without_found id t s.threads.connected_clients e,
    unloaded-insert id (unloaded (some t)) s.phases,
  );
  bounded = h.bounded;
}
  where
    has :
        (j : Bytes) (p : Phase)
        → ((same id j ≡ true) × (unloaded (some t) ≡ p))
          ⊎ ((same id j ≡ false) × (lookup j s.phases ≡ some p))
        → (session : Session) × (lookup j s.sessions ≡ some session)
    has j p (inl (q, _)) = h.has_session j serving (rw (← same→eq id j q) a)
    has j p (inr (_, w)) = h.has_session j p w

    serves_still :
        (j : Bytes) (t' : IoThread)
        → (same id j ≡ false) × (lookup j s.threads.connected_clients ≡ some t')
        → lookup j (insert id (unloaded (some t)) s.phases) ≡ some serving
    serves_still j t' (q, w) =
        lookup-insert_other id j (unloaded (some t)) s.phases q ∙ h.serves j t' w

    served_still :
        (j : Bytes)
        → ((same id j ≡ true) × (unloaded (some t) ≡ serving))
          ⊎ ((same id j ≡ false) × (lookup j s.phases ≡ some serving))
        → (t' : IoThread) × (lookup j (without id s.threads.connected_clients) ≡ some t')
    served_still j (inl (_, e)) = absurd (ground arith)
    served_still j (inr (q, w)) =
        let (t', e) = h.served j w in
        (t', lookup-without_other id j s.threads.connected_clients q ∙ e)

pub unload-Sound :
    (id : Bytes) (s : Server) → Sound s → lookup id s.phases ≡ some serving → Sound (unload id s)
unfolding unload load_and_delete
unload-Sound id s h a = let (t, e) = h.served id a in rw e (unload-found id t s h a e)

-- A thread that was taken from the table is counted off, or not.
stopped :
    (id : Bytes) (n : ℕ) (t : Option IoThread) (s : Server)
    → Sound s
    → lookup id s.phases ≡ some (unloaded t)
    → s.threads.num_io_threads ≤ n + 1
    → n ≤ max_io_threads
    → Sound (record {
      threads = record s.threads { num_io_threads = n };
      sessions = s.sessions;
      phases = insert id closing s.phases;
    })
unfolding unloaded_count insert
stopped id n t s h a c b = record {
  has_session = λ j p e. has j p (lookup-insert_cases id j closing p s.phases e);
  serves = serves-insert id closing s h closing≢serving idle;
  served = served-insert id closing s h closing≢serving idle;
  counted = omega (arith, h.counted, unloaded-without_found id t s.phases a);
  bounded = b;
}
  where
    idle : ¬ (lookup id s.phases ≡ some serving)
    idle = idle_if id s (some (unloaded t)) a (λ e. cc)

    has :
        (j : Bytes) (p : Phase)
        → ((same id j ≡ true) × (closing ≡ p))
          ⊎ ((same id j ≡ false) × (lookup j s.phases ≡ some p))
        → (session : Session) × (lookup j s.sessions ≡ some session)
    has j p (inl (q, _)) = h.has_session j (unloaded t) (rw (← same→eq id j q) a)
    has j p (inr (_, w)) = h.has_session j p w

pub stop-Sound :
    (stops : Bool) (id : Bytes) (t : Option IoThread) (s : Server)
    → Sound s
    → lookup id s.phases ≡ some (unloaded t)
    → Sound (stop stops id t s)
unfolding stop stop_thread
stop-Sound stops id none s h a =
    stopped id s.threads.num_io_threads none s h a (omega arith) h.bounded
stop-Sound true id (some t) s h a =
    let some_left = unloaded-without_found id (some t) s.phases a in
    stopped id ((s.threads.num_io_threads + 4294967295) % 2 ^ 32) (some t) s h a
      (omega (arith, some_left, h.counted, h.bounded))
      (omega (arith, some_left, h.counted, h.bounded))
stop-Sound false id (some t) s h a =
    stopped id s.threads.num_io_threads (some t) s h a (omega arith) h.bounded
