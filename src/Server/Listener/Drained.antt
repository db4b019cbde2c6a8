-- ===== src/Server/Listener/Drained.antt =====
-- The loop of server/eventloop/main.go over kqueue_darwin.go: the listening socket is registered
-- without EV_CLEAR, and is reported as long as connections wait in its queue.
use fleare.Prelude.{
  ℕ, zero, suc, ◌+◌, ◌-◌, ◌≤◌, ◌<◌, ◌≡◌, refl, ◌∙◌, Bool, true, false, ◌&&◌, ◌||◌, not, Bool-cases,
  inl, inr, ◌⊎◌, Option, none, some, List, [], ◌∷◌, ◌==◌, if_false, arith,
}
use fleare.Prelude.Int.{ℤ}
use fleare.Server.Multiplexer.{
  Errno, eagain, eintr, ebadf, enoent, emfile, enfile, other_errno, LoopError, deliver,
  unless_failed,
}
use fleare.Server.Multiplexer.Kqueue.{
  Kevent, KqueueKernel, Kqueue, evfilt_read, same_ℤ, register, ready_of, ready_list, poll, polled,
  kqueue_loop,
}
use fleare.Server.Listener.{
  Accepted, connected, refused, AcceptError, Later, Effect, admit, on_accept, client_effects,
  event_handler, accept_new_connection,
}
use fleare.Server.Listener.Level.{hears, LevelTriggered, Undisturbed, accept_on}
use fleare.Server.Listener.Settled.{count}
use fleare.Server.Listener.Starved.{is_accepted, count-append}

not_first :
    (trouble test rest : Bool)
    → (trouble ≡ true) ⊎ (test ≡ false)
    → ((not trouble && test) || rest) ≡ true
    → rest ≡ true
not_first true test rest e h = h
not_first false true rest e h = ground arith
not_first false false rest e h = h

module _ (kernel : KqueueKernel) (accept : kernel.State → Accepted × kernel.State) (server_fd : ℕ)
    (level : LevelTriggered kernel accept server_fd) where
  open kernel use {State}
  open level use {pending, reported, wait_keeps, change_keeps, accepts}

  module _ (later : ℕ → Kqueue kernel → Later) (max_events : ℕ)
      (calm : Undisturbed kernel accept server_fd level max_events) where
    takes_one :
        (k : State)
        → 0 < pending k
        → ((fd : ℕ) × ((accept k).0 ≡ connected fd)) × (pending (accept k).1 + 1 ≡ pending k)
    takes_one k h = elim (accepts k) [
      | inl taken ↦ taken
      | inr ((e, failed), _) ↦ absurd (calm.no_refusal k e h failed)
    ]

    takes_none :
        (k : State)
        → pending k ≡ 0
        → ((e : Errno) × ((accept k).0 ≡ refused e)) × (pending (accept k).1 ≡ 0)
    takes_none k h = elim (accepts k) [
      | inl (_, less) ↦ absurd (omega arith)
      | inr (failed, less) ↦ (failed, omega arith)
    ]

    abbrev on_event :
        ℕ → ℤ → ℕ → List Effect × Kqueue kernel → Option AcceptError × (List Effect × Kqueue kernel)
    on_event =
        event_handler (kqueue_loop kernel max_events) server_fd (accept_on kernel accept) later

    abbrev waiting : List Effect × Kqueue kernel → ℕ
    waiting (log, k) = pending k.kq

    -- The connections accepted and those in the queue.
    abbrev total : List Effect × Kqueue kernel → ℕ
    total (log, k) = count is_accepted log + pending k.kq

    -- From one state to a later one no connection is lost, and the queue has not grown.
    abbrev Follows : List Effect × Kqueue kernel → List Effect × Kqueue kernel → Type 0
    Follows s t = (total t ≡ total s) × (waiting t ≤ waiting s) × (t.1.closed ≡ s.1.closed)

    register_keeps :
        (fd : ℕ) (k : Kqueue kernel)
        → let k' = (register kernel fd evfilt_read k).1 in
          (pending k'.kq ≡ pending k.kq) × (k'.closed ≡ k.closed)
    unfolding register
    register_keeps fd k =
        let kept = change_keeps (record { ident = fd; filter = evfilt_read; flags = 5 }) k.kq in
        ground (arith, kept)

    client_keeps :
        (fd : ℕ) (l : Later) (k : Kqueue kernel) (r : Option LoopError × Kqueue kernel)
        → (pending r.1.kq ≡ pending k.kq) × (r.1.closed ≡ k.closed)
        → let (es, k') =
            client_effects
              (kqueue_loop kernel max_events)
              server_fd
              (accept_on kernel accept)
              later
              fd
              l
              k
              r in
          (count is_accepted es ≡ 1) × (pending k'.kq ≡ pending k.kq) × (k'.closed ≡ k.closed)
    client_keeps fd l k (some e, k') h = ground arith
    client_keeps fd l k (none, k') h = ground arith

    admit_keeps :
        (fd : ℕ) (k : Kqueue kernel)
        → let (es, k') =
            admit (kqueue_loop kernel max_events) server_fd (accept_on kernel accept) later fd k in
          (count is_accepted es ≡ 1) × (pending k'.kq ≡ pending k.kq) × (k'.closed ≡ k.closed)
    unfolding admit
    admit_keeps fd k =
        client_keeps fd (later fd k) k (register kernel fd evfilt_read k) (register_keeps fd k)

    connected-Follows :
        (log : List Effect) (k : Kqueue kernel) (fd : ℕ) (kq : State)
        → pending kq + 1 ≡ pending k.kq
        → let t =
            (on_accept
              (kqueue_loop kernel max_events)
              server_fd
              (accept_on kernel accept)
              later
              log
              (connected fd, record k { kq = kq })).1 in
          Follows (log, k) t × (waiting t ≡ pending kq)
    connected-Follows log k fd kq less =
        let k' : Kqueue kernel = record k { kq = kq } in
        let effects =
          (admit (kqueue_loop kernel max_events) server_fd (accept_on kernel accept) later fd
            k').0 in
        let (one, kept, same_closed) = admit_keeps fd k' in
        ((omega (arith, count-append is_accepted log effects), omega arith, same_closed), kept)

    handler_takes :
        (fd : ℕ) (filter : ℤ) (flags : ℕ) (log : List Effect) (k : Kqueue kernel)
        → (fd == server_fd && same_ℤ filter evfilt_read) ≡ true
        → 0 < pending k.kq
        → let (e, t) = on_event fd filter flags (log, k) in
          (e ≡ none) × Follows (log, k) t × (waiting t + 1 ≡ pending k.kq)
    unfolding event_handler
    handler_takes fd filter flags log k h some_wait =
        let ((peer, a), less) = takes_one k.kq some_wait in
        let (follows, left) = connected-Follows log k peer (accept k.kq).1 less in
        rw (h, a) (refl, follows, omega arith)

    on_accept-refused :
        (e : Errno) (log : List Effect) (k : Kqueue kernel)
        → (on_accept
            (kqueue_loop kernel max_events)
            server_fd
            (accept_on kernel accept)
            later
            log
            (refused e, k)).1
          ≡ (log, k)
    on_accept-refused eagain log k = refl
    on_accept-refused eintr log k = refl
    on_accept-refused ebadf log k = refl
    on_accept-refused enoent log k = refl
    on_accept-refused emfile log k = refl
    on_accept-refused enfile log k = refl
    on_accept-refused (other_errno n) log k = refl

    handler_finds_none :
        (fd : ℕ) (filter : ℤ) (flags : ℕ) (log : List Effect) (k : Kqueue kernel)
        → (fd == server_fd && same_ℤ filter evfilt_read) ≡ true
        → pending k.kq ≡ 0
        → Follows (log, k) (on_event fd filter flags (log, k)).1
    unfolding event_handler
    handler_finds_none fd filter flags log k h none_wait =
        let ((e, a), left) = takes_none k.kq none_wait in
        let k' : Kqueue kernel = record k { kq = (accept k.kq).1 } in
        rw (h, a, on_accept-refused e log k') (omega arith, omega arith, refl)

    handler-Follows :
        (fd : ℕ) (filter : ℤ) (flags : ℕ) (s : List Effect × Kqueue kernel)
        → Follows s (on_event fd filter flags s).1
    unfolding event_handler
    handler-Follows fd filter flags (log, k) =
        elim (Bool-cases (fd == server_fd && same_ℤ filter evfilt_read)) [
          | inl e ↦ elim (Bool-cases (pending k.kq == 0)) [
            | inl z ↦ handler_finds_none fd filter flags log k e (ground arith)
            | inr p ↦ (handler_takes fd filter flags log k e (ground arith)).1
          ]
          | inr e ↦ rw e (refl, omega arith, refl)
        ]

    Follows-trans : (s t u : List Effect × Kqueue kernel) → Follows s t → Follows t u → Follows s u
    Follows-trans (l, s) (l', t) (l'', u) (a, b, c) (a', b', c') = (a' ∙ a, omega arith, c' ∙ c)

    unless_failed-Follows :
        (s : List Effect × Kqueue kernel)
        (next : List Effect × Kqueue kernel → List Effect × Kqueue kernel)
        (r : Option AcceptError × (List Effect × Kqueue kernel))
        → ((t : List Effect × Kqueue kernel) → Follows t (next t))
        → Follows s r.1
        → Follows s (unless_failed next r)
    unless_failed-Follows s next (none, t) h f = Follows-trans s t (next t) f (h t)
    unless_failed-Follows s next (some e, t) h f = f

    deliver-Follows :
        (vs : List Kevent) (s : List Effect × Kqueue kernel)
        → Follows s (deliver on_event (ready_list vs) s)
    unfolding deliver
    deliver-Follows [] (log, k) = (refl, omega arith, refl)
    deliver-Follows (v ∷ vs) s = elim (Bool-cases (ready_of v).trouble) [
      | inl e ↦ rw e (deliver-Follows vs s)
      | inr e ↦ rw e (
          unless_failed-Follows s (deliver on_event (ready_list vs))
            (on_event v.ident v.filter v.flags s) (deliver-Follows vs)
            (handler-Follows v.ident v.filter v.flags s))
    ]

    handler_ignores :
        (fd : ℕ) (filter : ℤ) (flags : ℕ) (log : List Effect) (k : Kqueue kernel)
        → (fd == server_fd && same_ℤ filter evfilt_read) ≡ false
        → on_event fd filter flags (log, k) ≡ (none, (log, k))
    unfolding event_handler
    handler_ignores fd filter flags log k h = rw h

    after_taken :
        (p : ℕ) (vs : List Kevent) (r : Option AcceptError × (List Effect × Kqueue kernel))
        → r.0 ≡ none
        → waiting r.1 + 1 ≡ p
        → waiting (unless_failed (deliver on_event (ready_list vs)) r) + 1 ≤ p
    after_taken p vs (none, t) e less = omega (arith, (deliver-Follows vs t).1)
    after_taken p vs (some e', t) e less = absurd (ground arith)

    -- A report among the events takes a connection off the queue.
    deliver_takes :
        (vs : List Kevent) (log : List Effect) (k : Kqueue kernel)
        → hears server_fd vs ≡ true
        → 0 < pending k.kq
        → waiting (deliver on_event (ready_list vs) (log, k)) + 1 ≤ pending k.kq
    unfolding deliver
    deliver_takes [] log k h p = absurd (ground arith)
    deliver_takes (v ∷ vs) log k h p = elim (Bool-cases (ready_of v).trouble) [
      | inl e ↦ rw e (deliver_takes vs log k (not_first (ready_of v).trouble _ _ (inl e) h) p)
      | inr e ↦ rw e (elim (Bool-cases (v.ident == server_fd && same_ℤ v.filter evfilt_read)) [
        | inl r ↦
            let (fine, _, less) = handler_takes v.ident v.filter v.flags log k r p in
            after_taken (pending k.kq) vs (on_event v.ident v.filter v.flags (log, k)) fine less
        | inr r ↦
            rw (handler_ignores v.ident v.filter v.flags log k r)
              (deliver_takes vs log k (not_first (ready_of v).trouble _ _ (inr r) h) p)
      ])
    ]

    abbrev one_poll : List Effect × Kqueue kernel → Option LoopError × (List Effect × Kqueue kernel)
    one_poll = poll kernel {E = AcceptError} {X = List Effect} max_events on_event

    abbrev loop_rounds :
        ℕ → List Effect × Kqueue kernel → Option LoopError × (List Effect × Kqueue kernel)
    loop_rounds =
        accept_new_connection (kqueue_loop kernel max_events) server_fd (accept_on kernel accept)
          later

    polled-none :
        (s : List Effect × Kqueue kernel) (r : Option Errno × List Kevent)
        → r.0 ≡ none
        → polled kernel on_event s r ≡ (none, deliver on_event (ready_list r.1) s)
    polled-none s (none, vs) e = refl
    polled-none s (some e', vs) e = absurd (ground arith)

    poll_open :
        (log : List Effect) (k : Kqueue kernel)
        → k.closed ≡ false
        → let (r, kq) = kernel.wait max_events k.kq in
          one_poll (log, k) ≡ (none, deliver on_event (ready_list r.1) (log, record k { kq = kq }))
    unfolding poll
    poll_open log k o =
        let (r, kq) = kernel.wait max_events k.kq in
        if_false k.closed _ _ o ∙ polled-none (log, record k { kq = kq }) r (calm.no_error k.kq)

    -- A poll succeeds, loses no connection and takes one if there is one.
    polled-Follows :
        (log : List Effect) (k : Kqueue kernel)
        → k.closed ≡ false
        → ((one_poll (log, k)).0 ≡ none)
          × Follows (log, k) (one_poll (log, k)).1
          × (waiting (one_poll (log, k)).1 ≤ pending k.kq - 1)
    polled-Follows log k o =
        let ((e, vs), kq) = kernel.wait max_events k.kq in
        let k' : Kqueue kernel = record k { kq = kq } in
        let kept = wait_keeps max_events k.kq in
        let (same_total, less, same_closed) = deliver-Follows vs (log, k') in
        rw (poll_open log k o) (
          refl,
          (omega arith, omega arith, same_closed),
          elim (Bool-cases (pending k.kq == 0)) [
            | inl z ↦ ground arith
            | inr p ↦ omega (
              arith,
              deliver_takes vs log k'
                  (reported max_events k.kq (ground arith) (calm.room k.kq) (calm.no_error k.kq))
                  (ground arith),
            )
          ],
        )

    -- Over an open kqueue the loop loses no connection: those that it has accepted and those in the
    -- listener's queue are together as many as at first. After as many rounds as connections were
    -- in the queue it has accepted all of them. On the conditions that no connection arrives
    -- meanwhile, no wait fails, fewer other events are ready than a wait may report, and no accept
    -- fails, for want of descriptors or because the client is gone, while a connection waits.
    pub accept_new_connection-all :
        (n : ℕ) (log : List Effect) (k : Kqueue kernel)
        → k.closed ≡ false
        → let (e, (log', k')) = loop_rounds n (log, k) in
          (e ≡ none)
          × (count is_accepted log' + pending k'.kq ≡ count is_accepted log + pending k.kq)
          × (pending k'.kq ≤ pending k.kq - n)
    unfolding accept_new_connection
    accept_new_connection-all zero log k o = (refl, refl, omega arith)
    accept_new_connection-all (suc n) log k o =
        let (fine, (same_total, _, same_closed), less) = polled-Follows log k o in
        let (log', k') = (one_poll (log, k)).1 in
        let (e, t, m) = accept_new_connection-all n log' k' (same_closed ∙ o) in
        rw fine (e, t ∙ same_total, omega arith)
