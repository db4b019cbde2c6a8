-- ===== src/Server/Listener/Starved.antt =====
-- The loop of server/eventloop/main.go over epoll_linux.go: the listening socket is registered
-- edge-triggered, and the on_event accepts one connection for each report.
use fleare.Prelude.{
  ℕ, zero, suc, ◌+◌, ◌≤◌, ◌≡◌, ◌≢◌, refl, ◌∙◌, Bool, true, false, ◌||◌, Bool-cases, inl, inr, ◌⊎◌,
  Option, none, some, List, [], ◌∷◌, ◌++◌, ◌==◌, if◌then◌else◌, arith,
}
use fleare.Server.Multiplexer.{
  Errno, eagain, eintr, ebadf, enoent, emfile, enfile, other_errno, LoopError, deliver, has_bit,
  unless_failed,
}
use fleare.Server.Multiplexer.Epoll.{
  EpollEvent, EpollKernel, evfilt_read, register, ready_list, poll, polled, epoll_loop,
}
use fleare.Server.Listener.{
  Accepted, connected, refused, AcceptError, Later, Effect, accepted, admit, on_accept,
  client_effects, event_handler, accept_new_connection, is_none,
}
use fleare.Server.Listener.Settled.{count}
use mathlib.Core.Path.{subst}

abbrev pub is_accepted : Effect → ℕ
is_accepted (accepted fd) = 1
is_accepted _ = 0

-- How often a descriptor is among the reported events.
abbrev pub reports : ℕ → List EpollEvent → ℕ
reports fd [] = 0
reports fd (v ∷ vs) = if v.fd == fd then suc (reports fd vs) else reports fd vs

-- What epoll(7) says of a listener that is registered with EPOLLET, while no connection arrives:
-- `told` says that it has been reported since the last arrival, and then it is not reported again.
-- A wait reports it once at most, and unix.Accept gives other descriptors than the listener's.
pub record EdgeTriggered (kernel : EpollKernel) (accept : kernel.State → Accepted × kernel.State)
    (server_fd : ℕ) : Type 0 where
  pub told : kernel.State → Bool
  pub once : (n : ℕ) (k : kernel.State) → reports server_fd (kernel.wait n k).0.1 ≤ 1
  pub tells :
      (n : ℕ) (k : kernel.State)
      → reports server_fd (kernel.wait n k).0.1 ≡ 1
      → told (kernel.wait n k).1 ≡ true
  pub silent :
      (n : ℕ) (k : kernel.State) → told k ≡ true → reports server_fd (kernel.wait n k).0.1 ≡ 0
  pub told_wait : (n : ℕ) (k : kernel.State) → told k ≡ true → told (kernel.wait n k).1 ≡ true
  pub told_accept : (k : kernel.State) → told k ≡ true → told (accept k).1 ≡ true
  pub told_add :
      (fd : ℕ) (ev : EpollEvent) (k : kernel.State)
      → fd ≢ server_fd
      → told k ≡ true
      → told (kernel.ctl_add fd ev k).1 ≡ true
  pub new_fd : (fd : ℕ) (k : kernel.State) → (accept k).0 ≡ connected fd → fd ≢ server_fd

pub count-append :
    (f : Effect → ℕ) (es ds : List Effect) → count f (es ++ ds) ≡ count f es + count f ds
count-append f [] ds = omega arith
count-append f (e ∷ es) ds = omega (arith, count-append f es ds)

module _ (kernel : EpollKernel) (accept : kernel.State → Accepted × kernel.State) (server_fd : ℕ)
    (later : ℕ → kernel.State → Later) (max_events : ℕ)
    (edge : EdgeTriggered kernel accept server_fd) where
  open kernel use {State}
  open edge use {told, once, tells, silent, told_wait, told_accept, told_add, new_fd}

  abbrev on_event : ℕ → ℕ → ℕ → List Effect × State → Option AcceptError × (List Effect × State)
  on_event = event_handler (epoll_loop kernel max_events) server_fd accept later

  -- At most `n` more connections have been accepted, and the listener is still told of.
  abbrev Within : ℕ → List Effect → List Effect × State → Type 0
  Within n log (log', k') = (count is_accepted log' ≤ count is_accepted log + n) × (told k' ≡ true)

  effects-Within :
      (fd : ℕ) (l : Later) (k : State) (r : Option LoopError × State)
      → told k ≡ true
      → told r.1 ≡ true
      → let (es, k') =
          client_effects (epoll_loop kernel max_events) server_fd accept later fd l k r in
        (count is_accepted es ≡ 1) × (told k' ≡ true)
  effects-Within fd l k (some e, k') t u = ground arith
  effects-Within fd l k (none, k') t u = ground arith

  result-Within :
      (log : List Effect) (k : State) (a : Accepted × State)
      → told a.1 ≡ true
      → ((fd : ℕ) → a.0 ≡ connected fd → fd ≢ server_fd)
      → Within 1 log (on_accept (epoll_loop kernel max_events) server_fd accept later log a).1
  unfolding admit register
  result-Within log k (connected fd, k') t n =
      let u = told_add fd (record { events = 2147483649; fd = fd; pad = 0 }) k' (n fd refl) t in
      let (one, told_after) =
        effects-Within fd (later fd k') k' (register kernel fd evfilt_read k') t u in
      (
        omega (
          arith,
          count-append is_accepted log
              (admit (epoll_loop kernel max_events) server_fd accept later fd k').0,
          one,
        ),
        told_after,
      )
  result-Within log k (refused eagain, k') t n = (omega arith, t)
  result-Within log k (refused eintr, k') t n = (omega arith, t)
  result-Within log k (refused ebadf, k') t n = (omega arith, t)
  result-Within log k (refused enoent, k') t n = (omega arith, t)
  result-Within log k (refused emfile, k') t n = (omega arith, t)
  result-Within log k (refused enfile, k') t n = (omega arith, t)
  result-Within log k (refused (other_errno m), k') t n = (omega arith, t)

  handler-Within :
      (fd filter flags : ℕ) (log : List Effect) (k : State)
      → told k ≡ true
      → Within (if fd == server_fd then 1 else 0) log (on_event fd filter flags (log, k)).1
  unfolding event_handler
  handler-Within fd filter flags log k t =
      let heard = result-Within log k (accept k) (told_accept k t) (λ f e. new_fd f k e) in
      elim (Bool-cases (fd == server_fd)) [
        | inl e ↦ rw e (elim (Bool-cases (filter == evfilt_read)) [
          | inl e' ↦ rw e' heard
          | inr e' ↦ rw e' (omega arith, t)
        ])
        | inr e ↦ rw e (omega arith, t)
      ]

  next-Within :
      (n m : ℕ) (log : List Effect) (next : List Effect × State → List Effect × State)
      (r : Option AcceptError × (List Effect × State))
      → Within n log r.1
      → ((log' : List Effect) (k' : State) → told k' ≡ true → Within m log' (next (log', k')))
      → Within (n + m) log (unless_failed next r)
  next-Within n m log next (none, (log', k')) (w, t) h =
      let (w', t') = h log' k' t in (omega arith, t')
  next-Within n m log next (some e, (log', k')) (w, t) h = (omega arith, t)

  -- The loop over events that hold `n` reports of the listener.
  deliver-Within :
      (vs : List EpollEvent) (log : List Effect) (k : State)
      → told k ≡ true
      → Within (reports server_fd vs) log (deliver on_event (ready_list vs) (log, k))
  unfolding deliver
  deliver-Within [] log k t = (omega arith, t)
  deliver-Within (v ∷ vs) log k t =
      let (w, u) =
        next-Within (if v.fd == server_fd then 1 else 0) (reports server_fd vs) log
          (deliver on_event (ready_list vs)) (on_event v.fd v.events v.pad (log, k))
          (handler-Within v.fd v.events v.pad log k t) (deliver-Within vs) in
      let (skip, still) = deliver-Within vs log k t in
      elim (Bool-cases (has_bit v.events 8 || has_bit v.events 16)) [
        | inl e ↦ rw e (ground arith, still)
        | inr e ↦ rw e (ground arith, u)
      ]

  -- Events of other descriptors change nothing.
  deliver-others :
      (vs : List EpollEvent) (s : List Effect × State)
      → reports server_fd vs ≡ 0
      → deliver on_event (ready_list vs) s ≡ s
  unfolding deliver event_handler
  deliver-others [] s h = refl
  deliver-others (v ∷ vs) (log, k) h =
      let other : (v.fd == server_fd) ≡ false = ground arith in
      let rest = deliver-others vs (log, k) (ground arith) in
      elim (Bool-cases (has_bit v.events 8 || has_bit v.events 16)) [
        | inl e ↦ rw e rest
        | inr e ↦ rw (e, other) rest
      ]

  abbrev loop_rounds : ℕ → List Effect × State → Option LoopError × (List Effect × State)
  loop_rounds = accept_new_connection (epoll_loop kernel max_events) server_fd accept later

  abbrev one_poll : List Effect × State → Option LoopError × (List Effect × State)
  one_poll = poll kernel {E = AcceptError} {X = List Effect} max_events on_event

  -- A poll leaves what the wait found, or delivers the events.
  polled-cases :
      (s : List Effect × State) (r : Option Errno × List EpollEvent)
      → ((polled kernel on_event s r).1 ≡ s)
        ⊎ ((polled kernel on_event s r).1 ≡ deliver on_event (ready_list r.1) s)
  polled-cases s (none, vs) = inr refl
  polled-cases s (some eintr, vs) = inl refl
  polled-cases s (some eagain, vs) = inl refl
  polled-cases s (some ebadf, vs) = inl refl
  polled-cases s (some enoent, vs) = inl refl
  polled-cases s (some emfile, vs) = inl refl
  polled-cases s (some enfile, vs) = inl refl
  polled-cases s (some (other_errno m), vs) = inl refl

  quiet_poll :
      (log : List Effect) (k : State)
      → reports server_fd (kernel.wait max_events k).0.1 ≡ 0
      → (one_poll (log, k)).1 ≡ (log, (kernel.wait max_events k).1)
  unfolding poll
  quiet_poll log k h =
      let (r, k') = kernel.wait max_events k in
      elim (polled-cases (log, k') r) [ inl e ↦ e | inr e ↦ e ∙ deliver-others r.1 (log, k') h ]

  loud_poll :
      (log : List Effect) (k : State)
      → reports server_fd (kernel.wait max_events k).0.1 ≡ 1
      → Within 1 log (one_poll (log, k)).1
  unfolding poll
  loud_poll log k h =
      let (r, k') = kernel.wait max_events k in
      let t = tells max_events k h in
      elim (polled-cases (log, k') r) [
        | inl e ↦ rw e (omega arith, t)
        | inr e ↦ rw e (
            subst (λ n. Within n log (deliver on_event (ready_list r.1) (log, k'))) h
              (deliver-Within r.1 log k' t))
      ]

  rounds-told :
      (n : ℕ) (log : List Effect) (k : State)
      → told k ≡ true
      → count is_accepted (loop_rounds n (log, k)).1.0 ≡ count is_accepted log
  unfolding accept_new_connection
  rounds-told zero log k t = refl
  rounds-told (suc n) log k t =
      let same_log = quiet_poll log k (silent max_events k t) in
      let rest = rounds-told n log (kernel.wait max_events k).1 (told_wait max_events k t) in
      elim (Bool-cases (is_none (one_poll (log, k)).0)) [
        | inl e ↦ rw (e, same_log) rest
        | inr e ↦ rw (e, same_log) refl
      ]

  -- While no connection arrives, the loop accepts one connection at most, however many wait in the
  -- listener's queue and however many rounds it makes. The listener is registered edge-triggered,
  -- in the sense of epoll(7).
  pub accept_new_connection-once :
      (n : ℕ) (log : List Effect) (k : State)
      → count is_accepted (loop_rounds n (log, k)).1.0 ≤ count is_accepted log + 1
  unfolding accept_new_connection
  accept_new_connection-once zero log k = omega arith
  accept_new_connection-once (suc n) log k =
      let stop = Bool-cases (is_none (one_poll (log, k)).0) in
      elim (Bool-cases (reports server_fd (kernel.wait max_events k).0.1 == 0)) [
        | inl e ↦
            let same_log = quiet_poll log k (ground arith) in
            let rest = accept_new_connection-once n log (kernel.wait max_events k).1 in
            elim stop [
              | inl more ↦ rw (more, same_log) rest
              | inr over ↦ rw (over, same_log) (omega arith)
            ]
        | inr e ↦
            let (w, t) = loud_poll log k (ground (arith, once max_events k)) in
            let (log', k') = (one_poll (log, k)).1 in
            let rest = rounds-told n log' k' t in
            elim stop [ inl more ↦ rw more (omega (arith, rest, w)) | inr over ↦ rw over w ]
      ]
