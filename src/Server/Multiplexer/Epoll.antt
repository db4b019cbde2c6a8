-- ===== src/Server/Multiplexer/Epoll.antt =====
-- server/eventloop/multiplexer/epoll_linux.go. The kernel's epoll instance is a parameter; its laws
-- are those that the manual pages epoll_ctl(2) and epoll(7) state.
use fleare.Prelude.{
  ℕ, ◌+◌, ◌≡◌, ◌⊎◌, inl, inr, refl, ap, Bool, true, false, ◌||◌, Option, none, some, List, [], ◌∷◌,
  ◌==◌, if◌then◌else◌,
}
use fleare.Server.Multiplexer.{
  Errno, eintr, ebadf, enoent, LoopError, raw, wait_failed, Ready, Callback, has_bit, deliver,
  EventLoop,
}

abbrev pub evfilt_read : ℕ
evfilt_read = 1

abbrev pub evfilt_write : ℕ
evfilt_write = 4

-- unix.EPOLLIN, EPOLLOUT, EPOLLERR, EPOLLHUP and EPOLLET
abbrev epollin : ℕ
epollin = 1

abbrev epollout : ℕ
epollout = 4

abbrev epollerr : ℕ
epollerr = 8

abbrev epollhup : ℕ
epollhup = 16

abbrev epollet : ℕ
epollet = 2147483648

-- unix.EpollEvent
pub record EpollEvent : Type 0 where
  pub events : ℕ
  pub fd : ℕ
  pub pad : ℕ

-- unix.EpollCtl and unix.EpollWait on an epoll instance of state `State`. A descriptor is watched
-- from a successful EPOLL_CTL_ADD to a successful EPOLL_CTL_DEL, whatever the events asked for.
pub record EpollKernel : Type 1 where
  pub State : Type 0
  pub ctl_add : ℕ → EpollEvent → State → Option Errno × State
  pub ctl_del : ℕ → State → Option Errno × State
  pub wait : ℕ → State → (Option Errno × List EpollEvent) × State
  pub watched : ℕ → State → Bool
  pub del_watched :
      (fd : ℕ) (k : State)
      → watched fd k ≡ true
      → ((ctl_del fd k).0 ≡ none) × (watched fd (ctl_del fd k).1 ≡ false)
  pub del_not_watched :
      (fd : ℕ) (k : State)
      → watched fd k ≡ false
      → (ctl_del fd k ≡ (some enoent, k)) ⊎ (ctl_del fd k ≡ (some ebadf, k))

-- The events that Register asks for.
abbrev events_for : ℕ → ℕ
events_for filter =
    if filter == evfilt_read
    then epollin + epollet
    else if filter == evfilt_write
    then epollout + epollet
    else 0

abbrev result_of : Option Errno → Option LoopError
result_of none = none
result_of (some e) = some (raw e)

abbrev unless_ebadf : Option Errno → Option LoopError
unless_ebadf (some ebadf) = none
unless_ebadf r = result_of r

abbrev ready_of : EpollEvent → Ready ℕ
ready_of v = record {
  fd = v.fd;
  filter = v.events;
  flags = v.pad;
  trouble = has_bit v.events epollerr || has_bit v.events epollhup;
}

abbrev pub ready_list : List EpollEvent → List (Ready ℕ)
ready_list [] = []
ready_list (v ∷ vs) = ready_of v ∷ ready_list vs

module _ (kernel : EpollKernel) where
  open kernel use {State, ctl_add, ctl_del, wait, watched, del_watched, del_not_watched}

  -- Register
  unfoldable pub register : ℕ → ℕ → State → Option LoopError × State
  register fd filter k =
      let (r, k') = ctl_add fd (record { events = events_for filter; fd = fd; pad = 0 }) k in
      (result_of r, k')

  -- Unregister; EPOLL_CTL_DEL takes no filter.
  unfoldable pub unregister : ℕ → ℕ → State → Option LoopError × State
  unregister fd filter k = let (r, k') = ctl_del fd k in (unless_ebadf r, k')

  module _ {E X : Type 0} where
    abbrev pub polled :
        Callback ℕ E (X × State)
        → X × State
        → Option Errno × List EpollEvent
        → Option LoopError × (X × State)
    polled callback s (some eintr, vs) = (none, s)
    polled callback s (some e, vs) = (some (wait_failed e), s)
    polled callback s (none, vs) = (none, deliver callback (ready_list vs) s)

    -- Poll; the events are those of this wait.
    unfoldable pub poll : ℕ → Callback ℕ E (X × State) → X × State → Option LoopError × (X × State)
    poll max_events callback (x, k) = let (r, k') = wait max_events k in polled callback (x, k') r

  abbrev pub epoll_loop : ℕ → EventLoop ℕ State
  epoll_loop max_events = record {
    is_read = λ filter. filter == evfilt_read;
    for_reads = evfilt_read;
    register = register;
    unregister = unregister;
    poll = λ E X. poll {E = E} {X = X} max_events;
  }

  after_missing :
      (r : Option Errno × State) (k : State)
      → (r ≡ (some enoent, k)) ⊎ (r ≡ (some ebadf, k))
      → ((unless_ebadf r.0 ≡ some (raw enoent)) ⊎ (unless_ebadf r.0 ≡ none)) × (r.1 ≡ k)
  after_missing r k (inl e) = rw e (inl refl, refl)
  after_missing r k (inr e) = rw e (inr refl, refl)

  -- An Unregister of a watched descriptor succeeds and ends the watch, whatever filter it names; a
  -- further one, for the same filter or another, changes nothing, and it fails unless the kernel
  -- calls the descriptor bad.
  pub unregister_twice :
      (fd filter other : ℕ) (k : State)
      → watched fd k ≡ true
      → let (first, k1) = unregister fd filter k in
        let (second, k2) = unregister fd other k1 in
        (first ≡ none)
        × (watched fd k1 ≡ false)
        × ((second ≡ some (raw enoent)) ⊎ (second ≡ none))
        × (k2 ≡ k1)
  unfolding unregister
  unregister_twice fd filter other k h =
      let (ok, gone) = del_watched fd k h in
      let (second, same_state) =
        after_missing (ctl_del fd (ctl_del fd k).1) (ctl_del fd k).1
          (del_not_watched fd (ctl_del fd k).1 gone) in
      (ap unless_ebadf ok, gone, second, same_state)
