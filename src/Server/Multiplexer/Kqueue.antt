-- ===== src/Server/Multiplexer/Kqueue.antt =====
-- server/eventloop/multiplexer/kqueue_darwin.go. The kernel's queue is a parameter; its laws are
-- those that the manual page kqueue(2) states.
use fleare.Prelude.{
  ℕ, ◌+◌, ◌≡◌, ◌≢◌, ◌⊎◌, inl, inr, refl, ap, Bool-cases, Bool, true, false, ◌||◌, ◌==◌, Option,
  none, some, List, [], ◌∷◌, if◌then◌else◌,
}
use fleare.Prelude.Int.{ℤ, pos, negsuc}
use fleare.Server.Multiplexer.{
  Errno, eintr, ebadf, enoent, LoopError, raw, wait_failed, register_failed, unregister_failed,
  is_closed, Ready, Callback, has_bit, deliver, EventLoop,
}

abbrev pub evfilt_read : ℤ
evfilt_read = negsuc 0

abbrev pub evfilt_write : ℤ
evfilt_write = negsuc 1

abbrev pub ev_add : ℕ
ev_add = 1

abbrev pub ev_delete : ℕ
ev_delete = 2

abbrev pub ev_enable : ℕ
ev_enable = 4

abbrev pub same_ℤ : ℤ → ℤ → Bool
same_ℤ (pos a) (pos b) = a == b
same_ℤ (negsuc a) (negsuc b) = a == b
same_ℤ _ _ = false

-- unix.EV_ERROR and unix.EV_EOF
abbrev ev_error : ℕ
ev_error = 16384

abbrev ev_eof : ℕ
ev_eof = 32768

-- unix.Kevent_t
pub record Kevent : Type 0 where
  pub ident : ℕ
  pub filter : ℤ
  pub flags : ℕ

-- unix.Kevent for one change, and for a wait. An event is registered for a descriptor and a filter.
pub record KqueueKernel : Type 1 where
  pub State : Type 0
  pub change : Kevent → State → Option Errno × State
  pub wait : ℕ → State → (Option Errno × List Kevent) × State
  pub registered : ℕ → ℤ → State → Bool
  pub delete_registered :
      (fd : ℕ) (filter : ℤ) (k : State)
      → registered fd filter k ≡ true
      → ((change (record { ident = fd; filter = filter; flags = ev_delete }) k).0 ≡ none)
        × (registered fd filter
              (change (record { ident = fd; filter = filter; flags = ev_delete }) k).1
            ≡ false)
  pub delete_other :
      (fd : ℕ) (filter other : ℤ) (k : State)
      → filter ≢ other
      → registered fd other (change (record { ident = fd; filter = filter; flags = ev_delete }) k).1
        ≡ registered fd other k
  pub delete_missing :
      (fd : ℕ) (filter : ℤ) (k : State)
      → registered fd filter k ≡ false
      → (change (record { ident = fd; filter = filter; flags = ev_delete }) k ≡ (some enoent, k))
        ⊎ (change (record { ident = fd; filter = filter; flags = ev_delete }) k ≡ (some ebadf, k))

abbrev registered_as : Option Errno → Option LoopError
registered_as none = none
registered_as (some e) = some (register_failed e)

abbrev unless_missing : Option Errno → Option LoopError
unless_missing none = none
unless_missing (some enoent) = none
unless_missing (some ebadf) = none
unless_missing (some e) = some (unregister_failed e)

abbrev pub ready_of : Kevent → Ready ℤ
ready_of v = record {
  fd = v.ident;
  filter = v.filter;
  flags = v.flags;
  trouble = has_bit v.flags ev_eof || has_bit v.flags ev_error;
}

abbrev pub ready_list : List Kevent → List (Ready ℤ)
ready_list [] = []
ready_list (v ∷ vs) = ready_of v ∷ ready_list vs

module _ (kernel : KqueueKernel) where
  open kernel use {State, change, wait, registered, delete_registered, delete_other, delete_missing}

  -- Kqueue
  pub record Kqueue : Type 0 where
    pub kq : State
    pub closed : Bool

  -- Register
  unfoldable pub register : ℕ → ℤ → Kqueue → Option LoopError × Kqueue
  register fd filter k =
      let (r, kq) =
        change (record { ident = fd; filter = filter; flags = ev_add + ev_enable }) k.kq in
      if k.closed then (some is_closed, k) else (registered_as r, record k { kq = kq })

  -- Unregister
  unfoldable pub unregister : ℕ → ℤ → Kqueue → Option LoopError × Kqueue
  unregister fd filter k =
      let (r, kq) = change (record { ident = fd; filter = filter; flags = ev_delete }) k.kq in
      if k.closed then (none, k) else (unless_missing r, record k { kq = kq })

  -- Close; `r` is the result of unix.Close, which is called for the first time only.
  unfoldable pub close : Option Errno → Kqueue → Option LoopError × Kqueue
  close r k =
      if k.closed
      then (none, k)
      else (elim r [ none ↦ none | some e ↦ some (raw e) ], record k { closed = true })

  module _ {E X : Type 0} where
    abbrev pub polled :
        Callback ℤ E (X × Kqueue)
        → X × Kqueue
        → Option Errno × List Kevent
        → Option LoopError × (X × Kqueue)
    polled callback s (some eintr, vs) = (none, s)
    polled callback s (some e, vs) = (some (wait_failed e), s)
    polled callback s (none, vs) = (none, deliver callback (ready_list vs) s)

    -- Poll
    unfoldable pub poll :
        ℕ → Callback ℤ E (X × Kqueue) → X × Kqueue → Option LoopError × (X × Kqueue)
    poll max_events callback (x, k) =
        let (r, kq) = wait max_events k.kq in
        let after = polled callback (x, record k { kq = kq }) r in
        if k.closed then (some is_closed, (x, k)) else after

  abbrev pub kqueue_loop : ℕ → EventLoop ℤ Kqueue
  kqueue_loop max_events = record {
    is_read = λ filter. same_ℤ filter evfilt_read;
    for_reads = evfilt_read;
    register = register;
    unregister = unregister;
    poll = λ E X. poll {E = E} {X = X} max_events;
  }

  abbrev deletion : ℕ → ℤ → Kevent
  deletion fd filter = record { ident = fd; filter = filter; flags = ev_delete }

  after_missing :
      (r : Option Errno × State) (k : State)
      → (r ≡ (some enoent, k)) ⊎ (r ≡ (some ebadf, k))
      → (unless_missing r.0 ≡ none) × (r.1 ≡ k)
  after_missing r k (inl e) = rw e (refl, refl)
  after_missing r k (inr e) = rw e (refl, refl)

  -- A deletion never fails, and leaves nothing registered.
  change-deletion :
      (fd : ℕ) (filter : ℤ) (k : State)
      → (unless_missing (change (deletion fd filter) k).0 ≡ none)
        × (registered fd filter (change (deletion fd filter) k).1 ≡ false)
  change-deletion fd filter k = elim (Bool-cases (registered fd filter k)) [
    | inl e ↦ let (ok, gone) = delete_registered fd filter k e in (ap unless_missing ok, gone)
    | inr e ↦
        let (ok, same_state) =
          after_missing (change (deletion fd filter) k) k (delete_missing fd filter k e) in
        (ok, rw same_state e)
  ]

  -- On an open queue, Unregister succeeds, whether or not the descriptor is registered for the
  -- filter. Afterwards it is not, and what is registered for another filter is as it was.
  pub unregister-one :
      (fd : ℕ) (filter other : ℤ) (k : Kqueue)
      → k.closed ≡ false
      → filter ≢ other
      → ((unregister fd filter k).0 ≡ none)
        × (registered fd filter (unregister fd filter k).1.kq ≡ false)
        × (registered fd other (unregister fd filter k).1.kq ≡ registered fd other k.kq)
  unfolding unregister
  unregister-one fd filter other k o d =
      let (ok, gone) = change-deletion fd filter k.kq in
      rw o (ok, gone, delete_other fd filter other k.kq d)
