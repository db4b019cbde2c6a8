-- ===== src/Server/Listener/Level.antt =====
-- What kqueue(2) and accept(2) say of the listening socket of server/eventloop/main.go, which
-- kqueue_darwin.go registers without EV_CLEAR.
use fleare.Prelude.{
  ℕ, ◌+◌, ◌≤◌, ◌<◌, ◌≡◌, ◌⊎◌, Bool, true, false, ◌&&◌, ◌||◌, not, none, List, [], ◌∷◌, ◌==◌,
}
use fleare.Server.Multiplexer.{Errno}
use fleare.Server.Multiplexer.Kqueue.{Kevent, KqueueKernel, Kqueue, evfilt_read, same_ℤ, ready_of}
use fleare.Server.Listener.{Accepted, connected, refused}

-- The event is a report of the listener for reads, and Poll does not pass it over.
abbrev pub is_report : ℕ → Kevent → Bool
is_report fd v = not (ready_of v).trouble && (v.ident == fd && same_ℤ v.filter evfilt_read)

abbrev pub hears : ℕ → List Kevent → Bool
hears fd [] = false
hears fd (v ∷ vs) = is_report fd v || hears fd vs

-- What kqueue(2) and accept(2) say of a non-blocking listener that is registered for reads, while no
-- connection arrives: `pending` is the length of its queue of connections, and `others` says for how
-- many other events the kernel has reports. A wait for n events has room for the listener's report if
-- there are fewer than n others. An accept takes a connection off the queue, or it fails: with the
-- queue empty, or for want of descriptors, or the connection was aborted, which takes it off too.
pub record LevelTriggered (kernel : KqueueKernel) (accept : kernel.State → Accepted × kernel.State)
    (server_fd : ℕ) : Type 0 where
  pub pending : kernel.State → ℕ
  pub others : kernel.State → ℕ
  pub reported :
      (n : ℕ) (k : kernel.State)
      → 0 < pending k
      → others k < n
      → (kernel.wait n k).0.0 ≡ none
      → hears server_fd (kernel.wait n k).0.1 ≡ true
  pub wait_keeps : (n : ℕ) (k : kernel.State) → pending (kernel.wait n k).1 ≡ pending k
  pub change_keeps : (ev : Kevent) (k : kernel.State) → pending (kernel.change ev k).1 ≡ pending k
  pub accepts :
      (k : kernel.State)
      → (((fd : ℕ) × ((accept k).0 ≡ connected fd)) × (pending (accept k).1 + 1 ≡ pending k))
        ⊎ (((e : Errno) × ((accept k).0 ≡ refused e)) × (pending (accept k).1 ≤ pending k))

-- What may keep a connection in the queue, or drop it, does not happen: no wait fails (a signal would
-- end one), the other descriptors that are ready leave room for the listener's report, and no accept
-- fails while a connection waits.
pub record Undisturbed (kernel : KqueueKernel) (accept : kernel.State → Accepted × kernel.State)
    (server_fd : ℕ) (level : LevelTriggered kernel accept server_fd) (max_events : ℕ) : Type 0 where
  pub no_error : (k : kernel.State) → (kernel.wait max_events k).0.0 ≡ none
  pub room : (k : kernel.State) → level.others k < max_events
  pub no_refusal :
      (k : kernel.State) (e : Errno) → 0 < level.pending k → ¬ ((accept k).0 ≡ refused e)

-- unix.Accept beside the queue of events.
abbrev pub accept_on :
    (kernel : KqueueKernel) (accept : kernel.State → Accepted × kernel.State)
    → Kqueue kernel
    → Accepted × Kqueue kernel
accept_on kernel accept k = let (a, kq) = accept k.kq in (a, record k { kq = kq })
