-- ===== src/Server/Multiplexer.antt =====
-- server/eventloop/multiplexer/: the event loop over epoll (epoll_linux.go) and over kqueue
-- (kqueue_darwin.go). The two kernels are parameters.
pub mod Epoll
pub mod Kqueue
use fleare.Prelude.{
  ℕ, true, false, ◌/◌, ◌%◌, ◌^◌, Bool, Option, none, some, List, [], ◌∷◌, ◌==◌, if◌then◌else◌,
}

-- The errors of the kernel that the code tells apart.
pub data Errno : Type 0 where
  eagain eintr ebadf enoent emfile enfile : Errno
  other_errno : ℕ → Errno

-- What the methods of an event loop return.
pub data LoopError : Type 0 where
  raw : Errno → LoopError
  create_failed wait_failed register_failed unregister_failed : Errno → LoopError
  is_closed : LoopError

-- One event as the kernel reports it: `trouble` says that one of the two flags is set that Poll
-- passes over.
pub record Ready (F : Type 0) : Type 0 where
  pub fd : ℕ
  pub filter : F
  pub flags : ℕ
  pub trouble : Bool

-- The handler of one event: it changes the program's state, and may fail.
abbrev pub Callback : Type 0 → Type 0 → Type 0 → Type 0
Callback F E S = ℕ → F → ℕ → S → Option E × S

-- A test of a bit, as in `v.Events & unix.EPOLLHUP != 0`.
abbrev pub has_bit : ℕ → ℕ → Bool
has_bit n bit = if n / bit % 2 == 1 then true else false

abbrev pub unless_failed : {E S : Type 0} → (S → S) → Option E × S → S
unless_failed next (none, s) = next s
unless_failed next (some e, s) = s

module _ {F E S : Type 0} where
  -- The loop over the reported events, the same in both files: an event with trouble is passed over,
  -- and the first failing call ends the loop.
  unfoldable pub deliver : Callback F E S → List (Ready F) → S → S
  deliver callback [] s = s
  deliver callback (v ∷ vs) s =
      let more = deliver callback vs in
      if v.trouble then more s else unless_failed more (callback v.fd v.filter v.flags s)

-- EventLoop, with the filter for reads and its test; `K` is the state of the kernel. The state that
-- a handler changes holds the kernel's.
pub record EventLoop (F K : Type 0) : Type 1 where
  pub is_read : F → Bool
  pub for_reads : F
  pub register : ℕ → F → K → Option LoopError × K
  pub unregister : ℕ → F → K → Option LoopError × K
  pub poll : (E X : Type 0) → Callback F E (X × K) → X × K → Option LoopError × (X × K)
