-- ===== src/Server/Listener/Settled.antt =====
-- What becomes of a connection that server/eventloop/main.go accepts: its descriptor, its part in
-- the count of active threads, and its session.
use fleare.Prelude.{
  ℕ, ◌+◌, ◌<◌, ◌≡◌, ◌⊎◌, inl, inr, true, false, ◌||◌, Option, none, some, List, [], ◌∷◌, ◌++◌, ◌==◌,
  ==_refl, if◌then◌else◌, arith,
}
use fleare.Server.Multiplexer.{LoopError, EventLoop}
use fleare.Server.Listener.{
  Accepted, Later, Effect, close, login, logout, spawned, added, done, conn_thread, admit,
  client_effects,
}

-- The calls of the handler and then those of the goroutine that it starts.
abbrev pub with_thread : Later → List Effect → List Effect
with_thread l [] = []
with_thread l (spawned fd ∷ es) = spawned fd ∷ (conn_thread l fd ++ with_thread l es)
with_thread l (e ∷ es) = e ∷ with_thread l es

abbrev pub count : (Effect → ℕ) → List Effect → ℕ
count f [] = 0
count f (e ∷ es) = f e + count f es

abbrev pub is_added : Effect → ℕ
is_added added = 1
is_added _ = 0

abbrev pub is_done : Effect → ℕ
is_done done = 1
is_done _ = 0

abbrev pub is_login : Effect → ℕ
is_login (login fd) = 1
is_login _ = 0

abbrev pub is_logout : Effect → ℕ
is_logout (logout fd) = 1
is_logout _ = 0

abbrev pub is_close : ℕ → Effect → ℕ
is_close fd (close other) = if other == fd then 1 else 0
is_close fd _ = 0

-- The count of active threads is even, and the descriptor is closed.
abbrev pub Settled : ℕ → List Effect → Type 0
Settled fd es = (count is_added es ≡ count is_done es) × (0 < count (is_close fd) es)

module _ {F K : Type 0} (loop : EventLoop F K) (server_fd : ℕ) (accept : K → Accepted × K)
    (later : ℕ → K → Later) where
  effects : ℕ → Later → K → Option LoopError × K → List Effect
  effects fd l k r = with_thread l (client_effects loop server_fd accept later fd l k r).0

  effects-Settled :
      (fd : ℕ) (l : Later) (k : K) (r : Option LoopError × K) → Settled fd (effects fd l k r)
  unfolding conn_thread effects
  effects-Settled fd l k (some e, k') = ground (arith, ==_refl fd)
  effects-Settled fd l k (none, k') = ground (arith, ==_refl fd)

  effects-session :
      (fd : ℕ) (l : Later) (k : K) (r : Option LoopError × K)
      → l.let_in ≡ true
      → (l.nonblock ≡ false) ⊎ ((l.registered ≡ false) ⊎ ((l.found || l.made) ≡ false))
      → (count is_login (effects fd l k r) ≡ 1) × (count is_logout (effects fd l k r) ≡ 0)
  unfolding conn_thread effects
  effects-session fd l k (some e, k') i h = ground arith
  effects-session fd l k (none, k') i (inl h) = ground arith
  effects-session fd l k (none, k') i (inr (inl h)) = ground arith
  effects-session fd l k (none, k') i (inr (inr h)) = ground arith

  -- Whatever the calls behind unix.Accept give, once the handler and the goroutine that it may start
  -- have ended, the accepted descriptor has been closed, and activeThreads has had as many Done
  -- as Add.
  pub admit-Settled :
      (fd : ℕ) (k : K)
      → Settled fd (with_thread (later fd k) (admit loop server_fd accept later fd k).0)
  unfolding admit effects
  admit-Settled fd k = effects-Settled fd (later fd k) k (loop.register fd loop.for_reads k)

  -- A client that was let in, but whose socket cannot be made non-blocking, whose thread cannot be
  -- made or cannot be registered, has logged in once, and no call ends its session.
  pub admit-abandoned :
      (fd : ℕ) (k : K)
      → (later fd k).let_in ≡ true
      → ((later fd k).nonblock ≡ false)
        ⊎ (((later fd k).registered ≡ false) ⊎ (((later fd k).found || (later fd k).made) ≡ false))
      → let es = with_thread (later fd k) (admit loop server_fd accept later fd k).0 in
        (count is_login es ≡ 1) × (count is_logout es ≡ 0)
  unfolding admit effects
  admit-abandoned fd k e h =
      effects-session fd (later fd k) k (loop.register fd loop.for_reads k) e h
