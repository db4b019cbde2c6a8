-- ===== src/Server/Listener/Runs.antt =====
-- The theorems on the accept loop and the multiplexers at small kernels, with a listener whose
-- descriptor is 3.
use fleare.Prelude.{
  ℕ, ◌+◌, ◌-◌, ◌≤◌, ◌≡◌, ◌≢◌, refl, sym, inl, inr, ◌⊎◌, Bool, true, false, ◌&&◌, ◌||◌, Bool-cases,
  Option, none, some, List, [], ◌∷◌, ◌==◌, if◌then◌else◌, arith,
}
use fleare.Prelude.Int.{ℤ, pos, negsuc}
use fleare.Server.Multiplexer.{Errno, eagain, enoent, ebadf, raw}
use fleare.Server.Multiplexer.{deliver}
use fleare.Server.Multiplexer.Epoll.{
  EpollEvent, EpollKernel, epoll_loop, poll, register, unregister_twice,
}
use fleare.Server.Multiplexer.Epoll
use fleare.Server.Multiplexer.Kqueue.{
  Kevent, KqueueKernel, Kqueue, same_ℤ, evfilt_read, evfilt_write, ev_delete, kqueue_loop,
  unregister-one,
}
use fleare.Server.Multiplexer.Kqueue
use fleare.Server.Listener.{
  Accepted, connected, refused, Later, admit, event_handler, accept_new_connection,
}
use fleare.Server.Listener.Settled.{
  count, is_login, is_logout, with_thread, Settled, admit-Settled, admit-abandoned,
}
use fleare.Server.Listener.Starved.{is_accepted, EdgeTriggered, accept_new_connection-once}
use fleare.Server.Listener.Level.{LevelTriggered, Undisturbed, accept_on}
use fleare.Server.Listener.Drained.{accept_new_connection-all}

-- A listener's queue, whether the listener is watched, and whether it was reported.
record Queue : Type 0 where
  pub pending : ℕ
  pub listed : Bool
  pub told : Bool

abbrev edge_wait : ℕ → Queue → (Option Errno × List EpollEvent) × Queue
edge_wait n q =
    if q.told || (q.pending == 0)
    then ((none, []), q)
    else ((none, record { events = 1; fd = 3; pad = 0 } ∷ []), record q { told = true })

abbrev edge_del : ℕ → Queue → Option Errno × Queue
edge_del fd q =
    if (fd == 3) && q.listed then (none, record q { listed = false }) else (some enoent, q)

del_watched :
    (fd : ℕ) (q : Queue)
    → ((fd == 3) && q.listed) ≡ true
    → ((edge_del fd q).0 ≡ none) × (((fd == 3) && (edge_del fd q).1.listed) ≡ false)
del_watched fd q h = ground arith

del_not_watched :
    (fd : ℕ) (q : Queue)
    → ((fd == 3) && q.listed) ≡ false
    → (edge_del fd q ≡ (some enoent, q)) ⊎ (edge_del fd q ≡ (some ebadf, q))
del_not_watched fd q h = inl (ground arith)

abbrev edge_kernel : EpollKernel
edge_kernel = record {
  State = Queue;
  ctl_add = λ fd ev q. (none, if fd == 3 then record q { listed = true; told = false } else q);
  ctl_del = edge_del;
  wait = edge_wait;
  watched = λ fd q. (fd == 3) && q.listed;
  del_watched = del_watched;
  del_not_watched = del_not_watched;
}

abbrev take_one : Queue → Accepted × Queue
take_one q =
    if q.pending == 0
    then (refused eagain, q)
    else (connected (10 + q.pending), record q { pending = q.pending - 1 })

take_one-EdgeTriggered : EdgeTriggered edge_kernel take_one 3
take_one-EdgeTriggered = record {
  told = λ q. q.told;
  once = λ n q. ground arith;
  tells = λ n q h. ground arith;
  silent = λ n q h. ground arith;
  told_wait = λ n q h. ground arith;
  told_accept = λ q h. ground arith;
  told_add = λ fd ev q d h. ground arith;
  new_fd = λ fd q h e. ground arith;
}

abbrev two_waiting : Queue
two_waiting = record { pending = 2; listed = true; told = false }

abbrev all_fine : Later
all_fine = record { let_in = true; nonblock = true; found = false; made = true; registered = true }

abbrev refused_thread : Later
refused_thread = record all_fine { registered = false }

accept_new_connection-once_example :
    count is_accepted
      (accept_new_connection
        (epoll_loop edge_kernel 10)
        3
        take_one
        (λ fd q. all_fine)
        5
        ([], two_waiting)).1.0
    ≤ 1
accept_new_connection-once_example =
    accept_new_connection-once edge_kernel take_one 3 (λ fd q. all_fine) 10 take_one-EdgeTriggered 5
      [] two_waiting

-- One connection is accepted indeed, and one is left in the queue.
one_left :
    (accept_new_connection
      (epoll_loop edge_kernel 10)
      3
      take_one
      (λ fd q. all_fine)
      5
      ([], two_waiting)).1.1.pending
    ≡ 1
unfolding accept_new_connection event_handler poll deliver register admit
one_left = refl

unregister_twice_example :
    let (first, k1) = Epoll.unregister edge_kernel 3 1 two_waiting in
    let (second, k2) = Epoll.unregister edge_kernel 3 4 k1 in
    (first ≡ none)
    × (((3 == 3) && k1.listed) ≡ false)
    × ((second ≡ some (raw enoent)) ⊎ (second ≡ none))
    × (k2 ≡ k1)
unregister_twice_example = unregister_twice edge_kernel 3 1 4 two_waiting refl

admit-Settled_example : Settled 12 (
    with_thread all_fine
      (admit (epoll_loop edge_kernel 10) 3 take_one (λ fd q. all_fine) 12 two_waiting).0)
admit-Settled_example =
    admit-Settled (epoll_loop edge_kernel 10) 3 take_one (λ fd q. all_fine) 12 two_waiting

admit-abandoned_example :
    let es =
      with_thread refused_thread
        (admit (epoll_loop edge_kernel 10) 3 take_one (λ fd q. refused_thread) 12 two_waiting).0 in
    (count is_login es ≡ 1) × (count is_logout es ≡ 0)
admit-abandoned_example =
    admit-abandoned (epoll_loop edge_kernel 10) 3 take_one (λ fd q. refused_thread) 12 two_waiting
      refl (inr (inl refl))

-- What is registered, and the listener's queue.
record Table : Type 0 where
  pub listed : ℕ → ℤ → Bool
  pub waiting : ℕ

abbrev set_listed : Kevent → Bool → Table → Table
set_listed ev b t = record t {
  listed =
      λ fd filter. if (fd == ev.ident) && same_ℤ filter ev.filter then b else t.listed fd filter;
}

abbrev level_change : Kevent → Table → Option Errno × Table
level_change ev t =
    if ev.flags == ev_delete
    then (if t.listed ev.ident ev.filter then (none, set_listed ev false t) else (some enoent, t))
    else (none, set_listed ev true t)

abbrev level_wait : ℕ → Table → (Option Errno × List Kevent) × Table
level_wait n t =
    if t.waiting == 0
    then ((none, []), t)
    else ((none, record { ident = 3; filter = negsuc 0; flags = 0 } ∷ []), t)

same_refl : (a : ℤ) → same_ℤ a a ≡ true
same_refl (pos a) = ground arith
same_refl (negsuc a) = ground arith

same→eq : (a b : ℤ) → same_ℤ a b ≡ true → a ≡ b
same→eq (pos a) (pos b) h = ground arith
same→eq (pos a) (negsuc b) h = absurd (ground arith)
same→eq (negsuc a) (pos b) h = absurd (ground arith)
same→eq (negsuc a) (negsuc b) h = ground arith

abbrev deletion : ℕ → ℤ → Kevent
deletion fd filter = record { ident = fd; filter = filter; flags = ev_delete }

delete_registered :
    (fd : ℕ) (filter : ℤ) (t : Table)
    → t.listed fd filter ≡ true
    → ((level_change (deletion fd filter) t).0 ≡ none)
      × ((level_change (deletion fd filter) t).1.listed fd filter ≡ false)
delete_registered fd filter t h = ground (arith, same_refl filter)

delete_other :
    (fd : ℕ) (filter other : ℤ) (t : Table)
    → filter ≢ other
    → (level_change (deletion fd filter) t).1.listed fd other ≡ t.listed fd other
delete_other fd filter other t d = elim (Bool-cases (same_ℤ other filter)) [
  | inl e ↦ absurd (d (sym (same→eq other filter e)))
  | inr e ↦ ground arith
]

delete_missing :
    (fd : ℕ) (filter : ℤ) (t : Table)
    → t.listed fd filter ≡ false
    → (level_change (deletion fd filter) t ≡ (some enoent, t))
      ⊎ (level_change (deletion fd filter) t ≡ (some ebadf, t))
delete_missing fd filter t h = inl (ground arith)

abbrev level_kernel : KqueueKernel
level_kernel = record {
  State = Table;
  change = level_change;
  wait = level_wait;
  registered = λ fd filter t. t.listed fd filter;
  delete_registered = delete_registered;
  delete_other = delete_other;
  delete_missing = delete_missing;
}

abbrev next_one : Table → Accepted × Table
next_one t =
    if t.waiting == 0
    then (refused eagain, t)
    else (connected (10 + t.waiting), record t { waiting = t.waiting - 1 })

next_one_accepts :
    (t : Table)
    → (((fd : ℕ) × ((next_one t).0 ≡ connected fd)) × ((next_one t).1.waiting + 1 ≡ t.waiting))
      ⊎ (((e : Errno) × ((next_one t).0 ≡ refused e)) × ((next_one t).1.waiting ≤ t.waiting))
next_one_accepts t = elim (Bool-cases (t.waiting == 0)) [
  | inl none_there ↦ inr ((eagain, ground arith), ground arith)
  | inr some_there ↦ inl ((10 + t.waiting, ground arith), ground arith)
]

next_one-LevelTriggered : LevelTriggered level_kernel next_one 3
next_one-LevelTriggered = record {
  pending = λ t. t.waiting;
  others = λ t. 0;
  reported = λ n t h r e. ground arith;
  wait_keeps = λ n t. ground arith;
  change_keeps = λ ev t. ground arith;
  accepts = next_one_accepts;
}

next_one-Undisturbed : Undisturbed level_kernel next_one 3 next_one-LevelTriggered 10
unfolding next_one-LevelTriggered
next_one-Undisturbed = record {
  no_error = λ t. ground arith;
  room = λ t. omega arith;
  no_refusal = λ t e h r. absurd (ground arith);
}

abbrev two_in_queue : Kqueue level_kernel
two_in_queue = record { kq = record { listed = λ fd filter. fd == 3; waiting = 2 }; closed = false }

accept_new_connection-all_example :
    let (e, (log', k')) =
      accept_new_connection
        (kqueue_loop level_kernel 10)
        3
        (accept_on level_kernel next_one)
        (λ fd k. all_fine)
        2
        ([], two_in_queue) in
    (e ≡ none) × (count is_accepted log' + k'.kq.waiting ≡ 2) × (k'.kq.waiting ≤ 0)
unfolding next_one-LevelTriggered
accept_new_connection-all_example =
    accept_new_connection-all level_kernel next_one 3 next_one-LevelTriggered (λ fd k. all_fine) 10
      next_one-Undisturbed 2 [] two_in_queue refl

unregister-one_example :
    ((Kqueue.unregister level_kernel 3 evfilt_read two_in_queue).0 ≡ none)
    × ((Kqueue.unregister level_kernel 3 evfilt_read two_in_queue).1.kq.listed 3 evfilt_read
        ≡ false)
    × ((Kqueue.unregister level_kernel 3 evfilt_read two_in_queue).1.kq.listed 3 evfilt_write
        ≡ true)
unregister-one_example =
    unregister-one level_kernel 3 evfilt_read evfilt_write two_in_queue refl (λ e. read≢write e)
  where
    read≢write : evfilt_read ≡ evfilt_write → ⊥
    read≢write e = ground arith
