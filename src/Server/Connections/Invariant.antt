-- ===== src/Server/Connections/Invariant.antt =====
-- What holds of the sessions and the threads of server/eventloop/main.go after any steps.
use fleare.Prelude.{◌+◌, ◌≤◌, ◌≡◌, refl, sym, ◌∙◌, Bool, true, some, [], arith}
use mathlib.Core.Option.{none-ne-some}
use fleare.Prelude.Bytes.{Bytes}
use fleare.Prelude.Dict.{lookup, lookup-nil}
use fleare.Server.Sessions.{Users}
use fleare.Server.Connections.{
  IoThread, IoThreadManager, max_clients_reached, stop_all, register, unregister, Phase, accepted,
  serving, closing, Server, new_server, Step, accept_step, give_up_step, start_step, unload_step,
  stop_step, finish_step, Reached, at_start, next,
}
use fleare.Server.Connections.Sound.{
  Sound, unloaded_count, idle_if, accept-Sound, give_up-Sound, finish-Sound,
}
use fleare.Server.Connections.Threads.{start-Sound, unload-Sound, stop-Sound}

Step-Sound :
    (enable_auth : Bool) (users : Users) (s t : Server)
    → Sound s
    → Step enable_auth users s t
    → Sound t
Step-Sound enable_auth users s t h (accept_step clock username password id n) =
    accept-Sound enable_auth users clock username password id s h n
Step-Sound enable_auth users s t h (give_up_step id a) =
    give_up-Sound id s h (idle_if id s (some accepted) a (λ e. cc))
Step-Sound enable_auth users s t h (start_step id fd a) = start-Sound id fd s h a
Step-Sound enable_auth users s t h (unload_step id a) = unload-Sound id s h a
Step-Sound enable_auth users s t h (stop_step stops id th a) = stop-Sound stops id th s h a
Step-Sound enable_auth users s t h (finish_step id a) =
    finish-Sound id s h (idle_if id s (some closing) a (λ e. cc))

new_server-Sound : Sound new_server
new_server-Sound = record {
  has_session = λ id p e. absurd (none_there id p e);
  serves = λ id t e. absurd (no_thread id t e);
  served = λ id e. absurd (none_there id serving e);
  counted = none_counted;
  bounded = omega arith;
}
  where
    none_counted : 0 + unloaded_count [] ≤ 0
    none_counted = unfold unloaded_count in omega arith

    none_there : (id : Bytes) (p : Phase) → ¬ (lookup {V = Phase} id [] ≡ some p)
    none_there id p e = none-ne-some p (sym (lookup-nil id) ∙ e)

    no_thread : (id : Bytes) (t : IoThread) → ¬ (lookup {V = IoThread} id [] ≡ some t)
    no_thread id t e = none-ne-some t (sym (lookup-nil id) ∙ e)

-- After any steps of any connections, in any order, every connection that was let in and is not yet
-- cleared away has a session, the registered threads are exactly those of the connections that are
-- served, and there are, with those that were taken from the table to be stopped, at most as many of
-- them as are counted, and at most 100000. No two connections that last at a time have the same id,
-- which is a condition of a step.
pub Reached-Sound :
    (enable_auth : Bool) (users : Users) (s : Server) → Reached enable_auth users s → Sound s
Reached-Sound enable_auth users s at_start = new_server-Sound
Reached-Sound enable_auth users t (next {s} r step) =
    Step-Sound enable_auth users s t (Reached-Sound enable_auth users s r) step

-- If a client is connected when StopAll is called, and it is unregistered after that, then the count
-- of threads is 4294967295, and every further client is refused, as if there were too many.
register-stop_all :
    (id : Bytes) (t : IoThread) (m : IoThreadManager) (more : IoThread)
    → lookup id m.connected_clients ≡ some t
    → ((unregister true id (stop_all m)).1.num_io_threads ≡ 4294967295)
      × (register more (unregister true id (stop_all m)).1
          ≡ (some max_clients_reached, (unregister true id (stop_all m)).1))
unfolding register unregister
register-stop_all id t m more e = rw e (refl, refl)
