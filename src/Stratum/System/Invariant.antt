-- ===== src/Stratum/System/Invariant.antt =====
-- What holds in every state that the client reaches, however its tasks are interleaved.
use minebtx.Prelude.{ℕ, refl, arith, List, [], ◌∷◌}
use minebtx.Config.{MinerConfig}
use minebtx.Solver.Daemon.{force_restart, shutdown_daemon}
use minebtx.Solver.Steps.{step-IsOwn, shutdown_daemon-IsOwn}
use minebtx.Stratum.Job.{to_solve_challenge}
use minebtx.Stratum.Rpc.Invariant.{
  fresh-IsValid, begin_call-IsValid, time_out-IsValid, closed-IsValid,
}
use minebtx.Stratum.Client.{new_client}
use minebtx.Stratum.Search.{begin_slice}
use minebtx.Stratum.Heal.{heal_finish}
use minebtx.Stratum.Names.{Store}
use minebtx.Stratum.Messages.{State}
use minebtx.Stratum.Session.{start_window, end_session}
use minebtx.Stratum.System.{
  Action, opens, closes, sends, subscribes, starts, receives, gives_up, begins, solves, ends,
  advances, judges, restarts, perform, run,
}
use minebtx.Stratum.System.Steps.{
  IsSound, same-IsSound, submit-IsSound, finish-IsSound, begin-IsSound, advance-IsSound,
  subscribed-IsSound, message-IsSound,
}

fresh-IsSound : (cfg : MinerConfig) (now : ℕ) → IsSound (new_client cfg now)
fresh-IsSound cfg now = record {
  requests = fresh-IsValid;
  own = tt;
  counted = (omega arith, omega arith);
}

-- Each action of a client keeps it sound.
pub perform-IsSound : (a : Action) (s : State) → IsSound s.0 → IsSound (perform a s).0
unfolding perform end_session start_window heal_finish begin_slice force_restart shutdown_daemon
perform-IsSound opens s h = same-IsSound s.0 _ refl refl refl refl h
perform-IsSound closes s h = record {
  requests = closed-IsValid s.0.rpc h.requests;
  own = h.own;
  counted = h.counted;
}
perform-IsSound sends s h = record {
  requests = begin_call-IsValid s.0.connected s.0.rpc h.requests;
  own = h.own;
  counted = h.counted;
}
perform-IsSound (subscribes reply) s h = subscribed-IsSound s.0 reply h
perform-IsSound (starts now) s h = record {
  requests = h.requests;
  own = h.own;
  counted = (omega arith, h.counted.1);
}
perform-IsSound (receives host msg) s h = message-IsSound host msg s h
perform-IsSound (gives_up id) s h = record {
  requests = time_out-IsValid id s.0.rpc h.requests;
  own = h.own;
  counted = h.counted;
}
perform-IsSound (begins job) s h = begin-IsSound s.0 job (to_solve_challenge job) h
perform-IsSound (solves change) s h = record {
  requests = h.requests;
  own = step-IsOwn change s.0.solver h.own;
  counted = h.counted;
}
perform-IsSound (ends job start r now) s h = finish-IsSound s.0 job start r now h
perform-IsSound (advances job next) s h = advance-IsSound s.0 job next h
perform-IsSound (judges share r now) s h = submit-IsSound s.0 share r now h
perform-IsSound (restarts now) s h = record {
  requests = h.requests;
  own = shutdown_daemon-IsOwn s.0.solver h.own;
  counted = (omega arith, h.counted.1);
}

run_from-IsSound : (actions : List Action) (s : State) → IsSound s.0 → IsSound (run actions s).0
unfolding run
run_from-IsSound [] s h = h
run_from-IsSound (a ∷ actions) s h = run_from-IsSound actions (perform a s) (perform-IsSound a s h)

-- However the tasks of a new client are interleaved, the slice's task and a restart of the daemon included,
-- and whatever the pool, the daemon and the clock do: no request waits twice or after it was settled, the
-- daemon has the path, the settings and the environment of the client's wrapper for some shape of the work, the
-- streak of rejects is at most the rejects, and the blocks are at most the accepted shares.
pub run-IsSound :
    (actions : List Action) (cfg : MinerConfig) (now : ℕ) (names : Store)
    → IsSound (run actions (new_client cfg now, names)).0
run-IsSound actions cfg now names =
    run_from-IsSound actions (new_client cfg now, names) (fresh-IsSound cfg now)
