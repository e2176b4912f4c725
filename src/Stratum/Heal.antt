-- ===== src/Stratum/Heal.antt =====
-- `_heal_loop`: when the watchdog restarts the solver daemon, and what it notes about it.
use minebtx.Prelude.{
  ℕ, suc, ◌+◌, ◌*◌, min, Option, none, some, List, [], ◌∷◌, Bool, true, false, ◌&&◌, ltb, leb,
  if◌then◌else◌,
}
use minebtx.Py.Result.{Result}
use minebtx.Py.Value.{Value}
use minebtx.Solver.Challenge.{SolveResult}
use minebtx.Solver.Daemon.{force_restart}
use minebtx.Stratum.Client.{Client, Watch}
use minebtx.Stratum.Submit.{finish_submit}
use minebtx.Stratum.Search.{returned}
use minebtx.Stratum.Session.{start_window}
pub mod Runs

-- The cooldown grows while restarts do not lead to an accepted share.
unfoldable pub heal_cooldown : Client → ℕ
heal_cooldown c = c.cfg.heal_cooldown_secs * (1 + min c.watch.heals_without_accept 5)

-- Trigger B: too many rejects in a row.
abbrev pub is_desynced : Client → Bool
is_desynced c = leb c.cfg.heal_consec_rejects c.watch.consec_rejects

-- Trigger A: no result of the solver for too long, after the start of the session.
abbrev pub is_hung : Client → ℕ → Bool
is_hung c now =
    ltb (c.watch.last_solver_result_at + c.cfg.heal_solver_stall_secs) now
    && ltb (c.watch.session_started_at + c.cfg.heal_first_slice_grace_secs) now

-- Whether a check at a time of the monotonic clock starts a restart.
unfoldable pub heal_due : Client → ℕ → Bool
unfolding heal_cooldown
heal_due c now =
    if ltb now (c.watch.last_heal_at + heal_cooldown c)
    then false
    else if is_desynced c
    then true
    else is_hung c now

-- The end of the restart that a check at `now` began.
unfoldable pub heal_finish : Client → ℕ → Client
heal_finish c now = record c {
  solver = force_restart c.solver;
  watch = record c.watch {
    last_heal_at = now;
    heals_without_accept = suc c.watch.heals_without_accept;
    consec_rejects = 0;
    last_solver_result_at = now;
  };
}

-- What the watchdog sees: the end of its own sleep, the end of a restart, the end of a submission, a
-- slice's result, and a new session. Times are of the monotonic clock.
pub data Event : Type 0 where
  wakes : ℕ → Event
  restarted : Event
  submitted : SolveResult → Result Value → ℕ → Event
  solved : ℕ → Event
  reconnected : ℕ → Event

-- The client, and the time of the check whose restart is under way.
abbrev pub Watched : Type 0
Watched = Client × Option ℕ

abbrev pub start_if : Bool → Client → ℕ → Watched
start_if true c now = (c, some now)
start_if false c now = (c, none)

-- The loop sleeps and checks only while no restart of it is under way.
abbrev pub wake : ℕ → Watched → Watched
wake now (c, none) = start_if (c.cfg.heal_enabled && heal_due c now) c now
wake now (c, some t) = (c, some t)

-- The loop goes on after its restart.
abbrev pub finish : Watched → Watched
finish (c, none) = (c, none)
finish (c, some t) = (heal_finish c t, none)

unfoldable pub step : Event → Watched → Watched
step (wakes now) s = wake now s
step restarted s = finish s
step (submitted share r now) (c, under_way) = (finish_submit c share r now, under_way)
step (solved now) (c, under_way) = (returned c now, under_way)
step (reconnected now) (c, under_way) = (start_window c now, none)

-- The time that an event adds to the restarts that were made.
abbrev pub made : Event → Watched → List ℕ → List ℕ
made restarted (c, some t) rest = t ∷ rest
made e s rest = rest

-- The restarts of a run, by the times of their checks.
unfoldable pub heals : List Event → Watched → List ℕ
unfolding step
heals [] s = []
heals (e ∷ es) s = made e s (heals es (step e s))
