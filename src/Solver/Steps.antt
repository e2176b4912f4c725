-- ===== src/Solver/Steps.antt =====
-- The wrapper's changes between two awaits, of a slice's task and of `force_restart`, which takes no lock: in any
-- order, they are every interleaving of the two. `_ensure_daemon` and `_send_job_with_retry` are the source.
use minebtx.Prelude.{
  String, ◌≡◌, refl, Bool, true, Option, none, some, List, [], ◌∷◌, Option-cases, inl, inr,
  if◌then◌else◌,
}
use minebtx.Py.Assoc.{Assoc}
use minebtx.Solver.Challenge.{Shape}
use minebtx.Solver.Env.{to_env}
use minebtx.Solver.Daemon.{
  Line, Process, Wrapper, launched, command, advertises_preempt, shutdown_daemon,
}
pub mod Runs

-- A new process is launched; its first line is read, for the shape that it was launched with; it writes, is read
-- from, or exits; a process is forgotten, at the end of `_shutdown_daemon`.
pub data Step : Type 0 where
  spawned : Assoc String → Shape → Step
  signalled : Shape → Line → Step
  went_on : Bool → List Line → Step
  stopped : Step

abbrev pub step : Step → Wrapper → Wrapper
step (spawned base s) w = record w { daemon = some (launched w base s) }
step (signalled s line) w = record w {
  matmul_params = some s;
  preempt_capable = advertises_preempt line;
}
step (went_on alive unread) w = record w {
  daemon = elim w.daemon [
    | none ↦ none
    | some p ↦ some (record p { alive = alive; unread = unread })
  ];
}
step stopped w = record w { daemon = none; matmul_params = none }

abbrev pub run_steps : List Step → Wrapper → Wrapper
run_steps [] w = w
run_steps (s ∷ steps) w = run_steps steps (step s w)

-- A process that this wrapper launched, for some shape and over some environment.
abbrev pub IsLaunched : Wrapper → Process → Type 0
IsLaunched w p =
    (s : Shape) × (base : Assoc String) × (p.args ≡ command w s)
    × (p.env ≡ to_env w.solver_env base)

abbrev pub OwnDaemon : Wrapper → Option Process → Type 0
OwnDaemon w none = Unit {0}
OwnDaemon w (some p) = IsLaunched w p

-- The daemon, if there is one, has the path, the settings and the environment of this wrapper.
abbrev pub IsOwn : Wrapper → Type 0
IsOwn w = OwnDaemon w w.daemon

went_on-OwnDaemon :
    (w : Wrapper) (alive : Bool) (unread : List Line) (o : Option Process)
    → OwnDaemon w o
    → OwnDaemon w
        (elim o [ none ↦ none | some p ↦ some (record p { alive = alive; unread = unread }) ])
went_on-OwnDaemon w alive unread none h = tt
went_on-OwnDaemon w alive unread (some p) h = h

-- A change of the rest of the wrapper.
same-OwnDaemon :
    (w : Wrapper) (s : Shape) (capable : Bool) (o : Option Process)
    → OwnDaemon w o
    → OwnDaemon (record w { matmul_params = some s; preempt_capable = capable }) o
unfolding command
same-OwnDaemon w s capable none h = tt
same-OwnDaemon w s capable (some p) h = h

moved-OwnDaemon :
    (w : Wrapper) (q o : Option Process) → OwnDaemon w o → OwnDaemon (record w { daemon = q }) o
unfolding command
moved-OwnDaemon w q none h = tt
moved-OwnDaemon w q (some p) h = h

pub step-IsOwn : (s : Step) (w : Wrapper) → IsOwn w → IsOwn (step s w)
unfolding command
step-IsOwn (spawned base s) w h = (s, base, refl, refl)
step-IsOwn (signalled s line) w h = same-OwnDaemon w s (advertises_preempt line) w.daemon h
step-IsOwn (went_on alive unread) w h =
    moved-OwnDaemon w (step (went_on alive unread) w).daemon (step (went_on alive unread) w).daemon
      (went_on-OwnDaemon w alive unread w.daemon h)
step-IsOwn stopped w h = tt

pub shutdown_daemon-IsOwn : (w : Wrapper) → IsOwn w → IsOwn (shutdown_daemon w)
unfolding shutdown_daemon
shutdown_daemon-IsOwn w h = elim (Option-cases w.daemon) [ inl e ↦ rw e tt | inr (p, e) ↦ rw e tt ]
