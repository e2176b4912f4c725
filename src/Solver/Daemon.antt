-- ===== src/Solver/Daemon.antt =====
-- `GbtSolveWrapper`: starting, asking, stopping and preempting the solver daemon.
-- The daemon is a process outside this program. What it does is `solve`, the line that it answers
-- a job with; what the pipes and the operating system do in a step is an argument of the step.
use minebtx.Prelude.{
  String, Bool, true, false, not, ◌&&◌, Option, none, some, List, [], ◌∷◌, ◌++◌, str_eq,
  if◌then◌else◌,
}
use minebtx.Prelude.Int.{ℤ, pos, eq_ℤ}
use minebtx.Py.Result.{Error, Result, ok, err, runtime_error, attribute_error, cancelled}
use minebtx.Py.Value.{Value, bool, dict, find_or, truthy}
use minebtx.Py.Text.{show_int}
use minebtx.Py.Assoc.{Assoc}
use minebtx.Solver.Challenge.{Shape, same_shape}
use minebtx.Solver.Env.{SolverEnv, to_env}

-- A line of output, by what `json.loads` makes of it.
pub data Line : Type 0 where
  malformed : Line
  parsed : Value → Line

-- A daemon process: its arguments and environment, and the answers in its pipe that nobody has read.
pub record Process : Type 0 where
  pub alive : Bool
  pub args : List String
  pub env : Assoc String
  pub unread : List Line

pub record Wrapper : Type 0 where
  pub gbt_solve_path : String
  pub backend : String
  pub solver_threads : Option ℤ
  pub batch_size : Option ℤ
  pub solver_env : SolverEnv
  pub daemon : Option Process
  pub matmul_params : Option Shape
  pub preempt_capable : Bool

-- How a start of the daemon goes: it cannot be started, it is silent for 30 seconds, the task is cancelled
-- while it waits, the watchdog's `force_restart` ends while it waits, or a first line comes. The end of the
-- output of a process that has exited counts as a line that is no JSON. The flag is whether the process runs on.
pub data Start : Type 0 where
  refused : Error → Start
  silent : Start
  interrupted : Bool → Start
  bounced : Line → Start
  ready : Bool → Line → Start

-- How the exchange of one job goes: the write fails, no line comes in time, the output is closed,
-- the task is cancelled while it waits, or a line comes.
pub data Exchange : Type 0 where
  write_failed late closed abandoned answered : Exchange

abbrev option_flag : String → Option ℤ → List String
option_flag flag none = []
option_flag flag (some z) = if eq_ℤ z (pos 0) then [] else flag ∷ show_int z ∷ []

-- The daemon's command line.
unfoldable pub command : Wrapper → Shape → List String
command w s =
    (w.gbt_solve_path
      ∷ "--matmul-n"
      ∷ show_int s.matmul_n
      ∷ "--matmul-b"
      ∷ show_int s.matmul_b
      ∷ "--matmul-r"
      ∷ show_int s.matmul_r
      ∷ "--epsilon-bits"
      ∷ show_int s.epsilon_bits
      ∷ "--daemon"
      ∷ [])
    ++ ((if str_eq w.backend "" then [] else "--backend" ∷ w.backend ∷ [])
        ++ (option_flag "--solver-threads" w.solver_threads
            ++ option_flag "--batch-size" w.batch_size))

-- `_shutdown_daemon`. However the process ends, closed or killed, it is forgotten.
unfoldable pub shutdown_daemon : Wrapper → Wrapper
shutdown_daemon w = elim w.daemon [
  | none ↦ w
  | some p ↦ record w { daemon = none; matmul_params = none }
]

unfoldable pub force_restart : Wrapper → Wrapper
unfolding shutdown_daemon
force_restart w = shutdown_daemon w

-- Whether the ready line advertises preemption.
unfoldable pub advertises_preempt : Line → Bool
advertises_preempt (parsed (dict d)) = truthy (find_or "preempt" (bool false) d)
advertises_preempt _ = false

abbrev pub changed_shape : Option Shape → Shape → Bool
changed_shape none s = true
changed_shape (some t) s = not (same_shape t s)

-- The process that a start with this shape launches.
abbrev pub launched : Wrapper → Assoc String → Shape → Process
launched w base s = record {
  alive = true;
  args = command w s;
  env = to_env w.solver_env base;
  unread = [];
}

abbrev pub as_left : Bool → Process → Process
as_left alive p = record p { alive = alive }

-- The part of `_ensure_daemon` that starts a new process. Behind a `force_restart` it returns `None`, which its
-- caller asks for its `stdin`: that AttributeError is the result here.
unfoldable pub start_daemon : Wrapper → Assoc String → Shape → Start → Result Process × Wrapper
unfolding shutdown_daemon advertises_preempt
start_daemon w base s (refused e) = (err e, w)
start_daemon w base s silent =
    (err runtime_error, shutdown_daemon (record w { daemon = some (launched w base s) }))
start_daemon w base s (interrupted alive) =
    (err cancelled, record w { daemon = some (as_left alive (launched w base s)) })
start_daemon w base s (bounced line) = (
  err attribute_error,
  record w { daemon = none; matmul_params = some s; preempt_capable = advertises_preempt line },
)
start_daemon w base s (ready alive line) = (
  ok (as_left alive (launched w base s)),
  record w {
    daemon = some (as_left alive (launched w base s));
    matmul_params = some s;
    preempt_capable = advertises_preempt line;
  },
)

-- `_ensure_daemon` behind its check of the shape.
unfoldable pub reuse_or_start : Wrapper → Assoc String → Shape → Start → Result Process × Wrapper
reuse_or_start w base s start = elim w.daemon [
  | none ↦ start_daemon w base s start
  | some p ↦ if p.alive then (ok p, w) else start_daemon w base s start
]

unfoldable pub ensure_daemon : Wrapper → Assoc String → Shape → Start → Result Process × Wrapper
unfolding reuse_or_start
ensure_daemon w base s start = elim w.daemon [
  | none ↦ reuse_or_start w base s start
  | some p ↦
      if changed_shape w.matmul_params s
      then reuse_or_start (shutdown_daemon w) base s start
      else reuse_or_start w base s start
]

-- `preempt`: whether SIGUSR1 was delivered; `delivers` is what `send_signal` does.
unfoldable pub preempt : Wrapper → Bool → Bool
preempt w delivers =
    if w.preempt_capable
    then (elim w.daemon [ none ↦ false | some p ↦ p.alive && delivers ])
    else false
