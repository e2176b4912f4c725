-- ===== src/Stratum/Client.antt =====
-- `StratumClient`: the state of the client.
use minebtx.Prelude.{ℕ, Bool, false, Option, none, some, []}
use minebtx.Prelude.Int.{ℤ, pos}
use minebtx.Py.Value.{Value, Decimal, null, str}
use minebtx.Config.{MinerConfig}
use minebtx.Solver.Env.{SolverEnv}
use minebtx.Solver.Daemon.{Wrapper}
use minebtx.Stratum.Job.{Job}
use minebtx.Stratum.Rpc.{Rpc, fresh}

-- What the watchdog knows, with times in milliseconds of the monotonic clock.
pub record Watch : Type 0 where
  pub session_started_at : ℕ
  pub last_accept_at : ℕ
  pub last_solver_result_at : ℕ
  pub consec_rejects : ℕ
  pub last_heal_at : ℕ
  pub heals_without_accept : ℕ

pub record Stats : Type 0 where
  pub shares_accepted : ℕ
  pub shares_rejected : ℕ
  pub blocks_found : ℕ

-- `inflight_parent` is the parent block of the slice that began last, until that slice returns: a slice that raises
-- or is cancelled leaves it. The background tasks and the reader and
-- writer appear as steps of the client, and as the flag that tells whether it is connected.
pub record Client : Type 0 where
  pub cfg : MinerConfig
  pub solver : Wrapper
  pub connected : Bool
  pub rpc : Rpc
  pub current_job : Option Job
  pub inflight_parent : Value
  pub extranonce1 : Value
  pub extranonce2_size : ℤ
  pub difficulty : Decimal
  pub watch : Watch
  pub stats : Stats

-- The environment settings that the client gives its solver.
abbrev pub solver_env_of : MinerConfig → SolverEnv
solver_env_of cfg = record {
  batch_size = cfg.solver_batch_size;
  prefetch_depth = cfg.solver_prefetch_depth;
  prepare_workers = cfg.solver_prepare_workers;
  pipeline_async = cfg.solver_pipeline_async;
  gpu_inputs = cfg.gpu_inputs;
  solver_threads = cfg.solver_threads;
  backend = some cfg.solver_backend;
  pool_slots = none;
  extra = [];
}

abbrev pub new_wrapper : MinerConfig → Wrapper
new_wrapper cfg = record {
  gbt_solve_path = cfg.gbt_solve_path;
  backend = cfg.solver_backend;
  solver_threads = cfg.solver_threads;
  batch_size = cfg.solver_batch_size;
  solver_env = solver_env_of cfg;
  daemon = none;
  matmul_params = none;
  preempt_capable = false;
}

-- `StratumClient(cfg)` at a time of the monotonic clock.
abbrev pub new_client : MinerConfig → ℕ → Client
new_client cfg now = record {
  cfg = cfg;
  solver = new_wrapper cfg;
  connected = false;
  rpc = fresh;
  current_job = none;
  inflight_parent = null;
  extranonce1 = str "";
  extranonce2_size = pos 4;
  difficulty = record { mantissa = pos 1; scale = 0 };
  watch = record {
    session_started_at = now;
    last_accept_at = now;
    last_solver_result_at = now;
    consec_rejects = 0;
    last_heal_at = 0;
    heals_without_accept = 0;
  };
  stats = record { shares_accepted = 0; shares_rejected = 0; blocks_found = 0 };
}
