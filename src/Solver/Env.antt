-- ===== src/Solver/Env.antt =====
-- `SolverEnv` and the environment that it gives the daemon.
use minebtx.Prelude.{String, Option, none, some}
use minebtx.Prelude.Int.{ℤ}
use minebtx.Py.Assoc.{Assoc, insert, setdefault, update, insert_some}
use minebtx.Py.Text.{show_int}
pub mod Laws

pub record SolverEnv : Type 0 where
  pub batch_size : Option ℤ
  pub prefetch_depth : Option ℤ
  pub prepare_workers : Option ℤ
  pub pipeline_async : Option ℤ
  pub gpu_inputs : Option ℤ
  pub solver_threads : Option ℤ
  pub backend : Option String
  pub pool_slots : Option ℤ
  pub extra : Assoc String

abbrev pub shown : Option ℤ → Option String
shown none = none
shown (some z) = some (show_int z)

-- `to_env(base)`; the source takes the process's environment where no base is given.
unfoldable pub to_env : SolverEnv → Assoc String → Assoc String
to_env e base =
    let older = setdefault "BTX_CUDA_ALLOW_OLDER_GPUS" "1" base in
    let fixed_time = setdefault "BTX_MINER_HEADER_TIME_REFRESH_ATTEMPTS" "4294967295" older in
    let backend = insert_some "BTX_MATMUL_BACKEND" e.backend fixed_time in
    let batch = insert_some "BTX_MATMUL_SOLVE_BATCH_SIZE" (shown e.batch_size) backend in
    let prefetch = insert_some "BTX_MATMUL_PREPARE_PREFETCH_DEPTH" (shown e.prefetch_depth) batch in
    let workers = insert_some "BTX_MATMUL_PREPARE_WORKERS" (shown e.prepare_workers) prefetch in
    let pipeline = insert_some "BTX_MATMUL_PIPELINE_ASYNC" (shown e.pipeline_async) workers in
    let inputs = insert_some "BTX_MATMUL_GPU_INPUTS" (shown e.gpu_inputs) pipeline in
    let threads = insert_some "BTX_MATMUL_SOLVER_THREADS" (shown e.solver_threads) inputs in
    update threads e.extra
