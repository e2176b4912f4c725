-- ===== src/Solver/Env/Laws.antt =====
-- What the daemon's environment holds at each name.
use minebtx.Prelude.{String, ◌≡◌, ◌∙◌, Option, some, [], ◌∷◌, ap, str_eq}
use minebtx.Py.Assoc.{
  Assoc, lookup, setdefault, override, when, last, choose, lookup-update, lookup-insert_all,
  lookup-setdefault, override_assoc,
}
use minebtx.Solver.Env.{SolverEnv, shown, to_env}

-- The names that the wrapper sets from its configuration.
abbrev pub settings : SolverEnv → Assoc (Option String)
settings e =
    ("BTX_MATMUL_SOLVER_THREADS", shown e.solver_threads)
    ∷ ("BTX_MATMUL_GPU_INPUTS", shown e.gpu_inputs)
    ∷ ("BTX_MATMUL_PIPELINE_ASYNC", shown e.pipeline_async)
    ∷ ("BTX_MATMUL_PREPARE_WORKERS", shown e.prepare_workers)
    ∷ ("BTX_MATMUL_PREPARE_PREFETCH_DEPTH", shown e.prefetch_depth)
    ∷ ("BTX_MATMUL_SOLVE_BATCH_SIZE", shown e.batch_size)
    ∷ ("BTX_MATMUL_BACKEND", e.backend)
    ∷ []

-- The values of last resort.
abbrev pub fallback : String → Option String
fallback k =
    override (when (str_eq k "BTX_CUDA_ALLOW_OLDER_GPUS") (some "1"))
      (when (str_eq k "BTX_MINER_HEADER_TIME_REFRESH_ATTEMPTS") (some "4294967295"))

lookup-fallback :
    (k : String) (base : Assoc String)
    → lookup k (
        setdefault "BTX_MINER_HEADER_TIME_REFRESH_ATTEMPTS" "4294967295"
          (setdefault "BTX_CUDA_ALLOW_OLDER_GPUS" "1" base))
      ≡ override (lookup k base) (fallback k)
lookup-fallback k base = simp (lookup-setdefault, override_assoc)

-- At every name the environment holds what `extra` says, else what the configuration sets, else what
-- the base environment holds, else the value of last resort.
pub lookup-to_env :
    (e : SolverEnv) (base : Assoc String) (k : String)
    → lookup k (to_env e base)
      ≡ override
          (last k e.extra)
          (override (choose k (settings e)) (override (lookup k base) (fallback k)))
unfolding to_env
lookup-to_env e base k =
    lookup-update k _ e.extra
    ∙ ap (override (last k e.extra)) (
        lookup-insert_all k (settings e) _
        ∙ ap (override (choose k (settings e))) (lookup-fallback k base))
