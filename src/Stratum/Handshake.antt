-- ===== src/Stratum/Handshake.antt =====
-- The solver settings that `_handshake` reports to the pool. The rest of the report describes the hardware.
use minebtx.Prelude.{
  String, ◌≡◌, Bool, true, false, not, ◌&&◌, Option, none, some, [], ◌∷◌, starts_with, eq_iff,
  arith, if◌then◌else◌,
}
use minebtx.Prelude.Int.{ℤ}
use minebtx.Py.Value.{Value, null, int, str}
use minebtx.Py.Assoc.{Assoc, lookup, insert, lookup-insert, override, when}
use minebtx.Config.{MinerConfig}

abbrev int_or_null : Option ℤ → Value
int_or_null none = null
int_or_null (some z) = int z

-- The settings of the configuration.
abbrev pub configured : MinerConfig → Assoc Value
configured cfg =
    ("BTX_MATMUL_BACKEND", str cfg.solver_backend)
    ∷ ("BTX_MATMUL_GPU_INPUTS", int_or_null cfg.gpu_inputs)
    ∷ ("BTX_MATMUL_SOLVE_BATCH_SIZE", int_or_null cfg.solver_batch_size)
    ∷ ("BTX_MATMUL_PREPARE_PREFETCH_DEPTH", int_or_null cfg.solver_prefetch_depth)
    ∷ ("BTX_MATMUL_PREPARE_WORKERS", int_or_null cfg.solver_prepare_workers)
    ∷ ("BTX_MATMUL_PIPELINE_ASYNC", int_or_null cfg.solver_pipeline_async)
    ∷ ("BTX_MATMUL_SOLVER_THREADS", int_or_null cfg.solver_threads)
    ∷ []

abbrev pub is_matmul : String → Bool
is_matmul k = starts_with k "BTX_MATMUL_"

abbrev pub is_there : Option Value → Bool
is_there none = false
is_there (some v) = true

-- A variable of the shell is added if nothing has its name.
unfoldable pub add_missing : Assoc Value → Assoc String → Assoc Value
add_missing acc [] = acc
add_missing acc ((k, v) ∷ env) =
    add_missing (if is_matmul k && not (is_there (lookup k acc)) then insert k (str v) acc else acc)
      env

unfoldable pub reported_env : MinerConfig → Assoc String → Assoc Value
unfolding add_missing
reported_env cfg env = add_missing (configured cfg) env

abbrev pub text_of : Option String → Option Value
text_of none = none
text_of (some s) = some (str s)

lookup-add_missing :
    (k : String) (acc : Assoc Value) (env : Assoc String)
    → lookup k (add_missing acc env)
      ≡ override (lookup k acc) (when (is_matmul k) (text_of (lookup k env)))
unfolding add_missing
lookup-add_missing k acc [] = ground arith
lookup-add_missing k acc ((j, v) ∷ env) = ground (
  arith,
  lookup-add_missing k (insert j (str v) acc) env,
  lookup-add_missing k acc env,
  lookup-insert j k (str v) acc,
  eq_iff k j,
)

-- For each name the report has the configuration's setting, a null included, and only where the configuration
-- has none under that name the shell's variable, if the name begins with BTX_MATMUL_.
lookup-reported_env :
    (cfg : MinerConfig) (env : Assoc String) (k : String)
    → lookup k (reported_env cfg env)
      ≡ override (lookup k (configured cfg)) (when (is_matmul k) (text_of (lookup k env)))
unfolding reported_env
lookup-reported_env cfg env k = lookup-add_missing k (configured cfg) env
