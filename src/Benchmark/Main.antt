-- ===== src/Benchmark/Main.antt =====
-- `_default_sweep` and `main`: the dimensions of a sweep, the recommendation, and the rewriting of the configuration.
pub mod Written
pub mod Sweep
pub mod Best
use minebtx.Prelude.{
  ℕ, ◌/◌, max, String, Bool, true, false, not, ◌&&◌, Option, none, some, List, [], ◌∷◌, map, str_eq,
  ltb, ◌==◌, if◌then◌else◌,
}
use minebtx.Prelude.Int.{ℤ, pos}
use minebtx.Py.Result.{Result, ok, err, key_error, or_raise, ◌>>=◌}
use minebtx.Py.Value.{Value, dict, str, int, end, set_item, or_else}
use minebtx.Py.Text.{strip_text, show_int}
use minebtx.Py.Number.{int_of_text}
use minebtx.Py.Assoc.{Assoc, lookup}
use minebtx.Py.Lines.{split, join}
use minebtx.Benchmark.{BenchResult, Grid, Outcome, grid_envs, run_one, rated, sort_rated}

-- The dimensions as texts.
pub record Dimensions : Type 0 where
  pub backend : String
  pub threads : String
  pub batches : String
  pub prefetches : String
  pub workers : String

-- A number into an ascending list without repetition.
add_sorted : ℕ → List ℕ → List ℕ
add_sorted n [] = n ∷ []
add_sorted n (m ∷ ms) =
    let rest = m ∷ add_sorted n ms in
    if n == m then m ∷ ms else if ltb n m then n ∷ m ∷ ms else rest

-- `sorted({4, max(2, ncpu // 2), ncpu})`
pub thread_set : ℕ → List ℕ
thread_set ncpu = add_sorted 4 (add_sorted (max 2 (ncpu / 2)) (ncpu ∷ []))

pub show_list : List ℤ → String
show_list zs = join "," (map show_int zs)

pub default_sweep : Bool → ℕ → Dimensions
default_sweep true ncpu = record {
  backend = "mlx,metal";
  threads = show_list (map pos (thread_set ncpu));
  batches = "128";
  prefetches = "8";
  workers = "8";
}
default_sweep false ncpu = record {
  backend = "cuda";
  threads = "4";
  batches = "32,64,128,256";
  prefetches = "8";
  workers = "8";
}

read_all : List String → Result (List ℤ)
read_all [] = ok []
read_all (s ∷ ss) = int_of_text 10 s >>= λ z. read_all ss >>= λ zs. ok (z ∷ zs)

-- `[int(t) for t in s.split(",")]`
pub read_list : String → Result (List ℤ)
read_list s = read_all (split b',' s)

named : List String → List String
named [] = []
named (s ∷ ss) = if str_eq (strip_text s) "" then named ss else strip_text s ∷ named ss

-- The sweep that the dimensions describe.
unfoldable pub grid_of : Dimensions → ℤ → ℤ → Result Grid
unfolding read_list read_all named split strip_text int_of_text
grid_of d pipeline_async gpu_inputs = read_list d.threads >>= λ threads.
    read_list d.batches >>= λ batches. read_list d.prefetches >>= λ prefetches.
    read_list d.workers >>= λ workers. ok (record {
      backends = named (split b',' d.backend);
      threads = threads;
      batches = batches;
      prefetches = prefetches;
      workers = workers;
      pipeline_async = pipeline_async;
      gpu_inputs = gpu_inputs;
    })

-- The results of a sweep, where a run goes as `outcome` says.
sweep_envs : (Assoc String → Outcome) → List (Assoc String) → Result (List BenchResult)
sweep_envs outcome [] = ok []
sweep_envs outcome (env ∷ envs) =
    run_one env (outcome env) >>= λ r. sweep_envs outcome envs >>= λ rs. ok (r ∷ rs)

unfoldable pub sweep : (Assoc String → Outcome) → Grid → Result (List BenchResult)
unfolding sweep_envs run_one
sweep outcome g = sweep_envs outcome (grid_envs g)

text_at : String → Assoc String → Result String
text_at k env = or_raise (lookup k env) key_error

number_at : String → Assoc String → Result ℤ
number_at k env = text_at k env >>= int_of_text 10

-- `cfg[name] = int(best.env[k])`
put_number : String → String → Assoc String → Value → Result Value
put_number name k env cfg = number_at k env >>= λ z. set_item name (int z) cfg

put_backend : Assoc String → Value → Result Value
put_backend env cfg =
    text_at "BTX_MATMUL_BACKEND" env >>= λ s. set_item "solver_backend" (str s) cfg

-- What `--write-config` makes of the settings in the file.
pub written : Assoc String → Value → Result Value
written env loaded =
    put_backend env (or_else loaded (dict end))
    >>= put_number "solver_threads" "BTX_MATMUL_SOLVER_THREADS" env
    >>= put_number "solver_batch_size" "BTX_MATMUL_SOLVE_BATCH_SIZE" env
    >>= put_number "solver_prefetch_depth" "BTX_MATMUL_PREPARE_PREFETCH_DEPTH" env
    >>= put_number "solver_prepare_workers" "BTX_MATMUL_PREPARE_WORKERS" env
    >>= put_number "solver_pipeline_async" "BTX_MATMUL_PIPELINE_ASYNC" env
    >>= put_number "gpu_inputs" "BTX_MATMUL_GPU_INPUTS" env

-- What the run finds: the solver, the flag, the file's settings if it is there, and PyYAML.
pub record Setting : Type 0 where
  pub has_solver : Bool
  pub write_config : Bool
  pub config_file : Option Value
  pub has_yaml : Bool

-- An exit code, and what was written to the file.
pub record Exit : Type 0 where
  pub code : ℕ
  pub config : Option Value

write_best : Setting → Option Value → Assoc String → Result Exit
write_best s none env = ok (record { code = 0; config = none })
write_best s (some loaded) env =
    if not s.has_yaml
    then ok (record { code = 2; config = none })
    else written env loaded >>= λ cfg. ok (record { code = 0; config = some cfg })

report_best : Setting → List BenchResult → Result Exit
report_best s [] = ok (record { code = 1; config = none })
report_best s (best ∷ others) =
    if s.write_config
    then write_best s s.config_file best.env
    else ok (record { code = 0; config = none })

-- `main`, behind its argument parser
pub main : Setting → Dimensions → ℤ → ℤ → (Assoc String → Outcome) → Result Exit
main s d pipeline_async gpu_inputs outcome =
    if not s.has_solver
    then ok (record { code = 1; config = none })
    else grid_of d pipeline_async gpu_inputs >>= λ g.
        sweep outcome g >>= λ results. report_best s (sort_rated (rated results))
