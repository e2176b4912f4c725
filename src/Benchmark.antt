-- ===== src/Benchmark.antt =====
-- The benchmark of the solver's settings (src/dexbtx_miner/benchmark.py): the grid, the reading of a run, and
-- the ranking. Throughputs are compared as fractions, so that two which a float rounds to one are told apart.
use minebtx.Prelude.{
  ℕ, zero, suc, ◌+◌, ◌*◌, ◌^◌, ◌≤◌, String, Bool, true, false, ◌&&◌, Option, none, some, List, [],
  ◌∷◌, ◌++◌, map, ltb, leb, if◌then◌else◌,
}
use minebtx.Prelude.Int.{ℤ, pos, pos_part}
use minebtx.Py.Result.{Result, ok, err, ◌>>=◌}
use minebtx.Py.Value.{Value, Fields, Decimal, int, float, find_or}
use minebtx.Py.Number.{to_int, to_float}
use minebtx.Py.Text.{show_int}
use minebtx.Py.Assoc.{Assoc}
pub mod Ranking
pub mod Main

-- The dimensions of a sweep.
pub record Grid : Type 0 where
  pub backends : List String
  pub threads : List ℤ
  pub batches : List ℤ
  pub prefetches : List ℤ
  pub workers : List ℤ
  pub pipeline_async : ℤ
  pub gpu_inputs : ℤ

-- The environment of one run.
abbrev pub env_of : Grid → String → ℤ → ℤ → ℤ → ℤ → Assoc String
env_of g backend t batch prefetch w =
    ("BTX_MATMUL_BACKEND", backend)
    ∷ ("BTX_MATMUL_GPU_INPUTS", show_int g.gpu_inputs)
    ∷ ("BTX_MATMUL_SOLVE_BATCH_SIZE", show_int batch)
    ∷ ("BTX_MATMUL_PREPARE_PREFETCH_DEPTH", show_int prefetch)
    ∷ ("BTX_MATMUL_PREPARE_WORKERS", show_int w)
    ∷ ("BTX_MATMUL_PIPELINE_ASYNC", show_int g.pipeline_async)
    ∷ ("BTX_MATMUL_SOLVER_THREADS", show_int t)
    ∷ []

-- A `for` loop that appends what each pass appends.
abbrev pub for_each {ℓ κ} : {A : Type ℓ} {B : Type κ} → List A → (A → List B) → List B
for_each [] f = []
for_each (x ∷ xs) f = f x ++ for_each xs f

-- The environments that a sweep runs, in order.
abbrev pub grid_envs : Grid → List (Assoc String)
grid_envs g = for_each g.backends (λ backend. for_each g.threads (λ t. for_each g.batches (λ batch.
    for_each g.prefetches (λ prefetch. map (env_of g backend t batch prefetch) g.workers))))

pub record BenchResult : Type 0 where
  pub env : Assoc String
  pub tries_used : ℤ
  pub elapsed_s : Decimal
  pub usable : Bool

-- A line of output that begins with a brace, by what `json.loads` makes of it; other lines are skipped.
pub data Output : Type 0 where
  other broken : Output
  record_line : Fields → Output

-- How a run goes: it is not done after a limit of seconds, or it prints these lines.
pub data Outcome : Type 0 where
  timed_out : Decimal → Outcome
  printed : List Output → Outcome

abbrev pub last_record : Option Fields → List Output → Option Fields
last_record rec [] = rec
last_record rec (record_line d ∷ lines) = last_record (some d) lines
last_record rec (line ∷ lines) = last_record rec lines

abbrev pub no_seconds : Decimal
no_seconds = record { mantissa = pos 0; scale = 0 }

abbrev pub positive : ℤ → Bool
positive z = ltb 0 (pos_part z)

abbrev pub failed_run : Assoc String → Decimal → BenchResult
failed_run env elapsed = record {
  env = env;
  tries_used = pos 0;
  elapsed_s = elapsed;
  usable = false;
}

abbrev pub read_record : Assoc String → Option Fields → Result BenchResult
read_record env none = ok (failed_run env no_seconds)
read_record env (some d) = do
  tries ← to_int (find_or "tries_used" (int (pos 0)) d)
  elapsed ← to_float (find_or "elapsed_s" (float no_seconds) d)
  ok (record {
    env = env;
    tries_used = tries;
    elapsed_s = elapsed;
    usable = positive tries && positive elapsed.mantissa;
  })

-- The result of a run.
unfoldable pub run_one : Assoc String → Outcome → Result BenchResult
run_one env (timed_out limit) = ok (failed_run env limit)
run_one env (printed lines) = read_record env (last_record none lines)

-- A fraction, with its denominator's predecessor: `tries_used / elapsed_s`, or 0.0.
abbrev pub Rate : Type 0
Rate = ℕ × ℕ

abbrev pub rate_of : ℕ → ℕ → ℕ → Rate
rate_of tries zero scale = (0, 0)
rate_of tries (suc m) scale = (tries * 10 ^ scale, m)

abbrev pub rate : BenchResult → Rate
rate r = rate_of (pos_part r.tries_used) (pos_part r.elapsed_s.mantissa) r.elapsed_s.scale

abbrev pub slower : BenchResult → BenchResult → Bool
slower r s = let (n, p) = rate r in let (m, q) = rate s in leb (n * suc q) (m * suc p)

abbrev pub rated : List BenchResult → List BenchResult
rated [] = []
rated (r ∷ rs) = let rest = rated rs in if r.usable then r ∷ rest else rest

-- The place of a result among slower ones; of equals, the earlier one comes first.
unfoldable pub place : BenchResult → List BenchResult → List BenchResult
place r [] = r ∷ []
place r (s ∷ ss) = let rest = place r ss in if slower s r then r ∷ s ∷ ss else s ∷ rest

-- `rated.sort(key=lambda r: r.nonces_per_sec, reverse=True)`
unfoldable pub sort_rated : List BenchResult → List BenchResult
unfolding place
sort_rated [] = []
sort_rated (r ∷ rs) = place r (sort_rated rs)
