-- ===== src/Benchmark/Main/Written.antt =====
-- The configuration that is written holds the settings of the run that it is taken from.
use minebtx.Prelude.{String, ◌≡◌, refl, Bool, false, ◌||◌, some, str_eq, arith}
use minebtx.Prelude.Int.{ℤ}
use minebtx.Py.Result.{ok}
use minebtx.Py.Value.{Value, Fields, dict, str, int, end, find, put, or_else}
use minebtx.Py.Dict.{find-put}
use minebtx.Py.Decimals.{int_of_text-show_int}
use minebtx.Benchmark.{Grid, env_of}
use minebtx.Benchmark.Main.{text_at, number_at, put_number, put_backend, written}

-- The fields after the run's settings were put into them.
abbrev pub with_run : Grid → String → ℤ → ℤ → ℤ → ℤ → Fields → Fields
with_run g backend t batch prefetch w d = put "gpu_inputs" (int g.gpu_inputs) (
    put "solver_pipeline_async" (int g.pipeline_async) (
      put "solver_prepare_workers" (int w) (
        put "solver_prefetch_depth" (int prefetch) (
          put "solver_batch_size" (int batch)
            (put "solver_threads" (int t) (put "solver_backend" (str backend) d))))))

module _ (g : Grid) (backend : String) (t batch prefetch w : ℤ) where
  pub written-env_of :
      (loaded : Value) {d : Fields}
      → or_else loaded (dict end) ≡ dict d
      → written (env_of g backend t batch prefetch w) loaded
        ≡ ok (dict (with_run g backend t batch prefetch w d))
  unfolding written put_backend put_number number_at text_at
  written-env_of loaded h =
      rw
        (
          h,
          int_of_text-show_int t,
          int_of_text-show_int batch,
          int_of_text-show_int prefetch,
          int_of_text-show_int w,
          int_of_text-show_int g.pipeline_async,
          int_of_text-show_int g.gpu_inputs,
        )
        refl

-- The names that are written.
abbrev pub is_written : String → Bool
is_written k =
    str_eq k "solver_backend"
    || str_eq k "solver_threads"
    || str_eq k "solver_batch_size"
    || str_eq k "solver_prefetch_depth"
    || str_eq k "solver_prepare_workers"
    || str_eq k "solver_pipeline_async"
    || str_eq k "gpu_inputs"

-- The settings of a run stand under their names, and all else is as it was.
pub record Records (g : Grid) (backend : String) (t batch prefetch w : ℤ) (d d' : Fields)
    : Type 0 where
  pub has_backend : find "solver_backend" d' ≡ some (str backend)
  pub has_threads : find "solver_threads" d' ≡ some (int t)
  pub has_batch : find "solver_batch_size" d' ≡ some (int batch)
  pub has_prefetch : find "solver_prefetch_depth" d' ≡ some (int prefetch)
  pub has_workers : find "solver_prepare_workers" d' ≡ some (int w)
  pub has_pipeline : find "solver_pipeline_async" d' ≡ some (int g.pipeline_async)
  pub has_inputs : find "gpu_inputs" d' ≡ some (int g.gpu_inputs)
  pub else_same : (k : String) → is_written k ≡ false → find k d' ≡ find k d

none_of :
    (a b c d e f g : Bool)
    → (a || b || c || d || e || f || g) ≡ false
    → (a ≡ false)
      × (b ≡ false)
      × (c ≡ false)
      × (d ≡ false)
      × (e ≡ false)
      × (f ≡ false)
      × (g ≡ false)
none_of a b c d e f g h = ground (arith, h)

module _ (g : Grid) (backend : String) (t batch prefetch w : ℤ) (d : Fields) where
  with_run_else :
      (k : String)
      → is_written k ≡ false
      → find k (with_run g backend t batch prefetch w d) ≡ find k d
  with_run_else k h =
      let (a, b, c, e, f, i, j) =
        none_of (str_eq k "solver_backend") (str_eq k "solver_threads")
          (str_eq k "solver_batch_size") (str_eq k "solver_prefetch_depth")
          (str_eq k "solver_prepare_workers") (str_eq k "solver_pipeline_async")
          (str_eq k "gpu_inputs") h in
      rw (find-put, j, find-put, i, find-put, f, find-put, e, find-put, c, find-put, b, find-put, a)
        refl

  pub with_run-Records :
      Records g backend t batch prefetch w d (with_run g backend t batch prefetch w d)
  with_run-Records = record {
    has_backend = simp find-put;
    has_threads = simp find-put;
    has_batch = simp find-put;
    has_prefetch = simp find-put;
    has_workers = simp find-put;
    has_pipeline = simp find-put;
    has_inputs = simp find-put;
    else_same = with_run_else;
  }
