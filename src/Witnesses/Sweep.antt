-- ===== src/Witnesses/Sweep.antt =====
-- The benchmark on a concrete grid.
use minebtx.Prelude.{ℕ, String, ◌≡◌, refl, true, none, some, List, [], ◌∷◌, str_eq, if◌then◌else◌}
use minebtx.Prelude.Int.{pos}
use minebtx.Py.Result.{ok}
use minebtx.Py.Value.{Fields, dict, str, int, end, field}
use minebtx.Py.Text.{show_int}
use minebtx.Py.Number.{to_int, to_float}
use minebtx.Py.Assoc.{Assoc, lookup}
use minebtx.Benchmark.{Grid, env_of, BenchResult, Output, Outcome, rated, sort_rated}
use minebtx.Benchmark.Main.{Dimensions, Setting, grid_of, sweep, main}
use minebtx.Benchmark.Main.Best.{Writes, WrittenFrom, main-WrittenFrom}

abbrev pub file_settings : Fields
file_settings = field "worker_name" (str "rig") (field "solver_threads" (int (pos 2)) end)

abbrev pub setting : Setting
setting = record {
  has_solver = true;
  write_config = true;
  config_file = some (dict file_settings);
  has_yaml = true;
}

pub setting-Writes : Writes setting (dict file_settings) file_settings
setting-Writes = record { solver = refl; flag = refl; yaml = refl; file = refl; settings = refl }

abbrev pub dimensions : Dimensions
dimensions = record {
  backend = "mlx, metal";
  threads = "4,8";
  batches = "128";
  prefetches = "8";
  workers = "8";
}

abbrev pub grid : Grid
grid = record {
  backends = "mlx" ∷ "metal" ∷ [];
  threads = pos 4 ∷ pos 8 ∷ [];
  batches = pos 128 ∷ [];
  prefetches = pos 8 ∷ [];
  workers = pos 8 ∷ [];
  pipeline_async = pos 1;
  gpu_inputs = pos 1;
}

pub grid_lem : grid_of dimensions (pos 1) (pos 1) ≡ ok grid
unfolding grid_of
grid_lem = refl

-- A run on eight threads tries more nonces in its second.
pub tries : Assoc String → Fields
tries env = elim (lookup "BTX_MATMUL_SOLVER_THREADS" env) [
  | none ↦ end
  | some s ↦
      field "tries_used" (int (if str_eq s "8" then pos 2_000 else pos 1_000))
        (field "elapsed_s" (int (pos 1)) end)
]

abbrev pub outcome : Assoc String → Outcome
outcome env = Outcome.printed (Output.record_line (tries env) ∷ [])

abbrev pub result_of : String → ℕ → ℕ → BenchResult
result_of backend t n = record {
  env = env_of grid backend (pos t) (pos 128) (pos 8) (pos 8);
  tries_used = pos n;
  elapsed_s = record { mantissa = pos 1; scale = 0 };
  usable = true;
}

abbrev pub results : List BenchResult
results =
    result_of "mlx" 4 1_000
    ∷ result_of "mlx" 8 2_000
    ∷ result_of "metal" 4 1_000
    ∷ result_of "metal" 8 2_000
    ∷ []

pub swept : sweep outcome grid ≡ ok results
unfolding sweep tries show_int to_int to_float
swept = refl

pub sorted :
    sort_rated (rated results)
    ≡ result_of "mlx" 8 2_000
      ∷ result_of "metal" 8 2_000
      ∷ result_of "mlx" 4 1_000
      ∷ result_of "metal" 4 1_000
      ∷ []
unfolding sort_rated
sorted = refl

main-WrittenFrom_example :
    (d' : Fields) × (main setting dimensions (pos 1) (pos 1) outcome
      ≡ ok (record { code = 0; config = some (dict d') }))
    × WrittenFrom grid results file_settings d'
main-WrittenFrom_example =
    main-WrittenFrom setting (dict file_settings) file_settings setting-Writes dimensions (pos 1)
      (pos 1) outcome grid results grid_lem swept sorted
