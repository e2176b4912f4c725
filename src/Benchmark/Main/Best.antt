-- ===== src/Benchmark/Main/Best.antt =====
-- What a whole benchmark writes is what its fastest run was made with.
use minebtx.Prelude.{String, ◌≡◌, refl, ◌∙◌, ap, true, some, List, ◌∷◌}
use minebtx.Prelude.Int.{ℤ}
use minebtx.Py.Result.{ok}
use minebtx.Py.Value.{Value, Fields, dict, end, or_else}
use minebtx.Py.Assoc.{Assoc}
use minebtx.Benchmark.{Grid, env_of, BenchResult, Outcome, rated, sort_rated}
use minebtx.Benchmark.Ranking.{NoFaster, sort_rated-best}
use minebtx.Benchmark.Main.{Dimensions, grid_of, sweep, Setting, write_best, report_best, main}
use minebtx.Benchmark.Main.Written.{Records, with_run, written-env_of, with_run-Records}
use minebtx.Benchmark.Main.Sweep.{
  FromGrid, sweep-FromGrid, rated-All, sort_rated-All, In, head_of, first_of,
}

-- What the file's run took part in, and what it then holds.
abbrev pub WrittenFrom : Grid → List BenchResult → Fields → Fields → Type 0
WrittenFrom g results d d' =
    (best : BenchResult) × (backend : String) × (t : ℤ) × (batch : ℤ) × (prefetch : ℤ) × (w : ℤ)
    × In best (rated results)
    × NoFaster best (rated results)
    × (best.env ≡ env_of g backend t batch prefetch w)
    × Records g backend t batch prefetch w d d'

-- What the benchmark needs in order to write: the solver, the flag, PyYAML, and the file, of which no settings count
-- as empty ones.
pub record Writes (s : Setting) (loaded : Value) (d : Fields) : Type 0 where
  pub solver : s.has_solver ≡ true
  pub flag : s.write_config ≡ true
  pub yaml : s.has_yaml ≡ true
  pub file : s.config_file ≡ some loaded
  pub settings : or_else loaded (dict end) ≡ dict d

module _ (s : Setting) (loaded : Value) (d : Fields) (h : Writes s loaded d) where
  report_best_lem :
      (g : Grid) (backend : String) (t batch prefetch w : ℤ) (best : BenchResult)
      (others : List BenchResult)
      → best.env ≡ env_of g backend t batch prefetch w
      → report_best s (best ∷ others)
        ≡ ok (record { code = 0; config = some (dict (with_run g backend t batch prefetch w d)) })
  unfolding report_best write_best
  report_best_lem g backend t batch prefetch w best others e =
      rw (h.flag, h.file, h.yaml, e, written-env_of g backend t batch prefetch w loaded h.settings)
        refl

  main-report_best :
      (dims : Dimensions) (pipeline gpu : ℤ) (outcome : Assoc String → Outcome) (g : Grid)
      (results : List BenchResult)
      → grid_of dims pipeline gpu ≡ ok g
      → sweep outcome g ≡ ok results
      → main s dims pipeline gpu outcome ≡ report_best s (sort_rated (rated results))
  unfolding main
  main-report_best dims pipeline gpu outcome g results e k = rw (h.solver, e, k) refl

  pub main-written :
      (dims : Dimensions) (pipeline gpu : ℤ) (outcome : Assoc String → Outcome) (g : Grid)
      (results : List BenchResult) {best : BenchResult} {others : List BenchResult}
      (backend : String) (t batch prefetch w : ℤ)
      → grid_of dims pipeline gpu ≡ ok g
      → sweep outcome g ≡ ok results
      → sort_rated (rated results) ≡ best ∷ others
      → best.env ≡ env_of g backend t batch prefetch w
      → main s dims pipeline gpu outcome
        ≡ ok (record { code = 0; config = some (dict (with_run g backend t batch prefetch w d)) })
  main-written dims pipeline gpu outcome g results {best} {others} backend t batch prefetch w e k
        sorted env =
      main-report_best dims pipeline gpu outcome g results e k
      ∙ ap (report_best s) sorted
      ∙ report_best_lem g backend t batch prefetch w best others env

  -- The configuration of the first run in the ranking, and what is written from it.
  pub main-with_run :
      (dims : Dimensions) (pipeline gpu : ℤ) (outcome : Assoc String → Outcome) (g : Grid)
      (results : List BenchResult) {best : BenchResult} {others : List BenchResult}
      → grid_of dims pipeline gpu ≡ ok g
      → sweep outcome g ≡ ok results
      → sort_rated (rated results) ≡ best ∷ others
      → (backend : String) × (t : ℤ) × (batch : ℤ) × (prefetch : ℤ) × (w : ℤ) × (best.env
          ≡ env_of g backend t batch prefetch w)
        × (main s dims pipeline gpu outcome
            ≡ ok (record {
              code = 0;
              config = some (dict (with_run g backend t batch prefetch w d));
            }))
  main-with_run dims pipeline gpu outcome g results {best} {others} e k sorted =
      let from : FromGrid g best = head_of (FromGrid g) _ sorted (
        sort_rated-All (FromGrid g) _
          (rated-All (FromGrid g) results (sweep-FromGrid g outcome results k))) in
      let (backend, t, batch, prefetch, w, env) = from in
      (
        backend,
        t,
        batch,
        prefetch,
        w,
        env,
        main-written dims pipeline gpu outcome g results backend t batch prefetch w e k sorted env,
      )

  -- Where the benchmark has what it needs in order to write, the dimensions can be read, the runs
  -- return, and one of them is usable, it exits with 0 and writes the seven settings of a
  -- configuration of the grid with which a usable run was made that is no slower than any other usable
  -- run; every other setting of the file is as it was.
  pub main-WrittenFrom :
      (dims : Dimensions) (pipeline gpu : ℤ) (outcome : Assoc String → Outcome) (g : Grid)
      (results : List BenchResult) {best : BenchResult} {others : List BenchResult}
      → grid_of dims pipeline gpu ≡ ok g
      → sweep outcome g ≡ ok results
      → sort_rated (rated results) ≡ best ∷ others
      → (d' : Fields) × (main s dims pipeline gpu outcome
          ≡ ok (record { code = 0; config = some (dict d') }))
        × WrittenFrom g results d d'
  main-WrittenFrom dims pipeline gpu outcome g results {best} {others} e k sorted =
      let (backend, t, batch, prefetch, w, env, exit) =
        main-with_run dims pipeline gpu outcome g results e k sorted in
      (
        with_run g backend t batch prefetch w d,
        exit,
        (
          best,
          backend,
          t,
          batch,
          prefetch,
          w,
          first_of results sorted,
          sort_rated-best results sorted,
          env,
          with_run-Records g backend t batch prefetch w d,
        ),
      )
