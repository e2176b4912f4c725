-- ===== src/Cli/Measured.antt =====
-- From a benchmark to the miner that starts with the file that it wrote: benchmark.py, config.py, __main__.py,
-- and the environment that the client gives its solver.
use minebtx.Prelude.{
  String, ◌≡◌, refl, ap, sym, subst, ◌∙◌, Bool, true, false, none, some, List, [], ◌∷◌, All,
  if◌then◌else◌,
}
use minebtx.Prelude.Int.{ℤ}
use minebtx.Py.Result.{Result, ok, err, usage_error, >>=-eq-ok}
use minebtx.Py.Value.{Value, Fields, dict, find, has}
use minebtx.Py.Assoc.{Assoc, lookup, override}
use minebtx.Config.{MinerConfig}
use minebtx.Config.File.{
  file_attributes, default_attributes, overlay, config_of, kinds, all_of, typed_config,
}
use minebtx.Config.File.Laws.{Distinct, put-Distinct, find-overlay, file_attributes-document}
use minebtx.Solver.Env.{SolverEnv, to_env}
use minebtx.Solver.Env.Laws.{lookup-to_env}
use minebtx.Stratum.Client.{solver_env_of}
use minebtx.Benchmark.{Grid, env_of, BenchResult, Outcome, rated, sort_rated}
use minebtx.Benchmark.Ranking.{NoFaster, sort_rated-best}
use minebtx.Benchmark.Main.{Dimensions, Setting, Exit, grid_of, sweep, main}
use minebtx.Benchmark.Main.Written.{Records, with_run, with_run-Records}
use minebtx.Benchmark.Main.Sweep.{In, first_of}
use minebtx.Benchmark.Main.Best.{Writes, main-with_run}
use minebtx.Cli.{Args, pool_given, with_args, build_config}

-- No flag sets what the benchmark measures.
pub record Untuned (args : Args) : Type 0 where
  pub no_threads : args.threads ≡ none
  pub no_batch : args.batch_size ≡ none
  pub no_prefetch : args.prefetch ≡ none
  pub no_workers : args.prepare_workers ≡ none
  pub no_inputs : args.gpu_inputs ≡ none

module _ (base : MinerConfig) (args : Args) (h : Untuned args) where
  with_args-env :
      (pool : String × ℤ) → solver_env_of (with_args base args pool) ≡ solver_env_of base
  with_args-env pool = rw (h.no_threads, h.no_batch, h.no_prefetch, h.no_workers, h.no_inputs) refl

  required :
      (c cfg : MinerConfig) (b : Bool) → (if b then err usage_error else ok c) ≡ ok cfg → c ≡ cfg
  required c cfg true e = cc
  required c cfg false e = cc

  -- Such flags leave the solver's settings as they are.
  build_config-env :
      (cfg : MinerConfig) → build_config base args ≡ ok cfg → solver_env_of cfg ≡ solver_env_of base
  unfolding build_config
  build_config-env cfg e =
      let (pool, read, built) = >>=-eq-ok (pool_given args.pool base) _ e in
      ap solver_env_of (sym (required (with_args base args pool) cfg _ built)) ∙ with_args-env pool

typed_config-eq : (a : Fields) (cfg : MinerConfig) → typed_config a ≡ some cfg → config_of a ≡ cfg
unfolding typed_config
typed_config-eq a cfg h = go (all_of kinds a) h
  where
    go : (b : Bool) → (if b then some (config_of a) else none) ≡ some cfg → config_of a ≡ cfg
    go true e = cc
    go false e = cc

-- The variable of an entry has the entry's value in an environment.
abbrev pub Holds : Assoc String → String × String → Type 0
Holds env (k, v) = lookup k env ≡ some v

module _ (g : Grid) (backend : String) (t batch prefetch w : ℤ) (d d' : Fields) (home : String)
    (r : Records g backend t batch prefetch w d d') (distinct : Distinct d') where
  overlaid :
      (k : String) (v : Value)
      → has k (default_attributes home) ≡ true
      → find k d' ≡ some v
      → find k (overlay d' (default_attributes home)) ≡ some v
  overlaid k v known e =
      find-overlay k d' (default_attributes home) distinct known
      ∙ ap (λ o. override o (find k (default_attributes home))) e

  env-settings : solver_env_of (config_of (overlay d' (default_attributes home))) ≡ record {
    batch_size = some batch;
    prefetch_depth = some prefetch;
    prepare_workers = some w;
    pipeline_async = some g.pipeline_async;
    gpu_inputs = some g.gpu_inputs;
    solver_threads = some t;
    backend = some backend;
    pool_slots = none;
    extra = [];
  }
  unfolding config_of
  env-settings =
      rw
        (
          overlaid "solver_batch_size" _ refl r.has_batch,
          overlaid "solver_prefetch_depth" _ refl r.has_prefetch,
          overlaid "solver_prepare_workers" _ refl r.has_workers,
          overlaid "solver_pipeline_async" _ refl r.has_pipeline,
          overlaid "gpu_inputs" _ refl r.has_inputs,
          overlaid "solver_threads" _ refl r.has_threads,
          overlaid "solver_backend" _ refl r.has_backend,
        )
        refl

-- An environment made from these settings holds those of the run.
to_env-Holds :
    (g : Grid) (backend : String) (t batch prefetch w : ℤ) (e : SolverEnv) (base : Assoc String)
    → e ≡ record {
      batch_size = some batch;
      prefetch_depth = some prefetch;
      prepare_workers = some w;
      pipeline_async = some g.pipeline_async;
      gpu_inputs = some g.gpu_inputs;
      solver_threads = some t;
      backend = some backend;
      pool_slots = none;
      extra = [];
    }
    → All (Holds (to_env e base)) (env_of g backend t batch prefetch w)
to_env-Holds g backend t batch prefetch w e base h =
    subst (λ f. All (Holds (to_env f base)) (env_of g backend t batch prefetch w)) (sym h)
      (
        lookup-to_env _ base "BTX_MATMUL_BACKEND",
        (
          lookup-to_env _ base "BTX_MATMUL_GPU_INPUTS",
          (
            lookup-to_env _ base "BTX_MATMUL_SOLVE_BATCH_SIZE",
            (
              lookup-to_env _ base "BTX_MATMUL_PREPARE_PREFETCH_DEPTH",
              (
                lookup-to_env _ base "BTX_MATMUL_PREPARE_WORKERS",
                (
                  lookup-to_env _ base "BTX_MATMUL_PIPELINE_ASYNC",
                  (lookup-to_env _ base "BTX_MATMUL_SOLVER_THREADS", tt),
                ),
              ),
            ),
          ),
        ),
      )

with_run-Distinct :
    (g : Grid) (backend : String) (t batch prefetch w : ℤ) (d : Fields)
    → Distinct d
    → Distinct (with_run g backend t batch prefetch w d)
with_run-Distinct g backend t batch prefetch w d h = put-Distinct _ _ _ (
    put-Distinct _ _ _ (
      put-Distinct _ _ _
        (put-Distinct _ _ _ (put-Distinct _ _ _ (put-Distinct _ _ _ (put-Distinct _ _ d h))))))

written_of :
    (a b : Fields)
    → Path
        (Result Exit)
        (ok (record { code = 0; config = some (dict a) }))
        (ok (record { code = 0; config = some (dict b) }))
    → a ≡ b
written_of a b h = cc

loaded_fields : (a b : Fields) → Path (Result Fields) (ok a) (ok b) → a ≡ b
loaded_fields a b h = cc

module _ (s : Setting) (loaded : Value) (d : Fields) (h : Writes s loaded d)
    (distinct : Distinct d) where
  -- Where the benchmark writes the file, and a miner then starts with that file, whose settings have the
  -- types of their fields, and with no flag for the measured settings, the client gives its solver, over
  -- any environment, each variable of a usable run that was no slower than any other.
  pub measured-daemon :
      (dims : Dimensions) (pipeline gpu : ℤ) (outcome : Assoc String → Outcome) (g : Grid)
      (results : List BenchResult) {best : BenchResult} {others : List BenchResult}
      → grid_of dims pipeline gpu ≡ ok g
      → sweep outcome g ≡ ok results
      → sort_rated (rated results) ≡ best ∷ others
      → (d' : Fields)
      → main s dims pipeline gpu outcome ≡ ok (record { code = 0; config = some (dict d') })
      → (home : String) (base cfg : MinerConfig) (args : Args) → (attributes : Fields)
      → file_attributes home (some (record { has_yaml = true; document = some (dict d') }))
        ≡ ok attributes
      → typed_config attributes ≡ some base
      → Untuned args
      → build_config base args ≡ ok cfg
      → (env : Assoc String)
      → In best (rated results)
        × NoFaster best (rated results)
        × All (Holds (to_env (solver_env_of cfg) env)) best.env
  measured-daemon dims pipeline gpu outcome g results {best} e k sorted d' exit home base cfg args
        attributes loads typed untuned built env =
      let (backend, t, batch, prefetch, w, run, wrote) =
        main-with_run s loaded d h dims pipeline gpu outcome g results e k sorted in
      let same : with_run g backend t batch prefetch w d ≡ d' =
        written_of _ d' (sym wrote ∙ exit) in
      let typed_file : typed_config (overlay d' (default_attributes home)) ≡ some base =
        ap typed_config (loaded_fields _ _ (sym (file_attributes-document home d') ∙ loads))
        ∙ typed in
      let read : solver_env_of cfg
          ≡ solver_env_of (config_of (overlay d' (default_attributes home))) =
        build_config-env base args untuned cfg built
        ∙ ap solver_env_of (sym (typed_config-eq _ base typed_file)) in
      let records =
        subst (Records g backend t batch prefetch w d) same
          (with_run-Records g backend t batch prefetch w d) in
      let unique =
        subst Distinct same (with_run-Distinct g backend t batch prefetch w d distinct) in
      (
        first_of results sorted,
        sort_rated-best results sorted,
        subst (All (Holds (to_env (solver_env_of cfg) env))) (sym run) (
            to_env-Holds g backend t batch prefetch w (solver_env_of cfg) env
              (read ∙ env-settings g backend t batch prefetch w d d' home records unique)),
      )
