-- ===== src/Witnesses/Measured.antt =====
-- A benchmark whose file the next miner starts with.
use minebtx.Prelude.{◌≡◌, refl, none, some, [], All, false}
use minebtx.Prelude.Int.{pos}
use minebtx.Py.Result.{ok}
use minebtx.Py.Value.{Fields, dict}
use minebtx.Py.Text.{show_int}
use minebtx.Config.{MinerConfig}
use minebtx.Config.File.{default_attributes, overlay, config_of, typed_config}
use minebtx.Config.File.Laws.{Distinct, file_attributes-document}
use minebtx.Solver.Env.{to_env}
use minebtx.Stratum.Client.{solver_env_of}
use minebtx.Benchmark.{rated}
use minebtx.Benchmark.Ranking.{NoFaster}
use minebtx.Benchmark.Main.{main}
use minebtx.Benchmark.Main.Written.{with_run}
use minebtx.Benchmark.Main.Sweep.{In}
use minebtx.Benchmark.Main.Best.{main-written}
use minebtx.Cli.{Args, with_args, build_config}
use minebtx.Cli.Measured.{Untuned, Holds, measured-daemon}
use minebtx.Witnesses.Sweep.{
  file_settings, setting, setting-Writes, dimensions, grid, grid_lem, outcome, results, result_of,
  swept, sorted,
}

abbrev written_fields : Fields
written_fields = with_run grid "mlx" (pos 8) (pos 128) (pos 8) (pos 8) file_settings

abbrev address_only : Args
address_only = record {
  pool = none;
  tls = false;
  address = some "btx1zaddress";
  worker = none;
  gbt_solve = none;
  threads = none;
  batch_size = none;
  prefetch = none;
  prepare_workers = none;
  gpu_inputs = none;
  nonces_per_slice = none;
  log_level = none;
}

address_only-Untuned : Untuned address_only
address_only-Untuned = record {
  no_threads = refl;
  no_batch = refl;
  no_prefetch = refl;
  no_workers = refl;
  no_inputs = refl;
}

abbrev from_file : MinerConfig
from_file = config_of (overlay written_fields (default_attributes "/root"))

abbrev served : MinerConfig
served = with_args from_file address_only (from_file.pool_host, from_file.pool_port)

file_settings-Distinct : Distinct file_settings
file_settings-Distinct = (refl, (refl, tt))

exit :
    main setting dimensions (pos 1) (pos 1) outcome
    ≡ ok (record { code = 0; config = some (dict written_fields) })
exit =
    main-written setting (dict file_settings) file_settings setting-Writes dimensions (pos 1)
      (pos 1) outcome grid results "mlx" (pos 8) (pos 128) (pos 8) (pos 8) grid_lem swept sorted
      refl

measured-daemon_example :
    In (result_of "mlx" 8 2_000) (rated results)
    × NoFaster (result_of "mlx" 8 2_000) (rated results)
    × All (Holds (to_env (solver_env_of served) [])) (result_of "mlx" 8 2_000).env
unfolding show_int typed_config overlay build_config
measured-daemon_example =
    measured-daemon setting (dict file_settings) file_settings setting-Writes file_settings-Distinct
      dimensions (pos 1) (pos 1) outcome grid results grid_lem swept sorted written_fields exit
      "/root" from_file served address_only (overlay written_fields (default_attributes "/root"))
      (file_attributes-document "/root" written_fields) refl address_only-Untuned refl []
