-- ===== src/Config.antt =====
-- The miner's configuration (src/dexbtx_miner/config.py). Seconds are counted in milliseconds.
use minebtx.Prelude.{
  ℕ, String, ◌<>◌, Bool, true, false, Option, some, List, [], str_eq, if◌then◌else◌,
}
use minebtx.Prelude.Int.{ℤ, pos}
use minebtx.Py.Result.{Result, ok, err, value_error}
use minebtx.Py.Value.{Value}
pub mod File

pub record MinerConfig : Type 0 where
  pub pool_host : String
  pub pool_port : ℤ
  pub pool_tls : Bool
  pub payout_address : String
  pub worker_name : String
  pub payout_splits : List Value
  pub gbt_solve_path : String
  pub solver_threads : Option ℤ
  pub solver_prepare_workers : Option ℤ
  pub solver_batch_size : Option ℤ
  pub solver_prefetch_depth : Option ℤ
  pub solver_pipeline_async : Option ℤ
  pub solver_backend : String
  pub gpu_inputs : Option ℤ
  pub nonces_per_slice : ℤ
  pub solver_max_seconds_per_slice : ℕ
  pub reconnect_initial_s : ℕ
  pub reconnect_max_s : ℕ
  pub solver_recheck_interval_secs : ℕ
  pub heal_enabled : Bool
  pub heal_consec_rejects : ℕ
  pub heal_solver_stall_secs : ℕ
  pub heal_first_slice_grace_secs : ℕ
  pub heal_cooldown_secs : ℕ
  pub heal_check_interval_secs : ℕ
  pub log_level : String

-- The defaults, in a home directory.
abbrev pub default_config : String → MinerConfig
default_config home = record {
  pool_host = "127.0.0.1";
  pool_port = pos 3333;
  pool_tls = false;
  payout_address = "";
  worker_name = "default";
  payout_splits = [];
  gbt_solve_path = home <> "/.dexbtx-miner/bin/btx-gbt-solve";
  solver_threads = some (pos 8);
  solver_prepare_workers = some (pos 16);
  solver_batch_size = some (pos 128);
  solver_prefetch_depth = some (pos 8);
  solver_pipeline_async = some (pos 1);
  solver_backend = "cuda";
  gpu_inputs = some (pos 1);
  nonces_per_slice = pos 100_000_000_000;
  solver_max_seconds_per_slice = 30_000;
  reconnect_initial_s = 1_000;
  reconnect_max_s = 60_000;
  solver_recheck_interval_secs = 1_800_000;
  heal_enabled = true;
  heal_consec_rejects = 8;
  heal_solver_stall_secs = 90_000;
  heal_first_slice_grace_secs = 120_000;
  heal_cooldown_secs = 300_000;
  heal_check_interval_secs = 15_000;
  log_level = "INFO";
}

-- The name that is sent on `mining.authorize`.
unfoldable pub fully_qualified_worker : MinerConfig → Result String
fully_qualified_worker cfg =
    if str_eq cfg.payout_address ""
    then err value_error
    else ok (cfg.payout_address <> "." <> cfg.worker_name)
