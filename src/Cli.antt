-- ===== src/Cli.antt =====
-- The command line (src/dexbtx_miner/__main__.py): the settings, and the periodic re-check of the releases.
-- The settings of the YAML file are an argument of `build_config`.
use Prim.Native.Char.{code}
use minebtx.Prelude.{
  ℕ, String, Bool, true, false, not, ◌&&◌, Option, none, some, ◌==◌, str_eq, if◌then◌else◌,
}
use minebtx.Prelude.Int.{ℤ}
use minebtx.Py.Result.{Result, ok, err, usage_error, ◌>>=◌}
use minebtx.Py.Assoc.{Assoc, insert}
use minebtx.Py.Number.{int_of_text}
use minebtx.Config.{MinerConfig}
use minebtx.Updater.Manifest.{Host, Fetch}
use minebtx.Updater.Solver.{Download, Binary, maybe_update_solver}
use minebtx.Updater.Wrapper.{World, Next, stays, restarts, is_set, maybe_self_upgrade}
pub mod Laws
pub mod Start
pub mod Measured

-- `s.rsplit(":", 1)`, if there is a colon
unfoldable pub split_last : String → Option (String × String)
split_last String.[] = none
split_last (String.◌∷◌ c s) = elim (split_last s) [
  | some (host, port) ↦ some (String.◌∷◌ c host, port)
  | none ↦ if code c == b':' then some ("", s) else none
]

abbrev pub pool_of : Option (String × String) → Result (String × ℤ)
pool_of none = err usage_error
pool_of (some (host, port)) = (do n ← int_of_text 10 port; ok (host, n))

unfoldable pub parse_pool : String → Result (String × ℤ)
unfolding split_last
parse_pool s = pool_of (split_last s)

-- The flags, as they were given.
pub record Args : Type 0 where
  pub pool : Option String
  pub tls : Bool
  pub address : Option String
  pub worker : Option String
  pub gbt_solve : Option String
  pub threads : Option ℤ
  pub batch_size : Option ℤ
  pub prefetch : Option ℤ
  pub prepare_workers : Option ℤ
  pub gpu_inputs : Option ℤ
  pub nonces_per_slice : Option ℤ
  pub log_level : Option String

abbrev pub given {ℓ} : {A : Type ℓ} → Option A → A → A
given none a = a
given (some b) a = b

abbrev pub given_number : Option ℤ → Option ℤ → Option ℤ
given_number none a = a
given_number (some b) a = some b

abbrev pub pool_given : Option String → MinerConfig → Result (String × ℤ)
pool_given none cfg = ok (cfg.pool_host, cfg.pool_port)
pool_given (some s) cfg = parse_pool s

abbrev pub with_args : MinerConfig → Args → String × ℤ → MinerConfig
with_args cfg args (host, port) = record cfg {
  pool_host = host;
  pool_port = port;
  pool_tls = (if args.tls then true else cfg.pool_tls);
  payout_address = given args.address cfg.payout_address;
  worker_name = given args.worker cfg.worker_name;
  gbt_solve_path = given args.gbt_solve cfg.gbt_solve_path;
  solver_threads = given_number args.threads cfg.solver_threads;
  solver_batch_size = given_number args.batch_size cfg.solver_batch_size;
  solver_prefetch_depth = given_number args.prefetch cfg.solver_prefetch_depth;
  solver_prepare_workers = given_number args.prepare_workers cfg.solver_prepare_workers;
  gpu_inputs = given_number args.gpu_inputs cfg.gpu_inputs;
  nonces_per_slice = given args.nonces_per_slice cfg.nonces_per_slice;
  log_level = given args.log_level cfg.log_level;
}

abbrev pub require_address : MinerConfig → Result MinerConfig
require_address cfg = if str_eq cfg.payout_address "" then err usage_error else ok cfg

unfoldable pub build_config : MinerConfig → Args → Result MinerConfig
unfolding parse_pool
build_config cfg args = do
  pool ← pool_given args.pool cfg
  require_address (with_args cfg args pool)

-- What the solver's part of a cycle meets, and whether the solver's path has no `~`.
pub record Channel : Type 0 where
  pub host : Host
  pub fetch : Fetch
  pub download : Download
  pub installs : Bool
  pub starts : Bool
  pub same_path : Bool

-- The digest of the solver at its path as it is written. The update expands a `~` at the path's start, which
-- nothing else does, so that such a path names no file here.
abbrev pub seen : Channel → Binary → Binary
seen ch binary = if ch.same_path then binary else none

-- Whether a digest and another one are both there and differ.
abbrev pub changed : Binary → Binary → Bool
changed none after = false
changed (some a) none = false
changed (some a) (some b) = not (str_eq a "") && not (str_eq b "") && not (str_eq a b)

-- `_reexec_for_solver_update`
unfoldable pub reexec : Bool → Assoc String → Next
reexec starts env =
    if starts then restarts (insert "DEXBTX_SOLVER_JUST_UPGRADED" "1" env) else stays

abbrev pub after_update : Channel → Assoc String → Binary → Result Bool × Binary → Next × Binary
after_update ch env before (err e, after) = (stays, after)
after_update ch env before (ok b, after) =
    ((if changed (seen ch before) (seen ch after) then reexec ch.starts env else stays), after)

abbrev pub after_upgrade : Channel → Binary → Result Next × Assoc String → Next × Binary
after_upgrade ch local (err e, env) = (stays, local)
after_upgrade ch local (ok (restarts next), env) = (restarts next, local)
after_upgrade ch local (ok stays, env) =
    after_update ch env local
      (maybe_update_solver env ch.host ch.fetch ch.download ch.installs local)

-- One cycle of `_solver_update_watcher`: the miner first, and then the solver. Every exception is logged.
unfoldable pub watch_cycle : World → String → Channel → Assoc String → Binary → Next × Binary
unfolding reexec
watch_cycle w version ch env local = after_upgrade ch local (maybe_self_upgrade w version env)
