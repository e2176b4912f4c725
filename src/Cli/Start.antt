-- ===== src/Cli/Start.antt =====
-- How the miner starts and how it ends (`main` and `_run` of src/dexbtx_miner/__main__.py).
-- The argument parser, the settings of the file and the digests of the files are arguments.
use minebtx.Prelude.{ℕ, String, Bool, List, [], ◌∷◌, Option, none, some, str_eq, if◌then◌else◌}
use minebtx.Py.Result.{Error, Result, ok, err, ◌>>=◌}
use minebtx.Py.Assoc.{Assoc}
use minebtx.Config.{MinerConfig}
use minebtx.Updater.Solver.{Binary, maybe_update_solver}
use minebtx.Updater.Wrapper.{World, Next, stays, restarts, maybe_self_upgrade}
use minebtx.Cli.{Args, Channel, build_config}
pub mod Laws
pub mod Mining
pub mod Floor

-- What a process meets when it starts. Its files give the digest of the solver at a path.
pub record Launch : Type 0 where
  pub world : World
  pub version : String
  pub argv : List String
  pub parse_args : List String → Result Args
  pub loaded : Args → Result MinerConfig
  pub channel : Channel
  pub expanduser : String → String
  pub files : String → Binary

-- What becomes of the process: another one takes its place, it runs the benchmark with these arguments,
-- it exits, it raises, or it serves the pool with these settings and this solver as the one that the
-- client's wrapper starts.
pub data Start : Type 0 where
  replaced : Assoc String → Start
  benchmarks : List String → Start
  quits : ℕ → Start
  fails : Error → Start
  mines : MinerConfig → Binary → Start

-- The arguments of `benchmark`, if it is the first argument.
unfoldable pub subcommand : List String → Option (List String)
subcommand (program ∷ first ∷ rest) = if str_eq first "benchmark" then some rest else none
subcommand argv = none

-- The solver that the wrapper starts. The check replaces the file at the path with the `~` at its start
-- expanded, and the wrapper starts the file at the path as it is written: where these differ, what the
-- check left is not what is started.
unfoldable pub started_solver : Launch → MinerConfig → Binary → Binary
started_solver l cfg checked =
    if str_eq (l.expanduser cfg.gbt_solve_path) cfg.gbt_solve_path
    then checked
    else l.files cfg.gbt_solve_path

abbrev pub after_check : Launch → MinerConfig → Result Bool × Binary → Start
after_check l cfg (ok updated, binary) = mines cfg (started_solver l cfg binary)
after_check l cfg (err Error.update_required, binary) = quits 1
after_check l cfg (err e, binary) = fails e

-- `_run` up to the client's start
unfoldable pub run : Launch → Assoc String → MinerConfig → Start
run l env cfg =
    let ch = l.channel in
    after_check l cfg (
      maybe_update_solver env ch.host ch.fetch ch.download ch.installs
        (l.files (l.expanduser cfg.gbt_solve_path)))

abbrev pub run_configured : Launch → Assoc String → Result MinerConfig → Start
run_configured l env (err e) = fails e
run_configured l env (ok cfg) = run l env cfg

-- The settings of a process: those of the file, if one is named, under those of the flags.
abbrev pub configured : Launch → Result MinerConfig
configured l = do args ← l.parse_args l.argv; base ← l.loaded args; build_config base args

abbrev pub dispatch : Launch → Assoc String → Option (List String) → Start
dispatch l env (some rest) = benchmarks rest
dispatch l env none = run_configured l env (configured l)

abbrev pub after_upgrade : Launch → Result Next × Assoc String → Start
after_upgrade l (err e, env) = fails e
after_upgrade l (ok (restarts next), env) = replaced next
after_upgrade l (ok stays, env) = dispatch l env (subcommand l.argv)

-- `main` up to the client's start, in an environment
unfoldable pub main : Launch → Assoc String → Start
unfolding run
main l env = after_upgrade l (maybe_self_upgrade l.world l.version env)
