-- ===== src/Witnesses/Start.antt =====
-- The start of the miner on concrete inputs.
use minebtx.Prelude.{String, ◌≡◌, ◌⊎◌, refl, true, some, [], ◌∷◌}
use minebtx.Py.Result.{ok}
use minebtx.Py.Value.{dict}
use minebtx.Py.Number.{int_of_text}
use minebtx.Config.{default_config}
use minebtx.Updater.Manifest.{fetched, detect_platform_key, resolve_manifest_entry, entry_of}
use minebtx.Updater.Solver.{Binary, got, maybe_update_solver, update_entry, download_and_verify}
use minebtx.Updater.Wrapper.{
  fetch_manifest_version, run_pip_install, maybe_self_upgrade, parse_version,
}
use minebtx.Cli.{Channel, build_config, split_last}
use minebtx.Cli.Start.{Launch, replaced, subcommand, started_solver, run, main}
use minebtx.Cli.Start.Laws.{main-settles}
use minebtx.Cli.Start.Mining.{ForPool, Trusted, main-mines}
use minebtx.Cli.Start.Floor.{HasFloor, main-floor}
use minebtx.Witnesses.Updates.{
  sha_new, sha_old, manifest, entry_fields, linux, published, upgraded_env, flags, built,
}

-- The channel offers a solver, and its download has the right digest.
abbrev offering : Channel
offering = record {
  host = linux;
  fetch = fetched (dict manifest);
  download = got sha_new;
  installs = true;
  starts = true;
  same_path = true;
}

-- A process of some version, with the old solver on its disk.
abbrev launch_of : String → Launch
launch_of version = record {
  world = published;
  version = version;
  argv = "dexbtx-miner" ∷ "--address" ∷ "btx1zaddress" ∷ [];
  parse_args = λ argv. ok flags;
  loaded = λ args. ok (default_config "/root");
  channel = offering;
  expanduser = λ path. path;
  files = λ path. some sha_old;
}

main-settles_example : ¬ (main (launch_of "0.4.19") upgraded_env ≡ replaced upgraded_env)
unfolding main maybe_self_upgrade fetch_manifest_version run_pip_install parse_version int_of_text
main-settles_example =
    main-settles (launch_of "0.4.19") (launch_of "0.4.19") [] upgraded_env upgraded_env refl

main-mines_example :
    ForPool (launch_of "0.4.20") built
    × Trusted offering (detect_platform_key [] linux) (some sha_old) (some sha_new)
unfolding main maybe_self_upgrade fetch_manifest_version run_pip_install parse_version int_of_text
    build_config split_last subcommand run started_solver maybe_update_solver detect_platform_key
    resolve_manifest_entry update_entry download_and_verify
main-mines_example = main-mines (launch_of "0.4.20") [] built (some sha_new) refl

abbrev floored : HasFloor offering [] sha_new sha_new
unfolding detect_platform_key resolve_manifest_entry
floored = record {
  document = dict manifest;
  entry = entry_of entry_fields;
  answered = refl;
  resolved = refl;
  digest = refl;
  address = refl;
  floor = refl;
}

main-floor_example :
    Path Binary (some sha_new) (some sha_new) ⊎ Path Binary (some sha_new) (some sha_new)
unfolding main maybe_self_upgrade fetch_manifest_version run_pip_install parse_version int_of_text
    build_config split_last subcommand run started_solver maybe_update_solver detect_platform_key
    resolve_manifest_entry update_entry download_and_verify
main-floor_example =
    main-floor (launch_of "0.4.20") [] built (some sha_new) sha_new sha_new floored refl refl refl
      refl
