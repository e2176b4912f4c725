-- ===== src/Witnesses/Updates.antt =====
-- The updates and the command line on concrete inputs.
use minebtx.Prelude.{String, ◌≡◌, refl, true, false, none, some, [], ◌∷◌, str_eq, if◌then◌else◌}
use minebtx.Prelude.Int.{pos}
use minebtx.Py.Result.{ok, err, update_required}
use minebtx.Py.Value.{Fields, str, dict, end, field}
use minebtx.Py.Number.{int_of_text}
use minebtx.Config.{MinerConfig, default_config}
use minebtx.Updater.Manifest.{fetched, Host, detect_platform_key, resolve_manifest_entry, entry_of}
use minebtx.Updater.Solver.{failed, got, update_entry, maybe_update_solver}
use minebtx.Updater.Solver.Laws.{Permitted, maybe_update_solver-Permitted, update_entry-floor}
use minebtx.Updater.Wrapper.{
  World, stays, restarts, exits, just_upgraded, delete, fetch_manifest_version, run_pip_install,
  maybe_self_upgrade, parse_version,
}
use minebtx.Updater.Wrapper.Laws.{maybe_self_upgrade-once, maybe_self_upgrade-again}
use minebtx.Cli.{Args, Channel, watch_cycle}
use minebtx.Cli.Laws.{watch_cycle-same}

abbrev pub sha_new : String
sha_new = "1111111111111111111111111111111111111111111111111111111111111111"

abbrev pub sha_old : String
sha_old = "2222222222222222222222222222222222222222222222222222222222222222"

abbrev pub entry_fields : Fields
entry_fields =
    field "sha256" (str sha_new) (
      field "url" (str "https://example.org/solver")
        (field "min_required_sha256" (str sha_new) end))

abbrev pub manifest : Fields
manifest =
    field "version" (str "0.4.20")
      (field "platforms" (dict (field "x86_64-linux" (dict entry_fields) end)) end)

abbrev pub linux : Host
linux = record { machine = "x86_64"; system = "linux" }

maybe_update_solver-Permitted_example :
    Permitted
      (detect_platform_key [] linux)
      (fetched (dict manifest))
      (got sha_new)
      (some sha_old)
      (maybe_update_solver [] linux (fetched (dict manifest)) (got sha_new) true (some sha_old))
maybe_update_solver-Permitted_example =
    maybe_update_solver-Permitted [] linux (fetched (dict manifest)) (got sha_new) true
      (some sha_old)

update_entry-floor_example :
    (update_entry (entry_of entry_fields) failed false (some sha_old)
      ≡ (err update_required, some sha_old))
    × (update_entry (entry_of entry_fields) (got sha_new) false (some sha_old) ≡ (
        if str_eq sha_new sha_new
        then (if false then (ok true, some sha_new) else (ok false, some sha_old))
        else (err update_required, some sha_old)))
update_entry-floor_example =
    update_entry-floor (entry_of entry_fields) sha_new sha_new sha_new false (some sha_old) refl
      refl refl refl refl

-- A release that is published as 0.4.20.
abbrev pub published : World
published = record {
  fetch = fetched (dict manifest);
  pkg_url = ok "https://example.org/v0.4.20.tar.gz";
  first = exits (pos 0);
  second = exits (pos 1);
  starts = true;
}

abbrev pub upgraded_env : minebtx.Py.Assoc.Assoc String
upgraded_env = (just_upgraded, "0.4.20") ∷ []

maybe_self_upgrade-once_example :
    maybe_self_upgrade published "0.4.19" upgraded_env
    ≡ (ok stays, delete just_upgraded upgraded_env)
unfolding maybe_self_upgrade fetch_manifest_version run_pip_install parse_version int_of_text
maybe_self_upgrade-once_example =
    maybe_self_upgrade-once published published "0.4.19" "0.4.19" [] upgraded_env refl

maybe_self_upgrade-again_example :
    (maybe_self_upgrade published "0.4.19" (maybe_self_upgrade published "0.4.19" upgraded_env).1).0
    ≡ ok (restarts upgraded_env)
unfolding maybe_self_upgrade fetch_manifest_version run_pip_install parse_version int_of_text
maybe_self_upgrade-again_example =
    maybe_self_upgrade-again published published "0.4.19" "0.4.19" [] upgraded_env refl

abbrev pub flags : Args
flags = record {
  pool = some "stratum.minebtx.com:3333";
  tls = false;
  address = some "btx1zaddress";
  worker = none;
  gbt_solve = none;
  threads = some (pos 10);
  batch_size = none;
  prefetch = none;
  prepare_workers = none;
  gpu_inputs = none;
  nonces_per_slice = none;
  log_level = none;
}

abbrev pub built : MinerConfig
built = record (default_config "/root") {
  pool_host = "stratum.minebtx.com";
  payout_address = "btx1zaddress";
  solver_threads = some (pos 10);
}

abbrev quiet_channel : Channel
quiet_channel = record {
  host = linux;
  fetch = fetched (dict manifest);
  download = failed;
  installs = true;
  starts = true;
  same_path = true;
}

watch_cycle-same_example :
    (watch_cycle published "0.4.20" quiet_channel [] (some sha_new)).1 ≡ some sha_new
unfolding watch_cycle maybe_self_upgrade fetch_manifest_version parse_version int_of_text
    maybe_update_solver detect_platform_key resolve_manifest_entry
watch_cycle-same_example =
    watch_cycle-same quiet_channel refl refl sha_new refl published "0.4.20" [] refl
