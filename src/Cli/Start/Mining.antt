-- ===== src/Cli/Start/Mining.antt =====
-- What a process has that starts to mine: settings for a session, and a solver that the manifest permits.
use minebtx.Prelude.{
  String, ◌<>◌, ◌≡◌, ◌⊎◌, inl, inr, refl, ap, sym, subst, ◌∙◌, Bool, Bool-cases, eq_iff, false,
  Option, none, some, List, [], str_eq, if◌then◌else◌,
}
use minebtx.Py.Result.{Result, ok, err, Error, >>=-eq-ok}
use minebtx.Py.Value.{Value}
use minebtx.Py.Assoc.{Assoc}
use minebtx.Config.{MinerConfig, fully_qualified_worker}
use minebtx.Updater.Manifest.{fetched, Entry, detect_platform_key, resolve_manifest_entry}
use minebtx.Updater.Solver.{Binary, got, valid_sha, opted_out, maybe_update_solver}
use minebtx.Updater.Solver.Laws.{maybe_update_solver-Permitted}
use minebtx.Updater.Wrapper.{Next, stays, restarts, maybe_self_upgrade}
use minebtx.Updater.Wrapper.Laws.{maybe_self_upgrade-lookup}
use minebtx.Py.Text.{strip_text}
use minebtx.Cli.{Args, Channel, pool_given}
use minebtx.Cli.Laws.{build_config-worker}
use minebtx.Cli.Start.{
  Launch, mines, subcommand, started_solver, after_check, run, run_configured, configured, dispatch,
  after_upgrade, main,
}

-- The environment of a process behind its own upgrade.
abbrev pub kept_env : Launch → Assoc String → Assoc String
kept_env l env = (maybe_self_upgrade l.world l.version env).1

pub kept-platform :
    (l : Launch) (env : Assoc String)
    → detect_platform_key (kept_env l env) l.channel.host ≡ detect_platform_key env l.channel.host
unfolding detect_platform_key
kept-platform l env =
    ap
      (λ o. elim o [
        | none ↦ detect_platform_key [] l.channel.host
        | some key ↦
            if str_eq key "" then detect_platform_key [] l.channel.host else some (strip_text key)
      ])
      (maybe_self_upgrade-lookup l.world l.version "DEXBTX_PLATFORM_KEY" env refl)

pub kept-opted_out : (l : Launch) (env : Assoc String) → opted_out (kept_env l env) ≡ opted_out env
kept-opted_out l env =
    ap (λ o. elim o [ none ↦ false | some v ↦ str_eq v "1" ])
      (maybe_self_upgrade-lookup l.world l.version "DEXBTX_NO_SOLVER_AUTOUPDATE" env refl)

-- The check of the solver.
abbrev pub check : Launch → Assoc String → MinerConfig → Result Bool × Binary
check l env cfg =
    maybe_update_solver env l.channel.host l.channel.fetch l.channel.download l.channel.installs
      (l.files (l.expanduser cfg.gbt_solve_path))

after_check-mines :
    (l : Launch) (cfg cfg' : MinerConfig) (binary : Binary) (p : Result Bool × Binary)
    → after_check l cfg p ≡ mines cfg' binary
    → (cfg ≡ cfg')
      × (updated : Bool) × (checked : Binary) × (p ≡ (ok updated, checked))
      × (binary ≡ started_solver l cfg checked)
after_check-mines l cfg cfg' binary (ok updated, b) h = (cc, updated, b, refl, cc)
after_check-mines l cfg cfg' binary (err Error.update_required, b) h = cc
after_check-mines l cfg cfg' binary (err e, b) h = cc

-- What a process met that mines with these settings and this solver.
pub record Mined (l : Launch) (env : Assoc String) (cfg : MinerConfig) (binary : Binary)
    : Type 0 where
  pub settings : configured l ≡ ok cfg
  pub updated : Bool
  pub checked_binary : Binary
  pub checked : check l env cfg ≡ (ok updated, checked_binary)
  pub started : binary ≡ started_solver l cfg checked_binary

dispatch-Mined :
    (l : Launch) (env : Assoc String) (cfg : MinerConfig) (binary : Binary)
    (o : Option (List String))
    → dispatch l env o ≡ mines cfg binary
    → Mined l env cfg binary
unfolding run
dispatch-Mined l env cfg binary (some rest) h = cc
dispatch-Mined l env cfg binary none h = by_settings (configured l) refl h
  where
    by_settings :
        (r : Result MinerConfig)
        → configured l ≡ r
        → run_configured l env r ≡ mines cfg binary
        → Mined l env cfg binary
    by_settings (err e) s h = cc
    by_settings (ok c) s h =
        let (same, updated, checked_binary, checked, started) =
          after_check-mines l c cfg binary (check l env c) h in
        record {
          settings = s ∙ ap ok same;
          updated = updated;
          checked_binary = checked_binary;
          checked = ap (check l env) (sym same) ∙ checked;
          started = started ∙ ap (λ c. started_solver l c checked_binary) same;
        }

after_upgrade-Mined :
    (l : Launch) (cfg : MinerConfig) (binary : Binary) (p : Result Next × Assoc String)
    → after_upgrade l p ≡ mines cfg binary
    → Mined l p.1 cfg binary
after_upgrade-Mined l cfg binary (err e, env) h = cc
after_upgrade-Mined l cfg binary (ok (restarts other), env) h = cc
after_upgrade-Mined l cfg binary (ok stays, env) h =
    dispatch-Mined l env cfg binary (subcommand l.argv) h

pub main-Mined :
    (l : Launch) (env : Assoc String) (cfg : MinerConfig) (binary : Binary)
    → main l env ≡ mines cfg binary
    → Mined l (kept_env l env) cfg binary
unfolding main
main-Mined l env cfg binary h =
    after_upgrade-Mined l cfg binary (maybe_self_upgrade l.world l.version env) h

-- Settings with a worker's name, for the pool that the flags or the file name.
abbrev pub ForPool : Launch → MinerConfig → Type 0
ForPool l cfg =
    (args : Args) × (base : MinerConfig) × (l.parse_args l.argv ≡ ok args)
    × (l.loaded args ≡ ok base)
    × (fully_qualified_worker cfg ≡ ok (cfg.payout_address <> "." <> cfg.worker_name))
    × (pool_given args.pool base ≡ ok (cfg.pool_host, cfg.pool_port))

configured-ForPool : (l : Launch) (cfg : MinerConfig) → configured l ≡ ok cfg → ForPool l cfg
configured-ForPool l cfg h =
    let (args, parsed, h₁) = >>=-eq-ok (l.parse_args l.argv) _ h in
    let (base, loaded, h₂) = >>=-eq-ok (l.loaded args) _ h₁ in
    let (worker, pool) = build_config-worker base cfg args h₂ in
    (args, base, parsed, loaded, worker, pool)

-- The solver that was there, or a download with the digest that a fetched manifest gives.
abbrev pub Trusted : Channel → Option String → Binary → Binary → Type 0
Trusted ch key local binary =
    (binary ≡ local)
    ⊎ ((v : Value) × (entry : Entry) × (sha : String) × (ch.fetch ≡ fetched v)
        × (resolve_manifest_entry key v ≡ ok (some entry))
        × (valid_sha entry.sha256 ≡ some sha)
        × (ch.download ≡ got sha)
        × (binary ≡ some sha))

checked-Trusted :
    (l : Launch) (env : Assoc String) (cfg : MinerConfig) (updated : Bool) (binary : Binary)
    → check l env cfg ≡ (ok updated, binary)
    → Trusted l.channel
        (detect_platform_key env l.channel.host)
        (l.files (l.expanduser cfg.gbt_solve_path))
        binary
checked-Trusted l env cfg updated binary e =
    elim (maybe_update_solver-Permitted env l.channel.host l.channel.fetch l.channel.download
      l.channel.installs (l.files (l.expanduser cfg.gbt_solve_path))) [
        | inl (same, quiet) ↦ inl (ap (λ p. p.1) (sym e) ∙ same)
        | inr (v, entry, sha, f, r, valid, (installed, d)) ↦
            inr (v, entry, sha, f, r, valid, d, ap (λ p. p.1) (sym e ∙ installed))
      ]

-- What was there or a download at the expanded path, for the path as it is written.
started-Trusted :
    (l : Launch) (cfg : MinerConfig) (key : Option String) (checked : Binary)
    → Trusted l.channel key (l.files (l.expanduser cfg.gbt_solve_path)) checked
    → Trusted l.channel key (l.files cfg.gbt_solve_path) (started_solver l cfg checked)
unfolding started_solver
started-Trusted l cfg key checked t =
    let path = cfg.gbt_solve_path in
    elim (Bool-cases (str_eq (l.expanduser path) path)) [
      | inl same ↦
          subst (λ b. Trusted l.channel key (l.files path) (if b then checked else l.files path))
            (sym same)
            (subst (λ p. Trusted l.channel key (l.files p) checked)
              ((eq_iff (l.expanduser path) path).0 same) t)
      | inr differs ↦ inl (ap (λ b. if b then checked else l.files path) differs)
    ]

-- A process serves the pool only with settings that name a worker, for the pool of its flags or its
-- file, and with the solver that was at the settings' path as it is written, or a download with the
-- digest that the manifest gives for this host.
pub main-mines :
    (l : Launch) (env : Assoc String) (cfg : MinerConfig) (binary : Binary)
    → main l env ≡ mines cfg binary
    → ForPool l cfg
      × Trusted l.channel
          (detect_platform_key env l.channel.host)
          (l.files cfg.gbt_solve_path)
          binary
main-mines l env cfg binary h =
    let m = main-Mined l env cfg binary h in
    (
      configured-ForPool l cfg m.settings,
      subst
          (Trusted l.channel (detect_platform_key env l.channel.host) (l.files cfg.gbt_solve_path))
          (sym m.started)
          (subst
            (λ key.
              Trusted l.channel key (l.files cfg.gbt_solve_path)
                (started_solver l cfg m.checked_binary))
            (kept-platform l env)
            (started-Trusted l cfg _ m.checked_binary
              (checked-Trusted l (kept_env l env) cfg m.updated m.checked_binary m.checked))),
    )
