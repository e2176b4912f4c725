-- ===== src/Cli/Laws.antt =====
-- What the settings are good for, and when a cycle of the re-check starts the miner again.
use text.Mathlib.TextLemmas.{nil-append, cons-append}
use minebtx.Prelude.{
  String, ◌<>◌, length, ◌≡◌, ◌⊎◌, refl, ap, sym, subst, ◌∙◌, Bool, true, false, none, some, ◌==◌,
  Bool-cases, inl, inr, str_eq, eq_iff, arith, if◌then◌else◌,
}
use minebtx.Prelude.Int.{ℤ}
use minebtx.Py.Result.{Result, ok, err, usage_error, value_error, ◌>>=◌, >>=-eq-ok}
use minebtx.Py.Assoc.{Assoc}
use minebtx.Py.Number.{int_of_text}
use minebtx.Config.{MinerConfig, fully_qualified_worker}
use minebtx.Updater.Solver.{Binary, valid_sha, maybe_update_solver}
use minebtx.Updater.Solver.Laws.{maybe_update_solver-Permitted}
use minebtx.Py.Value.{Value, str}
use minebtx.Py.Text.{codes}
use minebtx.Updater.Wrapper.{World, Next, stays, restarts, maybe_self_upgrade}
use minebtx.Cli.{
  split_last, pool_of, parse_pool, Args, pool_given, with_args, require_address, build_config,
  Channel, reexec, after_update, after_upgrade, watch_cycle,
}

split_last-append :
    (host port : String)
    → split_last port ≡ none
    → split_last (host <> ":" <> port) ≡ some (host, port)
unfolding split_last
split_last-append String.[] port h =
    ap split_last (
      nil-append (":" <> port)
      ∙ (cons-append ":" "" port ∙ ap (λ s. String.◌∷◌ ":" s) (nil-append port)))
    ∙ rw (h, split_last) refl
split_last-append (String.◌∷◌ c host) port h =
    ap split_last (cons-append c host (":" <> port))
    ∙ rw (split_last-append host port h, split_last) refl

-- Where a port is read as a number and holds no colon, the last colon of a pool's address separates
-- it, so that a host may hold colons of its own.
parse_pool-append :
    (host port : String) {n : ℤ}
    → split_last port ≡ none
    → int_of_text 10 port ≡ ok n
    → parse_pool (host <> ":" <> port) ≡ ok (host, n)
unfolding parse_pool
parse_pool-append host port h e =
    ap pool_of (split_last-append host port h) ∙ ap (λ r. r >>= λ n. ok (host, n)) e

ok_injective {ℓ} : {A : Type ℓ} {a b : A} → Path (Result A) (ok a) (ok b) → a ≡ b
ok_injective h = cc

-- Settings of which the worker's name can be built, and that have this pool.
abbrev pub Usable : String × ℤ → MinerConfig → Type 0
Usable pool cfg =
    (fully_qualified_worker cfg ≡ ok (cfg.payout_address <> "." <> cfg.worker_name))
    × ((cfg.pool_host, cfg.pool_port) ≡ pool)

require-Usable :
    (pool : String × ℤ) (cfg cfg' : MinerConfig) (b : Bool)
    → (cfg.pool_host, cfg.pool_port) ≡ pool
    → str_eq cfg.payout_address "" ≡ b
    → require_address cfg ≡ ok cfg'
    → Usable pool cfg'
unfolding fully_qualified_worker
require-Usable pool cfg cfg' true p e h = ground (arith, e, h)
require-Usable pool cfg cfg' false p e h =
    let same : cfg ≡ cfg' =
      ok_injective (ap (λ b. if b then err usage_error else ok cfg) (sym e) ∙ h) in
    subst (Usable pool) same (
      ap (λ b. if b then err value_error else ok (cfg.payout_address <> "." <> cfg.worker_name)) e,
      p,
    )

-- Settings that were built have a worker's name, and they have the pool that the flag names, if it was
-- given, and else that of the file.
pub build_config-worker :
    (base cfg : MinerConfig) (args : Args)
    → build_config base args ≡ ok cfg
    → (fully_qualified_worker cfg ≡ ok (cfg.payout_address <> "." <> cfg.worker_name))
      × (pool_given args.pool base ≡ ok (cfg.pool_host, cfg.pool_port))
unfolding build_config
build_config-worker base cfg args h =
    let (pool, e, r) =
      >>=-eq-ok (pool_given args.pool base) (λ p. require_address (with_args base args p)) h in
    let (worker, same) = require-Usable pool (with_args base args pool) cfg _ refl refl r in
    (worker, e ∙ ap ok (sym same))

-- A binary that an update leaves: the old one, or one with a digest that is a text of some length.
abbrev Left : Binary → Result Bool × Binary → Type 0
Left local p =
    (p.1 ≡ local) ⊎ ((sha : String) × (p ≡ (ok true, some sha)) × (str_eq sha "" ≡ false))

valid-length : (v : Value) {sha : String} → valid_sha v ≡ some sha → length (codes sha) ≡ 64
valid-length (str s) {sha} h = elim (Bool-cases (length (codes s) == 64)) [
  | inl right ↦
      let same : some s ≡ some sha = ap (λ b. if b then some s else none) (sym right) ∙ h in
      ap (λ o. elim o [ none ↦ 64 | some t ↦ length (codes t) ]) (sym same) ∙ ground (arith, right)
  | inr wrong ↦ ground (arith, wrong, h)
]
valid-length v h = cc

valid-nonempty : (v : Value) {sha : String} → valid_sha v ≡ some sha → str_eq sha "" ≡ false
valid-nonempty v {sha} h = elim (Bool-cases (str_eq sha "")) [
  | inl empty ↦
      let zero_length : 0 ≡ 64 =
        ap (λ t. length (codes t)) (sym ((eq_iff sha "").0 empty)) ∙ valid-length v h in
      ground (arith, zero_length)
  | inr filled ↦ filled
]

update-Left :
    (env : Assoc String) (ch : Channel) (local : Binary)
    → Left local (maybe_update_solver env ch.host ch.fetch ch.download ch.installs local)
update-Left env ch local =
    elim (maybe_update_solver-Permitted env ch.host ch.fetch ch.download ch.installs local) [
      | inl (same, quiet) ↦ inl same
      | inr (v, entry, sha, f, r, valid, (replaced, d)) ↦
          inr (sha, replaced, valid-nonempty entry.sha256 valid)
    ]

-- With a path that is expanded only for the update, no cycle starts the miner again for its solver.
after_update-unseen :
    (ch : Channel) (env : Assoc String) (before : Binary) (p : Result Bool × Binary)
    → ch.same_path ≡ false
    → (after_update ch env before p).0 ≡ stays
after_update-unseen ch env before (err e, after) h = refl
after_update-unseen ch env before (ok b, after) h = rw h refl

module _ (ch : Channel) (starts : ch.starts ≡ true) (same_path : ch.same_path ≡ true) (old : String)
    (there : str_eq old "" ≡ false) where
  after_update-same :
      (env : Assoc String) (p : Result Bool × Binary)
      → Left (some old) p
      → (after_update ch env (some old) p).0 ≡ stays
      → (after_update ch env (some old) p).1 ≡ some old
  unfolding reexec
  after_update-same env (err e, after) (inl same) h = same
  after_update-same env (ok b, after) (inl same) h = same
  after_update-same env (err e, after) (inr (sha, eq, nonempty)) h = cc
  after_update-same env (ok b, none) (inr (sha, eq, nonempty)) h = cc
  after_update-same env (ok b, some s) (inr (sha, eq, nonempty)) h =
      elim (Bool-cases (str_eq old s)) [
        | inl same ↦ ap some (sym ((eq_iff old s).0 same))
        | inr differ ↦ ground (arith, starts, same_path, there, nonempty, differ, eq, h)
      ]

  after_upgrade-same :
      (p : Result Next × Assoc String)
      → (after_upgrade ch (some old) p).0 ≡ stays
      → (after_upgrade ch (some old) p).1 ≡ some old
  after_upgrade-same (err e, env) h = refl
  after_upgrade-same (ok (restarts next), env) h = refl
  after_upgrade-same (ok stays, env) h =
      after_update-same env
        (maybe_update_solver env ch.host ch.fetch ch.download ch.installs (some old))
        (update-Left env ch (some old)) h

  -- Where new processes start, the solver's path has no `~`, and there was a binary, a cycle of the
  -- re-check after which the miner goes on has left the binary that it knows.
  pub watch_cycle-same :
      (w : World) (version : String) (env : Assoc String)
      → (watch_cycle w version ch env (some old)).0 ≡ stays
      → (watch_cycle w version ch env (some old)).1 ≡ some old
  unfolding watch_cycle
  watch_cycle-same w version env h = after_upgrade-same (maybe_self_upgrade w version env) h
