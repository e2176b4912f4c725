-- ===== src/Cli/Start/Floor.antt =====
-- The hard floor of the manifest at the start of the miner.
use minebtx.Prelude.{
  String, ◌≡◌, ◌⊎◌, inl, inr, ap, sym, subst, ◌∙◌, Bool, true, false, not, ◌||◌, Option, none, some,
  Bool-cases, eq_iff, arith, if◌then◌else◌,
}
use minebtx.Py.Result.{Result, ok, err}
use minebtx.Py.Value.{Value, null, str}
use minebtx.Py.Assoc.{Assoc}
use minebtx.Config.{MinerConfig}
use minebtx.Updater.Manifest.{Fetch, fetched, Entry, detect_platform_key, resolve_manifest_entry}
use minebtx.Updater.Solver.{
  Download, Binary, same_digest, download_and_verify, place, valid_sha, valid_url, update_to,
  update_entry, with_entry, opted_out, maybe_update_solver, with_manifest,
}
use minebtx.Cli.{Channel}
use minebtx.Cli.Start.{Launch, mines, started_solver, main}
use minebtx.Cli.Start.Mining.{main-Mined, kept_env, check, kept-opted_out, kept-platform}

same_digest-eq : (b : Binary) (s : String) → same_digest b s ≡ true → b ≡ some s
same_digest-eq none s h = cc
same_digest-eq (some t) s h = ap some ((eq_iff t s).0 h)

abbrev Floored : String → String → Binary → Type 0
Floored sha required binary = (binary ≡ some sha) ⊎ (binary ≡ some required)

module _ (sha required : String) (local binary : Binary) (updated : Bool) where
  refused-Floored :
      place (str required) true sha local (ok false) ≡ (ok updated, binary)
      → Floored sha required binary
  refused-Floored h = elim (Bool-cases (same_digest local required)) [
    | inl meets ↦ inr (ap (λ p. p.1) (sym h) ∙ same_digest-eq local required meets)
    | inr below ↦ ground (arith, below, h)
  ]

  place-Floored :
      (r : Result Bool)
      → place (str required) true sha local r ≡ (ok updated, binary)
      → Floored sha required binary
  place-Floored (err e) h = cc
  place-Floored (ok true) h = inl (ap (λ p. p.1) (sym h))
  place-Floored (ok false) h = refused-Floored h

  followed :
      (valid same : Bool) (p : Result Bool × Binary)
      → (if not valid || same then (ok false, local) else p) ≡ (ok updated, binary)
      → valid ≡ true
      → same ≡ false
      → p ≡ (ok updated, binary)
  followed true false p h v s = h
  followed true true p h v s = cc
  followed false same p h v s = cc

  update_to-Floored :
      (entry : Entry) (download : Download)
      → valid_url entry.url ≡ true
      → entry.min_required_sha256 ≡ str required
      → update_to entry download true local (some sha) ≡ (ok updated, binary)
      → Floored sha required binary
  update_to-Floored entry download url floor h = elim (Bool-cases (same_digest local sha)) [
    | inl same ↦ inl (ground (arith, url, same, h, same_digest-eq local sha same))
    | inr differs ↦ place-Floored (download_and_verify download sha) (
        ap (λ m. place m true sha local (download_and_verify download sha)) (sym floor)
        ∙ followed (valid_url entry.url) (same_digest local sha) _ h url differs)
  ]

-- The update by a manifest that resolves to this entry.
with_manifest-entry :
    (key : Option String) (v : Value) (entry : Entry) (sha : String) (download : Download)
    (local : Binary)
    → resolve_manifest_entry key v ≡ ok (some entry)
    → valid_sha entry.sha256 ≡ some sha
    → with_manifest key (fetched v) download true local
      ≡ update_to entry download true local (some sha)
unfolding resolve_manifest_entry update_entry
with_manifest-entry key null entry sha download local r s = cc
with_manifest-entry key v entry sha download local r s =
    ap (with_entry download true local) r ∙ ap (update_to entry download true local) s

-- A manifest whose entry for this host names a digest, an address and a hard floor.
pub record HasFloor (ch : Channel) (env : Assoc String) (sha required : String) : Type 0 where
  pub document : Value
  pub entry : Entry
  pub answered : ch.fetch ≡ fetched document
  pub resolved : resolve_manifest_entry (detect_platform_key env ch.host) document ≡ ok (some entry)
  pub digest : valid_sha entry.sha256 ≡ some sha
  pub address : valid_url entry.url ≡ true
  pub floor : entry.min_required_sha256 ≡ str required

-- The check of a process that meets such a manifest.
check-entry :
    (l : Launch) (env : Assoc String) (cfg : MinerConfig) (sha required : String)
    (f : HasFloor l.channel env sha required)
    → opted_out env ≡ false
    → l.channel.installs ≡ true
    → check l (kept_env l env) cfg
      ≡ update_to f.entry l.channel.download true
          (l.files (l.expanduser cfg.gbt_solve_path))
          (some sha)
unfolding maybe_update_solver
check-entry l env cfg sha required f on installs =
    let local = l.files (l.expanduser cfg.gbt_solve_path) in
    let key = detect_platform_key env l.channel.host in
    ap
      (λ b.
        if b
        then (ok false, local)
        else read (detect_platform_key (kept_env l env) l.channel.host) l.channel.fetch
            l.channel.installs)
      (kept-opted_out l env ∙ on)
    ∙ (ap (λ k. read k l.channel.fetch l.channel.installs) (kept-platform l env)
        ∙ (ap (λ x. read key x l.channel.installs) f.answered
            ∙ (ap (read key (fetched f.document)) installs
                ∙ with_manifest-entry key f.document f.entry sha l.channel.download local f.resolved
                    f.digest)))
  where
    read : Option String → Fetch → Bool → Result Bool × Binary
    read k x b = with_manifest k x l.channel.download b (l.files (l.expanduser cfg.gbt_solve_path))

-- With a path that has no `~`, the solver that is started is the one that the check left.
started-checked :
    (l : Launch) (cfg : MinerConfig) (checked : Binary)
    → l.expanduser cfg.gbt_solve_path ≡ cfg.gbt_solve_path
    → started_solver l cfg checked ≡ checked
unfolding started_solver
started-checked l cfg checked h =
    ap (λ b. if b then checked else l.files cfg.gbt_solve_path)
      ((eq_iff (l.expanduser cfg.gbt_solve_path) cfg.gbt_solve_path).1 h)

-- Where the manifest's entry for this host names a digest, an address and a hard floor, the operator has
-- not opted out of the check, files can be moved to their place and the settings' path has no `~` to
-- expand, a process serves the pool only with the published solver or with the required one.
pub main-floor :
    (l : Launch) (env : Assoc String) (cfg : MinerConfig) (binary : Binary) (sha required : String)
    → HasFloor l.channel env sha required
    → opted_out env ≡ false
    → l.channel.installs ≡ true
    → l.expanduser cfg.gbt_solve_path ≡ cfg.gbt_solve_path
    → main l env ≡ mines cfg binary
    → (binary ≡ some sha) ⊎ (binary ≡ some required)
main-floor l env cfg binary sha required f on installs written h =
    let m = main-Mined l env cfg binary h in
    subst (Floored sha required) (sym (m.started ∙ started-checked l cfg m.checked_binary written))
      (update_to-Floored sha required (l.files (l.expanduser cfg.gbt_solve_path)) m.checked_binary
        m.updated f.entry l.channel.download f.address f.floor
        (sym (check-entry l env cfg sha required f on installs) ∙ m.checked))
