-- ===== src/Updater/Wrapper/Laws.antt =====
-- The guard against an upgrade that repeats itself, and how far it reaches.
use minebtx.Prelude.{
  String, ◌≡◌, refl, ap, sym, ◌∙◌, Bool, true, false, not, Option, none, some, [], ◌∷◌, Bool-cases,
  inl, inr, str_eq, eq_iff, arith, if◌then◌else◌,
}
use minebtx.Py.Result.{Result, ok, err}
use minebtx.Py.Value.{Value, null, str, dict, find_or}
use minebtx.Py.Assoc.{Assoc, lookup, insert, lookup-insert}
use minebtx.Updater.Manifest.{Fetch, unreachable, malformed, fetched}
use minebtx.Updater.Wrapper.{
  World, stays, restarts, just_upgraded, delete, is_set, install, upgrade_to, newest,
  fetch_manifest_version, version_text, attempt, opted_out, is_child, maybe_self_upgrade,
}

lookup-delete :
    (k j : String) (d : Assoc String)
    → lookup j (delete k d) ≡ (if str_eq j k then none else lookup j d)
lookup-delete k j [] = ground arith
lookup-delete k j ((i, v) ∷ d) =
    ground (arith, lookup-delete k j d, eq_iff k i, eq_iff j i, eq_iff j k)

delete-insert : (k v : String) (d : Assoc String) → delete k (insert k v d) ≡ delete k d
delete-insert k v [] = ground (arith, eq_iff k k)
delete-insert k v ((i, w) ∷ d) = ground (arith, delete-insert k v d, eq_iff k i)

delete-delete : (k : String) (d : Assoc String) → delete k (delete k d) ≡ delete k d
delete-delete k [] = refl
delete-delete k ((i, w) ∷ d) = ground (arith, delete-delete k d)

-- The environment of the new process.
abbrev child : String → Assoc String → Assoc String
child target env = insert just_upgraded target (delete just_upgraded env)

-- An upgrade keeps the rest of the environment.
pub maybe_self_upgrade-lookup :
    (w : World) (version j : String) (env : Assoc String)
    → str_eq j just_upgraded ≡ false
    → lookup j (maybe_self_upgrade w version env).1 ≡ lookup j env
unfolding maybe_self_upgrade
maybe_self_upgrade-lookup w version j env h = go (opted_out env) (is_child env)
  where
    kept : lookup j (delete just_upgraded env) ≡ lookup j env
    kept = lookup-delete just_upgraded j env ∙ ap (λ b. if b then none else lookup j env) h

    go : (out child : Bool) → lookup j (attempt out child w version env).1 ≡ lookup j env
    go true child = refl
    go false true = kept
    go false false = kept

opted_out-delete : (env : Assoc String) → opted_out (delete just_upgraded env) ≡ opted_out env
opted_out-delete env = ap is_set (lookup-delete just_upgraded "DEXBTX_NO_WRAPPER_AUTOUPDATE" env)

opted_out-child :
    (target : String) (env : Assoc String) → opted_out (child target env) ≡ opted_out env
opted_out-child target env =
    ap is_set
      (lookup-insert just_upgraded "DEXBTX_NO_WRAPPER_AUTOUPDATE" target (delete just_upgraded env))
    ∙ opted_out-delete env

is_child-child :
    (target : String) (env : Assoc String) → is_child (child target env) ≡ not (str_eq target "")
is_child-child target env =
    ap is_set (lookup-insert just_upgraded just_upgraded target (delete just_upgraded env))

is_child-delete : (env : Assoc String) → is_child (delete just_upgraded env) ≡ false
is_child-delete env = ap is_set (lookup-delete just_upgraded just_upgraded env)

-- What an attempt that ends in a new process had.
record Launch (w : World) (version : String) (env next : Assoc String) : Type 0 where
  target : String
  allowed : opted_out env ≡ false
  first_attempt : is_child env ≡ false
  published : fetch_manifest_version w.fetch ≡ ok (some target)
  environment : next ≡ child target env

install-child :
    (w : World) (env next : Assoc String) (target : String) (r : Result String)
    → install w env target r ≡ ok (restarts next)
    → next ≡ insert just_upgraded target env
install-child w env next target (err e) h = cc
install-child w env next target (ok url) h = ground (arith, h)

upgrade_to-child :
    (w : World) (version : String) (env next : Assoc String) (r : Result (Option String))
    → upgrade_to w version env r ≡ ok (restarts next)
    → (target : String) × (r ≡ ok (some target)) × (next ≡ insert just_upgraded target env)
upgrade_to-child w version env next (err e) h = cc
upgrade_to-child w version env next (ok none) h = cc
upgrade_to-child w version env next (ok (some target)) h =
    elim (Bool-cases (newest target version)) [
      | inl current ↦ ground (arith, current, h)
      | inr older ↦
          (target, refl, install-child w env next target w.pkg_url (ground (arith, older, h)))
    ]

launch :
    (w : World) (version : String) (env next : Assoc String)
    → (maybe_self_upgrade w version env).0 ≡ ok (restarts next)
    → Launch w version env next
unfolding maybe_self_upgrade
launch w version env next h = go (opted_out env) (is_child env) refl refl h
  where
    go :
        (out child : Bool)
        → opted_out env ≡ out
        → is_child env ≡ child
        → (attempt out child w version env).0 ≡ ok (restarts next)
        → Launch w version env next
    go true child eo ec h = cc
    go false true eo ec h = cc
    go false false eo ec h =
        let (target, published, environment) =
          upgrade_to-child w version (delete just_upgraded env) next
            (fetch_manifest_version w.fetch) h in
        record {
          target = target;
          allowed = eo;
          first_attempt = ec;
          published = published;
          environment = environment;
        }

version_text-nonempty : (v : Value) {t : String} → version_text v ≡ some t → str_eq t "" ≡ false
version_text-nonempty (str s) h = ground (arith, h)
version_text-nonempty v h = cc

text-nonempty :
    (f : Fetch) {t : String} → fetch_manifest_version f ≡ ok (some t) → str_eq t "" ≡ false
unfolding fetch_manifest_version
text-nonempty unreachable h = cc
text-nonempty malformed h = cc
text-nonempty (fetched (dict d)) h = version_text-nonempty (find_or "version" null d) (cc)
text-nonempty (fetched v) h = cc

-- The process that an upgrade starts does not upgrade at its first attempt, whatever its version is
-- and whatever the manifest says by then.
pub maybe_self_upgrade-once :
    (w w' : World) (version version' : String) (env next : Assoc String)
    → (maybe_self_upgrade w version env).0 ≡ ok (restarts next)
    → maybe_self_upgrade w' version' next ≡ (ok stays, delete just_upgraded next)
unfolding maybe_self_upgrade
maybe_self_upgrade-once w w' version version' env next h =
    let l = launch w version env next h in
    let out : opted_out next ≡ false =
      ap opted_out l.environment ∙ (opted_out-child l.target env ∙ l.allowed) in
    let child : is_child next ≡ true =
      ap is_child l.environment
      ∙ (is_child-child l.target env ∙ ap not (text-nonempty w.fetch l.published)) in
    ap (λ b. attempt b (is_child next) w' version' next) out
    ∙ ap (λ b. attempt false b w' version' next) child

repeat :
    (w : World) (version : String) (env : Assoc String)
    → opted_out env ≡ false
    → is_child env ≡ false
    → (maybe_self_upgrade w version (delete just_upgraded env)).0
      ≡ (maybe_self_upgrade w version env).0
unfolding maybe_self_upgrade
repeat w version env out child =
    ap
      (λ b.
        (attempt b (is_child (delete just_upgraded env)) w version (delete just_upgraded env)).0)
      (opted_out-delete env ∙ out)
    ∙ (ap (λ b. (attempt false b w version (delete just_upgraded env)).0) (is_child-delete env)
        ∙ (ap (λ e. upgrade_to w version e (fetch_manifest_version w.fetch))
              (delete-delete just_upgraded env)
            ∙ (ap (λ b. (attempt false b w version env).0) (sym child)
                ∙ ap (λ b. (attempt b (is_child env) w version env).0) (sym out))))

-- The guard does not outlast the first attempt: where the new process still has the old version and
-- meets the same manifest, pip and operating system, its second attempt upgrades and restarts once
-- more, in the same environment.
pub maybe_self_upgrade-again :
    (w w' : World) (version version' : String) (env next : Assoc String)
    → (maybe_self_upgrade w version env).0 ≡ ok (restarts next)
    → (maybe_self_upgrade w version (maybe_self_upgrade w' version' next).1).0 ≡ ok (restarts next)
maybe_self_upgrade-again w w' version version' env next h =
    let l = launch w version env next h in
    ap (λ p. (maybe_self_upgrade w version p.1).0)
      (maybe_self_upgrade-once w w' version version' env next h)
    ∙ (ap (λ e. (maybe_self_upgrade w version (delete just_upgraded e)).0) l.environment
        ∙ (ap (λ e. (maybe_self_upgrade w version e).0)
              (delete-insert just_upgraded l.target (delete just_upgraded env)
                ∙ delete-delete just_upgraded env)
            ∙ (repeat w version env l.allowed l.first_attempt ∙ h)))
