-- ===== src/Updater/Solver.antt =====
-- `maybe_update_solver` and its parts: the solver binary is known by its SHA-256, which is an argument
-- like everything that the network and the file system do.
use minebtx.Prelude.{
  ℕ, String, Bool, true, false, not, ◌&&◌, ◌||◌, Option, none, some, length, ◌==◌, str_eq,
  starts_with, if◌then◌else◌,
}
use minebtx.Py.Result.{Result, ok, err, update_required, Error, ◌>>=◌}
use minebtx.Py.Value.{Value, null, str}
use minebtx.Py.Assoc.{Assoc, lookup}
use minebtx.Py.Text.{codes}
use minebtx.Updater.Manifest.{
  Fetch, unreachable, malformed, fetched, Host, Entry, detect_platform_key, resolve_manifest_entry,
}
pub mod Laws

-- How a download goes: it fails, it gives a file with a digest, or it raises something else, such as
-- where its folder cannot be made or its address cannot be read.
pub data Download : Type 0 where
  failed : Download
  got : String → Download
  raised : Error → Download

-- The binary's digest, if there is a binary.
abbrev pub Binary : Type 0
Binary = Option String

abbrev pub same_digest : Binary → String → Bool
same_digest none sha = false
same_digest (some s) sha = str_eq s sha

-- Whether a file came that has the expected digest.
unfoldable pub download_and_verify : Download → String → Result Bool
download_and_verify failed sha = ok false
download_and_verify (got s) sha = ok (str_eq s sha)
download_and_verify (raised e) sha = err e

-- Moving the file to its place, which the file system lets happen or not.
abbrev pub install_atomic : Bool → String → Binary → Result Bool × Binary
install_atomic true sha local = (ok true, some sha)
install_atomic false sha local = (ok false, local)

-- The hard floor of a download that failed.
abbrev pub below_floor : Value → Binary → Bool
below_floor (str required) local = not (same_digest local required)
below_floor v local = false

abbrev pub place : Value → Bool → String → Binary → Result Bool → Result Bool × Binary
place required installs sha local (err e) = (err e, local)
place required installs sha local (ok true) = install_atomic installs sha local
place required installs sha local (ok false) =
    (if below_floor required local then err update_required else ok false, local)

abbrev pub valid_sha : Value → Option String
valid_sha (str s) = if length (codes s) == 64 then some s else none
valid_sha v = none

abbrev pub valid_url : Value → Bool
valid_url (str s) = starts_with s "http"
valid_url v = false

abbrev pub update_to : Entry → Download → Bool → Binary → Option String → Result Bool × Binary
update_to entry download installs local none = (ok false, local)
update_to entry download installs local (some sha) =
    if not (valid_url entry.url) || same_digest local sha
    then (ok false, local)
    else place entry.min_required_sha256 installs sha local (download_and_verify download sha)

-- The update to an entry of the manifest.
unfoldable pub update_entry : Entry → Download → Bool → Binary → Result Bool × Binary
update_entry entry download installs local =
    update_to entry download installs local (valid_sha entry.sha256)

abbrev pub with_entry : Download → Bool → Binary → Result (Option Entry) → Result Bool × Binary
with_entry download installs local (err e) = (err e, local)
with_entry download installs local (ok none) = (ok false, local)
with_entry download installs local (ok (some entry)) = update_entry entry download installs local

-- A document that is `null` counts as no manifest.
abbrev pub with_manifest : Option String → Fetch → Download → Bool → Binary → Result Bool × Binary
with_manifest key unreachable download installs local = (ok false, local)
with_manifest key malformed download installs local = (ok false, local)
with_manifest key (fetched null) download installs local = (ok false, local)
with_manifest key (fetched v) download installs local =
    with_entry download installs local (resolve_manifest_entry key v)

abbrev pub opted_out : Assoc String → Bool
opted_out env = elim (lookup "DEXBTX_NO_SOLVER_AUTOUPDATE" env) [
  | none ↦ false
  | some v ↦ str_eq v "1"
]

-- Whether the binary was updated, and the binary then.
unfoldable pub maybe_update_solver :
    Assoc String → Host → Fetch → Download → Bool → Binary → Result Bool × Binary
unfolding update_entry
maybe_update_solver env host fetch download installs local =
    if opted_out env
    then (ok false, local)
    else with_manifest (detect_platform_key env host) fetch download installs local
