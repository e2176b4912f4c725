-- ===== src/Updater/Manifest.antt =====
-- The published manifest, and the entry in it for this host (`_resolve_manifest_entry`).
use minebtx.Prelude.{String, Bool, true, false, ◌||◌, Option, none, some, str_eq, if◌then◌else◌}
use minebtx.Py.Result.{Result, ok, err, type_error, attribute_error, ◌>>=◌}
use minebtx.Py.Value.{Value, Fields, null, dict, find_or, has, is_in}
use minebtx.Py.Assoc.{Assoc, lookup}
use minebtx.Py.Text.{strip_text}

-- What the fetch of the manifest gives: a network error, a text that is no JSON, or a document.
pub data Fetch : Type 0 where
  unreachable malformed : Fetch
  fetched : Value → Fetch

-- The machine is what `platform.machine().lower()` returns, the system is `sys.platform`.
pub record Host : Type 0 where
  pub machine : String
  pub system : String

abbrev linux_key : String → Option String
linux_key m =
    if str_eq m "x86_64" || str_eq m "amd64"
    then some "x86_64-linux"
    else if str_eq m "aarch64" || str_eq m "arm64"
    then some "aarch64-linux"
    else none

abbrev darwin_key : String → Option String
darwin_key m =
    if str_eq m "arm64"
    then some "arm64-darwin"
    else if str_eq m "x86_64"
    then some "x86_64-darwin"
    else none

abbrev host_key : Host → Option String
host_key h =
    if str_eq h.system "linux"
    then linux_key h.machine
    else if str_eq h.system "darwin"
    then darwin_key h.machine
    else none

-- An empty override does not count.
unfoldable pub detect_platform_key : Assoc String → Host → Option String
detect_platform_key env h = elim (lookup "DEXBTX_PLATFORM_KEY" env) [
  | none ↦ host_key h
  | some key ↦ if str_eq key "" then host_key h else some (strip_text key)
]

-- The fields of an entry that the update reads.
pub record Entry : Type 0 where
  pub sha256 : Value
  pub url : Value
  pub min_required_sha256 : Value

abbrev pub entry_of : Fields → Entry
entry_of d = record {
  sha256 = find_or "sha256" null d;
  url = find_or "url" null d;
  min_required_sha256 = find_or "min_required_sha256" null d;
}

abbrev pub platform_entry : Value → Result (Option Entry)
platform_entry null = ok none
platform_entry (dict d) = ok (some (entry_of d))
platform_entry v = err attribute_error

abbrev pub for_key : Option String → Fields → Result (Option Entry)
for_key none platforms = ok none
for_key (some key) platforms = platform_entry (find_or key null platforms)

abbrev pub for_platforms : Option String → Value → Result (Option Entry)
for_platforms key (dict platforms) = for_key key platforms
for_platforms key v = ok none

-- A manifest that is no dict is searched for the key too, and then not indexed by a text or has no `get`.
abbrev no_manifest : Bool → Result (Option Entry)
no_manifest true = err type_error
no_manifest false = err attribute_error

-- Both schemas: a dict of platforms, or one entry at the top.
unfoldable pub resolve_manifest_entry : Option String → Value → Result (Option Entry)
resolve_manifest_entry key (dict d) =
    if has "platforms" d
    then for_platforms key (find_or "platforms" null d)
    else ok (some (entry_of d))
resolve_manifest_entry key v = is_in "platforms" v >>= no_manifest
