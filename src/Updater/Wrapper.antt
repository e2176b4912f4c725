-- ===== src/Updater/Wrapper.antt =====
-- `maybe_self_upgrade` and its parts: the miner installs a newer release of itself and starts again.
-- What the network, pip and the operating system do is an argument, and so is what `str.format` makes of
-- the address template.
use Prim.Native.Char.{code}
use minebtx.Prelude.{
  ℕ, String, Bool, true, false, not, ◌&&◌, Option, none, some, List, [], ◌∷◌, ◌==◌, str_eq,
  if◌then◌else◌,
}
use minebtx.Prelude.Int.{ℤ, pos, eq_ℤ, ltb_ℤ}
use minebtx.Py.Result.{Result, ok, err, attribute_error, ◌>>=◌}
use minebtx.Py.Value.{Value, Fields, null, str, dict, find_or}
use minebtx.Py.Assoc.{Assoc, lookup, insert}
use minebtx.Py.Number.{int_of_text}
use minebtx.Updater.Manifest.{Fetch, unreachable, malformed, fetched}
pub mod Laws

abbrev onto_first : String → List String → List String
onto_first s [] = s ∷ []
onto_first s (t ∷ ts) = s ∷ ts

abbrev add_char : Prim.Native.Char.Char → List String → List String
add_char c [] = String.◌∷◌ c String.[] ∷ []
add_char c (t ∷ ts) = String.◌∷◌ c t ∷ ts

-- `s.split(".")`
abbrev pub split_dots : String → List String
split_dots String.[] = "" ∷ []
split_dots (String.◌∷◌ c s) =
    let rest = split_dots s in if code c == b'.' then "" ∷ rest else add_char c rest

abbrev pub zero_version : List ℤ
zero_version = pos 0 ∷ []

abbrev pub read_parts : List String → Result (List ℤ)
read_parts [] = ok []
read_parts (t ∷ ts) = do n ← int_of_text 10 t; ns ← read_parts ts; ok (n ∷ ns)

-- A version that cannot be read sorts as (0,).
unfoldable pub parse_version : String → List ℤ
parse_version v =
    if str_eq v ""
    then zero_version
    else elim (read_parts (split_dots v)) [ ok ns ↦ ns | err e ↦ zero_version ]

-- `v <= w` on tuples
abbrev pub at_most : List ℤ → List ℤ → Bool
at_most [] w = true
at_most (a ∷ v) [] = false
at_most (a ∷ v) (b ∷ w) = let rest = at_most v w in if eq_ℤ a b then rest else ltb_ℤ a b

abbrev pub newest : String → String → Bool
newest target version = at_most (parse_version target) (parse_version version)

abbrev pub version_text : Value → Option String
version_text (str s) = if str_eq s "" then none else some s
version_text v = none

-- A document that is no dict has no `get`, which nothing here catches.
unfoldable pub fetch_manifest_version : Fetch → Result (Option String)
fetch_manifest_version unreachable = ok none
fetch_manifest_version malformed = ok none
fetch_manifest_version (fetched (dict d)) = ok (version_text (find_or "version" null d))
fetch_manifest_version (fetched v) = err attribute_error

-- How a run of pip goes: it exits with a code, is too slow, or cannot be run.
pub data Run : Type 0 where
  exits : ℤ → Run
  late raises : Run

abbrev succeeds : Run → Bool
succeeds (exits z) = eq_ℤ z (pos 0)
succeeds r = false

-- The second run is tried only after the first exits with a failure.
unfoldable pub run_pip_install : Run → Run → Bool
run_pip_install (exits z) second = if eq_ℤ z (pos 0) then true else succeeds second
run_pip_install first second = false

-- What an attempt meets: the fetched manifest, the formatted address, two runs of pip, and whether the
-- new process starts.
pub record World : Type 0 where
  pub fetch : Fetch
  pub pkg_url : Result String
  pub first : Run
  pub second : Run
  pub starts : Bool

-- The process goes on, or is replaced by one with another environment.
pub data Next : Type 0 where
  stays : Next
  restarts : Assoc String → Next

abbrev pub just_upgraded : String
just_upgraded = "DEXBTX_WRAPPER_JUST_UPGRADED"

-- `env.pop(k, None)`, of the environment that it leaves
abbrev pub delete : String → Assoc String → Assoc String
delete k [] = []
delete k ((j, v) ∷ d) = let rest = delete k d in if str_eq k j then rest else (j, v) ∷ rest

abbrev pub is_set : Option String → Bool
is_set none = false
is_set (some s) = not (str_eq s "")

abbrev pub install : World → Assoc String → String → Result String → Result Next
install w env target (err e) = err e
install w env target (ok url) =
    if run_pip_install w.first w.second && w.starts
    then ok (restarts (insert just_upgraded target env))
    else ok stays

abbrev pub upgrade_to : World → String → Assoc String → Result (Option String) → Result Next
upgrade_to w version env (err e) = err e
upgrade_to w version env (ok none) = ok stays
upgrade_to w version env (ok (some target)) =
    if newest target version then ok stays else install w env target w.pkg_url

-- Unless the operator opted out or the process is the child of an upgrade.
abbrev pub attempt : Bool → Bool → World → String → Assoc String → Result Next × Assoc String
attempt true child w version env = (ok stays, env)
attempt false true w version env = (ok stays, delete just_upgraded env)
attempt false false w version env = (
  upgrade_to w version (delete just_upgraded env) (fetch_manifest_version w.fetch),
  delete just_upgraded env,
)

abbrev pub opted_out : Assoc String → Bool
opted_out env = is_set (lookup "DEXBTX_NO_WRAPPER_AUTOUPDATE" env)

abbrev pub is_child : Assoc String → Bool
is_child env = is_set (lookup just_upgraded env)

-- The result, and the environment of the process that goes on.
unfoldable pub maybe_self_upgrade : World → String → Assoc String → Result Next × Assoc String
unfolding run_pip_install
maybe_self_upgrade w version env = attempt (opted_out env) (is_child env) w version env
