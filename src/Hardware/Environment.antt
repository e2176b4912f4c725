-- ===== src/Hardware/Environment.antt =====
-- `_detect_environment` and `_probe_power_cap_writable`: signs of a rented container.
use minebtx.Prelude.{
  String, Bool, false, not, ◌&&◌, ◌||◌, Option, none, some, List, [], ◌∷◌, str_eq, if◌then◌else◌,
}
use minebtx.Prelude.Int.{ℤ, pos, pos_part, ltb_ℤ}
use minebtx.Py.Result.{Result, ok, err, os_error, ◌>>=◌, or_raise}
use minebtx.Py.Value.{Decimal}
use minebtx.Py.Text.{strip_text, show_int}
use minebtx.Py.Number.{int_of_text, float_of_text}
use minebtx.Py.Lines.{words, lower, text_in, any_in, split}
use minebtx.Py.Round.{round_ratio, whole_mean}

-- `if quota > 0 and period > 0: ... = round(quota / period, 2)`
abbrev pub ratio : ℤ → ℤ → Option Decimal
ratio quota period =
    if ltb_ℤ (pos 0) quota && ltb_ℤ (pos 0) period
    then some (round_ratio 2 quota (pos_part period))
    else none

quota_parts : List String → Result (Option Decimal)
quota_parts (quota ∷ period ∷ []) =
    if not (str_eq quota "max")
    then (int_of_text 10 quota >>= λ q. int_of_text 10 period >>= λ p. ok (ratio q p))
    else ok none
quota_parts parts = ok none

-- The limit of cgroup v2, on /sys/fs/cgroup/cpu.max
quota_v2 : Option String → Result (Option Decimal)
quota_v2 none = err os_error
quota_v2 (some txt) = quota_parts (words (strip_text txt))

-- The limit of cgroup v1, on its two files
quota_v1 : Option String → Option String → Result (Option Decimal)
quota_v1 quota period = or_raise quota os_error >>= λ q_txt.
    int_of_text 10 (strip_text q_txt) >>= λ q.
    or_raise period os_error >>= λ p_txt. int_of_text 10 (strip_text p_txt) >>= λ p. ok (ratio q p)

or_none : Result (Option Decimal) → Option Decimal
or_none (err e) = none
or_none (ok r) = r

-- An exception of v2, and only that, leads to v1.
or_v1 : Result (Option Decimal) → Result (Option Decimal) → Option Decimal
or_v1 (err e) v1 = or_none v1
or_v1 (ok r) v1 = r

pub threads_effective : Option String → Option String → Option String → Option Decimal
threads_effective cpu_max quota period = or_v1 (quota_v2 cpu_max) (quota_v1 quota period)

in_cgroup : Option String → Bool
in_cgroup none = false
in_cgroup (some txt) = any_in ("docker" ∷ "containerd" ∷ "kubepods" ∷ "lxc" ∷ []) txt

or_empty : Option String → String
or_empty none = ""
or_empty (some s) = s

pub provider_of : String → Option String
provider_of name =
    if text_in "vast.ai" name || text_in "vast-" name
    then some "vast.ai"
    else if text_in "runpod" name
    then some "runpod"
    else if text_in "autodl" name || text_in "container-fnubq" name
    then some "autodl"
    else if text_in "paperspace" name
    then some "paperspace"
    else none

first_of : List String → String
first_of [] = ""
first_of (s ∷ ss) = s

try_limit : (String → Bool) → Result Decimal → Bool
try_limit set_limit (err e) = false
try_limit set_limit (ok x) = set_limit (show_int (whole_mean x 1))

-- `_probe_power_cap_writable`, on what nvidia-smi prints, where it succeeds, and on whether it accepts a limit
pub power_cap_writable : Option String → (String → Bool) → Bool
power_cap_writable none set_limit = false
power_cap_writable (some out) set_limit =
    if str_eq (strip_text out) ""
    then false
    else try_limit set_limit (float_of_text (first_of (split b'\n' (strip_text out))))

-- What the probes of the machine return.
pub record Probes : Type 0 where
  pub dockerenv : Bool
  pub cgroup : Option String
  pub cpu_max : Option String
  pub cfs_quota : Option String
  pub cfs_period : Option String
  pub hostname : Option String
  pub power_limit : Option String
  pub set_limit : String → Bool

pub record Environment : Type 0 where
  pub is_containerized : Bool
  pub cpu_threads_effective : Option Decimal
  pub rental_provider : Option String
  pub power_cap_writable : Bool

pub detect_environment : Probes → Environment
detect_environment p = record {
  is_containerized = p.dockerenv || in_cgroup p.cgroup;
  cpu_threads_effective = threads_effective p.cpu_max p.cfs_quota p.cfs_period;
  rental_provider = provider_of (lower (or_empty p.hostname));
  power_cap_writable = power_cap_writable p.power_limit p.set_limit;
}
