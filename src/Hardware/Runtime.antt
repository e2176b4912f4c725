-- ===== src/Hardware/Runtime.antt =====
-- `_gpu_runtime`: the samples of nvidia-smi, their means, and the detector of a latched GPU.
pub mod Own
pub mod Percent
pub mod Fallback
use minebtx.Prelude.{
  ℕ, suc, String, Bool, true, false, not, ◌&&◌, ◌||◌, Option, none, some, List, [], ◌∷◌, ◌++◌, ◌==◌,
  str_eq, if◌then◌else◌,
}
use minebtx.Prelude.Int.{ℤ, pos, leb_ℤ}
use minebtx.Py.Result.{Result, ok, err}
use minebtx.Py.Value.{Decimal}
use minebtx.Py.Text.{strip_text}
use minebtx.Py.Number.{float_of_text}
use minebtx.Py.Round.{add_decimal, zero_decimal, round_mean, whole_mean, less, half}
use minebtx.Py.Assoc.{Assoc, lookup, insert}

-- A sum of readings and their number.
pub record Mean : Type 0 where
  pub sum : Decimal
  pub count : ℕ

abbrev pub no_reading : Mean
no_reading = record { sum = zero_decimal; count = 0 }

pub record Accum : Type 0 where
  pub util : Mean
  pub power : Mean
  pub clocks : Mean
  pub temp_c : Option ℤ
  pub pstate : Option String
  pub power_limit_w : Option Decimal

abbrev pub fresh_accum : Accum
fresh_accum = record {
  util = no_reading;
  power = no_reading;
  clocks = no_reading;
  temp_c = none;
  pstate = none;
  power_limit_w = none;
}

-- `sum += float(s); n += 1`, where a text that is no number is passed over
pub add_reading : Mean → Result Decimal → Mean
add_reading m (err e) = m
add_reading m (ok x) = record { sum = add_decimal m.sum x; count = suc m.count }

take_temp : Option ℤ → Result Decimal → Option ℤ
take_temp old (err e) = old
take_temp old (ok x) = some (whole_mean x 1)

take_limit : Option Decimal → Result Decimal → Option Decimal
take_limit old (err e) = old
take_limit old (ok x) = some (round_mean 1 x 1)

take_pstate : Option String → String → Option String
take_pstate old s =
    if not (str_eq s "") && not (str_eq s "[Not Supported]") && not (str_eq s "[N/A]")
    then some s
    else old

-- The cells of a row behind its UUID.
pub record Row : Type 0 where
  pub uuid : String
  pub util : String
  pub power : String
  pub temp : String
  pub pstate : String
  pub clk_sm : String
  pub plimit : String

cell : List String → String
cell [] = ""
cell (c ∷ cs) = c

rest : List String → List String
rest [] = []
rest (c ∷ cs) = cs

-- A row with fewer than four cells is passed over.
unfoldable pub row_of : List String → Option Row
unfolding cell rest strip_text
row_of (uuid ∷ util ∷ power ∷ temp ∷ more) = some (record {
  uuid = uuid;
  util = util;
  power = power;
  temp = temp;
  pstate = strip_text (cell more);
  clk_sm = cell (rest more);
  plimit = cell (rest (rest more));
})
row_of cells = none

pub add_row : Row → Accum → Accum
add_row r d = record {
  util = add_reading d.util (float_of_text r.util);
  power = add_reading d.power (float_of_text r.power);
  clocks = add_reading d.clocks (float_of_text r.clk_sm);
  temp_c = take_temp d.temp_c (float_of_text r.temp);
  pstate = take_pstate d.pstate r.pstate;
  power_limit_w = take_limit d.power_limit_w (float_of_text r.plimit);
}

-- `accum.setdefault(uuid, ...)`
unfoldable pub or_fresh : Option Accum → Accum
or_fresh none = fresh_accum
or_fresh (some d) = d

sample_row : Assoc Accum → Option Row → Assoc Accum
sample_row accum none = accum
sample_row accum (some r) = insert r.uuid (add_row r (or_fresh (lookup r.uuid accum))) accum

-- The rows of all samples, in order.
pub accumulate : Assoc Accum → List (List String) → Assoc Accum
accumulate accum [] = accum
accumulate accum (cells ∷ rows) = accumulate (sample_row accum (row_of cells)) rows

pub record Gpu : Type 0 where
  pub gpu_uuid : String
  pub util_pct : Option ℤ
  pub power_w : Option Decimal
  pub temp_c : Option ℤ
  pub pstate : Option String
  pub clocks_sm : Option ℤ
  pub power_limit_w : Option Decimal
  pub latched : Bool

pub whole_of : Mean → Option ℤ
whole_of m = if m.count == 0 then none else some (whole_mean m.sum m.count)

pub tenths_of : Mean → Option Decimal
tenths_of m = if m.count == 0 then none else some (round_mean 1 m.sum m.count)

abbrev is_busy : Option ℤ → Bool
is_busy none = false
is_busy (some z) = leb_ℤ (pos 90) z

-- Less than half of a limit that is known and not zero.
abbrev is_starved : Option Decimal → Option Decimal → Bool
is_starved (some p) (some limit) =
    (less limit zero_decimal || less zero_decimal limit) && less p (half limit)
is_starved p limit = false

pub gpu_of : String → Accum → Gpu
gpu_of uuid d = record {
  gpu_uuid = uuid;
  util_pct = whole_of d.util;
  power_w = tenths_of d.power;
  temp_c = d.temp_c;
  pstate = d.pstate;
  clocks_sm = whole_of d.clocks;
  power_limit_w = d.power_limit_w;
  latched = is_busy (whole_of d.util) && is_starved (tenths_of d.power) d.power_limit_w;
}

pub gpus_of : Assoc Accum → List Gpu
gpus_of [] = []
gpus_of ((uuid, d) ∷ accum) = gpu_of uuid d ∷ gpus_of accum

-- A GPU of which only the identity is known.
pub idle_gpu : String → Gpu
idle_gpu uuid = record {
  gpu_uuid = uuid;
  util_pct = none;
  power_w = none;
  temp_c = none;
  pstate = none;
  clocks_sm = none;
  power_limit_w = none;
  latched = false;
}

unfoldable pub first_only : List String → List Gpu
first_only [] = []
first_only (uuid ∷ uuids) = idle_gpu uuid ∷ []

or_amd : List Gpu → List String → List Gpu
or_amd [] amd = first_only amd
or_amd (g ∷ gpus) amd = g ∷ gpus

unfoldable pub all_rows : List (List (List String)) → List (List String)
all_rows [] = []
all_rows (rows ∷ samples) = rows ++ all_rows samples

-- `_gpu_runtime`, on the rows of the samples and the UUIDs that the static report has for Apple and AMD
pub gpu_runtime : Bool → List String → List String → List (List (List String)) → List Gpu
gpu_runtime true apple amd samples = first_only apple
gpu_runtime false apple amd samples = or_amd (gpus_of (accumulate [] (all_rows samples))) amd
