-- ===== src/Hardware/Runtime/Percent.antt =====
-- The mean of utilizations between 0 and 100 lies there too.
use native.Mathlib.Nat.{pow-zero, pow-suc, mul-le-mul_right, div-le_of_le-mul, zero-div}
use minebtx.Prelude.{
  str_eq, ℕ, zero, suc, ◌+◌, ◌*◌, ◌/◌, ◌^◌, ◌≤◌, String, ◌≡◌, refl, Bool, true, false, Option, none,
  some, List, [], ◌∷◌, All, Bool-cases, inl, inr, ◌==◌, arith,
}
use minebtx.Prelude.Int.{ℤ, pos, pos_part, neg_part, ◌+ℤ◌, ◌*ℤ◌}
use minebtx.Py.Result.{Result, ok, err}
use minebtx.Py.Value.{Decimal}
use minebtx.Py.Number.{float_of_text}
use minebtx.Py.Round.{add_decimal, whole_mean}
use minebtx.Py.Assoc.{Assoc, lookup, insert}
use minebtx.Hardware.Runtime.{
  Mean, Accum, Row, add_reading, row_of, add_row, or_fresh, sample_row, accumulate, Gpu, gpu_of,
  gpus_of, gpu_runtime, all_rows, or_amd, first_only, whole_of, idle_gpu,
}

pow-add : (b m n : ℕ) → b ^ (m + n) ≡ b ^ m * b ^ n
pow-add b zero n = let e : zero + n ≡ n = omega arith in rw (e, pow-zero) (omega arith)
pow-add b (suc m) n =
    let e : suc m + n ≡ suc (m + n) = omega arith in
    rw (e, pow-suc, pow-suc, pow-add b m n) (grind arith)

-- A reading between 0 and 100.
abbrev pub IsPercent : Decimal → Type 0
IsPercent x = (neg_part x.mantissa ≡ 0) × (pos_part x.mantissa ≤ 100 * 10 ^ x.scale)

-- The mean lies there.
abbrev MeanIsPercent : Mean → Type 0
MeanIsPercent m =
    (neg_part m.sum.mantissa ≡ 0) × (pos_part m.sum.mantissa ≤ 100 * (m.count * 10 ^ m.sum.scale))

-- The sum of two decimals that are not negative.
add_decimal_parts :
    (x y : Decimal)
    → neg_part x.mantissa ≡ 0
    → neg_part y.mantissa ≡ 0
    → (neg_part (add_decimal x y).mantissa ≡ 0)
      × (pos_part (add_decimal x y).mantissa
          ≡ pos_part x.mantissa * 10 ^ y.scale + pos_part y.mantissa * 10 ^ x.scale)
unfolding add_decimal ◌+ℤ◌ ◌*ℤ◌
add_decimal_parts x y h k = ground (arith, h, k)

add_decimal_scale : (x y : Decimal) → 10 ^ (add_decimal x y).scale ≡ 10 ^ x.scale * 10 ^ y.scale
unfolding add_decimal
add_decimal_scale x y = pow-add 10 x.scale y.scale

sum_bound :
    (a b n s t : ℕ) → a ≤ 100 * (n * s) → b ≤ 100 * t → a * t + b * s ≤ 100 * (suc n * (s * t))
sum_bound a b n s t h k = grind (arith, mul-le-mul_right t h, mul-le-mul_right s k)

-- A text that is no number is no reading.
abbrev pub ReadsPercent : Result Decimal → Type 0
ReadsPercent (err e) = Unit
ReadsPercent (ok x) = IsPercent x

add_reading-MeanIsPercent :
    (m : Mean) (r : Result Decimal)
    → MeanIsPercent m
    → ReadsPercent r
    → MeanIsPercent (add_reading m r)
unfolding add_reading
add_reading-MeanIsPercent m (err e) h k = h
add_reading-MeanIsPercent m (ok x) (low, high) (low', high') =
    let (low'', e) = add_decimal_parts m.sum x low low' in
    (low'', rw (e, add_decimal_scale m.sum x) (sum_bound _ _ m.count _ _ high high'))

-- What is reported of a utilization.
abbrev pub InPercent : Option ℤ → Type 0
InPercent none = Unit
InPercent (some z) = (neg_part z ≡ 0) × (pos_part z ≤ 100)

whole_mean_parts :
    (x : Decimal) (n : ℕ)
    → neg_part x.mantissa ≡ 0
    → whole_mean x n ≡ pos (pos_part x.mantissa / (n * 10 ^ x.scale))
unfolding whole_mean
whole_mean_parts x n h = rw (h, zero-div (n * 10 ^ x.scale)) (ground arith)

percent_of_sum : (a m : ℕ) → a ≤ 100 * m → a / m ≤ 100
percent_of_sum a m h = div-le_of_le-mul m (omega (arith, h))

whole_of-InPercent : (m : Mean) → MeanIsPercent m → InPercent (whole_of m)
unfolding whole_of
whole_of-InPercent m (low, high) = elim (Bool-cases (m.count == 0)) [
  | inl unread ↦ rw unread tt
  | inr read ↦ rw (read, whole_mean_parts m.sum m.count low) (refl, percent_of_sum _ _ high)
]

-- The utilization of a row, if it is read.
abbrev pub RowReadsPercent : Option Row → Type 0
RowReadsPercent none = Unit
RowReadsPercent (some r) = ReadsPercent (float_of_text r.util)

abbrev Sound : Assoc Accum → Type 0
Sound [] = Unit
Sound ((k, d) ∷ accum) = MeanIsPercent d.util × Sound accum

lookup-Sound :
    (k : String) (accum : Assoc Accum)
    → Sound accum
    → MeanIsPercent (or_fresh (lookup k accum)).util
unfolding or_fresh
lookup-Sound k [] h = (refl, omega arith)
lookup-Sound k ((j, d) ∷ accum) (first, h) = elim (Bool-cases (str_eq k j)) [
  | inl same ↦ rw same first
  | inr other ↦ rw other (lookup-Sound k accum h)
]

insert-Sound :
    (k : String) (d : Accum) (accum : Assoc Accum)
    → MeanIsPercent d.util
    → Sound accum
    → Sound (insert k d accum)
insert-Sound k d [] new h = (new, tt)
insert-Sound k d ((j, e) ∷ accum) new (first, h) = elim (Bool-cases (str_eq k j)) [
  | inl same ↦ rw same (new, h)
  | inr other ↦ rw other (first, insert-Sound k d accum new h)
]

sample_row-Sound :
    (accum : Assoc Accum) (r : Option Row)
    → Sound accum
    → RowReadsPercent r
    → Sound (sample_row accum r)
unfolding sample_row add_row
sample_row-Sound accum none h k = h
sample_row-Sound accum (some r) h k =
    insert-Sound r.uuid (add_row r (or_fresh (lookup r.uuid accum))) accum
      (add_reading-MeanIsPercent _ (float_of_text r.util) (lookup-Sound r.uuid accum h) k) h

accumulate-Sound :
    (accum : Assoc Accum) (rows : List (List String))
    → Sound accum
    → All (λ cells. RowReadsPercent (row_of cells)) rows
    → Sound (accumulate accum rows)
unfolding accumulate
accumulate-Sound accum [] h k = h
accumulate-Sound accum (cells ∷ rows) h (first, k) =
    accumulate-Sound (sample_row accum (row_of cells)) rows
      (sample_row-Sound accum (row_of cells) h first) k

abbrev pub AllInPercent : List Gpu → Type 0
AllInPercent gpus = All (λ g. InPercent g.util_pct) gpus

gpu_of-InPercent : (k : String) (d : Accum) → MeanIsPercent d.util → InPercent (gpu_of k d).util_pct
unfolding gpu_of
gpu_of-InPercent k d h = whole_of-InPercent d.util h

gpus_of-AllInPercent : (accum : Assoc Accum) → Sound accum → AllInPercent (gpus_of accum)
unfolding gpus_of
gpus_of-AllInPercent [] h = tt
gpus_of-AllInPercent ((k, d) ∷ accum) (first, h) =
    (gpu_of-InPercent k d first, gpus_of-AllInPercent accum h)

first_only-AllInPercent : (uuids : List String) → AllInPercent (first_only uuids)
unfolding first_only idle_gpu
first_only-AllInPercent [] = tt
first_only-AllInPercent (uuid ∷ uuids) = (tt, tt)

or_amd-AllInPercent :
    (gpus : List Gpu) (amd : List String) → AllInPercent gpus → AllInPercent (or_amd gpus amd)
unfolding or_amd
or_amd-AllInPercent [] amd h = first_only-AllInPercent amd
or_amd-AllInPercent (g ∷ gpus) amd h = h

-- Where every utilization that can be read as a number lies between 0 and 100, each utilization in the
-- report does too, if there is one.
pub gpu_runtime-AllInPercent :
    (is_mac : Bool) (apple amd : List String) (samples : List (List (List String)))
    → All (λ cells. RowReadsPercent (row_of cells)) (all_rows samples)
    → AllInPercent (gpu_runtime is_mac apple amd samples)
unfolding gpu_runtime
gpu_runtime-AllInPercent true apple amd samples h = first_only-AllInPercent apple
gpu_runtime-AllInPercent false apple amd samples h =
    or_amd-AllInPercent _ amd (gpus_of-AllInPercent _ (accumulate-Sound [] (all_rows samples) tt h))
