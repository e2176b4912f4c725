-- ===== src/Py/Round.antt =====
-- `round(x, k)` and sums of decimals. A quotient is exact, and its rounding is half to even.
use minebtx.Prelude.{ℕ, ◌+◌, ◌*◌, ◌/◌, ◌%◌, ◌^◌, Bool, ltb, if◌then◌else◌}
use minebtx.Prelude.Int.{ℤ, pos, pos_part, neg_part, sub_ℕ, ◌+ℤ◌, ◌*ℤ◌}
use minebtx.Py.Value.{Decimal}

-- The whole number next to `a / b`.
unfoldable pub nearest : ℕ → ℕ → ℕ
nearest a b =
    if ltb (2 * (a % b)) b
    then a / b
    else if ltb b (2 * (a % b))
    then a / b + 1
    else a / b + (a / b) % 2

-- `round(z / d, k)`
unfoldable pub round_ratio : ℕ → ℤ → ℕ → Decimal
round_ratio k z d = record {
  mantissa = sub_ℕ (nearest (pos_part z * 10 ^ k) d) (nearest (neg_part z * 10 ^ k) d);
  scale = k;
}

-- `x + y`
unfoldable pub add_decimal : Decimal → Decimal → Decimal
add_decimal x y = record {
  mantissa = x.mantissa *ℤ pos (10 ^ y.scale) +ℤ y.mantissa *ℤ pos (10 ^ x.scale);
  scale = x.scale + y.scale;
}

abbrev pub zero_decimal : Decimal
zero_decimal = record { mantissa = pos 0; scale = 0 }

-- `round(x / n, k)`
unfoldable pub round_mean : ℕ → Decimal → ℕ → Decimal
unfolding round_ratio
round_mean k x n = round_ratio k x.mantissa (n * 10 ^ x.scale)

-- `int(x / n)`, towards zero
unfoldable pub whole_mean : Decimal → ℕ → ℤ
whole_mean x n =
    sub_ℕ (pos_part x.mantissa / (n * 10 ^ x.scale)) (neg_part x.mantissa / (n * 10 ^ x.scale))

-- `x < y`
unfoldable pub less : Decimal → Decimal → Bool
less x y =
    ltb (pos_part x.mantissa * 10 ^ y.scale + neg_part y.mantissa * 10 ^ x.scale)
      (pos_part y.mantissa * 10 ^ x.scale + neg_part x.mantissa * 10 ^ y.scale)

-- `x / 2`
abbrev pub half : Decimal → Decimal
half x = record { mantissa = x.mantissa *ℤ pos 5; scale = x.scale + 1 }
