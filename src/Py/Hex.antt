-- ===== src/Py/Hex.antt =====
-- Reading back a number that was written in hexadecimal.
use Prim.Native.Char.{code}
use minebtx.Prelude.{
  ℕ, zero, suc, ◌+◌, ◌-◌, ◌*◌, ◌/◌, ◌%◌, ◌≤◌, ◌<◌, String, ◌≡◌, refl, ◌∙◌, ap, Bool, true, false,
  if◌then◌else◌, some, length, ◌^◌, List, ◌∷◌, ◌==◌, Bool-cases, inl, inr, ltb, arith,
}
use native.Mathlib.Nat.{pow-suc}
use minebtx.Py.Text.{codes, hex_char, hex_onto, hex, pad_zeros, hex_padded}
use minebtx.Py.Number.{Symbol, digit, symbol, digit_value, digits}

unfoldable pub holds_up_to : (ℕ → Bool) → ℕ → Bool
holds_up_to test zero = test 0
holds_up_to test (suc n) =
    let earlier = holds_up_to test n in if test (suc n) then earlier else false

pub holds_up_to-at :
    (test : ℕ → Bool) (bound d : ℕ) → d ≤ bound → holds_up_to test bound ≡ true → test d ≡ true
unfolding holds_up_to
holds_up_to-at test zero d le all = ground (arith, all)
holds_up_to-at test (suc n) d le all = ground (arith, holds_up_to-at test n d, all)

abbrev is_the_digit : Bool → ℕ → Bool
is_the_digit seen d = elim (symbol 16 seen (code (hex_char d))) [
  | Symbol.digit e ↦ e == d
  | _ ↦ false
]

digit_table : (seen : Bool) → holds_up_to (is_the_digit seen) 15 ≡ true
unfolding holds_up_to symbol digit_value hex_char
digit_table true = refl
digit_table false = refl

pub symbol_of_test :
    (s : Symbol) (d : ℕ) → (elim s [ Symbol.digit e ↦ e == d | _ ↦ false ]) ≡ true → s ≡ digit d
symbol_of_test s d h = ground arith

symbol-hex_char : (seen : Bool) (d : ℕ) → d < 16 → symbol 16 seen (code (hex_char d)) ≡ digit d
symbol-hex_char seen d h =
    symbol_of_test _ d
      (holds_up_to-at (is_the_digit seen) 15 d (omega (arith, h)) (digit_table seen))

digits-hex_char :
    (acc d : ℕ) (seen : Bool) (cs : List ℕ)
    → d < 16
    → digits 16 acc seen (code (hex_char d) ∷ cs) ≡ digits 16 (acc * 16 + d) true cs
unfolding digits
digits-hex_char acc d seen cs h = rw (symbol-hex_char seen d h, digits)

small_digit :
    (n : ℕ) (seen : Bool) (rest : String)
    → n < 16
    → digits 16 0 seen (code (hex_char (n % 16)) ∷ codes rest) ≡ digits 16 n true (codes rest)
small_digit n seen rest h =
    digits-hex_char 0 (n % 16) seen (codes rest) (omega arith)
    ∙ ap (λ (k : ℕ). digits 16 k true (codes rest)) (omega arith)

next_digit :
    (n : ℕ) (cs : List ℕ)
    → digits 16 (n / 16) true (code (hex_char (n % 16)) ∷ cs) ≡ digits 16 n true cs
next_digit n cs =
    digits-hex_char (n / 16) (n % 16) true cs (omega arith)
    ∙ ap (λ (k : ℕ). digits 16 k true cs) (omega arith)

digits-hex_onto :
    (fuel n : ℕ) (seen : Bool) (rest : String)
    → n ≤ fuel
    → digits 16 0 seen (codes (hex_onto fuel n rest)) ≡ digits 16 n true (codes rest)
unfolding hex_onto
digits-hex_onto zero n seen rest h =
    let e : n ≡ 0 = omega arith in rw e (digits-hex_char 0 0 seen (codes rest) (omega arith))
digits-hex_onto (suc fuel) n seen rest h = elim (Bool-cases (ltb n 16)) [
  | inl small ↦ rw small (small_digit n seen rest (ground arith))
  | inr large ↦ rw large (
      digits-hex_onto fuel (n / 16) seen (String.◌∷◌ (hex_char (n % 16)) rest) (ground arith)
      ∙ next_digit n (codes rest))
]

-- Leading zeros change nothing.
digits-pad_zeros :
    (k : ℕ) (seen : Bool) (s : String) {n : ℕ}
    → ((b : Bool) → digits 16 0 b (codes s) ≡ some n)
    → digits 16 0 seen (codes (pad_zeros k s)) ≡ some n
unfolding pad_zeros hex_char
digits-pad_zeros zero seen s h = h seen
digits-pad_zeros (suc k) seen s h =
    digits-hex_char 0 0 seen (codes (pad_zeros k s)) (omega arith) ∙ digits-pad_zeros k true s h

digits-hex : (n : ℕ) (seen : Bool) → digits 16 0 seen (codes (hex n)) ≡ some n
unfolding hex digits
digits-hex n seen = digits-hex_onto n n seen "" (omega arith)

pub digits-hex_padded : (width n : ℕ) → digits 16 0 false (codes (hex_padded width n)) ≡ some n
unfolding hex_padded
digits-hex_padded width n =
    digits-pad_zeros (width - length (codes (hex n))) false (hex n) (digits-hex n)

length-pad_zeros : (k : ℕ) (s : String) → length (codes (pad_zeros k s)) ≡ k + length (codes s)
unfolding pad_zeros
length-pad_zeros zero s = omega arith
length-pad_zeros (suc k) s = omega (arith, length-pad_zeros k s)

next_power : (n k : ℕ) → n < 16 ^ suc (suc k) → n / 16 < 16 ^ suc k
next_power n k h = omega (arith, pow-suc 16 (suc k))

length-hex_onto :
    (fuel n k : ℕ) (rest : String)
    → n < 16 ^ suc k
    → length (codes (hex_onto fuel n rest)) ≤ suc k + length (codes rest)
unfolding hex_onto
length-hex_onto zero n k rest h = omega arith
length-hex_onto (suc fuel) n zero rest h = ground arith
length-hex_onto (suc fuel) n (suc k) rest h =
    ground (
      arith,
      next_power n k h,
      length-hex_onto fuel (n / 16) k (String.◌∷◌ (hex_char (n % 16)) rest),
    )

-- A number that fits in `width` hexadecimal digits is written in exactly that many.
pub length-hex_padded :
    (width n : ℕ) → n < 16 ^ suc width → length (codes (hex_padded (suc width) n)) ≡ suc width
unfolding hex_padded hex
length-hex_padded width n h = omega (
  arith,
  length-pad_zeros (suc width - length (codes (hex n))) (hex n),
  length-hex_onto n n width "" h,
)
