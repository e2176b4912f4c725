-- ===== src/Py/Decimals.antt =====
-- Reading back a number that was written in decimal digits.
use Prim.Native.Char.{code}
use minebtx.Prelude.{
  ℕ, zero, suc, ◌+◌, ◌*◌, ◌/◌, ◌%◌, ◌≤◌, ◌<◌, String, ◌≡◌, refl, ◌∙◌, ap, Bool, true, false, not,
  ◌&&◌, some, List, [], ◌∷◌, ◌==◌, Bool-cases, inl, inr, All, ltb, arith,
}
use minebtx.Prelude.Int.{ℤ, pos, negsuc}
use minebtx.Py.Result.{ok}
use minebtx.Py.Text.{
  codes, hex_char, decimal_onto, show_int, is_space, strip, drop_spaces, drop_spaces_end,
}
use minebtx.Py.Number.{
  Symbol, digit, symbol, digit_value, digits, after_prefix, magnitude, signed, negative,
  int_of_text,
}
use minebtx.Py.Hex.{holds_up_to, holds_up_to-at, symbol_of_test}

abbrev is_the_digit : Bool → ℕ → Bool
is_the_digit seen d = elim (symbol 10 seen (code (hex_char d))) [
  | Symbol.digit e ↦ e == d
  | _ ↦ false
]

digit_table : (seen : Bool) → holds_up_to (is_the_digit seen) 9 ≡ true
unfolding holds_up_to symbol digit_value hex_char
digit_table true = refl
digit_table false = refl

symbol-hex_char : (seen : Bool) (d : ℕ) → d < 10 → symbol 10 seen (code (hex_char d)) ≡ digit d
symbol-hex_char seen d h =
    symbol_of_test _ d
      (holds_up_to-at (is_the_digit seen) 9 d (omega (arith, h)) (digit_table seen))

digits-hex_char :
    (acc d : ℕ) (seen : Bool) (cs : List ℕ)
    → d < 10
    → digits 10 acc seen (code (hex_char d) ∷ cs) ≡ digits 10 (acc * 10 + d) true cs
unfolding digits
digits-hex_char acc d seen cs h = rw (symbol-hex_char seen d h, digits)

small_digit :
    (n : ℕ) (seen : Bool) (rest : String)
    → n < 10
    → digits 10 0 seen (code (hex_char (n % 10)) ∷ codes rest) ≡ digits 10 n true (codes rest)
small_digit n seen rest h =
    digits-hex_char 0 (n % 10) seen (codes rest) (omega arith)
    ∙ ap (λ (k : ℕ). digits 10 k true (codes rest)) (omega arith)

next_digit :
    (n : ℕ) (cs : List ℕ)
    → digits 10 (n / 10) true (code (hex_char (n % 10)) ∷ cs) ≡ digits 10 n true cs
next_digit n cs =
    digits-hex_char (n / 10) (n % 10) true cs (omega arith)
    ∙ ap (λ (k : ℕ). digits 10 k true cs) (omega arith)

digits-decimal_onto :
    (fuel n : ℕ) (seen : Bool) (rest : String)
    → n ≤ fuel
    → digits 10 0 seen (codes (decimal_onto fuel n rest)) ≡ digits 10 n true (codes rest)
unfolding decimal_onto
digits-decimal_onto zero n seen rest h =
    let e : n ≡ 0 = omega arith in rw e (digits-hex_char 0 0 seen (codes rest) (omega arith))
digits-decimal_onto (suc fuel) n seen rest h = elim (Bool-cases (ltb n 10)) [
  | inl small ↦ rw small (small_digit n seen rest (ground arith))
  | inr large ↦ rw large (
      digits-decimal_onto fuel (n / 10) seen (String.◌∷◌ (hex_char (n % 10)) rest) (ground arith)
      ∙ next_digit n (codes rest))
]

-- No character that `strip` removes, and none that is a sign.
abbrev IsPlain : ℕ → Type 0
IsPlain c = (is_space c ≡ false) × ((c == b'-') ≡ false) × ((c == b'+') ≡ false)

is_plain : ℕ → Bool
is_plain c = not (is_space c) && not (c == b'-') && not (c == b'+')

plain_table : holds_up_to (λ d. is_plain (code (hex_char d))) 9 ≡ true
unfolding holds_up_to is_plain hex_char
plain_table = refl

is_plain→IsPlain : (c : ℕ) → is_plain c ≡ true → IsPlain c
unfolding is_plain
is_plain→IsPlain c h = ground (arith, h)

hex_char-IsPlain : (d : ℕ) → d < 10 → IsPlain (code (hex_char d))
hex_char-IsPlain d h =
    is_plain→IsPlain _
      (holds_up_to-at (λ e. is_plain (code (hex_char e))) 9 d (omega (arith, h)) plain_table)

decimal_onto-IsPlain :
    (fuel n : ℕ) (rest : String)
    → All IsPlain (codes rest)
    → All IsPlain (codes (decimal_onto fuel n rest))
unfolding decimal_onto
decimal_onto-IsPlain zero n rest h = (hex_char-IsPlain (n % 10) (omega arith), h)
decimal_onto-IsPlain (suc fuel) n rest h = elim (Bool-cases (ltb n 10)) [
  | inl small ↦ rw small (hex_char-IsPlain (n % 10) (omega arith), h)
  | inr large ↦ rw large (
      decimal_onto-IsPlain fuel (n / 10) (String.◌∷◌ (hex_char (n % 10)) rest)
        (hex_char-IsPlain (n % 10) (omega arith), h))
]

abbrev NoSpaces : List ℕ → Type 0
NoSpaces cs = All (λ c. is_space c ≡ false) cs

drop_spaces-id : (cs : List ℕ) → NoSpaces cs → drop_spaces cs ≡ cs
drop_spaces-id [] h = refl
drop_spaces-id (c ∷ cs) (first, h) = rw first refl

drop_spaces_end-id : (cs : List ℕ) → NoSpaces cs → drop_spaces_end cs ≡ cs
drop_spaces_end-id [] h = refl
drop_spaces_end-id (c ∷ cs) (first, h) = rw (first, drop_spaces_end-id cs h) refl

strip-id : (cs : List ℕ) → NoSpaces cs → strip cs ≡ cs
strip-id cs h = ap drop_spaces_end (drop_spaces-id cs h) ∙ drop_spaces_end-id cs h

plain-NoSpaces : (cs : List ℕ) → All IsPlain cs → NoSpaces cs
plain-NoSpaces [] h = tt
plain-NoSpaces (c ∷ cs) (first, h) = (first.0, plain-NoSpaces cs h)

after_prefix-10 : (cs : List ℕ) → after_prefix 10 cs ≡ cs
after_prefix-10 [] = refl
after_prefix-10 (a ∷ []) = refl
after_prefix-10 (a ∷ b ∷ []) = refl
after_prefix-10 (a ∷ b ∷ c ∷ cs) = refl

magnitude-decimal_onto : (n : ℕ) → magnitude 10 (codes (decimal_onto n n "")) ≡ some n
unfolding magnitude digits
magnitude-decimal_onto n =
    ap (digits 10 0 false) (after_prefix-10 (codes (decimal_onto n n "")))
    ∙ digits-decimal_onto n n false "" (omega arith)

signed_plain :
    (cs : List ℕ) {n : ℕ}
    → All IsPlain cs
    → magnitude 10 cs ≡ some n
    → signed (magnitude 10) cs ≡ some (pos n)
unfolding magnitude digits
signed_plain [] h e = cc
signed_plain (c ∷ cs) ((space, minus, plus), h) e = rw (minus, plus, e) refl

negative-suc : (n : ℕ) → negative (suc n) ≡ negsuc n
negative-suc n = ground arith

-- `int(str(z))`
pub int_of_text-show_int : (z : ℤ) → int_of_text 10 (show_int z) ≡ ok z
unfolding int_of_text show_int
int_of_text-show_int (pos n) =
    let plain = decimal_onto-IsPlain n n "" tt in
    rw (strip-id _ (plain-NoSpaces _ plain), signed_plain _ plain (magnitude-decimal_onto n)) refl
int_of_text-show_int (negsuc n) =
    let plain = plain-NoSpaces _ (decimal_onto-IsPlain (suc n) (suc n) "" tt) in
    rw (drop_spaces_end-id _ plain, magnitude-decimal_onto (suc n)) (ap ok (negative-suc n))
