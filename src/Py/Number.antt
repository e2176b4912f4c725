-- ===== src/Py/Number.antt =====
-- `int(v)` and `float(v)` on the values of a JSON document. Text is read as ASCII: digits of other
-- scripts, infinities and NaN are not modelled, and a text that holds one counts as malformed.
use minebtx.Prelude.{
  ℕ, ◌+◌, ◌-◌, ◌*◌, ◌/◌, ◌^◌, String, Bool, true, false, ◌||◌, ◌&&◌, Option, none, some, List, [],
  ◌∷◌, ◌==◌, leb, ltb, if◌then◌else◌,
}
use minebtx.Prelude.Int.{ℤ, pos, pos_part, neg_part, sub_ℕ}
use minebtx.Py.Result.{Result, ok, err, value_error, type_error, or_raise}
use minebtx.Py.Value.{Value, Decimal, bool, int, float, str}
use minebtx.Py.Text.{codes, strip}

-- The value of a character as a digit; 99 is no digit of any base.
unfoldable pub digit_value : ℕ → ℕ
digit_value c =
    if leb b'0' c && leb c b'9'
    then c - 48
    else if leb b'a' c && leb c b'z'
    then c - 87
    else if leb b'A' c && leb c b'Z'
    then c - 55
    else 99

pub data Symbol : Type 0 where
  bad gap : Symbol
  digit : ℕ → Symbol

-- A `_` may stand between two digits.
unfoldable pub symbol : ℕ → Bool → ℕ → Symbol
symbol base after_digit c =
    if c == b'_'
    then (if after_digit then gap else bad)
    else if ltb (digit_value c) base
    then digit (digit_value c)
    else bad

unfoldable pub digits : ℕ → ℕ → Bool → List ℕ → Option ℕ
digits base acc after_digit [] = if after_digit then some acc else none
digits base acc after_digit (c ∷ cs) = elim (symbol base after_digit c) [
  | bad ↦ none
  | gap ↦ digits base acc false cs
  | digit d ↦ digits base (acc * base + d) true cs
]

-- `0x` in front is allowed at base 16, and a `_` behind it.
abbrev pub after_prefix : ℕ → List ℕ → List ℕ
after_prefix base (z ∷ x ∷ u ∷ cs) =
    if base == 16 && (z == b'0') && (x == b'x' || x == b'X')
    then (if u == b'_' then cs else u ∷ cs)
    else z ∷ x ∷ u ∷ cs
after_prefix base cs = cs

unfoldable pub magnitude : ℕ → List ℕ → Option ℕ
unfolding digits symbol digit_value
magnitude base cs = digits base 0 false (after_prefix base cs)

abbrev pub negative : ℕ → ℤ
negative n = sub_ℕ 0 n

abbrev pub signed : (List ℕ → Option ℕ) → List ℕ → Option ℤ
signed read [] = none
signed read (c ∷ cs) =
    if c == b'-'
    then (elim (read cs) [ none ↦ none | some n ↦ some (negative n) ])
    else if c == b'+'
    then (elim (read cs) [ none ↦ none | some n ↦ some (pos n) ])
    else (elim (read (c ∷ cs)) [ none ↦ none | some n ↦ some (pos n) ])

-- `int(s, base)`
unfoldable pub int_of_text : ℕ → String → Result ℤ
unfolding magnitude
int_of_text base s = or_raise (signed (magnitude base) (strip (codes s))) value_error

abbrev truncate : Decimal → ℤ
truncate d =
    if ltb 0 (neg_part d.mantissa)
    then negative (neg_part d.mantissa / 10 ^ d.scale)
    else pos (pos_part d.mantissa / 10 ^ d.scale)

-- `int(v)`
unfoldable pub to_int : Value → Result ℤ
unfolding int_of_text
to_int (bool true) = ok (pos 1)
to_int (bool false) = ok (pos 0)
to_int (int z) = ok z
to_int (float d) = ok (truncate d)
to_int (str s) = int_of_text 10 s
to_int v = err type_error

-- The digits before a `.`, those behind it and how many, and the rest of a decimal text.
abbrev Reading : Type 0
Reading = record { acc : ℕ; scale : ℕ; digits_seen : Bool; rest : List ℕ }

whole : ℕ → ℕ → Bool → Bool → List ℕ → Reading
whole acc scale seen behind [] = record { acc = acc; scale = scale; digits_seen = seen; rest = [] }
whole acc scale seen behind (c ∷ cs) =
    let stop : Reading = record { acc = acc; scale = scale; digits_seen = seen; rest = c ∷ cs } in
    let next = whole (acc * 10 + (c - 48)) (if behind then scale + 1 else scale) true behind cs in
    let point = whole acc scale seen true cs in
    if leb b'0' c && leb c b'9'
    then next
    else if c == b'.'
    then (if behind then stop else point)
    else stop

-- The exponent of `e-3`, as a power to divide by or to multiply by.
exponent : List ℕ → Option ℤ
unfolding magnitude
exponent [] = some (pos 0)
exponent (c ∷ cs) = if c == b'e' || c == b'E' then signed (magnitude 10) cs else none

abbrev scaled : ℕ → ℕ → ℤ → Decimal
scaled acc scale e = record {
  mantissa = pos (acc * 10 ^ (pos_part e - scale));
  scale = (scale - pos_part e) + neg_part e;
}

abbrev negate : Decimal → Decimal
negate d = record d { mantissa = negative (pos_part d.mantissa) }

abbrev unsigned_decimal : List ℕ → Option Decimal
unsigned_decimal cs =
    let r = whole 0 0 false false cs in
    if r.digits_seen
    then (elim (exponent r.rest) [ none ↦ none | some e ↦ some (scaled r.acc r.scale e) ])
    else none

-- `float(s)`
unfoldable pub float_of_text : String → Result Decimal
unfolding whole exponent
float_of_text s = or_raise (go (strip (codes s))) value_error
  where
    go : List ℕ → Option Decimal
    go [] = none
    go (c ∷ cs) =
        if c == b'-'
        then (elim (unsigned_decimal cs) [ none ↦ none | some d ↦ some (negate d) ])
        else if c == b'+'
        then unsigned_decimal cs
        else unsigned_decimal (c ∷ cs)

-- `float(v)`
unfoldable pub to_float : Value → Result Decimal
unfolding float_of_text
to_float (bool true) = ok (record { mantissa = pos 1; scale = 0 })
to_float (bool false) = ok (record { mantissa = pos 0; scale = 0 })
to_float (int z) = ok (record { mantissa = z; scale = 0 })
to_float (float d) = ok d
to_float (str s) = float_of_text s
to_float v = err type_error
