-- ===== src/Py/Text.antt =====
-- Text as character codes: `str.strip`, and hexadecimal formatting.
use Prim.Native.Char.{Char, code}
use Prim.Native.String.{char_at}
use minebtx.Prelude.Int.{ℤ, pos, negsuc}
use minebtx.Prelude.{
  ℕ, zero, suc, ◌-◌, ◌/◌, ◌%◌, String, Bool, true, false, ◌||◌, ◌&&◌, List, length, [], ◌∷◌, ◌==◌,
  leb, ltb, if◌then◌else◌,
}

abbrev pub codes : String → List ℕ
codes String.[] = []
codes (String.◌∷◌ c s) = code c ∷ codes s

-- The ASCII characters that `str.strip` takes for white space.
abbrev pub is_space : ℕ → Bool
is_space c = c == 32 || (leb 9 c && leb c 13) || (leb 28 c && leb c 31)

abbrev pub drop_spaces : List ℕ → List ℕ
drop_spaces [] = []
drop_spaces (c ∷ cs) = let rest = drop_spaces cs in if is_space c then rest else c ∷ cs

abbrev pub only_spaces : List ℕ → Bool
only_spaces [] = true
only_spaces (c ∷ cs) = is_space c && only_spaces cs

abbrev pub drop_spaces_end : List ℕ → List ℕ
drop_spaces_end [] = []
drop_spaces_end (c ∷ cs) =
    let rest = drop_spaces_end cs in if is_space c && only_spaces cs then [] else c ∷ rest

-- `s.strip()`
abbrev pub strip : List ℕ → List ℕ
strip cs = drop_spaces_end (drop_spaces cs)

abbrev drop_text : String → String
drop_text String.[] = String.[]
drop_text (String.◌∷◌ c s) =
    let rest = drop_text s in if is_space (code c) then rest else String.◌∷◌ c s

abbrev drop_text_end : String → String
drop_text_end String.[] = String.[]
drop_text_end (String.◌∷◌ c s) =
    let rest = drop_text_end s in
    if is_space (code c) && only_spaces (codes s) then String.[] else String.◌∷◌ c rest

-- `s.strip()`, as a text
unfoldable pub strip_text : String → String
strip_text s = drop_text_end (drop_text s)

abbrev pub is_digit : ℕ → Bool
is_digit c = leb b'0' c && leb c b'9'

abbrev all_digits : List ℕ → Bool
all_digits [] = true
all_digits (c ∷ cs) = is_digit c && all_digits cs

-- `s.isdigit()`, on ASCII text
abbrev pub isdigit : List ℕ → Bool
isdigit [] = false
isdigit (c ∷ cs) = all_digits (c ∷ cs)

-- `s.lstrip("-")`
abbrev pub lstrip_minus : List ℕ → List ℕ
lstrip_minus [] = []
lstrip_minus (c ∷ cs) = let rest = lstrip_minus cs in if c == b'-' then rest else c ∷ cs

-- The lower-case hexadecimal digit of a number below 16.
unfoldable pub hex_char : ℕ → Char
hex_char d = char_at "0123456789abcdef" d

-- The digits of `n` in front of `rest`; fuel `n` is enough.
unfoldable pub hex_onto : ℕ → ℕ → String → String
hex_onto zero n rest = String.◌∷◌ (hex_char (n % 16)) rest
hex_onto (suc fuel) n rest =
    let more = hex_onto fuel (n / 16) (String.◌∷◌ (hex_char (n % 16)) rest) in
    if ltb n 16 then String.◌∷◌ (hex_char (n % 16)) rest else more

-- `f"{n:x}"` for a number that is not negative
unfoldable pub hex : ℕ → String
unfolding hex_onto hex_char
hex n = hex_onto n n ""

-- `n` zeros in front of a text
unfoldable pub pad_zeros : ℕ → String → String
pad_zeros zero s = s
pad_zeros (suc n) s = String.◌∷◌ "0" (pad_zeros n s)

-- `f"{n:0<width>x}"` for a number that is not negative
unfoldable pub hex_padded : ℕ → ℕ → String
unfolding hex pad_zeros
hex_padded width n = let digits = hex n in pad_zeros (width - length (codes digits)) digits

-- The decimal digits of `n` in front of `rest`; fuel `n` is enough.
unfoldable pub decimal_onto : ℕ → ℕ → String → String
decimal_onto zero n rest = String.◌∷◌ (hex_char (n % 10)) rest
decimal_onto (suc fuel) n rest =
    let more = decimal_onto fuel (n / 10) (String.◌∷◌ (hex_char (n % 10)) rest) in
    if ltb n 10 then String.◌∷◌ (hex_char (n % 10)) rest else more

-- `str(z)`
unfoldable pub show_int : ℤ → String
unfolding decimal_onto hex_char
show_int (pos n) = decimal_onto n n ""
show_int (negsuc n) = String.◌∷◌ "-" (decimal_onto (suc n) (suc n) "")
