-- ===== src/Py/Lines.antt =====
-- `str.split`, `str.splitlines`, `str.lower` and `s in t` on texts. Case is that of ASCII letters.
use Prim.Native.Char.{Char, code}
use Prim.Native.String.{char_at, compare}
use text.Mathlib.Text.{is_le}
use minebtx.Prelude.{
  ℕ, zero, suc, ◌-◌, String, Bool, true, false, not, ◌&&◌, ◌||◌, Option, none, some, List, [], ◌∷◌,
  ◌==◌, leb, str_eq, ◌<>◌, if◌then◌else◌,
}
use minebtx.Py.Text.{codes, is_space}
use minebtx.Py.Edit.{contains}

-- A character in front of the first part.
abbrev onto : Char → List String → List String
onto c [] = String.◌∷◌ c "" ∷ []
onto c (part ∷ parts) = String.◌∷◌ c part ∷ parts

-- The parts of a text between the characters that a test holds of.
abbrev parts : (ℕ → Bool) → String → List String
parts test String.[] = "" ∷ []
parts test (String.◌∷◌ c s) =
    let rest = parts test s in if test (code c) then "" ∷ rest else onto c rest

-- `s.split(c)`
unfoldable pub split : ℕ → String → List String
split c s = parts (λ d. d == c) s

abbrev first_cut : ℕ → String → Option (String × String)
first_cut c String.[] = none
first_cut c (String.◌∷◌ d s) =
    let rest = first_cut c s in
    if code d == c
    then some ("", s)
    else elim rest [ none ↦ none | some (before, after) ↦ some (String.◌∷◌ d before, after) ]

-- `s.split(c, 1)`, where `c` is there
unfoldable pub split_once : ℕ → String → Option (String × String)
split_once c s = first_cut c s

abbrev drop_empty : List String → List String
drop_empty [] = []
drop_empty (s ∷ ss) = let rest = drop_empty ss in if str_eq s "" then rest else s ∷ rest

-- `s.split()`
unfoldable pub words : String → List String
words s = drop_empty (parts is_space s)

-- The ends of a line; `\r\n` is one.
abbrev is_break : ℕ → Bool
is_break c = (leb 10 c && leb c 13) || (leb 28 c && leb c 30) || c == 133 || c == 8232 || c == 8233

abbrev without_feed : String → String
without_feed String.[] = ""
without_feed (String.◌∷◌ c s) = if code c == b'\n' then s else String.◌∷◌ c s

abbrev one_break : String → String
one_break String.[] = ""
one_break (String.◌∷◌ c s) =
    let rest = one_break s in String.◌∷◌ c (if code c == b'\r' then without_feed rest else rest)

abbrev drop_last_empty : List String → List String
drop_last_empty [] = []
drop_last_empty (s ∷ []) = if str_eq s "" then [] else s ∷ []
drop_last_empty (s ∷ t ∷ ss) = s ∷ drop_last_empty (t ∷ ss)

-- `s.splitlines()`
unfoldable pub splitlines : String → List String
splitlines s = drop_last_empty (parts is_break (one_break s))

abbrev lower_char : Char → Char
lower_char c =
    if leb b'A' (code c) && leb (code c) b'Z'
    then char_at "abcdefghijklmnopqrstuvwxyz" (code c - 65)
    else c

abbrev lower_onto : String → String
lower_onto String.[] = ""
lower_onto (String.◌∷◌ c s) = String.◌∷◌ (lower_char c) (lower_onto s)

-- `s.lower()`
unfoldable pub lower : String → String
lower s = lower_onto s

-- `s in t`
unfoldable pub text_in : String → String → Bool
text_in s t = contains (codes t) (codes s)

-- `any(s in t for s in ...)`
unfoldable pub any_in : List String → String → Bool
unfolding text_in
any_in [] t = false
any_in (s ∷ ss) t = text_in s t || any_in ss t

abbrev keep_chars : (ℕ → Bool) → String → String
keep_chars test String.[] = ""
keep_chars test (String.◌∷◌ c s) =
    let rest = keep_chars test s in if test (code c) then String.◌∷◌ c rest else rest

-- `re.sub(r"[^a-z0-9]", "", s)`
unfoldable pub only_alphanumeric : String → String
only_alphanumeric s = keep_chars (λ c. (leb b'a' c && leb c b'z') || (leb b'0' c && leb c b'9')) s

-- `s.replace(c, "")` for one character
unfoldable pub without_char : ℕ → String → String
without_char c s = keep_chars (λ d. not (d == c)) s

abbrev drop_left : ℕ → String → String
drop_left c String.[] = ""
drop_left c (String.◌∷◌ d s) =
    let rest = drop_left c s in if code d == c then rest else String.◌∷◌ d s

abbrev is_only : ℕ → String → Bool
is_only c String.[] = true
is_only c (String.◌∷◌ d s) = (code d == c) && is_only c s

abbrev drop_right : ℕ → String → String
drop_right c String.[] = ""
drop_right c (String.◌∷◌ d s) =
    let rest = drop_right c s in if (code d == c) && is_only c s then "" else String.◌∷◌ d rest

-- `s.strip(c)` for one character
unfoldable pub strip_char : ℕ → String → String
strip_char c s = drop_right c (drop_left c s)

abbrev skip : ℕ → String → String
skip zero s = s
skip (suc n) String.[] = ""
skip (suc n) (String.◌∷◌ c s) = skip n s

-- `s[n:]`
unfoldable pub from : ℕ → String → String
from n s = skip n s

abbrev place_text : String → List String → List String
place_text s [] = s ∷ []
place_text s (t ∷ ts) =
    let rest = t ∷ place_text s ts in if is_le (compare s t) then s ∷ t ∷ ts else rest

-- `sorted(...)`, of texts
unfoldable pub sort_texts : List String → List String
sort_texts [] = []
sort_texts (s ∷ ss) = place_text s (sort_texts ss)

abbrev among : String → List String → Bool
among s [] = false
among s (t ∷ ts) = str_eq s t || among s ts

-- The members of `set(...)`, in some order
unfoldable pub distinct_texts : List String → List String
distinct_texts [] = []
distinct_texts (s ∷ ss) = let rest = distinct_texts ss in if among s ss then rest else s ∷ rest

-- `s.join(...)`
unfoldable pub join : String → List String → String
join s [] = ""
join s (t ∷ []) = t
join s (t ∷ u ∷ ts) = t <> (s <> join s (u ∷ ts))
