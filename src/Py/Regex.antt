-- ===== src/Py/Regex.antt =====
-- The regular expressions that the program uses: texts, white space and runs of characters, where no choice is ever
-- taken back, since a run ends before the character that comes next in the pattern.
use Prim.Native.Char.{code}
use minebtx.Prelude.{
  ℕ, zero, suc, String, Bool, true, false, not, ◌&&◌, ◌||◌, Option, none, some, List, [], ◌∷◌, ◌<>◌,
  ◌==◌, leb, str_eq, if◌then◌else◌,
}
use minebtx.Py.Text.{is_space, is_digit}

pub data Piece : Type 0 where
  -- a text
  text : String → Piece
  -- `\s*`
  spaces : Piece
  -- `(...+)`, a group
  run : (ℕ → Bool) → Piece

after_text : String → String → Option String
after_text String.[] s = some s
after_text (String.◌∷◌ c t) String.[] = none
after_text (String.◌∷◌ c t) (String.◌∷◌ d s) =
    let rest = after_text t s in if code c == code d then rest else none

-- The longest beginning of such characters, and the rest.
pub span : (ℕ → Bool) → String → String × String
span test String.[] = ("", "")
span test (String.◌∷◌ c s) =
    let (taken, rest) = span test s in
    if test (code c) then (String.◌∷◌ c taken, rest) else ("", String.◌∷◌ c s)

add_group : String → Option (List String × String) → Option (List String × String)
add_group g none = none
add_group g (some (gs, rest)) = some (g ∷ gs, rest)

-- The groups of a match at the beginning, and the rest of the text.
match_at : List Piece → String → Option (List String × String)
match_at [] s = some ([], s)
match_at (text t ∷ pieces) s = elim (after_text t s) [
  | none ↦ none
  | some rest ↦ match_at pieces rest
]
match_at (spaces ∷ pieces) s = match_at pieces (span is_space s).1
match_at (run test ∷ pieces) s =
    let (taken, rest) = span test s in
    if str_eq taken "" then none else add_group taken (match_at pieces rest)

first_group : List String → String
first_group [] = ""
first_group (g ∷ gs) = g

-- `re.search(...)` and its first group
pub search_group : List Piece → String → Option String
search_group pieces String.[] = elim (match_at pieces "") [
  | none ↦ none
  | some (gs, r) ↦ some (first_group gs)
]
search_group pieces (String.◌∷◌ c s) =
    let later = search_group pieces s in
    elim (match_at pieces (String.◌∷◌ c s)) [ none ↦ later | some (gs, r) ↦ some (first_group gs) ]

pub is_hex : ℕ → Bool
is_hex c = is_digit c || (leb b'a' c && leb c b'f') || (leb b'A' c && leb c b'F') || c == b'-'

-- `\w`, in ASCII
is_word : ℕ → Bool
is_word c = is_digit c || (leb b'a' c && leb c b'z') || (leb b'A' c && leb c b'Z') || c == b'_'

begins_word : String → Bool
begins_word String.[] = false
begins_word (String.◌∷◌ c s) = is_word (code c)

up_to : ℕ → String → String × String
up_to zero s = ("", s)
up_to (suc n) String.[] = ("", "")
up_to (suc n) (String.◌∷◌ c s) =
    let (taken, rest) = up_to n s in
    if is_digit (code c) then (String.◌∷◌ c taken, rest) else ("", String.◌∷◌ c s)

three_or_more : String → Bool
three_or_more (String.◌∷◌ a (String.◌∷◌ b (String.◌∷◌ c s))) = true
three_or_more s = false

letter : String → String × String
letter String.[] = ("", "")
letter (String.◌∷◌ c s) =
    if leb b'a' (code c) && leb (code c) b'z' then (String.◌∷◌ c "", s) else ("", String.◌∷◌ c s)

gfx_digits : Bool → Option String → Option String
gfx_digits bounded none = none
gfx_digits bounded (some s) =
    let (digits, rest) = up_to 4 s in
    let (end, behind) = letter rest in
    if three_or_more digits && not (bounded && begins_word behind)
    then some ("gfx" <> (digits <> end))
    else none

-- `gfx\d{3,4}[a-z]?`, with `\b` at both ends if it is bounded; `inside` says that a word goes on here.
gfx_from : Bool → Bool → String → Option String
gfx_from bounded inside String.[] = none
gfx_from bounded inside (String.◌∷◌ c s) =
    let later = gfx_from bounded (is_word (code c)) s in
    if bounded && inside
    then later
    else elim (gfx_digits bounded (after_text "gfx" (String.◌∷◌ c s))) [
      | none ↦ later
      | some g ↦ some g
    ]

pub search_gfx : Bool → String → Option String
search_gfx bounded s = gfx_from bounded false s

sm_digits : Bool → Option String → Option String
sm_digits bounded none = none
sm_digits bounded (some s) =
    let (digits, rest) = span is_digit s in
    if not (str_eq digits "") && not (bounded && begins_word rest) then some digits else none

-- The groups of all matches of `sm_(\d+)`, with `\b` at both ends if it is bounded. No match begins inside another.
sm_from : Bool → Bool → String → List String
sm_from bounded inside String.[] = []
sm_from bounded inside (String.◌∷◌ c s) =
    let later = sm_from bounded (is_word (code c)) s in
    if bounded && inside
    then later
    else elim (sm_digits bounded (after_text "sm_" (String.◌∷◌ c s))) [
      | none ↦ later
      | some g ↦ g ∷ later
    ]

pub find_sm : Bool → String → List String
find_sm bounded s = sm_from bounded false s
