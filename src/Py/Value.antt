-- ===== src/Py/Value.antt =====
-- The values of a JSON document as `json.loads` returns them, and the operations on them that the
-- program applies without checking their types first. A dict keeps its insertion order.
use text.Mathlib.Text.{find?}
use minebtx.Prelude.{
  ℕ, zero, suc, String, Bool, true, false, not, ◌||◌, Option, none, some, List, [], ◌∷◌, str_eq,
  if◌then◌else◌,
}
use minebtx.Prelude.Int.{ℤ, pos}
use minebtx.Py.Result.{
  Result, ok, err, index_error, key_error, type_error, attribute_error, or_raise,
}

-- A finite float: the decimal `mantissa / 10 ^ scale` that its text stands for. Rounding to binary
-- is not modelled.
pub record Decimal : Type 0 where
  pub mantissa : ℤ
  pub scale : ℕ

mutual
  pub data Value : Type 0 where
    null : Value
    bool : Bool → Value
    int : ℤ → Value
    float : Decimal → Value
    str : String → Value
    list : Items → Value
    dict : Fields → Value

  pub data Items : Type 0 where
    nil : Items
    cons : Value → Items → Items

  pub data Fields : Type 0 where
    end : Fields
    field : String → Value → Fields → Fields

abbrev pub items : Items → List Value
items nil = []
items (cons v vs) = v ∷ items vs

abbrev pub of_list : List Value → Items
of_list [] = nil
of_list (v ∷ vs) = cons v (of_list vs)

-- `d.get(k)`, with an absent key apart from a key that holds `None`
abbrev pub find : String → Fields → Option Value
find k end = none
find k (field j v d) = if str_eq k j then some v else find k d

-- `d[k] = v`
abbrev pub put : String → Value → Fields → Fields
put k v end = field k v end
put k v (field j w d) = if str_eq k j then field j v d else field j w (put k v d)

-- `k in d`
abbrev pub has : String → Fields → Bool
has k d = elim (find k d) [ none ↦ false | some v ↦ true ]

-- `d.get(k, default)`
abbrev pub find_or : String → Value → Fields → Value
find_or k v d = elim (find k d) [ none ↦ v | some w ↦ w ]

abbrev pub count_fields : Fields → ℕ
count_fields end = 0
count_fields (field k v d) = suc (count_fields d)

abbrev is_zero : ℤ → Bool
is_zero (pos zero) = true
is_zero z = false

-- `bool(v)`
abbrev pub truthy : Value → Bool
truthy null = false
truthy (bool b) = b
truthy (int z) = not (is_zero z)
truthy (float d) = not (is_zero d.mantissa)
truthy (str s) = not (str_eq s "")
truthy (list nil) = false
truthy (list (cons v vs)) = true
truthy (dict end) = false
truthy (dict (field k v d)) = true

-- `v or w`
abbrev pub or_else : Value → Value → Value
or_else v w = if truthy v then v else w

-- `a is not None`
abbrev pub is_none : Value → Bool
is_none null = true
is_none v = false

-- `v.get(k)` on a value of unknown type
abbrev pub get_attr : String → Value → Result (Option Value)
get_attr k (dict d) = ok (find k d)
get_attr k v = err attribute_error

-- `v[k] = w` on a value of unknown type
abbrev pub set_item : String → Value → Value → Result Value
set_item k w (dict d) = ok (dict (put k w d))
set_item k w v = err type_error

-- one character of a text, as the text that indexing gives
abbrev char_text : String → ℕ → Option String
char_text String.[] i = none
char_text (String.◌∷◌ c s) zero = some (String.◌∷◌ c String.[])
char_text (String.◌∷◌ c s) (suc i) = char_text s i

abbrev pub item_at : Items → ℕ → Option Value
item_at nil i = none
item_at (cons v vs) zero = some v
item_at (cons v vs) (suc i) = item_at vs i

-- `v[i]` at a number that is not negative
abbrev pub index : Value → ℕ → Result Value
index (list vs) i = or_raise (item_at vs i) index_error
index (str s) i = elim (char_text s i) [ none ↦ err index_error | some c ↦ ok (str c) ]
index (dict d) i = err key_error
index v i = err type_error

abbrev text_length : String → ℕ
text_length String.[] = 0
text_length (String.◌∷◌ c s) = suc (text_length s)

abbrev pub count_items : Items → ℕ
count_items nil = 0
count_items (cons v vs) = suc (count_items vs)

-- `len(v)`
abbrev pub len : Value → Result ℕ
len (list vs) = ok (count_items vs)
len (str s) = ok (text_length s)
len (dict d) = ok (count_fields d)
len v = err type_error

-- `v[:n]`, of which the program only logs the result
abbrev pub check_slice : Value → Result (Unit {0})
check_slice (list vs) = ok tt
check_slice (str s) = ok tt
check_slice v = err type_error

abbrev has_item : String → Items → Bool
has_item s nil = false
has_item s (cons (str t) vs) = str_eq s t || has_item s vs
has_item s (cons v vs) = has_item s vs

abbrev has_text : String → String → Bool
has_text s t = elim (find? t s) [ none ↦ false | some i ↦ true ]

-- `s in v`, of a text
abbrev pub is_in : String → Value → Result Bool
is_in s (dict d) = ok (has s d)
is_in s (list vs) = ok (has_item s vs)
is_in s (str t) = ok (has_text s t)
is_in s v = err type_error
