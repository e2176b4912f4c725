-- ===== src/Py/Equality.antt =====
-- `v == w` on the values of a JSON document.
use minebtx.Prelude.{◌+◌, ◌*◌, ◌^◌, Bool, true, false, ◌&&◌, Option, none, some, ◌==◌, str_eq}
use minebtx.Prelude.Int.{pos, pos_part, neg_part}
use minebtx.Py.Value.{
  Value, Items, Fields, Decimal, null, bool, int, float, str, list, dict, nil, cons, end, field,
  find, count_fields,
}

-- A number's value; `True` is 1 and `False` is 0.
abbrev pub number : Value → Option Decimal
number (bool true) = some (record { mantissa = pos 1; scale = 0 })
number (bool false) = some (record { mantissa = pos 0; scale = 0 })
number (int z) = some (record { mantissa = z; scale = 0 })
number (float d) = some d
number v = none

abbrev pub same_number : Decimal → Decimal → Bool
same_number a b =
    pos_part a.mantissa * 10 ^ b.scale + neg_part b.mantissa * 10 ^ a.scale
    == pos_part b.mantissa * 10 ^ a.scale + neg_part a.mantissa * 10 ^ b.scale

abbrev same_if_numbers : Option Decimal → Option Decimal → Bool
same_if_numbers (some a) (some b) = same_number a b
same_if_numbers a b = false

unfoldable mutual
  pub value_eq : Value → Value → Bool
  value_eq null w = elim w [ null ↦ true | _ ↦ false ]
  value_eq (bool b) w = same_if_numbers (number (bool b)) (number w)
  value_eq (int z) w = same_if_numbers (number (int z)) (number w)
  value_eq (float d) w = same_if_numbers (number (float d)) (number w)
  value_eq (str s) w = elim w [ str t ↦ str_eq s t | _ ↦ false ]
  value_eq (list vs) w = elim w [ list ws ↦ items_eq vs ws | _ ↦ false ]
  value_eq (dict d) w = elim w [
    | dict e ↦ (count_fields d == count_fields e) && fields_in d e
    | _ ↦ false
  ]

  items_eq : Items → Items → Bool
  items_eq nil ws = elim ws [ nil ↦ true | _ ↦ false ]
  items_eq (cons v vs) ws = elim ws [ nil ↦ false | cons w rest ↦ value_eq v w && items_eq vs rest ]

  -- Every entry of the first dict is in the second.
  fields_in : Fields → Fields → Bool
  fields_in end e = true
  fields_in (field k v d) e =
      (elim (find k e) [ none ↦ false | some w ↦ value_eq v w ]) && fields_in d e
