-- ===== src/Py/Result.antt =====
-- Exceptions as values. An exception's message is not modelled, only its class.
use minebtx.Prelude.{◌≡◌, refl, Bool, true, false, Option, none, some}

pub data Error : Type 0 where
  index_error key_error type_error value_error attribute_error : Error
  runtime_error connection_error timeout_error json_error os_error : Error
  usage_error update_required cancelled system_exit : Error

-- What a call returns, or what it raises.
pub data Result {ℓ} (A : Type ℓ) : Type ℓ where
  err : Error → Result A
  ok : A → Result A

module _ {ℓ κ} {A : Type ℓ} {B : Type κ} where
  infixl 5 ◌>>=◌ ◌>>◌
  abbrev pub ◌>>=◌ : Result A → (A → Result B) → Result B
  err raised >>= rest = err raised
  ok v >>= rest = rest v

  abbrev pub ◌>>◌ : Result A → Result B → Result B
  err raised >> next = err raised
  ok v >> next = next

  -- A bind that returned: its parts returned.
  pub >>=-eq-ok :
      (m : Result A) (rest : A → Result B) {w : B}
      → (m >>= rest) ≡ ok w
      → (v : A) × (m ≡ ok v) × (rest v ≡ ok w)
  >>=-eq-ok (err raised) rest e = cc
  >>=-eq-ok (ok v) rest e = (v, refl, e)

abbrev pub or_raise {ℓ} : {A : Type ℓ} → Option A → Error → Result A
or_raise none e = err e
or_raise (some a) e = ok a

abbrev pub raise_if : Bool → Error → Result (Unit {0})
raise_if true e = err e
raise_if false e = ok tt

abbrev pub is_ok {ℓ} : {A : Type ℓ} → Result A → Bool
is_ok (ok a) = true
is_ok (err e) = false
