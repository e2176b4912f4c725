-- ===== src/Stratum/Rpc.antt =====
-- Requests to the pool and the futures that wait for their replies (`_call`, and the first half of
-- `_handle_message`).
use minebtx.Prelude.{
  ℕ, suc, ◌+◌, ◌/◌, ◌%◌, ◌*◌, ◌^◌, ◌<◌, String, ◌≡◌, refl, Bool, true, false, not, ◌&&◌, Option,
  none, some, List, [], ◌∷◌, ◌++◌, ◌==◌, if◌then◌else◌,
}
use minebtx.Prelude.Int.{ℤ, pos, negsuc, pos_part, neg_part}
use minebtx.Py.Result.{Result, ok, err, runtime_error, connection_error, type_error}
use minebtx.Py.Value.{
  Value, Fields, Decimal, null, bool, int, float, str, list, dict, find, find_or, has, is_none,
}
pub mod Invariant
pub mod Table

-- The ids that wait in `_pending`, and the futures that were settled, by id, the last one first.
pub record Rpc : Type 0 where
  pub next_id : ℕ
  pub pending : List ℕ
  pub settled : List (ℕ × Result Value)

abbrev pub fresh : Rpc
fresh = record { next_id = 1; pending = []; settled = [] }

abbrev pub waits : ℕ → List ℕ → Bool
waits k [] = false
waits k (j ∷ js) = if k == j then true else waits k js

-- `_pending.pop(k, None)`
abbrev pub remove : ℕ → List ℕ → List ℕ
remove k [] = []
remove k (j ∷ js) = if k == j then js else j ∷ remove k js

abbrev pub is_settled : ℕ → List (ℕ × Result Value) → Bool
is_settled k [] = false
is_settled k ((j, r) ∷ rs) = if k == j then true else is_settled k rs

-- The start of `_call`, up to the wait: without a connection the send raises, and the id stays.
unfoldable pub begin_call : Bool → Rpc → Result ℕ × Rpc
begin_call connected r =
    let sent : Rpc = record r { next_id = suc r.next_id; pending = r.next_id ∷ r.pending } in
    if connected then (ok r.next_id, sent) else (err connection_error, sent)

-- The end of `_call` when no reply came within 30 seconds.
unfoldable pub time_out : ℕ → Rpc → Result Value × Rpc
time_out k r = (err runtime_error, record r { pending = remove k r.pending })

-- A future settles once.
abbrev pub settle : ℕ → Result Value → Rpc → Rpc
settle k v r =
    if waits k r.pending
    then record r {
      pending = remove k r.pending;
      settled = (if is_settled k r.settled then r.settled else (k, v) ∷ r.settled);
    }
    else r

abbrev whole_number : Decimal → Option ℕ
whole_number d =
    if (pos_part d.mantissa % 10 ^ d.scale == 0) && (neg_part d.mantissa == 0)
    then some (pos_part d.mantissa / 10 ^ d.scale)
    else none

-- The key that an id is equal to, if any is; a list or a dict cannot be looked up.
abbrev pub id_key : Value → Result (Option ℕ)
id_key (int (pos n)) = ok (some n)
id_key (bool true) = ok (some 1)
id_key (bool false) = ok (some 0)
id_key (float d) = ok (whole_number d)
id_key (list vs) = err type_error
id_key (dict d) = err type_error
id_key v = ok none

-- What a response settles its future with.
abbrev pub outcome : Fields → Result Value
outcome msg =
    if is_none (find_or "error" null msg) then ok (find_or "result" null msg) else err runtime_error

abbrev pub respond : Result (Option ℕ) → Fields → Rpc → Result (Unit {0}) × Rpc
respond (err e) msg r = (err e, r)
respond (ok none) msg r = (ok tt, r)
respond (ok (some k)) msg r = (ok tt, settle k (outcome msg) r)

unfoldable pub on_response : Fields → Value → Rpc → Result (Unit {0}) × Rpc
on_response msg id r = respond (id_key id) msg r
