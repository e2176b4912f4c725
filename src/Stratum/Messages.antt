-- ===== src/Stratum/Messages.antt =====
-- `_handle_message` and the pool's notifications of a difficulty and an extranonce.
use minebtx.Prelude.{ℕ, String, Bool, true, false, not, ◌&&◌, Option, none, some, if◌then◌else◌}
use minebtx.Prelude.Int.{ℤ}
use minebtx.Py.Result.{
  Error, Result, ok, err, index_error, type_error, value_error, attribute_error, ◌>>=◌,
}
use minebtx.Py.Value.{
  Value, Fields, Decimal, null, str, list, dict, nil, find_or, has, index, is_in, is_none, or_else,
}
use minebtx.Py.Number.{to_int, to_float}
use minebtx.Py.Equality.{value_eq}
use minebtx.Stratum.Rpc.{Rpc, on_response}
use minebtx.Stratum.Client.{Client}
use minebtx.Stratum.Notify.{on_notify}
use minebtx.Stratum.Names.{Store, Disk, on_set_canonical_name}
pub mod Routes

-- What a message meets outside the program: the clock, the file system, and the daemon's process.
pub record Host : Type 0 where
  pub float_text : Decimal → String
  pub disk : Disk
  pub now : ℕ
  pub delivers : Bool

-- The client, and the cache file of the canonical names.
abbrev pub State : Type 0
State = Client × Store

-- The exceptions that `_on_set_difficulty` and `_on_set_extranonce` log and drop.
abbrev pub is_bad_params : Error → Bool
is_bad_params Error.index_error = true
is_bad_params Error.type_error = true
is_bad_params Error.value_error = true
is_bad_params _ = false

abbrev pub drop_bad_params : Error → Result (Unit {0})
drop_bad_params e = if is_bad_params e then ok tt else err e

abbrev pub store_difficulty : Client → Result Decimal → Result (Unit {0}) × Client
store_difficulty c (ok d) = (ok tt, record c { difficulty = d })
store_difficulty c (err e) = (drop_bad_params e, c)

unfoldable pub on_set_difficulty : Client → Value → Result (Unit {0}) × Client
on_set_difficulty c params = store_difficulty c (index params 0 >>= to_float)

abbrev pub store_size : Client → Result ℤ → Result (Unit {0}) × Client
store_size c (ok n) = (ok tt, record c { extranonce2_size = n })
store_size c (err e) = (drop_bad_params e, c)

abbrev pub store_extranonce : Client → Value → Result Value → Result (Unit {0}) × Client
store_extranonce c params (ok v) =
    store_size (record c { extranonce1 = v }) (index params 1 >>= to_int)
store_extranonce c params (err e) = (drop_bad_params e, c)

-- The first parameter is stored before the second is read.
unfoldable pub on_set_extranonce : Client → Value → Result (Unit {0}) × Client
on_set_extranonce c params = store_extranonce c params (index params 0)

abbrev pub forget : Result Bool → Result (Unit {0})
forget r = r >>= λ b. ok tt

-- What a method name stands for.
pub data Route : Type 0 where
  notify set_difficulty set_extranonce set_canonical_name ignored : Route

abbrev pub route : Value → Route
route method =
    if value_eq method (str "mining.notify")
    then Route.notify
    else if value_eq method (str "mining.set_difficulty")
    then Route.set_difficulty
    else if value_eq method (str "mining.set_extranonce")
    then Route.set_extranonce
    else if value_eq method (str "mining.set_canonical_name")
    then Route.set_canonical_name
    else Route.ignored

abbrev pub with_store : Store → Result (Unit {0}) × Client → Result (Unit {0}) × State
with_store store (r, c) = (r, (c, store))

unfoldable pub dispatch : Host → Route → Value → State → Result (Unit {0}) × State
dispatch h Route.notify params (c, store) =
    let (r, c') = on_notify c params h.delivers in (forget r, (c', store))
dispatch h Route.set_difficulty params (c, store) = with_store store (on_set_difficulty c params)
dispatch h Route.set_extranonce params (c, store) = with_store store (on_set_extranonce c params)
dispatch h Route.set_canonical_name params (c, store) =
    let (r, store') = on_set_canonical_name h.float_text h.disk h.now params store in
    (r, (c, store'))
dispatch h Route.ignored params s = (ok tt, s)

-- `msg.get("params") or []`
abbrev pub params_of : Fields → Value
params_of d = or_else (find_or "params" null d) (list nil)

abbrev pub is_response : Fields → Bool
is_response d = has "id" d && not (is_none (find_or "id" null d)) && not (has "method" d)

abbrev pub settle_response : State → Result (Unit {0}) × Rpc → Result (Unit {0}) × State
settle_response (c, store) (r, rpc) = (r, (record c { rpc = rpc }, store))

unfoldable pub handle_fields : Host → Fields → State → Result (Unit {0}) × State
unfolding dispatch
handle_fields h d s =
    if is_response d
    then settle_response s (on_response d (find_or "id" null d) s.0.rpc)
    else dispatch h (route (find_or "method" null d)) (params_of d) s

-- A message that is no dict raises, where its id is looked up or else where its method is.
abbrev pub no_message : Result Bool → Result (Unit {0})
no_message (ok true) = err type_error
no_message (ok false) = err attribute_error
no_message (err e) = err e

unfoldable pub handle_message : Host → Value → State → Result (Unit {0}) × State
unfolding handle_fields
handle_message h (dict d) s = handle_fields h d s
handle_message h v s = (no_message (is_in "id" v), s)
