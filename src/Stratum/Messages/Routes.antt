-- ===== src/Stratum/Messages/Routes.antt =====
-- Which part of the state a message may change.
use minebtx.Prelude.{◌≡◌, refl, Bool, true, false, Bool-cases, arith, inl, inr}
use minebtx.Prelude.Int.{ℤ}
use minebtx.Py.Result.{Result, ok, err, ◌>>=◌}
use minebtx.Py.Value.{Value, Fields, Decimal, null, dict, find_or, has, index}
use minebtx.Py.Number.{to_int, to_float}
use minebtx.Config.{MinerConfig}
use minebtx.Solver.Daemon.{Wrapper}
use minebtx.Stratum.Job.{Job, from_notify}
use minebtx.Stratum.Rpc.Invariant.{IsValid, on_response-IsValid}
use minebtx.Stratum.Client.{Client, Watch, Stats}
use minebtx.Stratum.Notify.{on_notify, install, receive, accepted_job}
use minebtx.Stratum.Messages.{
  Host, State, Route, route, dispatch, params_of, is_response, handle_fields, handle_message,
  on_set_difficulty, on_set_extranonce, store_difficulty, store_extranonce, store_size,
}

-- What no message of the pool changes: the settings, the solver, the counters, and the watchdog's state.
abbrev pub Frame : Type 0
Frame = MinerConfig × Wrapper × Value × Watch × Stats

abbrev pub frame : Client → Frame
frame c = (c.cfg, c.solver, c.inflight_parent, c.watch, c.stats)

-- A notification also leaves the requests alone.
abbrev pub Same : Client → Client → Type 0
Same c c' = (frame c' ≡ frame c) × (c'.rpc ≡ c.rpc)

install-Same : (c : Client) (b : Bool) (r : Result Job) → Same c (install c b r).1
install-Same c b (ok job) = (refl, refl)
install-Same c b (err e) = (refl, refl)

receive-Same :
    (c : Client) (params : Value) (b : Bool) (r : Result Job) → Same c (receive c params b r).1
receive-Same c params b (ok job) = install-Same c b (accepted_job c.current_job params job)
receive-Same c params b (err e) = (refl, refl)

difficulty-Same : (c : Client) (r : Result Decimal) → Same c (store_difficulty c r).1
difficulty-Same c (ok d) = (refl, refl)
difficulty-Same c (err e) = (refl, refl)

size-Same : (c : Client) (r : Result ℤ) → Same c (store_size c r).1
size-Same c (ok d) = (refl, refl)
size-Same c (err e) = (refl, refl)

extranonce-Same :
    (c : Client) (params : Value) (r : Result Value) → Same c (store_extranonce c params r).1
extranonce-Same c params (ok v) =
    size-Same (record c { extranonce1 = v }) (index params 1 >>= to_int)
extranonce-Same c params (err e) = (refl, refl)

dispatch-Same :
    (h : Host) (to : Route) (params : Value) (s : State) → Same s.0 (dispatch h to params s).1.0
unfolding dispatch on_notify on_set_difficulty on_set_extranonce
dispatch-Same h Route.notify params (c, store) =
    receive-Same c params h.delivers (from_notify params)
dispatch-Same h Route.set_difficulty params (c, store) =
    difficulty-Same c (index params 0 >>= to_float)
dispatch-Same h Route.set_extranonce params (c, store) = extranonce-Same c params (index params 0)
dispatch-Same h Route.set_canonical_name params (c, store) = (refl, refl)
dispatch-Same h Route.ignored params s = (refl, refl)

routed-Same :
    (h : Host) (d : Fields) (s : State)
    → is_response d ≡ false
    → Same s.0 (handle_message h (dict d) s).1.0
unfolding handle_message handle_fields
routed-Same h d s e = rw e (dispatch-Same h (route (find_or "method" null d)) (params_of d) s)

fields-frame : (h : Host) (d : Fields) (s : State) → frame (handle_fields h d s).1.0 ≡ frame s.0
unfolding handle_fields
fields-frame h d s = elim (Bool-cases (is_response d)) [
  | inl response ↦ rw response refl
  | inr other ↦ rw other (dispatch-Same h (route (find_or "method" null d)) (params_of d) s).0
]

pub handle_message-frame :
    (h : Host) (msg : Value) (s : State) → frame (handle_message h msg s).1.0 ≡ frame s.0
unfolding handle_message
handle_message-frame h (dict d) s = fields-frame h d s
handle_message-frame h v s = refl

fields-IsValid :
    (h : Host) (d : Fields) (s : State) → IsValid s.0.rpc → IsValid (handle_fields h d s).1.0.rpc
unfolding handle_fields
fields-IsValid h d s v = elim (Bool-cases (is_response d)) [
  | inl response ↦ rw response (on_response-IsValid d (find_or "id" null d) s.0.rpc v)
  | inr other ↦
      rw other (rw ((dispatch-Same h (route (find_or "method" null d)) (params_of d) s).1) v)
]

message-IsValid :
    (h : Host) (msg : Value) (s : State)
    → IsValid s.0.rpc
    → IsValid (handle_message h msg s).1.0.rpc
unfolding handle_message
message-IsValid h (dict d) s v = fields-IsValid h d s v
message-IsValid h msg s v = v

-- No message of the pool, whatever it is, changes the settings, the solver, the running slice's mark,
-- the counters, or the watchdog's state, and each keeps the requests' invariant where it holds.
pub handle_message-IsValid :
    (h : Host) (msg : Value) (s : State)
    → IsValid s.0.rpc
    → (frame (handle_message h msg s).1.0 ≡ frame s.0) × IsValid (handle_message h msg s).1.0.rpc
handle_message-IsValid h msg s v = (handle_message-frame h msg s, message-IsValid h msg s v)

-- A message of the pool that has a method settles no request that waits, also where it carries an id.
handle_message-method :
    (h : Host) (d : Fields) (s : State)
    → has "method" d ≡ true
    → (handle_message h (dict d) s).1.0.rpc ≡ s.0.rpc
handle_message-method h d s e = (routed-Same h d s (ground (arith, e))).1
