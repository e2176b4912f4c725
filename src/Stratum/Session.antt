-- ===== src/Stratum/Session.antt =====
-- A connection to the pool (`_session_once`, `_handshake`, `_reader_loop`), and the loop that makes
-- connections (`run_forever`).
-- What the other end does is an argument: how the connection is opened, how the two calls of the handshake
-- end, which lines come, and how the input ends. The solver, heal and metrics tasks are steps of their
-- own modules.
use minebtx.Prelude.{
  ℕ, ◌+◌, ◌*◌, min, String, Bool, true, false, not, Option, none, some, List, [], ◌∷◌,
  if◌then◌else◌,
}
use minebtx.Prelude.Int.{ℤ}
use minebtx.Py.Result.{
  Error, Result, ok, err, index_error, type_error, value_error, runtime_error, connection_error,
  cancelled, ◌>>=◌, ◌>>◌,
}
use minebtx.Py.Value.{Value, index, truthy}
use minebtx.Py.Number.{to_int}
use minebtx.Config.{MinerConfig, fully_qualified_worker}
use minebtx.Stratum.Rpc.{Rpc, begin_call}
use minebtx.Stratum.Client.{Client, Watch}
use minebtx.Stratum.Messages.{Host, State, handle_message}
pub mod Backoff

-- A line that came in, by what `strip` and `json.loads` make of it.
pub data Incoming : Type 0 where
  blank no_json : Incoming
  message : Host → Value → Incoming

-- How the input ends: the pool closes it, or reading raises.
pub data Closing : Type 0 where
  end_of_input : Closing
  failed : Error → Closing

abbrev pub closing_error : Closing → Error
closing_error end_of_input = connection_error
closing_error (failed e) = e

unfoldable pub read_line : Incoming → State → Result (Unit {0}) × State
read_line blank s = (ok tt, s)
read_line no_json s = (ok tt, s)
read_line (message h v) s = handle_message h v s

abbrev pub read_rest :
    (State → Result (Unit {0}) × State) → Result (Unit {0}) × State → Result (Unit {0}) × State
read_rest rest (ok u, s) = rest s
read_rest rest (err e, s) = (err e, s)

-- The lines of a stretch of the input, up to the first that raises.
unfoldable pub read_lines : List Incoming → State → Result (Unit {0}) × State
unfolding read_line
read_lines [] s = (ok tt, s)
read_lines (line ∷ lines) s = read_rest (read_lines lines) (read_line line s)

-- The whole input.
unfoldable pub reader_loop : List Incoming → Closing → State → Result (Unit {0}) × State
unfolding read_lines
reader_loop lines closing s =
    read_rest (λ s'. (err (closing_error closing), s')) (read_lines lines s)

abbrev subscribe_error : Error → Error
subscribe_error Error.index_error = runtime_error
subscribe_error Error.type_error = runtime_error
subscribe_error Error.value_error = runtime_error
subscribe_error e = e

abbrev pub store_size : Client → Result ℤ → Result (Unit {0}) × Client
store_size c (ok n) = (ok tt, record c { extranonce2_size = n })
store_size c (err e) = (err (subscribe_error e), c)

abbrev pub store_extranonce : Client → Value → Result Value → Result (Unit {0}) × Client
store_extranonce c reply (ok v) =
    store_size (record c { extranonce1 = v }) (index reply 2 >>= to_int)
store_extranonce c reply (err e) = (err (subscribe_error e), c)

-- What the reply to `mining.subscribe` stores.
unfoldable pub on_subscribed : Client → Result Value → Result (Unit {0}) × Client
on_subscribed c (err e) = (err e, c)
on_subscribed c (ok reply) = store_extranonce c reply (index reply 1)

unfoldable pub check_authorized : Value → Result (Unit {0})
check_authorized v = if truthy v then ok tt else err runtime_error

-- The fresh window of the watchdog.
unfoldable pub start_window : Client → ℕ → Client
start_window c now = record c {
  watch = record c.watch {
    session_started_at = now;
    last_accept_at = now;
    last_solver_result_at = now;
    consec_rejects = 0;
  };
}

-- The `finally` of a session. The ids go on counting.
unfoldable pub end_session : Client → Client
end_session c = record c {
  connected = false;
  current_job = none;
  rpc = record c.rpc { pending = [] };
}

-- What a session meets. The lines before `subscribed` come while the handshake waits for it, and
-- so on.
pub record Script : Type 0 where
  pub opening : Result (Unit {0})
  pub before_subscribed : List Incoming
  pub subscribed : Result Value
  pub before_authorized : List Incoming
  pub authorized : Result Value
  pub started_at : ℕ
  pub lines : List Incoming
  pub closing : Closing

-- The reader's task: it raised, or it reads on.
abbrev pub Reader : Type 0
Reader = Result (Unit {0}) × State

abbrev pub read_on : Reader → List Incoming → Reader
read_on (ok u, s) lines = read_lines lines s
read_on (err e, s) lines = (err e, s)

abbrev pub on_client : (Client → Client) → State → State
on_client f (c, store) = (f c, store)

-- The session from the handshake's end on: the reader's exception is the session's.
unfoldable pub serve : Script → Reader → Result (Unit {0}) × State
unfolding reader_loop
serve script (err e, s) = (err e, on_client (λ c. start_window c script.started_at) s)
serve script (ok u, s) =
    reader_loop script.lines script.closing (on_client (λ c. start_window c script.started_at) s)

-- A step of the handshake that raises ends the session.
abbrev pub go_on {ℓ} :
    {A : Type ℓ}
    → (Reader → Result (Unit {0}) × State)
    → Reader
    → Result A
    → Result (Unit {0}) × State
go_on next p (ok a) = next p
go_on next p (err e) = (err e, p.1)

abbrev pub authorized : Script → Reader → Result (Unit {0}) × State
authorized script p = go_on (serve script) p (script.authorized >>= check_authorized)

-- A request of the handshake takes an id and waits.
abbrev pub send_call : Client → Client
send_call c = record c { rpc = (begin_call c.connected c.rpc).1 }

abbrev pub send_authorize : Script → Reader → Result (Unit {0}) × State
send_authorize script (r, s) =
    authorized script (read_on (r, on_client send_call s) script.before_authorized)

-- Without a payout address there is no call.
abbrev pub authorize : Script → Reader → Result (Unit {0}) × State
authorize script p = go_on (send_authorize script) p (fully_qualified_worker p.1.0.cfg)

abbrev pub subscribe : Script → Reader → Result (Unit {0}) × State
subscribe script (r, (c, store)) =
    let (stored, c') = on_subscribed c script.subscribed in
    go_on (authorize script) (r, (c', store)) stored

abbrev pub connect : Client → Client
connect c = send_call (record c { connected = true })

abbrev pub open_session : Script → Result (Unit {0}) → State → Result (Unit {0}) × State
open_session script (err e) s = (err e, s)
open_session script (ok u) s =
    let (r, s') = subscribe script (read_lines script.before_subscribed (on_client connect s)) in
    (r, on_client end_session s')

-- The session's result, and the state it leaves; a session that is not opened leaves the old one.
unfoldable pub session_once : Script → State → Result (Unit {0}) × State
session_once script s = open_session script script.opening s

-- How long the client waits after a session, without the jitter, and the next backoff; a cancelled
-- session ends the loop.
abbrev pub retry : MinerConfig → ℕ → Result (Unit {0}) → Option (Option ℕ × ℕ)
retry cfg backoff (ok u) = some (none, cfg.reconnect_initial_s)
retry cfg backoff (err Error.cancelled) = none
retry cfg backoff (err e) = some (some backoff, min (backoff * 2) cfg.reconnect_max_s)

abbrev pub next_session :
    (ℕ → State → List (Option ℕ)) → State → Option (Option ℕ × ℕ) → List (Option ℕ)
next_session go s none = []
next_session go s (some (wait, backoff)) = wait ∷ go backoff s

abbrev pub session_loop : List Script → ℕ → State → List (Option ℕ)
session_loop [] backoff s = []
session_loop (script ∷ scripts) backoff s =
    let (r, s') = session_once script s in
    next_session (session_loop scripts) s' (retry s'.0.cfg backoff r)

-- The waits of a client that makes these sessions.
unfoldable pub run_forever : List Script → State → List (Option ℕ)
run_forever scripts s = session_loop scripts s.0.cfg.reconnect_initial_s s
