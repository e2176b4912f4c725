-- ===== src/Stratum/Session/Backoff.antt =====
-- How long the client waits between its sessions.
use minebtx.Prelude.{
  ℕ, zero, suc, ◌*◌, min, ◌≡◌, subst, ◌⊎◌, inl, inr, refl, ◌∙◌, ap, false, Option, none, some, List,
  [], ◌∷◌, get_elem?,
}
use minebtx.Prelude.Int.{ℤ}
use minebtx.Py.Result.{Error, Result, ok, err, is_ok, ◌>>=◌}
use minebtx.Py.Value.{Value, index}
use minebtx.Py.Number.{to_int}
use minebtx.Config.{MinerConfig, fully_qualified_worker}
use minebtx.Stratum.Client.{Client}
use minebtx.Stratum.Messages.{State}
use minebtx.Stratum.Messages.Routes.{handle_message-frame}
use minebtx.Stratum.Session.{
  Incoming, Closing, Script, Reader, blank, no_json, message, closing_error, read_line, read_rest,
  read_lines, reader_loop, store_size, store_extranonce, on_client, start_window, end_session,
  go_on, send_call, send_authorize, connect, on_subscribed, check_authorized, serve, authorize,
  subscribe, open_session, read_on, session_once, retry, next_session, session_loop, run_forever,
}

-- A session's outcome is an exception, and the settings are those from before.
abbrev pub Failed : MinerConfig → Result (Unit {0}) × State → Type 0
Failed cfg (r, s) = (is_ok r ≡ false) × (s.0.cfg ≡ cfg)

line-cfg : (line : Incoming) (s : State) → (read_line line s).1.0.cfg ≡ s.0.cfg
unfolding read_line
line-cfg blank s = refl
line-cfg no_json s = refl
line-cfg (message h v) s = ap (λ f. f.0) (handle_message-frame h v s)

rest-cfg :
    (rest : State → Reader)
    → ((s : State) → (rest s).1.0.cfg ≡ s.0.cfg)
    → (p : Reader) → (read_rest rest p).1.0.cfg ≡ p.1.0.cfg
rest-cfg rest h (ok u, s) = h s
rest-cfg rest h (err e, s) = refl

read_lines-cfg : (lines : List Incoming) (s : State) → (read_lines lines s).1.0.cfg ≡ s.0.cfg
unfolding read_lines
read_lines-cfg [] s = refl
read_lines-cfg (line ∷ lines) s =
    rest-cfg (read_lines lines) (read_lines-cfg lines) (read_line line s) ∙ line-cfg line s

read_on-cfg : (p : Reader) (lines : List Incoming) → (read_on p lines).1.0.cfg ≡ p.1.0.cfg
read_on-cfg (ok u, s) lines = read_lines-cfg lines s
read_on-cfg (err e, s) lines = refl

reader_loop-Failed :
    (lines : List Incoming) (closing : Closing) (s : State)
    → Failed s.0.cfg (reader_loop lines closing s)
unfolding reader_loop
reader_loop-Failed lines closing s =
    let (f, e) = go (read_lines lines s) in (f, e ∙ read_lines-cfg lines s)
  where
    go : (p : Reader) → Failed p.1.0.cfg (read_rest (λ s'. (err (closing_error closing), s')) p)
    go (ok u, s') = (refl, refl)
    go (err e, s') = (refl, refl)

serve-Failed : (script : Script) (p : Reader) → Failed p.1.0.cfg (serve script p)
unfolding serve start_window
serve-Failed script (err e, s) = (refl, refl)
serve-Failed script (ok u, s) =
    reader_loop-Failed script.lines script.closing
      (on_client (λ c. start_window c script.started_at) s)

go_on-Failed {ℓ} :
    {A : Type ℓ} (next : Reader → Reader)
    → ((p : Reader) → Failed p.1.0.cfg (next p))
    → (p : Reader) (r : Result A) → Failed p.1.0.cfg (go_on next p r)
go_on-Failed next h p (ok a) = h p
go_on-Failed next h p (err e) = (refl, refl)

send_authorize-Failed : (script : Script) (p : Reader) → Failed p.1.0.cfg (send_authorize script p)
send_authorize-Failed script (r, s) =
    let p : Reader = (r, on_client send_call s) in
    let q : Reader = read_on p script.before_authorized in
    let (f, e) =
      go_on-Failed (serve script) (serve-Failed script) q
        (script.authorized >>= check_authorized) in
    (f, e ∙ read_on-cfg p script.before_authorized)

authorize-Failed : (script : Script) (p : Reader) → Failed p.1.0.cfg (authorize script p)
authorize-Failed script p =
    go_on-Failed (send_authorize script) (send_authorize-Failed script) p
      (fully_qualified_worker p.1.0.cfg)

size-cfg : (c : Client) (r : Result ℤ) → (store_size c r).1.cfg ≡ c.cfg
size-cfg c (ok n) = refl
size-cfg c (err e) = refl

extranonce-cfg :
    (c : Client) (reply : Value) (r : Result Value) → (store_extranonce c reply r).1.cfg ≡ c.cfg
extranonce-cfg c reply (ok v) = size-cfg (record c { extranonce1 = v }) (index reply 2 >>= to_int)
extranonce-cfg c reply (err e) = refl

subscribed-cfg : (c : Client) (r : Result Value) → (on_subscribed c r).1.cfg ≡ c.cfg
unfolding on_subscribed
subscribed-cfg c (ok reply) = extranonce-cfg c reply (index reply 1)
subscribed-cfg c (err e) = refl

subscribe-Failed : (script : Script) (p : Reader) → Failed p.1.0.cfg (subscribe script p)
subscribe-Failed script (r, (c, store)) =
    let (f, e) =
      go_on-Failed (authorize script) (authorize-Failed script)
        (r, ((on_subscribed c script.subscribed).1, store)) (on_subscribed c script.subscribed).0 in
    (f, e ∙ subscribed-cfg c script.subscribed)

open-Failed :
    (script : Script) (r : Result (Unit {0})) (s : State) → Failed s.0.cfg (open_session script r s)
unfolding end_session
open-Failed script (err e) s = (refl, refl)
open-Failed script (ok u) s =
    let p : Reader = read_lines script.before_subscribed (on_client connect s) in
    let (f, e) = subscribe-Failed script p in
    (f, e ∙ read_lines-cfg script.before_subscribed (on_client connect s))

session_once-Failed : (script : Script) (s : State) → Failed s.0.cfg (session_once script s)
unfolding session_once
session_once-Failed script s = open-Failed script script.opening s

-- The waits of a client whose backoff is never reset.
abbrev pub doubled : ℕ → ℕ → ℕ → ℕ
doubled limit backoff zero = backoff
doubled limit backoff (suc k) = doubled limit (min (backoff * 2) limit) k

-- Before the k-th session there is no further one, or its wait is the doubled one.
abbrev pub Wait : ℕ → ℕ → List (Option ℕ) → ℕ → Type 0
Wait limit backoff waits k =
    (get_elem? waits k ≡ none) ⊎ (get_elem? waits k ≡ some (some (doubled limit backoff k)))

module _ (go : ℕ → State → List (Option ℕ)) (limit backoff : ℕ) where
  longer-Wait :
      (s : State)
      → ((k : ℕ) → Wait limit (min (backoff * 2) limit) (go (min (backoff * 2) limit) s) k)
      → (k : ℕ) → Wait limit backoff (some backoff ∷ go (min (backoff * 2) limit) s) k
  longer-Wait s h zero = inr refl
  longer-Wait s h (suc k) = h k

retry-Wait :
    (go : ℕ → State → List (Option ℕ)) (cfg : MinerConfig) (backoff : ℕ) (r : Result (Unit {0}))
    (s : State)
    → is_ok r ≡ false
    → ((k : ℕ)
        → Wait cfg.reconnect_max_s
            (min (backoff * 2) cfg.reconnect_max_s)
            (go (min (backoff * 2) cfg.reconnect_max_s) s)
            k)
    → (k : ℕ) → Wait cfg.reconnect_max_s backoff (next_session go s (retry cfg backoff r)) k
retry-Wait go cfg backoff (ok u) s f h k = cc
retry-Wait go cfg backoff (err Error.cancelled) s f h k = inl refl
retry-Wait go cfg backoff (err x) s f h k = longer-Wait go cfg.reconnect_max_s backoff s h k

session_loop-Wait :
    (scripts : List Script) (backoff : ℕ) (s : State) (k : ℕ)
    → Wait s.0.cfg.reconnect_max_s backoff (session_loop scripts backoff s) k
session_loop-Wait [] backoff s k = inl refl
session_loop-Wait (script ∷ scripts) backoff s k =
    let (failed, kept) = session_once-Failed script s in
    subst (λ cfg. Wait cfg.reconnect_max_s backoff (session_loop (script ∷ scripts) backoff s) k)
      kept
      (retry-Wait (session_loop scripts) (session_once script s).1.0.cfg backoff
        (session_once script s).0 (session_once script s).1 failed
        (λ j. session_loop-Wait scripts _ (session_once script s).1 j) k)

-- However the sessions go, the k-th wait, if there is one, is the initial one doubled k times, up to
-- the maximum: no session resets it.
pub run_forever-wait :
    (scripts : List Script) (s : State) (k : ℕ)
    → (get_elem? (run_forever scripts s) k ≡ none)
      ⊎ (get_elem? (run_forever scripts s) k
          ≡ some (some (doubled s.0.cfg.reconnect_max_s s.0.cfg.reconnect_initial_s k)))
unfolding run_forever
run_forever-wait scripts s k = session_loop-Wait scripts s.0.cfg.reconnect_initial_s s k
