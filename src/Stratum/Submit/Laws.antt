-- ===== src/Stratum/Submit/Laws.antt =====
-- What a share's submission sends, and what its end does to the counters.
use minebtx.Prelude.{
  ℕ, suc, ◌+◌, ◌^◌, ◌<◌, String, ◌≡◌, refl, Bool, true, false, Option, none, some, List, length,
  get_elem?, arith, if◌then◌else◌,
}
use minebtx.Prelude.Int.{pos}
use minebtx.Py.Result.{Error, Result, ok, err}
use minebtx.Py.Value.{Value, str, truthy}
use minebtx.Py.Text.{codes, hex_padded}
use minebtx.Py.Number.{digits}
use minebtx.Py.Hex.{digits-hex_padded, length-hex_padded}
use minebtx.Config.{fully_qualified_worker}
use minebtx.Solver.Challenge.{SolveResult}
use minebtx.Stratum.Job.{Job}
use minebtx.Stratum.Client.{Client}
use minebtx.Stratum.Submit.{hex_int, submit_params, submit_request, finish_submit}

abbrev pub is_cancelled : Result Value → Bool
is_cancelled (err Error.cancelled) = true
is_cancelled r = false

abbrev pub is_accepted : Result Value → Bool
is_accepted (ok v) = truthy v
is_accepted (err e) = false

-- Accepted and rejected shares.
abbrev judged : Client → ℕ
judged c = c.stats.shares_accepted + c.stats.shares_rejected

-- A submission that is not cancelled counts its share once: as accepted where the reply is truthy, which
-- also ends the streak of rejects, and as rejected where it is not or the call raised, which makes
-- the streak longer by one.
finish_submit-judged :
    (c : Client) (share : SolveResult) (r : Result Value) (now : ℕ)
    → is_cancelled r ≡ false
    → (judged (finish_submit c share r now) ≡ suc (judged c))
      × ((finish_submit c share r now).watch.consec_rejects
          ≡ (if is_accepted r then 0 else suc c.watch.consec_rejects))
      × ((finish_submit c share r now).stats.shares_accepted
          ≡ (if is_accepted r then suc c.stats.shares_accepted else c.stats.shares_accepted))
unfolding finish_submit
finish_submit-judged c share (err Error.cancelled) now h = cc
finish_submit-judged c share (err e) now h = (omega arith, omega arith, refl)
finish_submit-judged c share (ok v) now h = ground arith

-- The nonce's text, of a request that was made.
abbrev pub sent_nonce : Result (Option (List Value)) → Option Value
sent_nonce (ok (some ps)) = get_elem? ps 4
sent_nonce _ = none

-- With a payout address, the request for a share with a 64-bit nonce carries it in a text of sixteen
-- characters that reads back as the nonce in hexadecimal.
pub submit_request-nonce :
    (c : Client) (job : Job) (share : SolveResult) (n : ℕ) {worker : String}
    → fully_qualified_worker c.cfg ≡ ok worker
    → share.nonce ≡ some (pos n)
    → n < 16 ^ 16
    → (text : String) × (sent_nonce (submit_request c job share) ≡ some (str text))
      × (length (codes text) ≡ 16)
      × (digits 16 0 false (codes text) ≡ some n)
unfolding submit_request submit_params hex_int
submit_request-nonce c job share n w e h =
    (hex_padded 16 n, rw w (rw e refl), length-hex_padded 15 n h, digits-hex_padded 16 n)
