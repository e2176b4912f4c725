-- ===== src/Stratum/Submit.antt =====
-- `_submit_share`: the request for a share, and what its reply does to the counters.
use minebtx.Prelude.{
  ℕ, zero, suc, ◌+◌, ◌-◌, String, ◌<>◌, Bool, true, false, Option, none, some, List, [], ◌∷◌, ◌==◌,
  if◌then◌else◌,
}
use minebtx.Prelude.Int.{ℤ, pos, negsuc, pos_part, eq_ℤ}
use minebtx.Py.Result.{Error, Result, ok, err, cancelled, ◌>>=◌}
use minebtx.Py.Value.{Value, str, truthy}
use minebtx.Py.Text.{hex_padded}
use minebtx.Config.{MinerConfig, fully_qualified_worker}
use minebtx.Solver.Challenge.{SolveResult}
use minebtx.Stratum.Job.{Job}
use minebtx.Stratum.Client.{Client, Watch, Stats}
pub mod Laws

-- `f"{z:0<width>x}"`, the sign included in the width
unfoldable pub hex_int : ℕ → ℤ → String
hex_int width (pos n) = hex_padded width n
hex_int width (negsuc n) = "-" <> hex_padded (width - 1) (suc n)

-- `"00" * n`
unfoldable pub zero_bytes : ℕ → String
zero_bytes zero = ""
zero_bytes (suc n) = "00" <> zero_bytes n

-- `share.ntime or job.time`
abbrev pub share_time : SolveResult → Job → ℤ
share_time share job = elim share.ntime [
  | none ↦ job.time
  | some t ↦ if eq_ℤ t (pos 0) then job.time else t
]

-- The parameters of `mining.submit`.
unfoldable pub submit_params : Client → Job → String → SolveResult → ℤ → List Value
unfolding hex_int zero_bytes
submit_params c job worker share nonce =
    str worker
    ∷ job.job_id
    ∷ str (zero_bytes (pos_part c.extranonce2_size))
    ∷ str (hex_int 8 (share_time share job))
    ∷ str (hex_int 16 nonce)
    ∷ []

-- The request that a share makes, if it has a nonce.
unfoldable pub submit_request : Client → Job → SolveResult → Result (Option (List Value))
submit_request c job share = do
  worker ← fully_qualified_worker c.cfg
  elim share.nonce [
    | none ↦ ok none
    | some nonce ↦ ok (some (submit_params c job worker share nonce))
  ]

abbrev pub reject : Client → Client
reject c = record c {
  watch = record c.watch { consec_rejects = c.watch.consec_rejects + 1 };
  stats = record c.stats { shares_rejected = c.stats.shares_rejected + 1 };
}

abbrev pub accept : Client → Bool → ℕ → Client
accept c is_block now = record c {
  watch = record c.watch { consec_rejects = 0; last_accept_at = now; heals_without_accept = 0 };
  stats = record c.stats {
    shares_accepted = c.stats.shares_accepted + 1;
    blocks_found = (if is_block then c.stats.blocks_found + 1 else c.stats.blocks_found);
  };
}

-- What the end of the call does, at a time of the monotonic clock. A cancelled task does nothing more.
unfoldable pub finish_submit : Client → SolveResult → Result Value → ℕ → Client
finish_submit c share (err Error.cancelled) now = c
finish_submit c share (err e) now = reject c
finish_submit c share (ok v) now = if truthy v then accept c share.is_block now else reject c
