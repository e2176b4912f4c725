-- ===== src/Stratum/Search.antt =====
-- `_solver_loop`: where a slice starts, which shares it submits, and where the next one starts.
use minebtx.Prelude.{
  ℕ, String, Bool, true, false, not, ◌&&◌, ◌||◌, Option, none, some, List, [], ◌∷◌, if◌then◌else◌,
}
use minebtx.Prelude.Int.{ℤ, pos, ◌+ℤ◌, ltb_ℤ}
use minebtx.Py.Result.{Error, Result, ok, err, cancelled, is_ok, ◌>>=◌, ◌>>◌}
use minebtx.Py.Value.{
  Value, Items, Fields, null, bool, int, str, list, dict, nil, cons, find, find_or, is_none, truthy,
  get_attr, set_item,
}
use minebtx.Py.Number.{to_int}
use minebtx.Py.Equality.{value_eq}
use minebtx.Config.{MinerConfig, fully_qualified_worker}
use minebtx.Solver.Challenge.{SolveChallenge, SolveResult}
use minebtx.Solver.Record.{zero_seconds}
use minebtx.Stratum.Job.{Job, to_solve_challenge}
use minebtx.Stratum.Client.{Client, Watch}
pub mod Progress
pub mod Sweep
pub mod Stale
pub mod Rotation

abbrev pub zero_if_absent : Option Value → Value
zero_if_absent none = int (pos 0)
zero_if_absent (some v) = v

-- Where the slice of a job starts. This is read outside the `try`: an exception ends the loop.
unfoldable pub nonce_start_of : Job → Result ℤ
nonce_start_of job = do start ← get_attr "nonce64_start" job.matmul; to_int (zero_if_absent start)

abbrev pub start_slice : Client → Job → Result SolveChallenge → Result SolveChallenge × Client
start_slice c job (err e) = (err e, c)
start_slice c job (ok challenge) =
    (ok challenge, record c { inflight_parent = job.previousblockhash })

-- The challenge of a slice, which the client marks as running on its parent block.
unfoldable pub begin_slice : Client → Job → Result SolveChallenge × Client
begin_slice c job = start_slice c job (to_solve_challenge job)

abbrev pub same_parent : Job → Job → Bool
same_parent cur job = value_eq cur.previousblockhash job.previousblockhash

-- Whether the tip moved to another parent block while the slice of `job` ran.
abbrev pub is_stale : Option Job → Job → Bool
is_stale none job = false
is_stale (some cur) job = not (same_parent cur job)

-- The share that an entry of the solver's list stands for.
abbrev pub listed_share : SolveResult → Fields → ℤ → SolveResult
listed_share result s n = record {
  found = true;
  tries_used = pos 0;
  elapsed_s = zero_seconds;
  nonce = some n;
  digest_hex = find_or "matmul_digest" null s;
  ntime = result.ntime;
  raw_output = some s;
  is_block = truthy (find_or "is_block" (bool false) s);
  nonce_end = none;
}

abbrev skip : Error → Bool
skip Error.type_error = true
skip Error.value_error = true
skip _ = false

-- The shares that are submitted, and whether the loop over them raised.
abbrev pub Batch : Type 0
Batch = List SolveResult × Bool

abbrev pub add_share : SolveResult → Batch → Batch
add_share share (shares, raised) = (share ∷ shares, raised)

abbrev pub take_entry : SolveResult → Fields → Result ℤ → Batch → Batch
take_entry result s (ok n) rest = add_share (listed_share result s n) rest
take_entry result s (err e) rest = if skip e then rest else ([], true)

unfoldable pub listed_shares : SolveResult → Items → Batch
listed_shares result nil = ([], false)
listed_shares result (cons v vs) =
    let rest = listed_shares result vs in
    elim v [
      | dict s ↦ take_entry result s (to_int (find_or "nonce64" null s)) rest
      | _ ↦ ([], true)
    ]

abbrev shares_entry : SolveResult → Value
shares_entry result = elim result.raw_output [ none ↦ null | some rec ↦ find_or "shares" null rec ]

-- All shares of a found slice: those that the solver lists, or else the result itself, of which the
-- submission raises without a payout address.
unfoldable pub shares_of : MinerConfig → SolveResult → Batch
unfolding listed_shares
shares_of cfg result =
    let shares = shares_entry result in
    if truthy shares
    then (elim shares [ list vs ↦ listed_shares result vs | _ ↦ ([], true) ])
    else if is_ok (fully_qualified_worker cfg)
    then (result ∷ [], false)
    else ([], true)

-- What a slice submits.
abbrev pub batch : Client → Job → SolveResult → Batch
batch c job result =
    if result.found && not (is_stale c.current_job job) then shares_of c.cfg result else ([], false)

-- Where the search goes on after a slice that returned.
unfoldable pub next_after : MinerConfig → ℤ → Option ℤ → ℤ
next_after cfg start none = start +ℤ cfg.nonces_per_slice
next_after cfg start (some stop) =
    if ltb_ℤ start stop then stop +ℤ pos 1 else start +ℤ cfg.nonces_per_slice

-- The end of a slice that was started on `job`, in the state that the client has then: the shares to
-- submit and the next start; a cancelled slice has neither.
abbrev pub Outcome : Type 0
Outcome = Option (List SolveResult × ℤ) × Client

abbrev pub returned : Client → ℕ → Client
returned c now = record c {
  inflight_parent = null;
  watch = record c.watch { last_solver_result_at = now };
}

abbrev pub settle_batch : Client → ℤ → SolveResult → Batch → Outcome
settle_batch c start result (shares, true) = (some (shares, start +ℤ c.cfg.nonces_per_slice), c)
settle_batch c start result (shares, false) =
    (some (shares, next_after c.cfg start result.nonce_end), c)

unfoldable pub finish_slice : Client → Job → ℤ → Result SolveResult → ℕ → Outcome
finish_slice c job start (ok result) now =
    settle_batch (returned c now) start result (batch c job result)
finish_slice c job start (err Error.cancelled) now = (none, c)
finish_slice c job start (err e) now = (some ([], start +ℤ c.cfg.nonces_per_slice), c)

abbrev pub move_job : Client → Job → Result Value → Result (Unit {0}) × Client
move_job c cur (err e) = (err e, c)
move_job c cur (ok matmul) =
    (ok tt, record c { current_job = some (record cur { matmul = matmul }) })

-- The last step of the loop: the position moves on while the parent block is the slice's.
unfoldable pub advance : Client → Job → ℤ → Result (Unit {0}) × Client
advance c job next = elim c.current_job [
  | none ↦ (ok tt, c)
  | some cur ↦
      if same_parent cur job
      then move_job c cur (set_item "nonce64_start" (int next) cur.matmul)
      else (ok tt, c)
]

-- The slice of a job, with what the solver returns or raises for its challenge.
abbrev pub run_slice : Client → Job → ℤ → Result SolveResult → ℕ → Outcome
run_slice c job start r now =
    let (challenge, c') = begin_slice c job in finish_slice c' job start (challenge >> r) now

-- A cancelled slice ends the loop.
abbrev pub continue : (Client → List ℤ) → Job → Outcome → List ℤ
continue go job (none, c) = []
continue go job (some (shares, next), c) = go (advance c job next).1

abbrev pub from_start :
    (Client → List ℤ) → Client → Job → Result ℤ → Result SolveResult → ℕ → List ℤ
from_start go c job (err e) r now = []
from_start go c job (ok start) r now = start ∷ continue go job (run_slice c job start r now)

abbrev pub at_job : (Client → List ℤ) → Client → Option Job → Result SolveResult → ℕ → List ℤ
at_job go c none r now = []
at_job go c (some job) r now = from_start go c job (nonce_start_of job) r now

-- The starts of the slices of a search in which no message comes, by what the solver makes of them and when.
unfoldable pub starts : List (Result SolveResult × ℕ) → Client → List ℤ
starts [] c = []
starts ((r, now) ∷ slices) c = at_job (starts slices) c c.current_job r now
