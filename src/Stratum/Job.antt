-- ===== src/Stratum/Job.antt =====
-- `Job`: a parsed `mining.notify`, and the challenge that it makes. The time of receipt, which nothing
-- reads, is left out.
use minebtx.Prelude.{ℕ, String, Bool, not, ◌&&◌, Option, none, some, ltb, if◌then◌else◌}
use minebtx.Prelude.Int.{ℤ, pos}
use minebtx.Py.Result.{
  Result, ok, err, value_error, attribute_error, type_error, ◌>>=◌, ◌>>◌, raise_if,
}
use minebtx.Py.Value.{
  Value, Fields, end, null, int, dict, find, find_or, has, is_in, truthy, index, len,
}
use minebtx.Py.Number.{to_int}
use minebtx.Solver.Challenge.{SolveChallenge}

pub record Job : Type 0 where
  pub job_id : Value
  pub version : ℤ
  pub previousblockhash : Value
  pub merkleroot : Value
  pub time : ℤ
  pub bits : Value
  pub target : Value
  pub matmul : Value

-- `params[8] if len(params) > 8 else {}`
abbrev matmul_of : Value → ℕ → Result Value
matmul_of params n = if ltb 8 n then index params 8 else ok (dict end)

unfoldable pub from_notify : Value → Result Job
from_notify params = do
  job_id ← index params 0
  version ← to_int (← index params 1)
  previousblockhash ← index params 2
  merkleroot ← index params 3
  time ← to_int (← index params 4)
  bits ← index params 5
  target ← index params 6
  matmul ← matmul_of params (← len params)
  ok (record {
    job_id = job_id;
    version = version;
    previousblockhash = previousblockhash;
    merkleroot = merkleroot;
    time = time;
    bits = bits;
    target = target;
    matmul = matmul;
  })

-- `d[k]` of a key that is there
abbrev at : String → Fields → Value
at k d = find_or k null d

abbrev pub has_required : Fields → Bool
has_required d = has "seed_a" d && has "seed_b" d && has "block_height" d

abbrev mtp_of : Fields → Result (Option ℤ)
mtp_of d = elim (find "parent_mtp" d) [ none ↦ ok none | some v ↦ (do n ← to_int v; ok (some n)) ]

abbrev challenge_of_fields : Job → Fields → Result SolveChallenge
challenge_of_fields job d = do
  raise_if (not (has_required d)) value_error
  height ← to_int (at "block_height" d)
  n ← to_int (find_or "matmul_n" (int (pos 512)) d)
  b ← to_int (find_or "matmul_b" (int (pos 16)) d)
  r ← to_int (find_or "matmul_r" (int (pos 8)) d)
  epsilon ← to_int (find_or "epsilon_bits" (int (pos 18)) d)
  mtp ← mtp_of d
  ok (record {
    version = job.version;
    prev_hash = job.previousblockhash;
    merkle_root = job.merkleroot;
    time = job.time;
    bits = job.bits;
    seed_a = at "seed_a" d;
    seed_b = at "seed_b" d;
    block_height = height;
    matmul_n = n;
    matmul_b = b;
    matmul_r = r;
    epsilon_bits = epsilon;
    share_target_hex = (if truthy job.target then some job.target else none);
    parent_mtp = mtp;
  })

-- Metadata that is no dict is searched for the keys too, and then fails otherwise: a list or a text has
-- no keys to report, and is not indexed by a text.
abbrev no_metadata : Value → Result SolveChallenge
no_metadata v = do
  a ← is_in "seed_a" v
  b ← is_in "seed_b" v
  height ← is_in "block_height" v
  if a && b && height then err type_error else err attribute_error

unfoldable pub to_solve_challenge : Job → Result SolveChallenge
to_solve_challenge job = elim job.matmul [ dict d ↦ challenge_of_fields job d | v ↦ no_metadata v ]
