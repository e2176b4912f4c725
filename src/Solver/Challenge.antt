-- ===== src/Solver/Challenge.antt =====
-- `SolveChallenge`, `SolveResult`, and the job line that `solve_slice` writes for a challenge.
-- Texts that come from the pool are JSON values of any type, since nothing checks them.
use minebtx.Prelude.{ℕ, String, Bool, Option, none, some, ltb, if◌then◌else◌, ◌==◌, ◌&&◌}
use Prim.Native.Char.{code}
use minebtx.Prelude.Int.{ℤ, pos, eq_ℤ}
use minebtx.Py.Result.{Result, ok, err, attribute_error, ◌>>=◌}
use minebtx.Py.Value.{Value, Decimal, Fields, int, float, str, end, put, truthy}

pub record SolveChallenge : Type 0 where
  pub version : ℤ
  pub prev_hash : Value
  pub merkle_root : Value
  pub time : ℤ
  pub bits : Value
  pub seed_a : Value
  pub seed_b : Value
  pub block_height : ℤ
  pub matmul_n : ℤ
  pub matmul_b : ℤ
  pub matmul_r : ℤ
  pub epsilon_bits : ℤ
  pub share_target_hex : Option Value
  pub parent_mtp : Option ℤ

pub record SolveResult : Type 0 where
  pub found : Bool
  pub tries_used : ℤ
  pub elapsed_s : Decimal
  pub nonce : Option ℤ
  pub digest_hex : Value
  pub ntime : Option ℤ
  pub raw_output : Option Fields
  pub is_block : Bool
  pub nonce_end : Option ℤ

-- The settings that a daemon is locked to when it starts.
pub record Shape : Type 0 where
  pub matmul_n : ℤ
  pub matmul_b : ℤ
  pub matmul_r : ℤ
  pub epsilon_bits : ℤ

abbrev pub shape : SolveChallenge → Shape
shape c = record {
  matmul_n = c.matmul_n;
  matmul_b = c.matmul_b;
  matmul_r = c.matmul_r;
  epsilon_bits = c.epsilon_bits;
}

abbrev pub same_shape : Shape → Shape → Bool
same_shape s t =
    eq_ℤ s.matmul_n t.matmul_n
    && eq_ℤ s.matmul_b t.matmul_b
    && eq_ℤ s.matmul_r t.matmul_r
    && eq_ℤ s.epsilon_bits t.epsilon_bits

-- `bits[2:] if bits.startswith("0x") else bits`
abbrev strip_0x : String → String
strip_0x (String.◌∷◌ z (String.◌∷◌ x s)) =
    if code z == b'0' && (code x == b'x') then s else String.◌∷◌ z (String.◌∷◌ x s)
strip_0x s = s

abbrev plain_bits : Value → Result Value
plain_bits (str s) = ok (str (strip_0x s))
plain_bits v = err attribute_error

-- A number of milliseconds, as the seconds that are sent.
abbrev pub seconds : ℕ → Value
seconds ms = float (record { mantissa = pos ms; scale = 3 })

abbrev with_target : Option Value → Fields → Fields
with_target none job = job
with_target (some t) job = if truthy t then put "share_target" t job else job

abbrev with_mtp : Option ℤ → Fields → Fields
with_mtp none job = job
with_mtp (some t) job = put "parent_mtp" (int t) job

-- The job that `solve_slice` sends, or the exception that building it raises.
unfoldable pub job_line : SolveChallenge → ℤ → ℤ → ℕ → Result Fields
job_line c nonce_start max_tries max_seconds = do
  bits ← plain_bits c.bits
  let version = put "version" (int c.version) end
  let hashes = put "merkle_root" c.merkle_root (put "prev_hash" c.prev_hash version)
  let header = put "bits" bits (put "time" (int c.time) hashes)
  let seeds = put "seed_b" c.seed_b (put "seed_a" c.seed_a header)
  let height = put "block_height" (int c.block_height) seeds
  let range = put "max_tries" (int max_tries) (put "nonce_start" (int nonce_start) height)
  let limit = if ltb 0 max_seconds then max_seconds else 5_000
  let job = put "max_seconds" (seconds limit) range
  ok (with_mtp c.parent_mtp (with_target c.share_target_hex job))
