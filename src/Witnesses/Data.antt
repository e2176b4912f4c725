-- ===== src/Witnesses/Data.antt =====
-- A small rig: its settings, a daemon, jobs and records.
use minebtx.Prelude.{ℕ, String, Bool, true, false, Option, none, some, [], ◌∷◌}
use minebtx.Prelude.Int.{ℤ, pos}
use minebtx.Py.Value.{Value, Fields, bool, int, str, list, dict, nil, cons, end, field, of_list}
use minebtx.Py.Assoc.{Assoc}
use minebtx.Config.{MinerConfig, default_config}
use minebtx.Solver.Challenge.{Shape, SolveChallenge, SolveResult}
use minebtx.Solver.Daemon.{Line, Wrapper, parsed}
use minebtx.Solver.Slice.Restart.{started}
use minebtx.Stratum.Job.{Job}
use minebtx.Stratum.Rpc.{Rpc}
use minebtx.Stratum.Client.{Client, new_client, new_wrapper}

abbrev pub rig : MinerConfig
rig = record (default_config "/root") { payout_address = "btx1zaddress"; worker_name = "rig" }

abbrev pub mainnet : Shape
mainnet = record { matmul_n = pos 512; matmul_b = pos 16; matmul_r = pos 8; epsilon_bits = pos 18 }

abbrev pub ready_line : Line
ready_line = parsed (dict (field "preempt" (bool true) end))

abbrev pub no_env : Assoc String
no_env = []

abbrev pub idle : Wrapper
idle = new_wrapper rig

abbrev pub serving : Wrapper
serving = started idle no_env mainnet ready_line

abbrev pub job_at : ℕ → Fields
job_at n = field "nonce_start" (int (pos n)) end

-- A solver that finds nothing, and says for which job.
abbrev pub nothing : Fields → Value
nothing job = dict (field "found" (bool false) (field "job" (dict job) end))

abbrev pub solve_nothing : Fields → Line
solve_nothing job = parsed (nothing job)

abbrev pub metadata : Fields
metadata = field "seed_a" (str "8460") (
    field "seed_b" (str "7f2e")
      (field "block_height" (int (pos 130_000)) (field "nonce64_start" (int (pos 4_096)) end)))

abbrev pub job_on : String → Job
job_on parent = record {
  job_id = str "job-1";
  version = pos 536_870_912;
  previousblockhash = str parent;
  merkleroot = str "d906";
  time = pos 1_779_672_814;
  bits = str "0x1d17c609";
  target = str "00ff";
  matmul = dict metadata;
}

abbrev pub notify_params : String → Bool → Value
notify_params parent clean = list (
    of_list (
      str "job-1"
      ∷ int (pos 536_870_912)
      ∷ str parent
      ∷ str "d906"
      ∷ int (pos 1_779_672_814)
      ∷ str "0x1d17c609"
      ∷ str "00ff"
      ∷ bool clean
      ∷ dict metadata
      ∷ []))

abbrev pub challenge : SolveChallenge
challenge = record {
  version = pos 536_870_912;
  prev_hash = str "aa";
  merkle_root = str "d906";
  time = pos 1_779_672_814;
  bits = str "0x1d17c609";
  seed_a = str "8460";
  seed_b = str "7f2e";
  block_height = pos 130_000;
  matmul_n = pos 512;
  matmul_b = pos 16;
  matmul_r = pos 8;
  epsilon_bits = pos 18;
  share_target_hex = some (str "00ff");
  parent_mtp = none;
}

abbrev pub share_entry : ℕ → Value
share_entry n = dict (field "nonce64" (int (pos n)) (field "matmul_digest" (str "0abc") end))

-- The record of a slice that found two shares.
abbrev pub found_record : Fields
found_record = field "found" (bool true) (
    field "tries_used" (int (pos 900)) (
      field "nonce64" (int (pos 7)) (
        field "nonce64_end" (int (pos 5_000))
          (field "shares" (list (cons (share_entry 7) (cons (share_entry 9) nil))) end))))

abbrev pub result_with : Option Fields → Bool → Option ℤ → SolveResult
result_with raw found nonce_end = record {
  found = found;
  tries_used = pos 900;
  elapsed_s = record { mantissa = pos 0; scale = 0 };
  nonce = some (pos 7);
  digest_hex = str "0abc";
  ntime = some (pos 1_779_672_814);
  raw_output = raw;
  is_block = false;
  nonce_end = nonce_end;
}

abbrev pub fresh_client : Client
fresh_client = record (new_client rig 1_000) { connected = true }

-- The client while it mines on a block.
abbrev pub mining_on : String → Client
mining_on parent = record fresh_client {
  solver = serving;
  current_job = some (job_on parent);
  inflight_parent = str parent;
}

abbrev pub two_calls : Rpc
two_calls = record { next_id = 3; pending = 2 ∷ 1 ∷ []; settled = [] }
