-- ===== src/Witnesses/Search.antt =====
-- The search and the notifies on concrete inputs.
use minebtx.Prelude.{
  ℕ, String, ◌≡◌, refl, true, false, none, some, List, [], ◌∷◌, map, inr, arith, if◌then◌else◌,
}
use minebtx.Prelude.Int.{ℤ, pos, ◌+ℤ◌, ◌<ℤ◌}
use minebtx.Py.Result.{Result, ok, err, runtime_error}
use minebtx.Py.Value.{
  Value, Fields, null, bool, int, str, list, dict, nil, cons, end, field, find, of_list,
}
use minebtx.Py.Number.{to_int, to_float}
use minebtx.Py.Equality.{value_eq}
use minebtx.Solver.Challenge.{SolveResult}
use minebtx.Solver.Record.{result_from_record}
use minebtx.Solver.Daemon.{preempt, advertises_preempt}
use minebtx.Stratum.Job.{Job, from_notify}
use minebtx.Stratum.Notify.{accepted_job, on_notify}
use minebtx.Stratum.Notify.Laws.{
  Preempted, metadata_at, position, on_notify-metadata, on_notify-Preempted,
}
use minebtx.Stratum.Search.{starts, finish_slice, advance, batch, nonce_start_of, zero_if_absent}
use minebtx.Stratum.Search.Progress.{
  next_of, Behind, counted_position, finish_slice-next, finish_slice-found,
}
use minebtx.Stratum.Search.Sweep.{Ascending, starts-Ascending}
use minebtx.Stratum.Search.Stale.{submitted, finish_slice-stale, finish_slice-listed}
use minebtx.Stratum.Search.Rotation.{advance-on_notify}
use minebtx.Witnesses.Data.{
  rig, metadata, job_on, notify_params, challenge, share_entry, found_record, result_with,
  mining_on,
}

abbrev two_shares : SolveResult
two_shares = record (result_with (some found_record) true none) {
  digest_hex = null;
  is_block = true;
}

finish_slice-stale_example :
    submitted (finish_slice (mining_on "bb") (job_on "aa") (pos 4_096) (ok two_shares) 2_000) ≡ []
unfolding value_eq
finish_slice-stale_example =
    finish_slice-stale (mining_on "bb") (job_on "aa") (pos 4_096) two_shares 2_000 (inr refl)

finish_slice-listed_example :
    map
      (λ s. s.nonce)
      (submitted (finish_slice (mining_on "aa") (job_on "aa") (pos 4_096) (ok two_shares) 2_000))
    ≡ map some (pos 7 ∷ pos 9 ∷ [])
unfolding value_eq to_int
finish_slice-listed_example =
    finish_slice-listed (mining_on "aa") (job_on "aa") (pos 4_096) two_shares 2_000 (share_entry 7)
      (cons (share_entry 9) nil) (pos 7 ∷ pos 9 ∷ []) refl refl refl refl
      (_, refl, refl, (_, refl, refl, tt))

abbrev bare_record : Fields
bare_record = field "found" (bool true) (field "nonce64" (int (pos 7)) end)

abbrev one_share : SolveResult
one_share = result_with (some bare_record) true none

abbrev no_share : SolveResult
no_share = result_with none false (some (pos 5_000))

finish_slice-next_example :
    (next : ℤ) × (next_of
        (finish_slice (mining_on "aa") (job_on "aa") (pos 4_096) (ok no_share) 2_000)
      ≡ some next)
    × (pos 4_096 <ℤ next)
    × Behind (counted_position no_share (batch (mining_on "aa") (job_on "aa") no_share)) next
finish_slice-next_example =
    finish_slice-next (mining_on "aa") (job_on "aa") (pos 4_096) no_share 2_000 (omega arith)

finish_slice-found_example :
    next_of (finish_slice (mining_on "aa") (job_on "aa") (pos 4_096) (ok two_shares) 2_000)
    ≡ some (pos 4_096 +ℤ rig.nonces_per_slice)
unfolding result_from_record to_int to_float
finish_slice-found_example =
    finish_slice-found (mining_on "aa") (job_on "aa") (pos 4_096) found_record challenge 2_000 refl
      refl

advance-on_notify_example :
    (j : Job) × ((on_notify
        (advance (mining_on "aa") (job_on "aa") (pos 5_001)).1
        (notify_params "aa" false)
        true).1.current_job
      ≡ some j)
    × (nonce_start_of j ≡ (
        if false then to_int (zero_if_absent (find "nonce64_start" metadata)) else ok (pos 5_001)))
unfolding value_eq from_notify to_int
advance-on_notify_example =
    advance-on_notify (mining_on "aa") (job_on "aa") (job_on "aa") (pos 5_001)
      (notify_params "aa" false) true false {job = job_on "aa"} refl refl refl refl refl refl refl

on_notify-metadata_example :
    (m : Fields) × ((on_notify (mining_on "aa") (notify_params "bb" true) true).1.current_job
      ≡ some (record (job_on "bb") { matmul = dict m }))
    × ((k : String) → find k m ≡ metadata_at true (position (some metadata)) k (find k metadata))
unfolding from_notify to_int
on_notify-metadata_example =
    on_notify-metadata (mining_on "aa") (notify_params "bb" true) true true {job = job_on "bb"}
      (some metadata) refl refl refl refl refl

on_notify-Preempted_example :
    (job : Job) × Preempted
      (mining_on "aa")
      job
      (on_notify (mining_on "aa") (notify_params "bb" true) true).1
unfolding on_notify from_notify to_int value_eq accepted_job preempt advertises_preempt
on_notify-Preempted_example =
    on_notify-Preempted (mining_on "aa") (notify_params "bb" true) true refl

abbrev null_version : Value
null_version = list (of_list (str "job-1" ∷ null ∷ []))

abbrev slices : List (Result SolveResult × ℕ)
slices =
    (ok no_share, 2_000)
    ∷ (err runtime_error, 3_000)
    ∷ (ok two_shares, 4_000)
    ∷ (ok no_share, 5_000)
    ∷ []

starts-Ascending_example : Ascending (starts slices (mining_on "aa"))
unfolding value_eq nonce_start_of to_int
starts-Ascending_example =
    starts-Ascending slices (mining_on "aa") (job_on "aa") refl refl refl refl (omega arith)
