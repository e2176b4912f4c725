-- ===== src/Stratum/Search/Rotation.antt =====
-- The position of the search across notifies.
use minebtx.Prelude.{◌≡◌, refl, ◌∙◌, sym, Bool, true, false, Option, some, if◌then◌else◌}
use mathlib.Core.Path.{subst}
use minebtx.Prelude.Int.{ℤ}
use minebtx.Py.Result.{ok}
use minebtx.Py.Value.{Value, Fields, int, dict, find, put, check_slice}
use minebtx.Py.Dict.{find-put_self}
use minebtx.Py.Number.{to_int}
use minebtx.Stratum.Job.{Job, from_notify}
use minebtx.Stratum.Client.{Client}
use minebtx.Stratum.Notify.{clean_jobs, on_notify}
use minebtx.Stratum.Notify.Laws.{HasMetadata, metadata_at, position, on_notify-metadata}
use minebtx.Stratum.Search.{same_parent, advance, nonce_start_of, zero_if_absent}
use minebtx.Stratum.Search.Progress.{advance-metadata}

nonce_start_of-find :
    (job : Job) (m : Fields) (o : Option Value)
    → find "nonce64_start" m ≡ o
    → nonce_start_of (record job { matmul = dict m }) ≡ to_int (zero_if_absent o)
unfolding nonce_start_of
nonce_start_of-find job m o e = rw e refl

-- Where the slice of a notified job starts: a clean notify's own position, or else the current one's.
abbrev pub start_position : Bool → Option Fields → Fields → Option Value
start_position clean d e = metadata_at clean (position d) "nonce64_start" (find "nonce64_start" e)

-- After any notify that parses, the next slice starts where `start_position` says.
on_notify-start :
    (c : Client) (params : Value) (delivers clean : Bool) {job : Job} {e : Fields}
    (d : Option Fields)
    → from_notify params ≡ ok job
    → clean_jobs params ≡ ok clean
    → check_slice job.previousblockhash ≡ ok tt
    → job.matmul ≡ dict e
    → HasMetadata c.current_job d
    → (j : Job) × ((on_notify c params delivers).1.current_job ≡ some j)
      × (nonce_start_of j ≡ to_int (zero_if_absent (start_position clean d e)))
on_notify-start c params delivers clean {job} d parsed is_clean sliced meta h =
    let (m, current, at) =
      on_notify-metadata c params delivers clean d parsed is_clean sliced meta h in
    (record job { matmul = dict m }, current, nonce_start_of-find job m _ (at "nonce64_start"))

resume :
    (clean : Bool) (next : ℤ) (d e : Fields)
    → to_int (zero_if_absent (start_position clean (some (put "nonce64_start" (int next) d)) e))
      ≡ (if clean then to_int (zero_if_absent (find "nonce64_start" e)) else ok next)
unfolding to_int
resume true next d e = refl
resume false next d e = rw (find-put_self "nonce64_start" (int next) d) refl

-- A slice has ended on the parent block of the current job, and a notify that parses follows, both
-- with dicts as metadata. If the notify is not clean, the search goes on where the slice left it; if
-- it is clean, the search starts where the notify says.
pub advance-on_notify :
    (c : Client) (slice_job cur : Job) (next : ℤ) (params : Value) (delivers clean : Bool)
    {job : Job} {d e : Fields}
    → c.current_job ≡ some cur
    → cur.matmul ≡ dict d
    → same_parent cur slice_job ≡ true
    → from_notify params ≡ ok job
    → clean_jobs params ≡ ok clean
    → check_slice job.previousblockhash ≡ ok tt
    → job.matmul ≡ dict e
    → (j : Job) × ((on_notify (advance c slice_job next).1 params delivers).1.current_job ≡ some j)
      × (nonce_start_of j
          ≡ (if clean then to_int (zero_if_absent (find "nonce64_start" e)) else ok next))
advance-on_notify c slice_job cur next params delivers clean {d} {e} current meta same parsed
      is_clean sliced meta' =
    let reached : Fields = put "nonce64_start" (int next) d in
    let moved : (advance c slice_job next).1.current_job
        ≡ some (record cur { matmul = dict reached }) =
      advance-metadata c slice_job cur next current meta ∙ rw same refl in
    let (j, now_current, starts) =
      on_notify-start (advance c slice_job next).1 params delivers clean (some reached) parsed
        is_clean sliced meta' (subst (λ o. HasMetadata o (some reached)) (sym moved) refl) in
    (j, now_current, starts ∙ resume clean next d e)
