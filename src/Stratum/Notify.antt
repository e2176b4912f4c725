-- ===== src/Stratum/Notify.antt =====
-- `_on_notify`: a new job, and the preemption of a slice on another parent block.
use minebtx.Prelude.{
  ℕ, String, ◌≡◌, Bool, true, false, not, ◌&&◌, Option, none, some, ltb, if◌then◌else◌,
}
use minebtx.Py.Result.{Error, Result, ok, err, index_error, key_error, value_error, ◌>>=◌, ◌>>◌}
use minebtx.Py.Value.{
  Value, null, dict, find, find_or, put, is_none, truthy, index, len, get_attr, set_item,
  check_slice,
}
use minebtx.Py.Equality.{value_eq}
use minebtx.Solver.Daemon.{preempt}
use minebtx.Stratum.Job.{Job, from_notify}
use minebtx.Stratum.Client.{Client}
pub mod Laws

-- The exceptions that mark a notify as malformed.
abbrev pub is_malformed : Error → Bool
is_malformed Error.index_error = true
is_malformed Error.key_error = true
is_malformed Error.value_error = true
is_malformed _ = false

-- `bool(params[7]) if len(params) > 7 else False`
abbrev pub clean_jobs : Value → Result Bool
clean_jobs params = do
  n ← len params
  if ltb 7 n then (do flag ← index params 7; ok (truthy flag)) else ok false

abbrev pub or_null : Option Value → Value
or_null none = null
or_null (some v) = v

abbrev pub carry_value : Value → Job → Result Job
carry_value null job = ok job
carry_value start job = do
  matmul ← set_item "nonce64_start" start job.matmul
  ok (record job { matmul = matmul })

-- The position that a job takes over from the one before it.
abbrev carry_from : Job → Job → Result Job
carry_from cur job = do start ← get_attr "nonce64_start" cur.matmul; carry_value (or_null start) job

abbrev pub carry : Bool → Option Job → Job → Result Job
carry true cur job = ok job
carry false none job = ok job
carry false (some cur) job = carry_from cur job

-- The job that becomes the current one.
unfoldable pub accepted_job : Option Job → Value → Job → Result Job
accepted_job current params job = do
  clean ← clean_jobs params
  check_slice job.previousblockhash
  carry clean current job

-- Whether the daemon is preempted for a job, as the client's mark of the slice in flight says.
abbrev pub preempts : Client → Job → Bool → Bool
preempts c job delivers =
    if not (is_none c.inflight_parent) && not (value_eq c.inflight_parent job.previousblockhash)
    then preempt c.solver delivers
    else false

abbrev pub install : Client → Bool → Result Job → Result Bool × Client
install c delivers (err e) = (err e, c)
install c delivers (ok job) = (ok (preempts c job delivers), record c { current_job = some job })

abbrev pub receive : Client → Value → Bool → Result Job → Result Bool × Client
receive c params delivers (err e) = (if is_malformed e then ok false else err e, c)
receive c params delivers (ok job) = install c delivers (accepted_job c.current_job params job)

-- The result is whether SIGUSR1 was delivered; `delivers` is what `send_signal` does.
unfoldable pub on_notify : Client → Value → Bool → Result Bool × Client
on_notify c params delivers = receive c params delivers (from_notify params)
