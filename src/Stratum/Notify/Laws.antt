-- ===== src/Stratum/Notify/Laws.antt =====
-- What a notify does to the current job, and when it preempts the running slice.
use minebtx.Prelude.{
  String, ◌≡◌, refl, ap, Bool, true, false, not, ◌&&◌, Option, none, some, arith, str_eq,
  if◌then◌else◌, Option-cases, inl, inr,
}
use minebtx.Py.Result.{Result, ok, err, type_error}
use minebtx.Py.Value.{Value, Fields, null, dict, find, put, is_none, check_slice, index}
use minebtx.Py.Dict.{find-put}
use minebtx.Py.Number.{to_int}
use minebtx.Py.Equality.{value_eq}
use minebtx.Solver.Daemon.{Process, Wrapper, preempt}
use minebtx.Stratum.Job.{Job, from_notify}
use minebtx.Stratum.Client.{Client}
use minebtx.Stratum.Notify.{
  clean_jobs, carry, carry_value, or_null, accepted_job, preempts, install, receive, on_notify,
}

-- A value that is no `None`.
abbrev pub present : Option Value → Option Value
present none = none
present (some null) = none
present (some v) = some v

-- The position that the current job has reached, if its metadata is a dict that has one.
abbrev pub position : Option Fields → Option Value
position none = none
position (some d) = present (find "nonce64_start" d)

abbrev pub HasMetadata : Option Job → Option Fields → Type 0
HasMetadata none none = Unit
HasMetadata (some cur) (some d) = cur.matmul ≡ dict d
HasMetadata _ _ = ⊥

-- What a new job's metadata holds at a name, from the current position and its own entry.
abbrev pub metadata_at : Bool → Option Value → String → Option Value → Option Value
metadata_at clean reached k own =
    if not clean && str_eq k "nonce64_start"
    then (elim reached [ none ↦ own | some v ↦ some v ])
    else own

carry_value-metadata :
    (start : Option Value) (job : Job) (e : Fields)
    → job.matmul ≡ dict e
    → (m : Fields) × (carry_value (or_null start) job ≡ ok (record job { matmul = dict m }))
      × ((k : String) → find k m ≡ metadata_at false (present start) k (find k e))
carry_value-metadata none job e j =
    (e, ap (λ m. ok (record job { matmul = m })) j, λ k. ground arith)
carry_value-metadata (some null) job e j =
    (e, ap (λ m. ok (record job { matmul = m })) j, λ k. ground arith)
carry_value-metadata (some v) job e j =
    (put "nonce64_start" v e, rw j refl, λ k. ground (arith, find-put "nonce64_start" k v e))

carry-metadata :
    (clean : Bool) (current : Option Job) (d : Option Fields) (job : Job) (e : Fields)
    → HasMetadata current d
    → job.matmul ≡ dict e
    → (m : Fields) × (carry clean current job ≡ ok (record job { matmul = dict m }))
      × ((k : String) → find k m ≡ metadata_at clean (position d) k (find k e))
carry-metadata true current d job e h j = (e, ap (λ m. ok (record job { matmul = m })) j, λ k. refl)
carry-metadata false none none job e h j =
    (e, ap (λ m. ok (record job { matmul = m })) j, λ k. ground arith)
carry-metadata false (some cur) (some d) job e h j =
    rw h (carry_value-metadata (find "nonce64_start" d) job e j)
carry-metadata false none (some d) job e h j = absurd h
carry-metadata false (some cur) none job e h j = absurd h

-- Where the metadata of the current job and of the new one are dicts, a notify that parses makes its
-- job the current one, with its own metadata but for the position of the search: where the notify is
-- not clean, the position that the current job has reached stays.
pub on_notify-metadata :
    (c : Client) (params : Value) (delivers clean : Bool) {job : Job} {e : Fields}
    (d : Option Fields)
    → from_notify params ≡ ok job
    → clean_jobs params ≡ ok clean
    → check_slice job.previousblockhash ≡ ok tt
    → job.matmul ≡ dict e
    → HasMetadata c.current_job d
    → (m : Fields) × ((on_notify c params delivers).1.current_job
        ≡ some (record job { matmul = dict m }))
      × ((k : String) → find k m ≡ metadata_at clean (position d) k (find k e))
unfolding on_notify accepted_job
on_notify-metadata c params delivers clean {job} {e} d parsed is_clean sliced meta h =
    let (m, carried, at) = carry-metadata clean c.current_job d job e h meta in
    (m, rw parsed (rw is_clean (rw sliced (rw carried refl))), at)

preempt-alive :
    (w : Wrapper) (delivers : Bool)
    → preempt w delivers ≡ true
    → (w.preempt_capable ≡ true) × ((p : Process) × (w.daemon ≡ some p) × (p.alive ≡ true))
unfolding preempt
preempt-alive w delivers h = elim (Option-cases w.daemon) [
  | inl e ↦ ground (arith, e)
  | inr (p, e) ↦ (ground (arith, e), (p, e, ground (arith, e)))
]

preempts-parent :
    (c : Client) (job : Job) (delivers : Bool)
    → preempts c job delivers ≡ true
    → (is_none c.inflight_parent ≡ false)
      × (value_eq c.inflight_parent job.previousblockhash ≡ false)
      × (preempt c.solver delivers ≡ true)
preempts-parent c job delivers h = ground arith

-- The mark of the slice in flight, the daemon and the flag of its handshake, where a preemption is sent.
abbrev pub Preempted : Client → Job → Client → Type 0
Preempted c job c' =
    (c'.current_job ≡ some job)
    × (is_none c.inflight_parent ≡ false)
    × (value_eq c.inflight_parent job.previousblockhash ≡ false)
    × (c.solver.preempt_capable ≡ true)
    × ((p : Process) × (c.solver.daemon ≡ some p) × (p.alive ≡ true))

install-preempts :
    (c : Client) (delivers : Bool) (r : Result Job)
    → (install c delivers r).0 ≡ ok true
    → (job : Job) × Preempted c job (install c delivers r).1
install-preempts c delivers (err e) h = cc
install-preempts c delivers (ok job) h =
    let (running, other, sent) = preempts-parent c job delivers (ground arith) in
    let (capable, process) = preempt-alive c.solver delivers sent in
    (job, (refl, running, other, capable, process))

receive-preempts :
    (c : Client) (params : Value) (delivers : Bool) (r : Result Job)
    → (receive c params delivers r).0 ≡ ok true
    → (job : Job) × Preempted c job (receive c params delivers r).1
receive-preempts c params delivers (err e) h = ground arith
receive-preempts c params delivers (ok job) h =
    install-preempts c delivers (accepted_job c.current_job params job) h

-- A notify delivers SIGUSR1 only where the client's mark of the slice in flight names another parent block
-- than that of the job which the notify made current, the wrapper's flag for it is set, and there is a live
-- daemon.
pub on_notify-Preempted :
    (c : Client) (params : Value) (delivers : Bool)
    → (on_notify c params delivers).0 ≡ ok true
    → (job : Job) × Preempted c job (on_notify c params delivers).1
unfolding on_notify
on_notify-Preempted c params delivers h = receive-preempts c params delivers (from_notify params) h

-- A notify whose version is null is not skipped as malformed: the call raises a TypeError.
on_notify-null_version :
    (c : Client) (params : Value) (delivers : Bool) {job_id : Value}
    → index params 0 ≡ ok job_id
    → index params 1 ≡ ok null
    → on_notify c params delivers ≡ (err type_error, c)
unfolding on_notify from_notify to_int
on_notify-null_version c params delivers h0 h1 = rw h0 (rw h1 refl)
