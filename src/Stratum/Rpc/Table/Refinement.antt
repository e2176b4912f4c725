-- ===== src/Stratum/Rpc/Table/Refinement.antt =====
-- The requests' lists refine the table.
use minebtx.Prelude.{
  ℕ, suc, ◌≡◌, refl, ap, ◌∙◌, Bool, true, false, ◌&&◌, Option, none, some, List, [], ◌∷◌, ◌==◌, ltb,
  Bool-cases, inl, inr, if◌then◌else◌, arith,
}
use minebtx.Py.Result.{Result, ok, err}
use minebtx.Py.Value.{Value, Fields}
use minebtx.Stratum.Rpc.{
  Rpc, fresh, waits, settle, begin_call, time_out, id_key, outcome, respond, on_response,
}
use minebtx.Stratum.Rpc.Invariant.{
  Distinct, reply, IsValid, settle-reply, fresh-IsValid, begin_call-IsValid, time_out-IsValid,
  on_response-IsValid, closed-IsValid,
}
use minebtx.Stratum.Rpc.Table.{
  waiting, gone, replied, Table, fresh_table, end_wait, Event, calls, gives_up, answers, closes, at,
  answer, specified, performed, all, status_by, status_of,
}
use minebtx.Stratum.Rpc.Table.Statuses.{waits-remove-if, valid-Waits, status-ended, status-answered}

-- Every id has the status in the lists that it has in the table.
record Refines (r : Rpc) (t : Table) : Type 0 where
  valid : IsValid r
  next : r.next_id ≡ t.next
  status : (k : ℕ) → status_of r k ≡ t.status k

-- The statuses after the wait of one id has ended.
ended_at :
    (r : Rpc) (j k : ℕ) (b : Bool)
    → IsValid r
    → status_by (if b then false else waits k r.pending) (reply k r.settled) (ltb k r.next_id)
      ≡ (if b then end_wait gone (status_of r k) else status_of r k)
ended_at r j k true v = status-ended (waits k r.pending) _ _ (valid-Waits r k v)
ended_at r j k false v = refl

time_out-Refines :
    (j : ℕ) (r : Rpc) (t : Table)
    → Refines r t
    → Refines (performed (gives_up j) r) (specified (gives_up j) t)
unfolding time_out
time_out-Refines j r t f = record {
  valid = time_out-IsValid j r f.valid;
  next = f.next;
  status = λ k.
      ap (λ w. status_by w (reply k r.settled) (ltb k r.next_id))
        (waits-remove-if j k r.pending f.valid.distinct)
      ∙ ended_at r j k (k == j) f.valid
      ∙ ap (λ s. if k == j then end_wait gone s else s) (f.status k);
}

issued_at :
    (k n : ℕ) (w : Bool) (o : Option (Result Value))
    → status_by (if k == n then true else w) o (ltb k (suc n))
      ≡ (if k == n then waiting else status_by w o (ltb k n))
issued_at k n w o = elim (Bool-cases (k == n)) [
  | inl same ↦ rw same refl
  | inr other ↦
      let before : ltb k (suc n) ≡ ltb k n = ground (arith, other) in
      rw other (ap (status_by w o) before)
]

issue-Refines :
    (b : Bool) (r : Rpc) (t : Table)
    → Refines r t
    → Refines (performed (calls b) r) (specified (calls b) t)
unfolding begin_call
issue-Refines b r t f = by_connection b
  where
    issued_status :
        (k : ℕ)
        → status_by
            (if k == r.next_id then true else waits k r.pending)
            (reply k r.settled)
            (ltb k (suc r.next_id))
          ≡ (if k == t.next then waiting else t.status k)
    issued_status k =
        issued_at k r.next_id (waits k r.pending) (reply k r.settled)
        ∙ ap (λ n. if k == n then waiting else status_of r k) f.next
        ∙ ap (λ s. if k == t.next then waiting else s) (f.status k)

    by_connection : (b : Bool) → Refines (performed (calls b) r) (specified (calls b) t)
    by_connection true = record {
      valid = begin_call-IsValid true r f.valid;
      next = ap suc f.next;
      status = issued_status;
    }
    by_connection false = record {
      valid = begin_call-IsValid false r f.valid;
      next = ap suc f.next;
      status = issued_status;
    }

settle-next : (j : ℕ) (v : Result Value) (r : Rpc) → (settle j v r).next_id ≡ r.next_id
settle-next j v r = ground arith

settle-waits :
    (j k : ℕ) (v : Result Value) (r : Rpc)
    → Distinct r.pending
    → waits k (settle j v r).pending ≡ (if k == j then false else waits k r.pending)
settle-waits j k v r d = elim (Bool-cases (waits j r.pending)) [
  | inl there ↦ rw there (waits-remove-if j k r.pending d)
  | inr absent ↦ rw absent (grind (arith, absent))
]

answered_at :
    (r : Rpc) (j k : ℕ) (v : Result Value)
    → status_by
        (if k == j then false else waits k r.pending)
        (if (k == j) && waits j r.pending then some v else reply k r.settled)
        (ltb k r.next_id)
      ≡ at j (replied v) (status_of r) k
answered_at r j k v = elim (Bool-cases (k == j)) [
  | inl same ↦
      let named : j ≡ k = ground (arith, same) in
      rw same (
        ap
          (λ i.
            status_by false (if waits i r.pending then some v else reply k r.settled)
              (ltb k r.next_id))
          named
        ∙ status-answered (waits k r.pending) (reply k r.settled) (ltb k r.next_id) v)
  | inr other ↦ rw other refl
]

settle-status :
    (j k : ℕ) (v : Result Value) (r : Rpc)
    → IsValid r
    → status_of (settle j v r) k ≡ at j (replied v) (status_of r) k
settle-status j k v r h =
    ap (λ w. status_by w (reply k (settle j v r).settled) (ltb k (settle j v r).next_id))
      (settle-waits j k v r h.distinct)
    ∙ ap
        (λ o.
          status_by (if k == j then false else waits k r.pending) o (ltb k (settle j v r).next_id))
        (settle-reply j v r h k)
    ∙ ap
        (λ n.
          status_by (if k == j then false else waits k r.pending)
            (if (k == j) && waits j r.pending then some v else reply k r.settled) (ltb k n))
        (settle-next j v r)
    ∙ answered_at r j k v

answer-Refines :
    (msg : Fields) (id : Value) (r : Rpc) (t : Table)
    → Refines r t
    → Refines (performed (answers msg id) r) (specified (answers msg id) t)
unfolding on_response
answer-Refines msg id r t f = record {
  valid = on_response-IsValid msg id r f.valid;
  next = by_key_next (id_key id);
  status = λ k. by_key_status k (id_key id);
}
  where
    by_key_next : (o : Result (Option ℕ)) → (respond o msg r).1.next_id ≡ t.next
    by_key_next (err x) = f.next
    by_key_next (ok none) = f.next
    by_key_next (ok (some j)) = settle-next j (outcome msg) r ∙ f.next

    by_key_status :
        (k : ℕ) (o : Result (Option ℕ)) → status_of (respond o msg r).1 k ≡ answer o msg t.status k
    by_key_status k (err x) = f.status k
    by_key_status k (ok none) = f.status k
    by_key_status k (ok (some j)) =
        settle-status j k (outcome msg) r f.valid
        ∙ ap (λ s. if k == j then end_wait (replied (outcome msg)) s else s) (f.status k)

close-Refines :
    (r : Rpc) (t : Table) → Refines r t → Refines (performed closes r) (specified closes t)
close-Refines r t f = record {
  valid = closed-IsValid r f.valid;
  next = f.next;
  status = λ k.
      status-ended (waits k r.pending) _ _ (valid-Waits r k f.valid)
      ∙ ap (end_wait gone) (f.status k);
}

step-Refines :
    (e : Event) (r : Rpc) (t : Table) → Refines r t → Refines (performed e r) (specified e t)
step-Refines (calls b) r t f = issue-Refines b r t f
step-Refines (gives_up j) r t f = time_out-Refines j r t f
step-Refines (answers msg id) r t f = answer-Refines msg id r t f
step-Refines closes r t f = close-Refines r t f

all-Refines :
    (events : List Event) (r : Rpc) (t : Table)
    → Refines r t
    → Refines (all performed events r) (all specified events t)
all-Refines [] r t f = f
all-Refines (e ∷ events) r t f = all-Refines events _ _ (step-Refines e r t f)

fresh-Refines : Refines fresh fresh_table
fresh-Refines = record { valid = fresh-IsValid; next = refl; status = λ k. ground arith }

-- Over any run of requests, time-outs, responses and ends of sessions, every id has the status in the
-- client's lists that the table's steps give it.
pub run-Refines :
    (events : List Event) (k : ℕ)
    → status_of (all performed events fresh) k ≡ (all specified events fresh_table).status k
run-Refines events k = (all-Refines events fresh fresh_table fresh-Refines).status k
