-- ===== src/Stratum/Rpc/Invariant.antt =====
-- Each request is settled at most once, with the reply that names it.
use minebtx.Prelude.{
  ℕ, suc, ◌<◌, ◌≡◌, refl, Bool, true, false, ◌&&◌, Option, none, some, List, [], ◌∷◌, ◌==◌,
  Bool-cases, inl, inr, if◌then◌else◌, arith,
}
use minebtx.Py.Result.{Result, ok, err}
use minebtx.Py.Value.{Value, Fields}
use minebtx.Stratum.Rpc.{
  Rpc, fresh, waits, remove, is_settled, settle, begin_call, time_out, id_key, outcome, respond,
  on_response,
}

abbrev pub Distinct : List ℕ → Type 0
Distinct [] = Unit
Distinct (j ∷ js) = (waits j js ≡ false) × Distinct js

-- The reply that settled a request.
abbrev pub reply : ℕ → List (ℕ × Result Value) → Option (Result Value)
reply k [] = none
reply k ((j, r) ∷ rs) = if k == j then some r else reply k rs

-- Ids that wait were issued and are not settled, and none waits twice.
pub record IsValid (r : Rpc) : Type 0 where
  pub distinct : Distinct r.pending
  pub waiting :
      (k : ℕ) → waits k r.pending ≡ true → (k < r.next_id) × (is_settled k r.settled ≡ false)
  pub issued : (k : ℕ) → is_settled k r.settled ≡ true → k < r.next_id

waits-remove_self : (k : ℕ) (js : List ℕ) → Distinct js → waits k (remove k js) ≡ false
waits-remove_self k [] d = refl
waits-remove_self k (j ∷ js) d = ground (arith, waits-remove_self k js d.1)

waits-remove : (k j : ℕ) (js : List ℕ) → waits j (remove k js) ≡ true → waits j js ≡ true
waits-remove k j [] h = h
waits-remove k j (i ∷ js) h = ground (arith, waits-remove k j js)

remove-Distinct : (k : ℕ) (js : List ℕ) → Distinct js → Distinct (remove k js)
remove-Distinct k [] d = tt
remove-Distinct k (j ∷ js) d = ground (arith, remove-Distinct k js d.1, waits-remove k j js)

pub fresh-IsValid : IsValid fresh
fresh-IsValid = record { distinct = tt; waiting = λ k h. cc; issued = λ k h. cc }

issue-IsValid :
    (r : Rpc)
    → IsValid r
    → IsValid (record r { next_id = suc r.next_id; pending = r.next_id ∷ r.pending })
issue-IsValid r v = record {
  distinct = (ground (arith, v.waiting r.next_id), v.distinct);
  waiting = λ k h. ground (arith, v.waiting k, v.issued k);
  issued = λ k h. ground (arith, v.issued k h);
}

-- Sending a request keeps the invariant, also where the send raises.
pub begin_call-IsValid : (c : Bool) (r : Rpc) → IsValid r → IsValid (begin_call c r).1
unfolding begin_call
begin_call-IsValid true r v = issue-IsValid r v
begin_call-IsValid false r v = issue-IsValid r v

-- A request that times out keeps the invariant.
pub time_out-IsValid : (k : ℕ) (r : Rpc) → IsValid r → IsValid (time_out k r).1
unfolding time_out
time_out-IsValid k r v = record {
  distinct = remove-Distinct k r.pending v.distinct;
  waiting = λ j h. v.waiting j (waits-remove k j r.pending h);
  issued = v.issued;
}

-- The end of a session forgets the requests that wait.
pub closed-IsValid : (r : Rpc) → IsValid r → IsValid (record r { pending = [] })
closed-IsValid r v = record { distinct = tt; waiting = λ k h. cc; issued = v.issued }

settle-IsValid : (k : ℕ) (o : Result Value) (r : Rpc) → IsValid r → IsValid (settle k o r)
settle-IsValid k o r v = elim (Bool-cases (waits k r.pending)) [
  | inl waiting ↦
      let (known, unsettled) = v.waiting k waiting in
      rw waiting (
        rw unsettled (record {
          distinct = remove-Distinct k r.pending v.distinct;
          waiting = λ j h. ground (
            arith,
            v.waiting j (waits-remove k j r.pending h),
            waits-remove_self k r.pending v.distinct,
          );
          issued = λ j h. ground (arith, v.issued j);
        }))
  | inr absent ↦ rw absent v
]

respond-IsValid :
    (key : Result (Option ℕ)) (msg : Fields) (r : Rpc) → IsValid r → IsValid (respond key msg r).1
respond-IsValid (err e) msg r v = v
respond-IsValid (ok none) msg r v = v
respond-IsValid (ok (some k)) msg r v = settle-IsValid k (outcome msg) r v

pub settle-reply :
    (k : ℕ) (o : Result Value) (r : Rpc)
    → IsValid r
    → (j : ℕ)
    → reply j (settle k o r).settled
      ≡ (if (j == k) && waits k r.pending then some o else reply j r.settled)
settle-reply k o r v j = elim (Bool-cases (waits k r.pending)) [
  | inl waiting ↦ rw waiting (rw (v.waiting k waiting).1 (ground arith))
  | inr absent ↦ rw absent (ground arith)
]

-- A response keeps the invariant, whatever id it carries.
pub on_response-IsValid :
    (msg : Fields) (id : Value) (r : Rpc) → IsValid r → IsValid (on_response msg id r).1
unfolding on_response
on_response-IsValid msg id r v = respond-IsValid (id_key id) msg r v

-- In a valid state, a response whose id is a number settles the request that it names, with its own
-- outcome, if that request waits; it settles no other, and changes no reply that is there.
pub on_response-reply :
    (msg : Fields) (id : Value) (k : ℕ) (r : Rpc)
    → IsValid r
    → id_key id ≡ ok (some k)
    → (j : ℕ)
    → reply j (on_response msg id r).1.settled
      ≡ (if (j == k) && waits k r.pending then some (outcome msg) else reply j r.settled)
unfolding on_response
on_response-reply msg id k r v e j = rw e (settle-reply k (outcome msg) r v j)
