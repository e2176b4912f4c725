-- ===== src/Stratum/Rpc/Table/Statuses.antt =====
-- How the status that the lists give an id changes when its wait ends.
use minebtx.Prelude.{
  ℕ, ◌≡◌, refl, ap, ◌∙◌, Bool, true, false, Option, none, some, List, [], ◌∷◌, ◌==◌, ltb,
  if◌then◌else◌, arith,
}
use minebtx.Py.Result.{Result}
use minebtx.Py.Value.{Value}
use minebtx.Stratum.Rpc.{Rpc, waits, remove, is_settled}
use minebtx.Stratum.Rpc.Invariant.{Distinct, reply, IsValid}
use minebtx.Stratum.Rpc.Table.{gone, replied, end_wait, status_by}

pub waits-remove-if :
    (j k : ℕ) (js : List ℕ)
    → Distinct js
    → waits k (remove j js) ≡ (if k == j then false else waits k js)
waits-remove-if j k [] d = ground arith
waits-remove-if j k (i ∷ js) d = ground (arith, waits-remove-if j k js d.1, d.0)

reply-none : (k : ℕ) (rs : List (ℕ × Result Value)) → is_settled k rs ≡ false → reply k rs ≡ none
reply-none k [] h = refl
reply-none k ((j, v) ∷ rs) h = ground (arith, reply-none k rs, h)

-- A request that waits has no reply, and its id was given out.
abbrev pub Waits : Bool → Option (Result Value) → Bool → Type 0
Waits w o issued = w ≡ true → (o ≡ none) × (issued ≡ true)

pub valid-Waits :
    (r : Rpc) (k : ℕ) → IsValid r → Waits (waits k r.pending) (reply k r.settled) (ltb k r.next_id)
valid-Waits r k v h =
    let (known, unsettled) = v.waiting k h in
    (reply-none k r.settled unsettled, ground (arith, known))

pub status-ended :
    (w : Bool) (o : Option (Result Value)) (issued : Bool)
    → Waits w o issued
    → status_by false o issued ≡ end_wait gone (status_by w o issued)
status-ended true o issued h =
    let (unanswered, known) = h refl in
    ap (λ p. status_by false p issued) unanswered ∙ ap (status_by false none) known
status-ended false (some v) issued h = refl
status-ended false none true h = refl
status-ended false none false h = refl

pub status-answered :
    (w : Bool) (o : Option (Result Value)) (issued : Bool) (v : Result Value)
    → status_by false (if w then some v else o) issued ≡ end_wait (replied v) (status_by w o issued)
status-answered true o issued v = refl
status-answered false (some u) issued v = refl
status-answered false none true v = refl
status-answered false none false v = refl
