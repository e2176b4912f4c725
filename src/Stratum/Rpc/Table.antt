-- ===== src/Stratum/Rpc/Table.antt =====
-- What the requests promise, without the lists that keep them: a table of what has become of each id.
use minebtx.Prelude.{
  ℕ, suc, Bool, true, false, Option, none, some, List, [], ◌∷◌, ◌==◌, ltb, if◌then◌else◌,
}
use minebtx.Py.Result.{Result, ok, err}
use minebtx.Py.Value.{Value, Fields}
use minebtx.Stratum.Rpc.{Rpc, waits, begin_call, time_out, id_key, outcome, on_response}
use minebtx.Stratum.Rpc.Invariant.{reply}
pub mod Statuses
pub mod Refinement

-- An id is not given out yet, its request waits, it has its reply, or there is no reply any more.
pub data Status : Type 0 where
  unsent waiting gone : Status
  replied : Result Value → Status

pub record Table : Type 0 where
  pub next : ℕ
  pub status : ℕ → Status

-- The table of a new client: ids begin at 1.
abbrev pub fresh_table : Table
fresh_table = record { next = 1; status = λ k. if ltb k 1 then gone else unsent }

-- A request that waits gets another status, and any other keeps its own.
abbrev pub end_wait : Status → Status → Status
end_wait new waiting = new
end_wait new s = s

-- What happens to the requests: one is sent or cannot be sent, one is given up, a response with an id
-- comes, or the session ends.
pub data Event : Type 0 where
  calls : Bool → Event
  gives_up : ℕ → Event
  answers : Fields → Value → Event
  closes : Event

abbrev pub at : ℕ → Status → (ℕ → Status) → ℕ → Status
at j new status k = if k == j then end_wait new (status k) else status k

abbrev pub answer : Result (Option ℕ) → Fields → (ℕ → Status) → ℕ → Status
answer (ok (some j)) msg status = at j (replied (outcome msg)) status
answer key msg status = status

-- The step of the table.
abbrev pub specified : Event → Table → Table
specified (calls connected) t = record {
  next = suc t.next;
  status = λ k. if k == t.next then waiting else t.status k;
}
specified (gives_up j) t = record t { status = at j gone t.status }
specified (answers msg id) t = record t { status = answer (id_key id) msg t.status }
specified closes t = record t { status = λ k. end_wait gone (t.status k) }

-- The step of the requests.
abbrev pub performed : Event → Rpc → Rpc
performed (calls connected) r = (begin_call connected r).1
performed (gives_up j) r = (time_out j r).1
performed (answers msg id) r = (on_response msg id r).1
performed closes r = record r { pending = [] }

abbrev pub all {ℓ} : {S : Type ℓ} → (Event → S → S) → List Event → S → S
all step [] s = s
all step (e ∷ events) s = all step events (step e s)

abbrev pub status_by : Bool → Option (Result Value) → Bool → Status
status_by true o issued = waiting
status_by false (some v) issued = replied v
status_by false none true = gone
status_by false none false = unsent

-- The status that the lists say an id has.
abbrev pub status_of : Rpc → ℕ → Status
status_of r k = status_by (waits k r.pending) (reply k r.settled) (ltb k r.next_id)
