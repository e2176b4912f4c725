-- ===== src/Stratum/Search/Stale.antt =====
-- Which shares a slice submits.
use minebtx.Prelude.{
  ℕ, ◌⊎◌, String, ◌≡◌, refl, ◌∙◌, ap, true, false, none, some, List, [], ◌∷◌, map, inl, inr, arith,
}
use minebtx.Prelude.Int.{ℤ}
use minebtx.Py.Result.{ok}
use minebtx.Py.Value.{Value, Items, Fields, nil, cons, null, dict, list, find_or, truthy}
use minebtx.Py.Number.{to_int}
use minebtx.Config.{MinerConfig, fully_qualified_worker}
use minebtx.Solver.Challenge.{SolveResult}
use minebtx.Stratum.Job.{Job}
use minebtx.Stratum.Client.{Client}
use minebtx.Stratum.Search.{
  Batch, Outcome, listed_shares, shares_of, is_stale, batch, settle_batch, finish_slice, returned,
}

-- The shares that a finished slice submits.
abbrev pub submitted : Outcome → List SolveResult
submitted (none, c) = []
submitted (some (shares, next), c) = shares

submitted-settle_batch :
    (c : Client) (start : ℤ) (r : SolveResult) (b : Batch)
    → submitted (settle_batch c start r b) ≡ b.0
submitted-settle_batch c start r (shares, true) = refl
submitted-settle_batch c start r (shares, false) = refl

batch-none :
    (c : Client) (job : Job) (r : SolveResult)
    → ((r.found ≡ false) ⊎ (is_stale c.current_job job ≡ true))
    → batch c job r ≡ ([], false)
batch-none c job r (inl lost) = rw lost refl
batch-none c job r (inr stale) = rw stale (ground arith)

batch-some :
    (c : Client) (job : Job) (r : SolveResult)
    → r.found ≡ true
    → is_stale c.current_job job ≡ false
    → batch c job r ≡ shares_of c.cfg r
batch-some c job r found fresh = simp (found, fresh)

-- A slice that found nothing, or whose parent block is no longer the current job's, submits nothing.
pub finish_slice-stale :
    (c : Client) (job : Job) (start : ℤ) (r : SolveResult) (now : ℕ)
    → ((r.found ≡ false) ⊎ (is_stale c.current_job job ≡ true))
    → submitted (finish_slice c job start (ok r) now) ≡ []
unfolding finish_slice
finish_slice-stale c job start r now h =
    submitted-settle_batch (returned c now) start r (batch c job r)
    ∙ ap (λ b. b.0) (batch-none c job r h)

-- The entries of the solver's list have these nonces.
abbrev pub Lists : Items → List ℤ → Type 0
Lists nil [] = Unit
Lists (cons v vs) (n ∷ ns) =
    (s : Fields) × (v ≡ dict s) × (to_int (find_or "nonce64" null s) ≡ ok n) × Lists vs ns
Lists _ _ = ⊥

listed_shares-all :
    (r : SolveResult) (vs : Items) (ns : List ℤ)
    → Lists vs ns
    → (map (λ s. s.nonce) (listed_shares r vs).0 ≡ map some ns) × ((listed_shares r vs).1 ≡ false)
unfolding listed_shares
listed_shares-all r nil [] h = (refl, refl)
listed_shares-all r (cons v vs) (n ∷ ns) (s, e, read, rest) =
    let (nonces, fine) = listed_shares-all r vs ns rest in
    rw (e, listed_shares) (rw read (ap (λ l. some n ∷ l) nonces, fine))
listed_shares-all r nil (n ∷ ns) h = absurd h
listed_shares-all r (cons v vs) [] h = absurd h

shares_of-listed :
    (cfg : MinerConfig) (r : SolveResult) {rec : Fields} (v : Value) (vs : Items)
    → r.raw_output ≡ some rec
    → find_or "shares" null rec ≡ list (cons v vs)
    → shares_of cfg r ≡ listed_shares r (cons v vs)
unfolding shares_of
shares_of-listed cfg r v vs raw entry = rw (raw, shares_of) (rw entry refl)

shares_of-unlisted :
    (cfg : MinerConfig) (r : SolveResult) {rec : Fields} {worker : String}
    → r.raw_output ≡ some rec
    → truthy (find_or "shares" null rec) ≡ false
    → fully_qualified_worker cfg ≡ ok worker
    → shares_of cfg r ≡ (r ∷ [], false)
unfolding shares_of
shares_of-unlisted cfg r raw entry payee = rw (raw, shares_of) (rw entry (rw payee refl))

-- Where the tip has not moved and every entry of the solver's list has a readable nonce, a found slice
-- submits every share that the solver lists, in order.
pub finish_slice-listed :
    (c : Client) (job : Job) (start : ℤ) (r : SolveResult) (now : ℕ) {rec : Fields} (v : Value)
    (vs : Items) (ns : List ℤ)
    → r.found ≡ true
    → is_stale c.current_job job ≡ false
    → r.raw_output ≡ some rec
    → find_or "shares" null rec ≡ list (cons v vs)
    → Lists (cons v vs) ns
    → map (λ s. s.nonce) (submitted (finish_slice c job start (ok r) now)) ≡ map some ns
unfolding finish_slice
finish_slice-listed c job start r now v vs ns found fresh raw entry lists =
    ap (map (λ s. s.nonce)) (
      submitted-settle_batch (returned c now) start r (batch c job r)
      ∙ ap (λ b. b.0) (batch-some c job r found fresh ∙ shares_of-listed c.cfg r v vs raw entry))
    ∙ (listed_shares-all r (cons v vs) ns lists).0

-- Where the tip has not moved, the solver lists no shares, and there is a payout address, a found
-- slice submits its one result.
finish_slice-unlisted :
    (c : Client) (job : Job) (start : ℤ) (r : SolveResult) (now : ℕ) {rec : Fields}
    {worker : String}
    → r.found ≡ true
    → is_stale c.current_job job ≡ false
    → r.raw_output ≡ some rec
    → truthy (find_or "shares" null rec) ≡ false
    → fully_qualified_worker c.cfg ≡ ok worker
    → submitted (finish_slice c job start (ok r) now) ≡ r ∷ []
unfolding finish_slice
finish_slice-unlisted c job start r now found fresh raw entry payee =
    submitted-settle_batch (returned c now) start r (batch c job r)
    ∙ ap (λ b. b.0) (batch-some c job r found fresh ∙ shares_of-unlisted c.cfg r raw entry payee)
