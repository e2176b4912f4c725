-- ===== src/Stratum/Search/Progress.antt =====
-- The search moves on: no slice starts again where an earlier one on the same parent block has been.
use minebtx.Prelude.{
  ℕ, ◌≡◌, refl, true, false, Option, none, some, arith, if◌then◌else◌, Bool-cases, inl, inr,
}
use minebtx.Prelude.Int.{ℤ, pos, ◌+ℤ◌, ltb_ℤ, ◌<ℤ◌, ◌≤ℤ◌, +ℤ_parts}
use minebtx.Py.Result.{ok}
use minebtx.Py.Value.{Fields, bool, int, dict, find_or, put, truthy}
use minebtx.Config.{MinerConfig}
use minebtx.Solver.Challenge.{SolveChallenge, SolveResult}
use minebtx.Solver.Record.{result_from_record}
use minebtx.Solver.Record.Laws.{result_from_record-found}
use minebtx.Stratum.Job.{Job}
use minebtx.Stratum.Client.{Client}
use minebtx.Stratum.Search.{
  Batch, Outcome, settle_batch, returned, batch, next_after, finish_slice, advance, same_parent,
}

ltb_ℤ→lt : (a b : ℤ) → ltb_ℤ a b ≡ true → a <ℤ b
ltb_ℤ→lt a b h = ground arith

ltb_ℤ→ge : (a b : ℤ) → ltb_ℤ a b ≡ false → b ≤ℤ a
ltb_ℤ→ge a b h = ground arith

module _ (cfg : MinerConfig) (start : ℤ) (positive : pos 0 <ℤ cfg.nonces_per_slice) where
  pub whole_slice : start <ℤ start +ℤ cfg.nonces_per_slice
  whole_slice = omega (arith, +ℤ_parts start cfg.nonces_per_slice)

  resumed :
      (stop : ℤ)
      → (start <ℤ next_after cfg start (some stop)) × (stop <ℤ next_after cfg start (some stop))
  unfolding next_after
  resumed stop = elim (Bool-cases (ltb_ℤ start stop)) [
    | inl later ↦ rw later (
        let after = ltb_ℤ→lt start stop later in
        (omega (arith, +ℤ_parts stop (pos 1)), omega (arith, +ℤ_parts stop (pos 1))))
    | inr earlier ↦ rw earlier (
        let before = ltb_ℤ→ge start stop earlier in
        (omega (arith, whole_slice), omega (arith, whole_slice)))
  ]

  pub next_after-lt : (stop : Option ℤ) → start <ℤ next_after cfg start stop
  unfolding next_after
  next_after-lt none = whole_slice
  next_after-lt (some stop) = (resumed stop).0

-- Where the search goes on, of a slice that was not cancelled.
abbrev pub next_of : Outcome → Option ℤ
next_of (none, c) = none
next_of (some (shares, next), c) = some next

-- A start that lies behind a position, if there is one.
abbrev pub Behind : Option ℤ → ℤ → Type 0
Behind none next = Unit
Behind (some stop) next = stop <ℤ next

-- The position that counts: none, where the submission of the shares raised.
abbrev pub counted_position : SolveResult → Batch → Option ℤ
counted_position r b = if b.1 then none else r.nonce_end

next_after-Behind :
    (cfg : MinerConfig) (start : ℤ) (stop : Option ℤ)
    → pos 0 <ℤ cfg.nonces_per_slice
    → Behind stop (next_after cfg start stop)
next_after-Behind cfg start none h = tt
next_after-Behind cfg start (some stop) h = (resumed cfg start h stop).1

settle_batch-next :
    (c : Client) (start : ℤ) (r : SolveResult) (b : Batch)
    → pos 0 <ℤ c.cfg.nonces_per_slice
    → (next : ℤ) × (next_of (settle_batch c start r b) ≡ some next)
      × (start <ℤ next)
      × Behind (counted_position r b) next
settle_batch-next c start r (shares, true) h =
    (start +ℤ c.cfg.nonces_per_slice, refl, whole_slice c.cfg start h, tt)
settle_batch-next c start r (shares, false) h = (
  next_after c.cfg start r.nonce_end,
  refl,
  next_after-lt c.cfg start h r.nonce_end,
  next_after-Behind c.cfg start r.nonce_end h,
)

-- Where a slice has a positive size, one that returned, found or not, leads to a start behind its own,
-- and, unless the submission of its shares raised, behind the last position that it reports.
pub finish_slice-next :
    (c : Client) (job : Job) (start : ℤ) (r : SolveResult) (now : ℕ)
    → pos 0 <ℤ c.cfg.nonces_per_slice
    → (next : ℤ) × (next_of (finish_slice c job start (ok r) now) ≡ some next)
      × (start <ℤ next)
      × Behind (counted_position r (batch c job r)) next
unfolding finish_slice
finish_slice-next c job start r now h = settle_batch-next (returned c now) start r (batch c job r) h

-- After a found slice, of a record that was read without an exception, the next start is a whole
-- slice's size behind its own, wherever the solver stopped.
pub finish_slice-found :
    (c : Client) (job : Job) (start : ℤ) (rec : Fields) (challenge : SolveChallenge) (now : ℕ)
    {r : SolveResult}
    → result_from_record (dict rec) challenge ≡ ok r
    → truthy (find_or "found" (bool false) rec) ≡ true
    → next_of (finish_slice c job start (ok r) now) ≡ some (start +ℤ c.cfg.nonces_per_slice)
unfolding finish_slice next_after
finish_slice-found c job start rec challenge now {r} e found =
    let (_, none_end, _, _) = result_from_record-found rec challenge r e found in
    settle_found (batch c job r) none_end
  where
    settle_found :
        (b : Batch)
        → r.nonce_end ≡ none
        → next_of (settle_batch (returned c now) start r b) ≡ some (start +ℤ c.cfg.nonces_per_slice)
    settle_found (shares, true) x = refl
    settle_found (shares, false) x = rw x refl

-- Where the current job's metadata is a dict and it has the slice's parent block, its position is the
-- next start, and nothing else of it changes; otherwise the current job stays.
pub advance-metadata :
    (c : Client) (job cur : Job) (next : ℤ) {d : Fields}
    → c.current_job ≡ some cur
    → cur.matmul ≡ dict d
    → (advance c job next).1.current_job
      ≡ some (
          if same_parent cur job
          then record cur { matmul = dict (put "nonce64_start" (int next) d) }
          else cur)
unfolding advance
advance-metadata c job cur next e m = elim (Bool-cases (same_parent cur job)) [
  | inl same ↦ rw (e, advance) (rw same (rw m refl))
  | inr other ↦ rw (e, advance) (rw other e)
]
