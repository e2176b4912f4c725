-- ===== src/Stratum/Search/Sweep.antt =====
-- The search over many slices, while the job stays the same.
use minebtx.Prelude.{ℕ, ◌≡◌, refl, ◌∙◌, ap, sym, subst, true, false, none, some, List, [], ◌∷◌}
use minebtx.Prelude.Int.{ℤ, pos, ◌<ℤ◌}
use minebtx.Py.Result.{Error, Result, ok, err, ◌>>◌}
use minebtx.Py.Value.{Value, Fields, int, dict, put, set_item}
use minebtx.Py.Dict.{find-put_self}
use minebtx.Py.Number.{to_int}
use minebtx.Config.{MinerConfig}
use minebtx.Solver.Challenge.{SolveChallenge, SolveResult}
use minebtx.Stratum.Job.{Job, to_solve_challenge}
use minebtx.Stratum.Client.{Client}
use minebtx.Stratum.Search.{
  Batch, Outcome, nonce_start_of, start_slice, begin_slice, batch, returned, settle_batch,
  finish_slice, same_parent, move_job, advance, run_slice, continue, from_start, at_job, starts,
}
use minebtx.Stratum.Search.Progress.{next_after-lt, whole_slice, advance-metadata}

-- Numbers that ascend from one on.
abbrev pub Above : ℤ → List ℤ → Type 0
Above a [] = Unit
Above a (b ∷ bs) = (a <ℤ b) × Above b bs

abbrev pub Ascending : List ℤ → Type 0
Ascending [] = Unit
Ascending (a ∷ bs) = Above a bs

-- A client that searches a job from a position on.
record IsAt (c : Client) (job : Job) (d : Fields) (position : ℤ) : Type 0 where
  current : c.current_job ≡ some job
  metadata : job.matmul ≡ dict d
  same : same_parent job job ≡ true
  reached : nonce_start_of job ≡ ok position
  positive : pos 0 <ℤ c.cfg.nonces_per_slice

-- What a slice leaves.
abbrev Ran : Client → ℤ → Outcome → Type 0
Ran c start (none, c') = Unit
Ran c start (some (shares, next), c') =
    (start <ℤ next) × (c'.current_job ≡ c.current_job) × (c'.cfg ≡ c.cfg)

settle-Ran :
    (c : Client) (start : ℤ) (r : SolveResult) (now : ℕ) (b : Batch)
    → pos 0 <ℤ c.cfg.nonces_per_slice
    → Ran c start (settle_batch (returned c now) start r b)
settle-Ran c start r now (shares, true) h = (whole_slice c.cfg start h, refl, refl)
settle-Ran c start r now (shares, false) h = (next_after-lt c.cfg start h r.nonce_end, refl, refl)

finish-Ran :
    (c : Client) (job : Job) (start : ℤ) (r : Result SolveResult) (now : ℕ)
    → pos 0 <ℤ c.cfg.nonces_per_slice
    → Ran c start (finish_slice c job start r now)
unfolding finish_slice
finish-Ran c job start (ok r) now h = settle-Ran c start r now (batch c job r) h
finish-Ran c job start (err Error.cancelled) now h = tt
finish-Ran c job start (err e) now h = (whole_slice c.cfg start h, refl, refl)

run-Ran :
    (c : Client) (job : Job) (start : ℤ) (r : Result SolveResult) (now : ℕ)
    → pos 0 <ℤ c.cfg.nonces_per_slice
    → Ran c start (run_slice c job start r now)
unfolding begin_slice
run-Ran c job start r now h = go (to_solve_challenge job)
  where
    same_rest :
        (o : Outcome) (v : Value) → Ran (record c { inflight_parent = v }) start o → Ran c start o
    same_rest (none, c') v x = tt
    same_rest (some (shares, next), c') v x = x

    go :
        (challenge : Result SolveChallenge)
        → Ran c start
            (let (b, c') = start_slice c job challenge in finish_slice c' job start (b >> r) now)
    go (err e) = finish-Ran c job start (err e) now h
    go (ok challenge) =
        same_rest _ job.previousblockhash
          (finish-Ran (record c { inflight_parent = job.previousblockhash }) job start r now h)

move-cfg : (c : Client) (cur : Job) (r : Result Value) → (move_job c cur r).1.cfg ≡ c.cfg
move-cfg c cur (ok v) = refl
move-cfg c cur (err e) = refl

advance-cfg :
    (c : Client) (job : Job) (next : ℤ)
    → c.current_job ≡ some job
    → same_parent job job ≡ true
    → (advance c job next).1.cfg ≡ c.cfg
unfolding advance
advance-cfg c job next e same =
    rw (e, advance) (rw same (move-cfg c job (set_item "nonce64_start" (int next) job.matmul)))

advance-IsAt :
    (c : Client) (job : Job) (d : Fields) (position next : ℤ)
    → IsAt c job d position
    → IsAt
        (advance c job next).1
        (record job { matmul = dict (put "nonce64_start" (int next) d) })
        (put "nonce64_start" (int next) d)
        next
unfolding nonce_start_of to_int
advance-IsAt c job d position next h = record {
  current = advance-metadata c job job next h.current h.metadata ∙ rw h.same refl;
  metadata = refl;
  same = h.same;
  reached = rw (find-put_self "nonce64_start" (int next) d) refl;
  positive =
      subst (λ (cfg : MinerConfig). pos 0 <ℤ cfg.nonces_per_slice)
        (sym (advance-cfg c job next h.current h.same)) h.positive;
}

kept-IsAt :
    (c c' : Client) (job : Job) (d : Fields) (position : ℤ)
    → c'.current_job ≡ c.current_job
    → c'.cfg ≡ c.cfg
    → IsAt c job d position
    → IsAt c' job d position
kept-IsAt c c' job d position j e h = record {
  current = j ∙ h.current;
  metadata = h.metadata;
  same = h.same;
  reached = h.reached;
  positive = subst (λ (cfg : MinerConfig). pos 0 <ℤ cfg.nonces_per_slice) (sym e) h.positive;
}

starts-first :
    (r : Result SolveResult) (now : ℕ) (slices : List (Result SolveResult × ℕ)) (c : Client)
    (job : Job) (d : Fields) (position : ℤ)
    → IsAt c job d position
    → starts ((r, now) ∷ slices) c
      ≡ position ∷ continue (starts slices) job (run_slice c job position r now)
unfolding starts
starts-first r now slices c job d position h =
    ap (λ o. at_job (starts slices) c o r now) h.current
    ∙ ap (λ p. from_start (starts slices) c job p r now) h.reached

continue-Above :
    (go : Client → List ℤ) (c : Client) (job : Job) (d : Fields) (position : ℤ)
    → ((c' : Client) (job' : Job) (d' : Fields) (next : ℤ)
        → IsAt c' job' d' next
        → position <ℤ next
        → Above position (go c'))
    → IsAt c job d position
    → (o : Outcome) → Ran c position o
    → Above position (continue go job o)
continue-Above go c job d position rest h (none, c') ran = tt
continue-Above go c job d position rest h (some (shares, next), c') (lt, j, e) =
    rest (advance c' job next).1 _ _ next
      (advance-IsAt c' job d position next (kept-IsAt c c' job d position j e h)) lt

starts-Above :
    (slices : List (Result SolveResult × ℕ)) (c : Client) (job : Job) (d : Fields)
    (before position : ℤ)
    → IsAt c job d position
    → before <ℤ position
    → Above before (starts slices c)
unfolding starts
starts-Above [] c job d before position h lt = tt
starts-Above ((r, now) ∷ slices) c job d before position h lt =
    subst (Above before) (sym (starts-first r now slices c job d position h)) (
      lt,
      continue-Above (starts slices) c job d position
          (λ c' j' d' q h'. starts-Above slices c' j' d' position q h') h
          (run_slice c job position r now) (run-Ran c job position r now h.positive),
    )

ascend : (a : ℤ) (rest : List ℤ) (bs : List ℤ) → bs ≡ a ∷ rest → Above a rest → Ascending bs
ascend a rest bs e h = subst Ascending (sym e) h

-- A search on a job whose metadata is a dict with a readable position, with slices of a positive size,
-- and in which the job stays the current one, never goes back: whatever its slices find or raise, and
-- whichever positions the solver reports, each slice starts behind the one before it.
pub starts-Ascending :
    (slices : List (Result SolveResult × ℕ)) (c : Client) (job : Job) {d : Fields} {position : ℤ}
    → c.current_job ≡ some job
    → job.matmul ≡ dict d
    → same_parent job job ≡ true
    → nonce_start_of job ≡ ok position
    → pos 0 <ℤ c.cfg.nonces_per_slice
    → Ascending (starts slices c)
unfolding starts
starts-Ascending [] c job current metadata same reached positive = tt
starts-Ascending ((r, now) ∷ slices) c job {d} {position} current metadata same reached positive =
    let h : IsAt c job d position = record {
      current = current;
      metadata = metadata;
      same = same;
      reached = reached;
      positive = positive;
    } in
    ascend position (continue (starts slices) job (run_slice c job position r now)) _
      (starts-first r now slices c job d position h)
      (continue-Above (starts slices) c job d position
        (λ c' j' d' q h'. starts-Above slices c' j' d' position q h') h
        (run_slice c job position r now) (run-Ran c job position r now positive))
