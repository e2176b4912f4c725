-- ===== src/Solver/Steps/Runs.antt =====
-- A slice, and a restart, are runs of the wrapper's steps.
use minebtx.Prelude.{
  ℕ, String, ◌≡◌, refl, ap, ◌∙◌, Bool, true, false, Option, none, some, List, [], ◌∷◌, ◌++◌,
  Option-cases, inl, inr, if◌then◌else◌,
}
use minebtx.Prelude.Int.{ℤ}
use minebtx.Py.Result.{Result, ok, err}
use minebtx.Py.Value.{Fields}
use minebtx.Py.Assoc.{Assoc}
use minebtx.Solver.Challenge.{SolveChallenge, SolveResult, Shape, shape, job_line}
use minebtx.Solver.Daemon.{
  Line, Process, Wrapper, Start, refused, silent, interrupted, bounced, ready, Exchange,
  write_failed, late, closed, abandoned, answered, shutdown_daemon, changed_shape, start_daemon,
  reuse_or_start, ensure_daemon,
}
use minebtx.Solver.Slice.{
  Attempt, settled, broken, raised, read_first, exchange, with_daemon, attempt, after_last,
  after_first, send_job_with_retry, interpret_with, solve_slice,
}
use minebtx.Solver.Steps.{Step, spawned, signalled, went_on, stopped, step, run_steps}

-- The second wrapper is what a run of steps makes of the first one.
abbrev pub Reaches : Wrapper → Wrapper → Type 0
Reaches w w' = (steps : List Step) × (run_steps steps w ≡ w')

run_steps-append :
    (xs ys : List Step) (w : Wrapper) → run_steps (xs ++ ys) w ≡ run_steps ys (run_steps xs w)
run_steps-append [] ys w = refl
run_steps-append (x ∷ xs) ys w = run_steps-append xs ys (step x w)

then_Reaches : {u v w : Wrapper} → Reaches u v → Reaches v w → Reaches u w
then_Reaches {u} (xs, e) (ys, k) = (xs ++ ys, run_steps-append xs ys u ∙ (ap (run_steps ys) e ∙ k))

stay_Reaches : (w : Wrapper) → Reaches w w
stay_Reaches w = ([], refl)

shutdown_daemon-Reaches : (w : Wrapper) → Reaches w (shutdown_daemon w)
unfolding shutdown_daemon
shutdown_daemon-Reaches w = elim (Option-cases w.daemon) [
  | inl e ↦ rw e ([], refl)
  | inr (p, e) ↦ rw e (stopped ∷ [], refl)
]

start_daemon-Reaches :
    (w : Wrapper) (base : Assoc String) (s : Shape) (start : Start)
    → Reaches w (start_daemon w base s start).1
unfolding start_daemon shutdown_daemon
start_daemon-Reaches w base s (refused e) = stay_Reaches w
start_daemon-Reaches w base s silent = (spawned base s ∷ stopped ∷ [], refl)
start_daemon-Reaches w base s (interrupted alive) = (spawned base s ∷ went_on alive [] ∷ [], refl)
start_daemon-Reaches w base s (bounced line) =
    (spawned base s ∷ stopped ∷ signalled s line ∷ [], refl)
start_daemon-Reaches w base s (ready alive line) =
    (spawned base s ∷ went_on alive [] ∷ signalled s line ∷ [], refl)

-- A process that is returned is the one kept.
abbrev Kept : Result Process × Wrapper → Type 0
Kept (err e, w) = Unit {0}
Kept (ok p, w) = w.daemon ≡ some p

-- The result of `_ensure_daemon`, from a wrapper.
abbrev Ensured : Wrapper → Result Process × Wrapper → Type 0
Ensured w p = Kept p × Reaches w p.1

start_daemon-Ensured :
    (w : Wrapper) (base : Assoc String) (s : Shape) (start : Start)
    → Ensured w (start_daemon w base s start)
unfolding start_daemon
start_daemon-Ensured w base s start = (kept start, start_daemon-Reaches w base s start)
  where
    kept : (start : Start) → Kept (start_daemon w base s start)
    kept (refused e) = tt
    kept silent = tt
    kept (interrupted alive) = tt
    kept (bounced line) = tt
    kept (ready alive line) = refl

reuse_or_start-Ensured :
    (w : Wrapper) (base : Assoc String) (s : Shape) (start : Start)
    → Ensured w (reuse_or_start w base s start)
unfolding reuse_or_start
reuse_or_start-Ensured w base s start = by_daemon w.daemon refl
  where
    by_life :
        (p : Process) (b : Bool)
        → w.daemon ≡ some p
        → Ensured w (if b then (ok p, w) else start_daemon w base s start)
    by_life p true e = (e, stay_Reaches w)
    by_life p false e = start_daemon-Ensured w base s start

    by_daemon :
        (o : Option Process)
        → w.daemon ≡ o
        → Ensured w (elim o as (λ x. Result Process × Wrapper) [
          | none ↦ start_daemon w base s start
          | some p ↦ if p.alive then (ok p, w) else start_daemon w base s start
        ])
    by_daemon none e = start_daemon-Ensured w base s start
    by_daemon (some p) e = by_life p p.alive e

ensure_daemon-Ensured :
    (w : Wrapper) (base : Assoc String) (s : Shape) (start : Start)
    → Ensured w (ensure_daemon w base s start)
unfolding ensure_daemon
ensure_daemon-Ensured w base s start = by_daemon w.daemon
  where
    by_shape :
        (b : Bool)
        → Ensured w (
            if b
            then reuse_or_start (shutdown_daemon w) base s start
            else reuse_or_start w base s start)
    by_shape true =
        let (kept, reached) = reuse_or_start-Ensured (shutdown_daemon w) base s start in
        (kept, then_Reaches (shutdown_daemon-Reaches w) reached)
    by_shape false = reuse_or_start-Ensured w base s start

    by_daemon :
        (o : Option Process)
        → Ensured w (elim o as (λ x. Result Process × Wrapper) [
          | none ↦ reuse_or_start w base s start
          | some p ↦
              if changed_shape w.matmul_params s
              then reuse_or_start (shutdown_daemon w) base s start
              else reuse_or_start w base s start
        ])
    by_daemon none = reuse_or_start-Ensured w base s start
    by_daemon (some p) = by_shape (changed_shape w.matmul_params s)

-- The process at hand is touched.
touch-Reaches :
    (w : Wrapper) (p : Process) (alive : Bool) (unread : List Line)
    → w.daemon ≡ some p
    → Reaches w (record w { daemon = some (record p { alive = alive; unread = unread }) })
touch-Reaches w p alive unread e = (
  went_on alive unread ∷ [],
  ap
      (λ (o : Option Process). record w {
        daemon = elim o [
          | none ↦ none
          | some q ↦ some (record q { alive = alive; unread = unread })
        ];
      })
      e,
)

read_first-Reaches :
    (w : Wrapper) (p : Process) (lines : List Line)
    → w.daemon ≡ some p
    → Reaches w (read_first w p lines).1
read_first-Reaches w p [] e = stay_Reaches w
read_first-Reaches w p (line ∷ lines) e = touch-Reaches w p p.alive lines e

module _ (solve : Fields → Line) where
  exchange-Reaches :
      (w : Wrapper) (p : Process) (job : Fields) (io : Exchange)
      → w.daemon ≡ some p
      → Reaches w (exchange solve w p job io).1
  unfolding exchange
  exchange-Reaches w p job write_failed e = stay_Reaches w
  exchange-Reaches w p job late e = touch-Reaches w p p.alive (p.unread ++ solve job ∷ []) e
  exchange-Reaches w p job closed e = touch-Reaches w p false p.unread e
  exchange-Reaches w p job abandoned e = touch-Reaches w p p.alive (p.unread ++ solve job ∷ []) e
  exchange-Reaches w p job answered e = read_first-Reaches w p (p.unread ++ solve job ∷ []) e

  with_daemon-Reaches :
      (w : Wrapper) (job : Fields) (io : Exchange) (p : Result Process × Wrapper)
      → Ensured w p
      → Reaches w (with_daemon solve job io p).1
  with_daemon-Reaches w job io (err e, w') (kept, reached) = reached
  with_daemon-Reaches w job io (ok p, w') (kept, reached) =
      then_Reaches reached (exchange-Reaches w' p job io kept)

  attempt-Reaches :
      (w : Wrapper) (base : Assoc String) (s : Shape) (job : Fields) (start : Start) (io : Exchange)
      → Reaches w (attempt solve w base s job start io).1
  unfolding attempt
  attempt-Reaches w base s job start io =
      with_daemon-Reaches w job io (ensure_daemon w base s start)
        (ensure_daemon-Ensured w base s start)

after_last-Reaches : (p : Attempt × Wrapper) → Reaches p.1 (after_last p).1
after_last-Reaches (settled rec, w) = stay_Reaches w
after_last-Reaches (raised e, w) = stay_Reaches w
after_last-Reaches (broken, w) = shutdown_daemon-Reaches w

after_first-Reaches :
    (again : Wrapper → Attempt × Wrapper)
    → ((w : Wrapper) → Reaches w (again w).1)
    → (p : Attempt × Wrapper) → Reaches p.1 (after_first again p).1
after_first-Reaches again g (settled rec, w) = stay_Reaches w
after_first-Reaches again g (raised e, w) = stay_Reaches w
after_first-Reaches again g (broken, w) =
    then_Reaches (shutdown_daemon-Reaches w)
      (then_Reaches (g (shutdown_daemon w)) (after_last-Reaches (again (shutdown_daemon w))))

send_job_with_retry-Reaches :
    (solve : Fields → Line) (w : Wrapper) (base : Assoc String) (s : Shape) (job : Fields)
    (first second : Start × Exchange)
    → Reaches w (send_job_with_retry solve w base s job first second).1
unfolding send_job_with_retry
send_job_with_retry-Reaches solve w base s job (start, io) (start', io') =
    then_Reaches (attempt-Reaches solve w base s job start io) (
      after_first-Reaches (λ w'. attempt solve w' base s job start' io')
        (λ w'. attempt-Reaches solve w' base s job start' io')
        (attempt solve w base s job start io))

-- What a whole slice makes of the wrapper is what a run of its steps makes of it.
pub solve_slice-Reaches :
    (solve : Fields → Line) (w : Wrapper) (base : Assoc String) (c : SolveChallenge)
    (nonce_start max_tries : ℤ) (max_seconds : ℕ) (first second : Start × Exchange)
    → Reaches w (solve_slice solve w base c nonce_start max_tries max_seconds first second).1
unfolding solve_slice
solve_slice-Reaches solve w base c nonce_start max_tries max_seconds first second =
    go (job_line c nonce_start max_tries max_seconds)
  where
    go :
        (r : Result Fields)
        → Reaches w
            (elim r as (λ x. Result SolveResult × Wrapper) [
              | err e ↦ (err e, w)
              | ok job ↦
                  interpret_with c (send_job_with_retry solve w base (shape c) job first second)
            ]).1
    go (err e) = stay_Reaches w
    go (ok job) = send_job_with_retry-Reaches solve w base (shape c) job first second
