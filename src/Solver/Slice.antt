-- ===== src/Solver/Slice.antt =====
-- `solve_slice` and `_send_job_with_retry`: one job, at most two attempts. What other tasks do to the daemon while
-- it waits is a `Start` or an `Exchange`, and every step of its own in Solver/Steps.
use minebtx.Prelude.{
  ℕ, String, Bool, true, false, Option, none, some, List, [], ◌∷◌, ◌++◌, ◌||◌, str_eq,
  if◌then◌else◌,
}
use minebtx.Prelude.Int.{ℤ}
use minebtx.Py.Result.{Error, Result, ok, err, type_error, cancelled}
use minebtx.Py.Value.{
  Value, Items, Fields, nil, cons, null, bool, int, float, str, list, dict, is_in,
}
use minebtx.Py.Assoc.{Assoc}
use minebtx.Solver.Challenge.{SolveChallenge, SolveResult, Shape, shape, job_line}
use minebtx.Solver.Record.{result_from_record, no_answer}
use minebtx.Solver.Daemon.{
  Line, malformed, parsed, Process, Wrapper, Start, Exchange, write_failed, late, closed, abandoned,
  answered, shutdown_daemon, ensure_daemon,
}
pub mod Answers
pub mod Restart

-- `"error" in rec`
abbrev pub reports_error : Value → Result Bool
reports_error rec = is_in "error" rec

-- How one attempt ends: with an answer or without one, with a failure of the pipes, which is tried
-- again, or with an exception that is passed on.
pub data Attempt : Type 0 where
  settled : Option Value → Attempt
  broken : Attempt
  raised : Error → Attempt

-- `rec["error"]` is logged: of a list or a text that holds "error" it raises.
abbrev pub log_error : Value → Attempt
log_error (dict d) = settled none
log_error v = raised type_error

abbrev pub read_line : Line → Attempt
read_line malformed = broken
read_line (parsed v) = elim (reports_error v) [
  | ok bad ↦ if bad then log_error v else settled (some v)
  | err e ↦ raised e
]

abbrev pub with_unread : Wrapper → Process → List Line → Wrapper
with_unread w p lines = record w { daemon = some (record p { unread = lines }) }

-- The first line in the pipe is read, whoever asked for it.
abbrev pub read_first : Wrapper → Process → List Line → Attempt × Wrapper
read_first w p [] = (broken, w)
read_first w p (line ∷ lines) = (read_line line, with_unread w p lines)

-- Errors of `_ensure_daemon` that the `except` of the loop names.
abbrev is_retried : Error → Bool
is_retried Error.timeout_error = true
is_retried Error.connection_error = true
is_retried Error.json_error = true
is_retried _ = false

abbrev pub interpret : Result (Option Value) → SolveChallenge → Result SolveResult
interpret (err e) c = err e
interpret (ok none) c = ok no_answer
interpret (ok (some rec)) c = result_from_record rec c

abbrev pub interpret_with :
    SolveChallenge → Result (Option Value) × Wrapper → Result SolveResult × Wrapper
interpret_with c (r, w) = (interpret r c, w)

-- After the second pass of the loop, which is the last.
abbrev pub after_last : Attempt × Wrapper → Result (Option Value) × Wrapper
after_last (settled rec, w) = (ok rec, w)
after_last (raised e, w) = (err e, w)
after_last (broken, w) = (ok none, shutdown_daemon w)

-- After the first pass; the pass that may follow takes the wrapper.
abbrev pub after_first :
    (Wrapper → Attempt × Wrapper) → Attempt × Wrapper → Result (Option Value) × Wrapper
after_first again (settled rec, w) = (ok rec, w)
after_first again (raised e, w) = (err e, w)
after_first again (broken, w) = after_last (again (shutdown_daemon w))

module _ (solve : Fields → Line) where
  unfoldable pub exchange : Wrapper → Process → Fields → Exchange → Attempt × Wrapper
  exchange w p job write_failed = (broken, w)
  exchange w p job late = (broken, with_unread w p (p.unread ++ solve job ∷ []))
  exchange w p job closed = (broken, record w { daemon = some (record p { alive = false }) })
  exchange w p job abandoned = (raised cancelled, with_unread w p (p.unread ++ solve job ∷ []))
  exchange w p job answered = read_first w p (p.unread ++ solve job ∷ [])

  abbrev pub with_daemon : Fields → Exchange → Result Process × Wrapper → Attempt × Wrapper
  with_daemon job io (err e, w) = (if is_retried e then broken else raised e, w)
  with_daemon job io (ok p, w) = exchange w p job io

  -- The body of the `try`.
  unfoldable pub attempt :
      Wrapper → Assoc String → Shape → Fields → Start → Exchange → Attempt × Wrapper
  attempt w base s job start io = with_daemon job io (ensure_daemon w base s start)

  unfoldable pub send_job_with_retry :
      Wrapper
      → Assoc String
      → Shape
      → Fields
      → (Start × Exchange)
      → (Start × Exchange)
      → Result (Option Value) × Wrapper
  send_job_with_retry w base s job (start, io) (start', io') =
      after_first (λ w'. attempt w' base s job start' io') (attempt w base s job start io)

  unfoldable pub solve_slice :
      Wrapper
      → Assoc String
      → SolveChallenge
      → ℤ
      → ℤ
      → ℕ
      → (Start × Exchange)
      → (Start × Exchange)
      → Result SolveResult × Wrapper
  solve_slice w base c nonce_start max_tries max_seconds first second =
      elim (job_line c nonce_start max_tries max_seconds) [
        | err e ↦ (err e, w)
        | ok job ↦ interpret_with c (send_job_with_retry w base (shape c) job first second)
      ]
