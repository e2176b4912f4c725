-- ===== src/Solver/Slice/Restart.antt =====
-- A fresh daemon after a restart, and the second attempt of a slice.
use minebtx.Prelude.{
  String, ◌≡◌, refl, ◌∙◌, ap, sym, true, false, none, some, List, [], ◌∷◌, map, arith,
}
use mathlib.Core.Path.{subst}
use minebtx.Py.Result.{ok}
use minebtx.Py.Value.{Value, Fields}
use minebtx.Py.Assoc.{Assoc}
use minebtx.Solver.Challenge.{Shape}
use minebtx.Solver.Daemon.{
  Line, parsed, Wrapper, Start, Exchange, answered, ready, shutdown_daemon, force_restart,
  ensure_daemon, launched, advertises_preempt, start_daemon,
}
use minebtx.Solver.Slice.{
  Attempt, settled, broken, raised, reports_error, exchange, attempt, send_job_with_retry,
  with_daemon, after_first, after_last, read_line,
}
use minebtx.Solver.Slice.Answers.{IsServing, ensure_daemon-serving, ask, ask_all, own, ask_all-own}

-- What `_ensure_daemon` leaves when it has started a process.
abbrev pub started : Wrapper → Assoc String → Shape → Line → Wrapper
started w base s line = record w {
  daemon = some (launched w base s);
  matmul_params = some s;
  preempt_capable = advertises_preempt line;
}

ensure_daemon-none :
    (w : Wrapper) (base : Assoc String) (s : Shape) (line : Line)
    → w.daemon ≡ none
    → ensure_daemon w base s (ready true line) ≡ (ok (launched w base s), started w base s line)
unfolding ensure_daemon start_daemon
ensure_daemon-none w base s line h = ground (arith, h)

shutdown_daemon-none : (w : Wrapper) → (shutdown_daemon w).daemon ≡ none
unfolding shutdown_daemon
shutdown_daemon-none w = ground arith

started-IsServing :
    (w : Wrapper) (base : Assoc String) (s : Shape) (line : Line)
    → IsServing s [] (started w base s line)
started-IsServing w base s line = record {
  process = launched w base s;
  running = refl;
  is_alive = refl;
  waiting = refl;
  locked = refl;
}

after_first-broken :
    (again : Wrapper → Attempt × Wrapper) (p : Attempt × Wrapper)
    → p.0 ≡ broken
    → after_first again p ≡ after_last (again (shutdown_daemon p.1))
after_first-broken again (settled rec, w) h = cc
after_first-broken again (broken, w) h = refl
after_first-broken again (raised e, w) h = cc

after_last-broken :
    (p : Attempt × Wrapper) → p.0 ≡ broken → after_last p ≡ (ok none, shutdown_daemon p.1)
after_last-broken (settled rec, w) h = cc
after_last-broken (broken, w) h = refl
after_last-broken (raised e, w) h = cc

module _ (solve : Fields → Line) (base : Assoc String) (s : Shape) (job : Fields) where
  attempt-fresh :
      (w : Wrapper) (line : Line) {v : Value}
      → w.daemon ≡ none
      → solve job ≡ parsed v
      → reports_error v ≡ ok false
      → attempt solve w base s job (ready true line) answered
        ≡ (settled (some v), started w base s line)
  unfolding attempt exchange
  attempt-fresh w line h e fine =
      ap (with_daemon solve job answered) (ensure_daemon-none w base s line h)
      ∙ (rw e (rw (fine, read_line) refl))

  -- Where the first attempt breaks, and a fresh daemon answers the second one without an error report,
  -- the slice has the answer to its own job, and nothing is left in the pipe.
  pub send_job_with_retry-second :
      (w : Wrapper) (start : Start) (io : Exchange) (line : Line) {v : Value}
      → (attempt solve w base s job start io).0 ≡ broken
      → solve job ≡ parsed v
      → reports_error v ≡ ok false
      → let (r, w') =
          send_job_with_retry solve w base s job (start, io) (ready true line, answered) in
        (r ≡ ok (some v)) × IsServing s [] w'
  unfolding send_job_with_retry
  send_job_with_retry-second w start io line {v} h e fine =
      let first : Attempt × Wrapper = attempt solve w base s job start io in
      let again : Wrapper → Attempt × Wrapper =
        λ w'. attempt solve w' base s job (ready true line) answered in
      subst (λ p. (p.0 ≡ ok (some v)) × IsServing s [] p.1)
        (sym (
          after_first-broken again first h
          ∙ ap after_last
              (attempt-fresh (shutdown_daemon first.1) line (shutdown_daemon-none first.1) e fine)))
        (refl, started-IsServing (shutdown_daemon first.1) base s line)

  -- Where both attempts break, the slice ends without an answer and no daemon is kept.
  send_job_with_retry-broken :
      (w : Wrapper) (start : Start) (io : Exchange) (start' : Start) (io' : Exchange)
      → (attempt solve w base s job start io).0 ≡ broken
      → (attempt solve
          (shutdown_daemon (attempt solve w base s job start io).1)
          base
          s
          job
          start'
          io').0
        ≡ broken
      → let (r, w') = send_job_with_retry solve w base s job (start, io) (start', io') in
        (r ≡ ok none) × (w'.daemon ≡ none)
  unfolding send_job_with_retry
  send_job_with_retry-broken w start io start' io' h h' =
      let first : Attempt × Wrapper = attempt solve w base s job start io in
      let again : Wrapper → Attempt × Wrapper = λ w'. attempt solve w' base s job start' io' in
      let second : Attempt × Wrapper = again (shutdown_daemon first.1) in
      subst (λ p. (p.0 ≡ ok none) × (p.1.daemon ≡ none))
        (sym (after_first-broken again first h ∙ after_last-broken second h'))
        (refl, shutdown_daemon-none second.1)

module _ (answer : Fields → Value) (base : Assoc String) (s : Shape) (line : Line) where
  ask-started :
      (w : Wrapper) (job : Fields)
      → w.daemon ≡ none
      → ask answer base s (ready true line) w job
        ≡ ask answer base s (ready true line) (started w base s line) job
  unfolding send_job_with_retry attempt started-IsServing
  ask-started w job h =
      let solve : Fields → Line = λ j. parsed (answer j) in
      let again : Wrapper → Attempt × Wrapper =
        λ w'. attempt solve w' base s job (ready true line) answered in
      ap (λ p. after_first again (with_daemon solve job answered p))
        (ensure_daemon-none w base s line h
          ∙ sym (
              ensure_daemon-serving s (started w base s line) base (ready true line)
                (started-IsServing w base s line)))

  -- Where no answer is an error report and every line comes at the first attempt: after a forced
  -- restart, whatever was left in the old daemon's pipe, every slice gets the answer to its own job.
  pub force_restart-own :
      (fine : (job : Fields) → reports_error (answer job) ≡ ok false)
      → (w : Wrapper) (jobs : List Fields)
      → (ask_all answer base s (ready true line) (force_restart w) jobs).0 ≡ map (own answer) jobs
  unfolding force_restart
  force_restart-own fine w [] = refl
  force_restart-own fine w (job ∷ jobs) =
      let fresh : Wrapper = shutdown_daemon w in
      ap (λ p. p.0 ∷ (ask_all answer base s (ready true line) p.1 jobs).0)
        (ask-started fresh job (shutdown_daemon-none w))
      ∙ ask_all-own answer base s (ready true line) fine (job ∷ jobs) (started fresh base s line)
          (started-IsServing fresh base s line)
