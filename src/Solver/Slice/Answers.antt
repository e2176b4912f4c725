-- ===== src/Solver/Slice/Answers.antt =====
-- Which answer a slice gets: the daemon's lines come in the order of the jobs, and carry no job's name.
use minebtx.Prelude.{
  String, ◌≡◌, refl, ◌∙◌, ap, sym, true, false, Option, some, List, [], ◌∷◌, ◌++◌, map, arith,
}
use mathlib.Core.List.{map-append}
use minebtx.Prelude.Int.{eq_ℤ_refl}
use minebtx.Py.Result.{Result, ok, err, cancelled}
use minebtx.Py.Value.{Value, Fields}
use minebtx.Py.Assoc.{Assoc}
use minebtx.Solver.Challenge.{Shape, same_shape}
use minebtx.Solver.Daemon.{
  parsed, Process, Wrapper, Start, Exchange, answered, abandoned, ensure_daemon,
}
use minebtx.Solver.Slice.{
  Attempt, settled, with_daemon, read_first, read_line, after_first, raised, reports_error,
  exchange, attempt, send_job_with_retry,
}

same_shape_refl : (s : Shape) → same_shape s s ≡ true
same_shape_refl s = ground (
  arith,
  eq_ℤ_refl s.matmul_n,
  eq_ℤ_refl s.matmul_b,
  eq_ℤ_refl s.matmul_r,
  eq_ℤ_refl s.epsilon_bits,
)

-- A daemon of this shape is running, and the answers `q` wait in its pipe.
pub record IsServing (s : Shape) (q : List Value) (w : Wrapper) : Type 0 where
  pub process : Process
  pub running : w.daemon ≡ some process
  pub is_alive : process.alive ≡ true
  pub waiting : process.unread ≡ map parsed q
  pub locked : w.matmul_params ≡ some s

-- The wrapper after a line is read, with `q` left in the pipe.
abbrev pub leave : Wrapper → Process → List Value → Wrapper
leave w p q = record w { daemon = some (record p { unread = map parsed q }) }

leave-IsServing :
    (s : Shape) {q : List Value} (r : List Value) (w : Wrapper) (h : IsServing s q w)
    → IsServing s r (leave w h.process r)
leave-IsServing s r w h = record {
  process = record h.process { unread = map parsed r };
  running = refl;
  is_alive = h.is_alive;
  waiting = refl;
  locked = h.locked;
}

pub ensure_daemon-serving :
    (s : Shape) {q : List Value} (w : Wrapper) (base : Assoc String) (start : Start)
    (h : IsServing s q w)
    → ensure_daemon w base s start ≡ (ok h.process, w)
unfolding ensure_daemon
ensure_daemon-serving s w base start h =
    ground (arith, same_shape_refl s, h.running, h.is_alive, h.locked)

module _ (answer : Fields → Value) where
  -- The answers to the jobs, each one job late, `u` first.
  abbrev pub one_late : Value → List Fields → List (Result (Option Value))
  one_late u [] = []
  one_late u (job ∷ jobs) = ok (some u) ∷ one_late (answer job) jobs

  abbrev pub own : Fields → Result (Option Value)
  own job = ok (some (answer job))

module _ (answer : Fields → Value) (base : Assoc String) (s : Shape) (start : Start) where
  -- A slice whose line comes at the first attempt.
  abbrev pub ask : Wrapper → Fields → Result (Option Value) × Wrapper
  ask w job =
      send_job_with_retry (λ j. parsed (answer j)) w base s job (start, answered) (start, answered)

  abbrev pub ask_all : Wrapper → List Fields → List (Result (Option Value)) × Wrapper
  ask_all w [] = ([], w)
  ask_all w (job ∷ jobs) =
      let (r, w') = ask w job in let (rs, w'') = ask_all w' jobs in (r ∷ rs, w'')

  -- A slice that is cancelled while it waits for its line.
  abbrev pub cancel : Wrapper → Fields → Result (Option Value) × Wrapper
  cancel w job =
      send_job_with_retry (λ j. parsed (answer j)) w base s job (start, abandoned)
        (start, abandoned)

  attempt-serving :
      {q : List Value} (w : Wrapper) (job : Fields) (io : Exchange) (h : IsServing s q w)
      → attempt (λ j. parsed (answer j)) w base s job start io
        ≡ exchange (λ j. parsed (answer j)) w h.process job io
  unfolding attempt
  attempt-serving w job io h =
      ap (with_daemon (λ j. parsed (answer j)) job io) (ensure_daemon-serving s w base start h)

  pipe :
      (u : Value) {q : List Value} (r : List Value) (w : Wrapper) (job : Fields)
      (h : IsServing s q w)
      → q ++ answer job ∷ [] ≡ u ∷ r
      → h.process.unread ++ parsed (answer job) ∷ [] ≡ parsed u ∷ map parsed r
  pipe u {q} r w job h e =
      ap (λ l. l ++ parsed (answer job) ∷ []) h.waiting
      ∙ (sym (map-append parsed q (answer job ∷ [])) ∙ ap (map parsed) e)

  read_line-fine :
      (u : Value) → reports_error u ≡ ok false → read_line (parsed u) ≡ settled (some u)
  read_line-fine u fine = rw (fine, read_line)

  ask-first :
      (u : Value) {q : List Value} (r : List Value) (w : Wrapper) (job : Fields)
      (h : IsServing s q w)
      → q ++ answer job ∷ [] ≡ u ∷ r
      → reports_error u ≡ ok false
      → ask w job ≡ (ok (some u), leave w h.process r)
  unfolding send_job_with_retry exchange
  ask-first u r w job h e fine =
      let again : Wrapper → Attempt × Wrapper =
        λ w'. attempt (λ j. parsed (answer j)) w' base s job start answered in
      ap (after_first again) (
        attempt-serving w job answered h
        ∙ (ap (read_first w h.process) (pipe u r w job h e)
            ∙ ap (λ a. (a, leave w h.process r)) (read_line-fine u fine)))

  abbrev results_from : List Fields → Result (Option Value) × Wrapper → List (Result (Option Value))
  results_from jobs (r, w) = r ∷ (ask_all w jobs).0

  module _ (fine : (job : Fields) → reports_error (answer job) ≡ ok false) where
    -- A live daemon with the jobs' settings has an empty pipe, every line comes at the first attempt,
    -- and no answer is an error report: then every slice gets the answer to its own job.
    pub ask_all-own :
        (jobs : List Fields) (w : Wrapper)
        → IsServing s [] w
        → (ask_all w jobs).0 ≡ map (own answer) jobs
    ask_all-own [] w h = refl
    ask_all-own (job ∷ jobs) w h =
        ap (results_from jobs) (ask-first (answer job) [] w job h refl (fine job))
        ∙ ap (λ rs. own answer job ∷ rs) (ask_all-own jobs _ (leave-IsServing s [] w h))

    ask_all-one_late :
        (u : Value) (jobs : List Fields) (w : Wrapper)
        → IsServing s (u ∷ []) w
        → reports_error u ≡ ok false
        → (ask_all w jobs).0 ≡ one_late answer u jobs
    ask_all-one_late u [] w h e = refl
    ask_all-one_late u (job ∷ jobs) w h e =
        ap (results_from jobs) (ask-first u (answer job ∷ []) w job h refl e)
        ∙ ap (λ rs. ok (some u) ∷ rs)
            (ask_all-one_late (answer job) jobs _ (leave-IsServing s (answer job ∷ []) w h)
              (fine job))

    cancel-leaves :
        (w : Wrapper) (job : Fields) (h : IsServing s [] w)
        → cancel w job ≡ (err cancelled, leave w h.process (answer job ∷ []))
    unfolding send_job_with_retry exchange
    cancel-leaves w job h =
        let again : Wrapper → Attempt × Wrapper =
          λ w'. attempt (λ j. parsed (answer j)) w' base s job start abandoned in
        ap (after_first again) (
          attempt-serving w job abandoned h
          ∙ ap
              (λ l.
                (raised cancelled, record w { daemon = some (record h.process { unread = l }) }))
              (pipe (answer job) [] w job h refl))

    -- Under the same conditions, but where one slice is cancelled while it waits for its line, every
    -- later slice gets the answer to the job before its own.
    pub ask_all-cancel :
        (w : Wrapper) (job : Fields) (jobs : List Fields)
        → IsServing s [] w
        → (ask_all (cancel w job).1 jobs).0 ≡ one_late answer (answer job) jobs
    ask_all-cancel w job jobs h =
        ap (λ p. (ask_all p.1 jobs).0) (cancel-leaves w job h)
        ∙ ask_all-one_late (answer job) jobs _ (leave-IsServing s (answer job ∷ []) w h) (fine job)
