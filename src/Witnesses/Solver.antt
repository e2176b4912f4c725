-- ===== src/Witnesses/Solver.antt =====
-- The solver's wrapper on concrete inputs.
use minebtx.Prelude.{◌≡◌, refl, true, false, none, some, [], ◌∷◌, map}
use minebtx.Prelude.Int.{pos}
use minebtx.Py.Result.{ok}
use minebtx.Py.Value.{null, Fields, bool, str, end, field}
use minebtx.Py.Assoc.{lookup, override, last, choose}
use minebtx.Solver.Env.{to_env}
use minebtx.Solver.Env.Laws.{settings, fallback, lookup-to_env}
use minebtx.Solver.Challenge.{SolveResult}
use minebtx.Solver.Record.{not_found, zero_seconds}
use minebtx.Solver.Daemon.{launched, ready, silent, force_restart, ensure_daemon, late, answered}
use minebtx.Solver.Shape.{IsLocked, StaysLocked, RunsWith, ensure_daemon-RunsWith}
use minebtx.Solver.Slice.{attempt, exchange, send_job_with_retry}
use minebtx.Solver.Slice.Answers.{
  IsServing, ask_all, cancel, own, one_late, ask_all-own, ask_all-cancel,
}
use minebtx.Solver.Slice.Restart.{send_job_with_retry-second, force_restart-own}
use minebtx.Stratum.Client.{solver_env_of}
use minebtx.Witnesses.Data.{
  rig, mainnet, ready_line, no_env, idle, serving, job_at, nothing, solve_nothing, found_record,
  result_with,
}

serving-IsServing : IsServing mainnet [] serving
serving-IsServing = record {
  process = launched idle no_env mainnet;
  running = refl;
  is_alive = refl;
  waiting = refl;
  locked = refl;
}

ask_all-own_example :
    (ask_all nothing no_env mainnet silent serving (job_at 1 ∷ job_at 2 ∷ [])).0
    ≡ map (own nothing) (job_at 1 ∷ job_at 2 ∷ [])
ask_all-own_example =
    ask_all-own nothing no_env mainnet silent (λ job. refl) (job_at 1 ∷ job_at 2 ∷ []) serving
      serving-IsServing

ask_all-cancel_example :
    (ask_all nothing no_env mainnet silent
      (cancel nothing no_env mainnet silent serving (job_at 1)).1
      (job_at 2 ∷ job_at 3 ∷ [])).0
    ≡ one_late nothing (nothing (job_at 1)) (job_at 2 ∷ job_at 3 ∷ [])
ask_all-cancel_example =
    ask_all-cancel nothing no_env mainnet silent (λ job. refl) serving (job_at 1)
      (job_at 2 ∷ job_at 3 ∷ []) serving-IsServing

send_job_with_retry-second_example :
    let (r, w) =
      send_job_with_retry solve_nothing serving no_env mainnet
        (job_at 1)
        (silent, late)
        (ready true ready_line, answered) in
    (r ≡ ok (some (nothing (job_at 1)))) × IsServing mainnet [] w
unfolding attempt ensure_daemon exchange
send_job_with_retry-second_example =
    send_job_with_retry-second solve_nothing no_env mainnet (job_at 1) serving silent late
      ready_line refl refl refl

force_restart-own_example :
    (ask_all nothing no_env mainnet
      (ready true ready_line)
      (force_restart serving)
      (job_at 1 ∷ [])).0
    ≡ map (own nothing) (job_at 1 ∷ [])
force_restart-own_example =
    force_restart-own nothing no_env mainnet ready_line (λ job. refl) serving (job_at 1 ∷ [])

idle-IsLocked : IsLocked idle
idle-IsLocked = record { started_with = λ p s x y. cc; forgotten = λ x. refl }

ensure_daemon-RunsWith_example :
    RunsWith false mainnet
      (ready true ready_line)
      (ensure_daemon idle no_env mainnet (ready true ready_line))
    × StaysLocked false
        (ready true ready_line)
        (ensure_daemon idle no_env mainnet (ready true ready_line)).1
ensure_daemon-RunsWith_example =
    ensure_daemon-RunsWith idle no_env mainnet (ready true ready_line) idle-IsLocked

lookup-to_env_example :
    lookup "BTX_MATMUL_BACKEND" (to_env (solver_env_of rig) (("BTX_MATMUL_BACKEND", "metal") ∷ []))
    ≡ override (last "BTX_MATMUL_BACKEND" (solver_env_of rig).extra) (
        override (choose "BTX_MATMUL_BACKEND" (settings (solver_env_of rig))) (
          override
            (lookup "BTX_MATMUL_BACKEND" (("BTX_MATMUL_BACKEND", "metal") ∷ []))
            (fallback "BTX_MATMUL_BACKEND")))
lookup-to_env_example =
    lookup-to_env (solver_env_of rig) (("BTX_MATMUL_BACKEND", "metal") ∷ []) "BTX_MATMUL_BACKEND"

abbrev found_result : SolveResult
found_result = record (result_with (some found_record) true none) {
  digest_hex = null;
  is_block = true;
}

abbrev lost_record : Fields
lost_record = field "found" (bool false) (field "nonce64_end" (str "5000") end)

abbrev lost_result : SolveResult
lost_result = not_found (pos 0) zero_seconds lost_record (some (pos 5_000))

abbrev hex_record : Fields
hex_record = field "found" (bool true) (field "nonce64" (str "00000000000000ff") end)
