-- ===== src/Stratum/System/Totals.antt =====
-- The counters of the shares are exact over any run of the client.
use minebtx.Prelude.{
  ℕ, ◌+◌, ◌||◌, ◌≡◌, refl, ap, arith, Bool, true, false, Option, none, some, List, [], ◌∷◌,
  Bool-cases, inl, inr, if◌then◌else◌,
}
use minebtx.Prelude.Int.{ℤ}
use minebtx.Py.Result.{Error, Result, ok, err, ◌>>=◌}
use minebtx.Py.Value.{Value, truthy, index, set_item, int}
use minebtx.Py.Number.{to_int}
use minebtx.Solver.Challenge.{SolveChallenge, SolveResult}
use minebtx.Stratum.Job.{Job, to_solve_challenge}
use minebtx.Stratum.Client.{Client, Stats}
use minebtx.Stratum.Search.{
  Batch, begin_slice, start_slice, finish_slice, settle_batch, returned, batch, advance, move_job,
  same_parent,
}
use minebtx.Stratum.Submit.{finish_submit}
use minebtx.Stratum.Submit.Laws.{is_cancelled, is_accepted}
use minebtx.Stratum.Heal.{heal_finish}
use minebtx.Stratum.Messages.{State}
use minebtx.Stratum.Messages.Routes.{Frame, handle_message-frame}
use minebtx.Stratum.Session.{start_window, end_session, on_subscribed, store_size, store_extranonce}
use minebtx.Stratum.System.{
  Action, opens, closes, sends, subscribes, starts, receives, gives_up, begins, solves, ends,
  advances, judges, restarts, perform, run,
}

-- What an action counts.
abbrev pub accepts : Action → ℕ
accepts (judges share r now) = if is_accepted r then 1 else 0
accepts a = 0

abbrev pub rejects : Action → ℕ
rejects (judges share r now) = if is_accepted r || is_cancelled r then 0 else 1
rejects a = 0

abbrev pub total : (Action → ℕ) → List Action → ℕ
total f [] = 0
total f (a ∷ actions) = f a + total f actions

-- The counters after an action.
abbrev Counts : Action → Stats → Stats → Type 0
Counts a t t' =
    (t'.shares_accepted ≡ accepts a + t.shares_accepted)
    × (t'.shares_rejected ≡ rejects a + t.shares_rejected)

-- An action that counts nothing.
same-Counts :
    (t t' : Stats)
    → t' ≡ t
    → (t'.shares_accepted ≡ 0 + t.shares_accepted) × (t'.shares_rejected ≡ 0 + t.shares_rejected)
same-Counts t t' h =
    let accepted = ap (λ (s : Stats). s.shares_accepted) h in
    let rejected = ap (λ (s : Stats). s.shares_rejected) h in
    (omega (arith, accepted), omega (arith, rejected))

submit-Counts :
    (c : Client) (share : SolveResult) (r : Result Value) (now : ℕ)
    → Counts (judges share r now) c.stats (finish_submit c share r now).stats
unfolding finish_submit
submit-Counts c share (err Error.cancelled) now = same-Counts c.stats _ refl
submit-Counts c share (err e) now = (omega arith, omega arith)
submit-Counts c share (ok v) now = elim (Bool-cases (truthy v)) [
  | inl kept ↦ rw kept (omega arith, omega arith)
  | inr refused ↦ rw refused (omega arith, omega arith)
]

settle-stats :
    (c : Client) (start : ℤ) (r : SolveResult) (b : Batch)
    → (settle_batch c start r b).1.stats ≡ c.stats
settle-stats c start r (shares, true) = refl
settle-stats c start r (shares, false) = refl

finish-stats :
    (c : Client) (job : Job) (start : ℤ) (r : Result SolveResult) (now : ℕ)
    → (finish_slice c job start r now).1.stats ≡ c.stats
unfolding finish_slice
finish-stats c job start (ok r) now = settle-stats (returned c now) start r (batch c job r)
finish-stats c job start (err Error.cancelled) now = refl
finish-stats c job start (err e) now = refl

begin-stats :
    (c : Client) (job : Job) (r : Result SolveChallenge) → (start_slice c job r).1.stats ≡ c.stats
begin-stats c job (err e) = refl
begin-stats c job (ok challenge) = refl

move-stats : (c : Client) (cur : Job) (r : Result Value) → (move_job c cur r).1.stats ≡ c.stats
move-stats c cur (err e) = refl
move-stats c cur (ok v) = refl

advance-stats : (c : Client) (job : Job) (next : ℤ) → (advance c job next).1.stats ≡ c.stats
unfolding advance
advance-stats c job next = at_job c.current_job
  where
    at_parent :
        (cur : Job) (b : Bool)
        → (if b
            then move_job c cur (set_item "nonce64_start" (int next) cur.matmul)
            else (ok tt, c)).1.stats
          ≡ c.stats
    at_parent cur true = move-stats c cur (set_item "nonce64_start" (int next) cur.matmul)
    at_parent cur false = refl

    at_job :
        (o : Option Job)
        → (elim o as (λ x. Result (Unit {0}) × Client) [
          | none ↦ (ok tt, c)
          | some cur ↦
              if same_parent cur job
              then move_job c cur (set_item "nonce64_start" (int next) cur.matmul)
              else (ok tt, c)
        ]).1.stats
          ≡ c.stats
    at_job none = refl
    at_job (some cur) = at_parent cur (same_parent cur job)

size-stats : (c : Client) (r : Result ℤ) → (store_size c r).1.stats ≡ c.stats
size-stats c (ok n) = refl
size-stats c (err e) = refl

extranonce-stats :
    (c : Client) (reply : Value) (r : Result Value) → (store_extranonce c reply r).1.stats ≡ c.stats
extranonce-stats c reply (ok v) =
    size-stats (record c { extranonce1 = v }) (index reply 2 >>= to_int)
extranonce-stats c reply (err e) = refl

subscribed-stats : (c : Client) (r : Result Value) → (on_subscribed c r).1.stats ≡ c.stats
unfolding on_subscribed
subscribed-stats c (ok reply) = extranonce-stats c reply (index reply 1)
subscribed-stats c (err e) = refl

perform-Counts : (a : Action) (s : State) → Counts a s.0.stats (perform a s).0.stats
unfolding perform end_session start_window heal_finish begin_slice
perform-Counts opens s = same-Counts s.0.stats s.0.stats refl
perform-Counts closes s = same-Counts s.0.stats s.0.stats refl
perform-Counts sends s = same-Counts s.0.stats s.0.stats refl
perform-Counts (subscribes reply) s = same-Counts _ _ (subscribed-stats s.0 reply)
perform-Counts (starts now) s = same-Counts s.0.stats s.0.stats refl
perform-Counts (receives host msg) s =
    same-Counts _ _ (ap (λ (f : Frame). f.4) (handle_message-frame host msg s))
perform-Counts (gives_up id) s = same-Counts s.0.stats s.0.stats refl
perform-Counts (begins job) s = same-Counts _ _ (begin-stats s.0 job (to_solve_challenge job))
perform-Counts (solves change) s = same-Counts s.0.stats s.0.stats refl
perform-Counts (ends job start r now) s = same-Counts _ _ (finish-stats s.0 job start r now)
perform-Counts (advances job next) s = same-Counts _ _ (advance-stats s.0 job next)
perform-Counts (judges share r now) s = submit-Counts s.0 share r now
perform-Counts (restarts now) s = same-Counts s.0.stats s.0.stats refl

-- However the tasks are interleaved, the counters grow by exactly the submissions that the pool accepted and
-- those that it refused or that raised: no session, restart or message changes them.
pub run-totals :
    (actions : List Action) (s : State)
    → ((run actions s).0.stats.shares_accepted ≡ total accepts actions + s.0.stats.shares_accepted)
      × ((run actions s).0.stats.shares_rejected
          ≡ total rejects actions + s.0.stats.shares_rejected)
unfolding run
run-totals [] s = same-Counts s.0.stats _ refl
run-totals (a ∷ actions) s =
    let (accepted, rejected) = run-totals actions (perform a s) in
    let (one, other) = perform-Counts a s in
    (omega (arith, accepted, one), omega (arith, rejected, other))
