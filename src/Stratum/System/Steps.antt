-- ===== src/Stratum/System/Steps.antt =====
-- Each operation of the client keeps what holds in every state that it reaches.
use minebtx.Prelude.{
  ℕ, ◌≤◌, ◌≡◌, refl, ap, sym, subst, arith, Bool, true, false, Option, none, some, Bool-cases, inl,
  inr, if◌then◌else◌,
}
use minebtx.Prelude.Int.{ℤ}
use minebtx.Py.Result.{Error, Result, ok, err, ◌>>=◌}
use minebtx.Py.Value.{Value, truthy, index, set_item, int}
use minebtx.Py.Number.{to_int}
use minebtx.Solver.Challenge.{SolveChallenge, SolveResult}
use minebtx.Solver.Steps.{IsOwn}
use minebtx.Stratum.Job.{Job}
use minebtx.Stratum.Rpc.Invariant.{IsValid}
use minebtx.Stratum.Client.{Client, Watch, Stats}
use minebtx.Stratum.Search.{
  Batch, start_slice, finish_slice, settle_batch, returned, batch, advance, move_job, same_parent,
}
use minebtx.Stratum.Submit.{finish_submit}
use minebtx.Stratum.Messages.{Host, State, handle_message}
use minebtx.Stratum.Messages.Routes.{Frame, handle_message-IsValid}
use minebtx.Stratum.Session.{on_subscribed, store_size, store_extranonce}

-- The streak of rejects is part of the rejects, and a block is an accepted share.
abbrev pub Counted : Watch → Stats → Type 0
Counted w t = (w.consec_rejects ≤ t.shares_rejected) × (t.blocks_found ≤ t.shares_accepted)

pub record IsSound (c : Client) : Type 0 where
  pub requests : IsValid c.rpc
  pub own : IsOwn c.solver
  pub counted : Counted c.watch c.stats

-- A change of the rest of the client.
pub same-IsSound :
    (c c' : Client)
    → c'.rpc ≡ c.rpc
    → c'.solver ≡ c.solver
    → c'.watch.consec_rejects ≡ c.watch.consec_rejects
    → c'.stats ≡ c.stats
    → IsSound c
    → IsSound c'
same-IsSound c c' r s w t h = record {
  requests = subst IsValid (sym r) h.requests;
  own = subst IsOwn (sym s) h.own;
  counted =
      subst
        (λ n. (n ≤ c'.stats.shares_rejected) × (c'.stats.blocks_found ≤ c'.stats.shares_accepted))
        (sym w) (subst (λ t. Counted c.watch t) (sym t) h.counted);
}

pub submit-IsSound :
    (c : Client) (share : SolveResult) (r : Result Value) (now : ℕ)
    → IsSound c
    → IsSound (finish_submit c share r now)
unfolding finish_submit
submit-IsSound c share (err Error.cancelled) now h = h
submit-IsSound c share (err e) now h = record {
  requests = h.requests;
  own = h.own;
  counted = (omega (arith, h.counted.0), h.counted.1);
}
submit-IsSound c share (ok v) now h = elim (Bool-cases (truthy v)) [
  | inl kept ↦ rw kept (record {
    requests = h.requests;
    own = h.own;
    counted = (omega arith, ground (arith, h.counted.1));
  })
  | inr refused ↦ rw refused (record {
    requests = h.requests;
    own = h.own;
    counted = (omega (arith, h.counted.0), h.counted.1);
  })
]

settle-IsSound :
    (c : Client) (start : ℤ) (r : SolveResult) (b : Batch)
    → IsSound c
    → IsSound (settle_batch c start r b).1
settle-IsSound c start r (shares, true) h = h
settle-IsSound c start r (shares, false) h = h

pub finish-IsSound :
    (c : Client) (job : Job) (start : ℤ) (r : Result SolveResult) (now : ℕ)
    → IsSound c
    → IsSound (finish_slice c job start r now).1
unfolding finish_slice
finish-IsSound c job start (ok r) now h =
    settle-IsSound (returned c now) start r (batch c job r)
      (same-IsSound c (returned c now) refl refl refl refl h)
finish-IsSound c job start (err Error.cancelled) now h = h
finish-IsSound c job start (err e) now h = h

pub begin-IsSound :
    (c : Client) (job : Job) (r : Result SolveChallenge)
    → IsSound c
    → IsSound (start_slice c job r).1
begin-IsSound c job (err e) h = h
begin-IsSound c job (ok challenge) h = same-IsSound c _ refl refl refl refl h

move-IsSound :
    (c : Client) (cur : Job) (r : Result Value) → IsSound c → IsSound (move_job c cur r).1
move-IsSound c cur (err e) h = h
move-IsSound c cur (ok v) h = same-IsSound c _ refl refl refl refl h

pub advance-IsSound :
    (c : Client) (job : Job) (next : ℤ) → IsSound c → IsSound (advance c job next).1
unfolding advance
advance-IsSound c job next h = at_job c.current_job
  where
    at_parent :
        (cur : Job) (b : Bool)
        → IsSound
            (if b
              then move_job c cur (set_item "nonce64_start" (int next) cur.matmul)
              else (ok tt, c)).1
    at_parent cur true = move-IsSound c cur (set_item "nonce64_start" (int next) cur.matmul) h
    at_parent cur false = h

    at_job :
        (o : Option Job)
        → IsSound
            (elim o as (λ x. Result (Unit {0}) × Client) [
              | none ↦ (ok tt, c)
              | some cur ↦
                  if same_parent cur job
                  then move_job c cur (set_item "nonce64_start" (int next) cur.matmul)
                  else (ok tt, c)
            ]).1
    at_job none = h
    at_job (some cur) = at_parent cur (same_parent cur job)

size-IsSound : (c : Client) (r : Result ℤ) → IsSound c → IsSound (store_size c r).1
size-IsSound c (ok n) h = same-IsSound c _ refl refl refl refl h
size-IsSound c (err e) h = h

extranonce-IsSound :
    (c : Client) (reply : Value) (r : Result Value)
    → IsSound c
    → IsSound (store_extranonce c reply r).1
extranonce-IsSound c reply (ok v) h =
    size-IsSound (record c { extranonce1 = v }) (index reply 2 >>= to_int)
      (same-IsSound c _ refl refl refl refl h)
extranonce-IsSound c reply (err e) h = h

pub subscribed-IsSound : (c : Client) (r : Result Value) → IsSound c → IsSound (on_subscribed c r).1
unfolding on_subscribed
subscribed-IsSound c (ok reply) h = extranonce-IsSound c reply (index reply 1) h
subscribed-IsSound c (err e) h = h

pub message-IsSound :
    (host : Host) (msg : Value) (s : State) → IsSound s.0 → IsSound (handle_message host msg s).1.0
message-IsSound host msg s h =
    let (same, valid) = handle_message-IsValid host msg s h.requests in
    record {
      requests = valid;
      own = subst IsOwn (sym (ap (λ (f : Frame). f.1) same)) h.own;
      counted =
          subst (λ (f : Watch × Stats). Counted f.0 f.1) (sym (ap (λ (f : Frame). (f.3, f.4)) same))
            h.counted;
    }
