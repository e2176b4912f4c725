-- ===== src/Solver/Shape.antt =====
-- The daemon that takes a job was started with the job's matmul settings.
use minebtx.Prelude.{
  Option-cases, inl, inr, String, ◌≡◌, ◌⊎◌, refl, ap, sym, subst, ◌∙◌, Bool, true, false, not, ◌&&◌,
  Option, none, some, arith, if◌then◌else◌,
}
use minebtx.Prelude.Int.{eq_ℤ→eq}
use minebtx.Py.Result.{Result, ok, err}
use minebtx.Py.Assoc.{Assoc}
use minebtx.Solver.Challenge.{Shape, same_shape}
use minebtx.Solver.Daemon.{
  Process, Wrapper, Start, refused, silent, interrupted, bounced, ready, command, shutdown_daemon,
  changed_shape, ensure_daemon, start_daemon, reuse_or_start,
}

same_shape→eq : (s t : Shape) → same_shape s t ≡ true → s ≡ t
same_shape→eq s t h = ground (
  arith,
  eq_ℤ→eq s.matmul_n t.matmul_n,
  eq_ℤ→eq s.matmul_b t.matmul_b,
  eq_ℤ→eq s.matmul_r t.matmul_r,
  eq_ℤ→eq s.epsilon_bits t.epsilon_bits,
)

-- A daemon whose settings are recorded was started with them, and none are recorded without a daemon.
pub record IsLocked (w : Wrapper) : Type 0 where
  pub started_with :
      (p : Process) (s : Shape)
      → w.daemon ≡ some p
      → w.matmul_params ≡ some s
      → p.args ≡ command w s
  pub forgotten : w.daemon ≡ none → w.matmul_params ≡ none

-- Whether a process that the start gives runs on.
abbrev pub runs_on : Start → Bool
runs_on (ready alive line) = alive
runs_on start = true

abbrev pub is_bounced : Start → Bool
is_bounced (bounced line) = true
is_bounced start = false

-- Whether a wrapper has a process that runs, for this shape.
abbrev reuses_when : Bool → Option Process → Bool
reuses_when changed none = false
reuses_when changed (some p) = p.alive && not changed

abbrev pub reuses : Wrapper → Shape → Bool
reuses w s = reuses_when (changed_shape w.matmul_params s) w.daemon

-- The process is the one kept, was started with this shape, and runs, unless none was reused and the
-- start's process exited.
abbrev pub RunsWith : Bool → Shape → Start → Result Process × Wrapper → Type 0
RunsWith reused s start (ok p, w) =
    (w.daemon ≡ some p)
    × (p.args ≡ command w s)
    × ((p.alive ≡ true) ⊎ ((reused ≡ false) × (runs_on start ≡ false)))
RunsWith reused s start (err e, w) = Unit

-- A wrapper stays locked, unless `force_restart` ended within the start of its daemon.
abbrev pub StaysLocked : Bool → Start → Wrapper → Type 0
StaysLocked reused start w = IsLocked w ⊎ ((reused ≡ false) × (is_bounced start ≡ true))

pub shutdown_daemon-IsLocked : (w : Wrapper) → IsLocked w → IsLocked (shutdown_daemon w)
unfolding shutdown_daemon command
shutdown_daemon-IsLocked w h = elim (Option-cases w.daemon) [
  | inl e ↦ rw (e, shutdown_daemon) h
  | inr (p, e) ↦
      rw (e, shutdown_daemon) (record { started_with = λ q s x y. cc; forgotten = λ x. refl })
]

start_daemon-RunsWith :
    (w : Wrapper) (base : Assoc String) (s : Shape) (start : Start)
    → IsLocked w
    → ((t : Shape) → w.matmul_params ≡ some t → t ≡ s)
    → RunsWith false s start (start_daemon w base s start)
      × StaysLocked false start (start_daemon w base s start).1
unfolding start_daemon command
start_daemon-RunsWith w base s (refused e) h same = (tt, inl h)
start_daemon-RunsWith w base s silent h same =
    (tt, inl (record { started_with = λ q t x y. cc; forgotten = λ x. refl }))
start_daemon-RunsWith w base s (interrupted alive) h same =
    (tt, inl (record { started_with = λ q t x y. ground (arith, same t y); forgotten = λ x. cc }))
start_daemon-RunsWith w base s (bounced line) h same = (tt, inr (refl, refl))
start_daemon-RunsWith w base s (ready alive line) h same = (
  (refl, refl, alive_or alive),
  inl (record { started_with = λ q t x y. cc; forgotten = λ x. cc }),
)
  where
    alive_or : (b : Bool) → (b ≡ true) ⊎ (Path Bool false false × (b ≡ false))
    alive_or true = inl refl
    alive_or false = inr (refl, refl)

reuse_or_start-RunsWith :
    (w : Wrapper) (base : Assoc String) (s : Shape) (start : Start) (reused : Bool)
    → IsLocked w
    → ((t : Shape) → w.matmul_params ≡ some t → t ≡ s)
    → ((p : Process) → w.daemon ≡ some p → w.matmul_params ≡ some s)
    → reuses_when false w.daemon ≡ reused
    → RunsWith reused s start (reuse_or_start w base s start)
      × StaysLocked reused start (reuse_or_start w base s start).1
unfolding reuse_or_start
reuse_or_start-RunsWith w base s start reused h same known r = by_daemon w.daemon refl r
  where
    Good : Bool → Result Process × Wrapper → Type 0
    Good b p = RunsWith b s start p × StaysLocked b start p.1

    started : (b : Bool) → false ≡ b → Good b (start_daemon w base s start)
    started b e =
        subst (λ b. Good b (start_daemon w base s start)) e
          (start_daemon-RunsWith w base s start h same)

    by_life :
        (p : Process) (b : Bool)
        → w.daemon ≡ some p
        → p.alive ≡ b
        → b && true ≡ reused
        → Good reused (if b then (ok p, w) else start_daemon w base s start)
    by_life p true e live r = ((e, h.started_with p s e (known p e), inl live), inl h)
    by_life p false e live r = started reused r

    by_daemon :
        (o : Option Process)
        → w.daemon ≡ o
        → reuses_when false o ≡ reused
        → Good reused (elim o as (λ x. Result Process × Wrapper) [
          | none ↦ start_daemon w base s start
          | some p ↦ if p.alive then (ok p, w) else start_daemon w base s start
        ])
    by_daemon none e r = started reused r
    by_daemon (some p) e r = by_life p p.alive e refl r

shutdown_daemon-none :
    (w : Wrapper)
    → IsLocked w
    → ((shutdown_daemon w).daemon ≡ none) × ((shutdown_daemon w).matmul_params ≡ none)
unfolding shutdown_daemon
shutdown_daemon-none w h = elim (Option-cases w.daemon) [
  | inl e ↦ rw (e, shutdown_daemon) (e, h.forgotten e)
  | inr (p, e) ↦ rw (e, shutdown_daemon) (refl, refl)
]

unchanged_shape :
    (known : Option Shape) (s : Shape) → changed_shape known s ≡ false → known ≡ some s
unchanged_shape none s h = cc
unchanged_shape (some t) s h = ap some (same_shape→eq t s (ground arith))

none_reused : (o : Option Process) → reuses_when true o ≡ false
none_reused none = refl
none_reused (some p) = ground arith

-- From a locked wrapper, a process that `_ensure_daemon` returns is the one kept, was started with the
-- settings asked for, and runs, unless the wrapper had none that runs with these settings and the new
-- one exited during its start. The wrapper stays locked, unless `force_restart` ended during such a
-- start.
pub ensure_daemon-RunsWith :
    (w : Wrapper) (base : Assoc String) (s : Shape) (start : Start)
    → IsLocked w
    → RunsWith (reuses w s) s start (ensure_daemon w base s start)
      × StaysLocked (reuses w s) start (ensure_daemon w base s start).1
unfolding ensure_daemon
ensure_daemon-RunsWith w base s start h = by_daemon w.daemon refl
  where
    Good : Bool → Result Process × Wrapper → Type 0
    Good b p = RunsWith b s start p × StaysLocked b start p.1

    by_shape :
        (p : Process) (b : Bool)
        → w.daemon ≡ some p
        → changed_shape w.matmul_params s ≡ b
        → Good (reuses_when b (some p)) (
            if b
            then reuse_or_start (shutdown_daemon w) base s start
            else reuse_or_start w base s start)
    by_shape p true e c =
        let (gone, forgot) = shutdown_daemon-none w h in
        reuse_or_start-RunsWith (shutdown_daemon w) base s start (reuses_when true (some p))
          (shutdown_daemon-IsLocked w h) (λ t x. cc forgot) (λ q x. cc gone)
          (ap (reuses_when false) gone ∙ sym (none_reused (some p)))
    by_shape p false e c =
        let known = unchanged_shape w.matmul_params s c in
        reuse_or_start-RunsWith w base s start (reuses_when false (some p)) h (λ t x. cc known)
          (λ q x. known) (ap (reuses_when false) e)

    by_daemon :
        (o : Option Process)
        → w.daemon ≡ o
        → Good
            (reuses_when (changed_shape w.matmul_params s) o)
            (elim o as (λ x. Result Process × Wrapper) [
              | none ↦ reuse_or_start w base s start
              | some p ↦
                  if changed_shape w.matmul_params s
                  then reuse_or_start (shutdown_daemon w) base s start
                  else reuse_or_start w base s start
            ])
    by_daemon none e =
        reuse_or_start-RunsWith w base s start false h (λ t x. cc (h.forgotten e)) (λ p x. cc)
          (ap (reuses_when false) e)
    by_daemon (some p) e = by_shape p (changed_shape w.matmul_params s) e refl
