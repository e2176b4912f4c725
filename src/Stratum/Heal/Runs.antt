-- ===== src/Stratum/Heal/Runs.antt =====
-- When the watchdog restarts the daemon, over whole runs.
use minebtx.Prelude.{
  ℕ, ◌+◌, ◌*◌, ◌≤◌, ◌<◌, min, ◌≡◌, refl, subst, arith, Bool, true, false, ◌&&◌, ◌||◌, Option, none,
  some, List, [], ◌∷◌, Bool-cases, inl, inr, leb, if◌then◌else◌,
}
use minebtx.Py.Result.{Error, Result, ok, err}
use minebtx.Py.Value.{Value, truthy}
use minebtx.Solver.Challenge.{SolveResult}
use minebtx.Stratum.Client.{Client}
use minebtx.Stratum.Submit.{finish_submit}
use minebtx.Stratum.Submit.Laws.{is_accepted, is_cancelled}
use minebtx.Stratum.Session.{start_window}
use minebtx.Stratum.Heal.{
  heal_cooldown, heal_due, heal_finish, is_desynced, is_hung, Event, Watched, wakes, restarted,
  submitted, solved, reconnected, start_if, step, heals,
}

multiple : (b m : ℕ) → m ≤ 5 → (b ≤ b * (1 + m)) × (b * (1 + m) ≤ 6 * b)
multiple b m h = (grind arith, grind arith)

cooldown_bounds :
    (c : Client)
    → (c.cfg.heal_cooldown_secs ≤ heal_cooldown c)
      × (heal_cooldown c ≤ 6 * c.cfg.heal_cooldown_secs)
unfolding heal_cooldown
cooldown_bounds c =
    multiple c.cfg.heal_cooldown_secs (min c.watch.heals_without_accept 5) (omega arith)

-- A heal that is due comes a whole base cooldown after the last one.
heal_due-cooldown :
    (c : Client) (now : ℕ)
    → heal_due c now ≡ true
    → c.watch.last_heal_at + c.cfg.heal_cooldown_secs ≤ now
unfolding heal_due
heal_due-cooldown c now h = ground (arith, cooldown_bounds c)

-- The watchdog cannot be put off: six base cooldowns after the last restart, a client with too many
-- rejects in a row, or with a hung solver, is due for the next one, however many restarts did not help.
pub heal_due-late :
    (c : Client) (now : ℕ)
    → c.watch.last_heal_at + 6 * c.cfg.heal_cooldown_secs ≤ now
    → heal_due c now ≡ (if is_desynced c then true else is_hung c now)
unfolding heal_due
heal_due-late c now h = ground (arith, cooldown_bounds c)

-- Times that lie a distance apart, the first one after `last`.
abbrev pub Spaced : ℕ → ℕ → List ℕ → Type 0
Spaced base last [] = Unit
Spaced base last (t ∷ ts) = (last + base ≤ t) × Spaced base t ts

-- A restart under way was due.
abbrev WasDue : ℕ → ℕ → Option ℕ → Type 0
WasDue base last none = Unit
WasDue base last (some t) = last + base ≤ t

-- The base cooldown and the time of the last restart, and what is under way.
abbrev Follows : ℕ → ℕ → Watched → Type 0
Follows base last (c, under_way) =
    (c.cfg.heal_cooldown_secs ≡ base) × (c.watch.last_heal_at ≡ last) × WasDue base last under_way

start_if-Follows :
    (base last now : ℕ) (c : Client) (b : Bool)
    → (b ≡ true → heal_due c now ≡ true)
    → Follows base last (c, none)
    → Follows base last (start_if b c now)
start_if-Follows base last now c true h (f, l, u) = (
  f,
  l,
  subst (λ x. x + base ≤ now) l
      (subst (λ x. c.watch.last_heal_at + x ≤ now) f (heal_due-cooldown c now (h refl))),
)
start_if-Follows base last now c false h f = f

submit-Follows :
    (base last : ℕ) (c : Client) (under_way : Option ℕ) (share : SolveResult) (r : Result Value)
    (now : ℕ)
    → Follows base last (c, under_way)
    → Follows base last (finish_submit c share r now, under_way)
unfolding finish_submit
submit-Follows base last c u share (err Error.cancelled) now f = f
submit-Follows base last c u share (err e) now f = f
submit-Follows base last c u share (ok v) now (f, l, w) = elim (Bool-cases (truthy v)) [
  | inl kept ↦ rw kept (f, l, w)
  | inr refused ↦ rw refused (f, l, w)
]

heals_from-Spaced :
    (es : List Event) (base last : ℕ) (s : Watched)
    → Follows base last s
    → Spaced base last (heals es s)
unfolding heals step start_window heal_finish
heals_from-Spaced [] base last s f = tt
heals_from-Spaced (wakes now ∷ es) base last (c, some t) f =
    heals_from-Spaced es base last (c, some t) f
heals_from-Spaced (wakes now ∷ es) base last (c, none) f =
    heals_from-Spaced es base last _ (start_if-Follows base last now c _ (λ h. ground (arith, h)) f)
heals_from-Spaced (restarted ∷ es) base last (c, none) f =
    heals_from-Spaced es base last (c, none) f
heals_from-Spaced (restarted ∷ es) base last (c, some t) (f, l, u) =
    (u, heals_from-Spaced es base t (heal_finish c t, none) (f, refl, tt))
heals_from-Spaced (submitted share r now ∷ es) base last (c, u) f =
    heals_from-Spaced es base last _ (submit-Follows base last c u share r now f)
heals_from-Spaced (solved now ∷ es) base last (c, u) f = heals_from-Spaced es base last _ f
heals_from-Spaced (reconnected now ∷ es) base last (c, u) (f, l, w) =
    heals_from-Spaced es base last _ (f, l, tt)

-- Over any run, whatever happens to shares, slices and sessions, two restarts are at least the base
-- cooldown apart, and the first one is as far from the last one before the run.
pub heals-Spaced :
    (es : List Event) (c : Client)
    → Spaced c.cfg.heal_cooldown_secs c.watch.last_heal_at (heals es (c, none))
heals-Spaced es c =
    heals_from-Spaced es c.cfg.heal_cooldown_secs c.watch.last_heal_at (c, none) (refl, refl, tt)

-- What a healthy session in its first minutes consists of: checks within the grace, submissions that are
-- not rejected, and results.
abbrev pub is_healthy : ℕ → Event → Bool
is_healthy limit (wakes now) = leb now limit
is_healthy limit restarted = true
is_healthy limit (submitted share r now) = is_accepted r || is_cancelled r
is_healthy limit (solved now) = true
is_healthy limit (reconnected now) = false

abbrev pub all_healthy : ℕ → List Event → Bool
all_healthy limit [] = true
all_healthy limit (e ∷ es) = is_healthy limit e && all_healthy limit es

abbrev Fresh : ℕ → Client → Type 0
Fresh limit c =
    (c.watch.session_started_at + c.cfg.heal_first_slice_grace_secs ≡ limit)
    × (c.watch.consec_rejects ≡ 0)
    × (0 < c.cfg.heal_consec_rejects)

heal_due-Fresh :
    (limit : ℕ) (c : Client) (now : ℕ)
    → Fresh limit c
    → leb now limit ≡ true
    → heal_due c now ≡ false
unfolding heal_due
heal_due-Fresh limit c now (s, r, n) h = ground arith

submit-Fresh :
    (limit : ℕ) (c : Client) (share : SolveResult) (r : Result Value) (now : ℕ)
    → is_accepted r || is_cancelled r ≡ true
    → Fresh limit c
    → Fresh limit (finish_submit c share r now)
unfolding finish_submit
submit-Fresh limit c share (err Error.cancelled) now h f = f
submit-Fresh limit c share (err e) now h f = cc
submit-Fresh limit c share (ok v) now h (s, r, n) = elim (Bool-cases (truthy v)) [
  | inl kept ↦ rw kept (s, refl, n)
  | inr refused ↦ ground (arith, refused, h)
]

quiet :
    (es : List Event) (limit : ℕ) (c : Client)
    → Fresh limit c
    → all_healthy limit es ≡ true
    → heals es (c, none) ≡ []
unfolding heals step
quiet [] limit c f h = refl
quiet (wakes now ∷ es) limit c f h =
    let early : leb now limit ≡ true = ground arith in
    let off : c.cfg.heal_enabled && heal_due c now ≡ false =
      ground (arith, heal_due-Fresh limit c now f early) in
    rw off (quiet es limit c f (ground arith))
quiet (restarted ∷ es) limit c f h = quiet es limit c f h
quiet (submitted share r now ∷ es) limit c f h =
    let kept : is_accepted r || is_cancelled r ≡ true = ground arith in
    quiet es limit (finish_submit c share r now) (submit-Fresh limit c share r now kept f)
      (ground arith)
quiet (solved now ∷ es) limit c f h = quiet es limit _ f h
quiet (reconnected now ∷ es) limit c f h = cc

-- Where the threshold of rejects is positive, a new session in which no submission is rejected, and
-- whose checks all come before the grace of the first slice is over, has no restart, however long the
-- solver is silent and whatever happened before the session.
pub heals-grace :
    (es : List Event) (c : Client) (now : ℕ) (under_way : Option ℕ)
    → 0 < c.cfg.heal_consec_rejects
    → all_healthy (now + c.cfg.heal_first_slice_grace_secs) es ≡ true
    → heals (reconnected now ∷ es) (c, under_way) ≡ []
unfolding heals step start_window
heals-grace es c now under_way n h =
    quiet es (now + c.cfg.heal_first_slice_grace_secs) (start_window c now) (refl, refl, n) h
