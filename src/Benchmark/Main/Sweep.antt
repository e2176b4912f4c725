-- ===== src/Benchmark/Main/Sweep.antt =====
-- The results of a sweep are runs of the grid's configurations, and ranking keeps what holds of each.
use minebtx.Prelude.{
  ◌⊎◌, String, ◌≡◌, refl, sym, subst, Bool, true, false, Option, none, some, List, [], ◌∷◌, ◌++◌,
  map, All, Bool-cases, inl, inr, if◌then◌else◌,
}
use minebtx.Prelude.Int.{ℤ, pos}
use minebtx.Py.Number.{to_int, to_float}
use minebtx.Py.Result.{Result, ok, err, ◌>>=◌}
use minebtx.Py.Value.{Decimal, int, float, find_or, Fields}
use minebtx.Py.Assoc.{Assoc}
use minebtx.Benchmark.{
  Grid, env_of, for_each, grid_envs, BenchResult, Outcome, no_seconds, last_record, read_record,
  run_one, slower, rated, place, sort_rated,
}
use minebtx.Benchmark.Main.{sweep_envs, sweep}

-- The environment is that of a configuration of the grid.
abbrev pub OfGrid : Grid → Assoc String → Type 0
OfGrid g env =
    (backend : String) × (t : ℤ) × (batch : ℤ) × (prefetch : ℤ) × (w : ℤ) × (env
      ≡ env_of g backend t batch prefetch w)

All-++ {ℓ κ} :
    {A : Type ℓ} (P : A → Type κ) (xs ys : List A) → All P xs → All P ys → All P (xs ++ ys)
All-++ P [] ys h k = k
All-++ P (x ∷ xs) ys (first, h) k = (first, All-++ P xs ys h k)

All-for_each {ℓ κ μ} :
    {A : Type ℓ} {B : Type κ} (P : B → Type μ) (xs : List A) (f : A → List B)
    → ((x : A) → All P (f x))
    → All P (for_each xs f)
All-for_each P [] f h = tt
All-for_each P (x ∷ xs) f h = All-++ P (f x) (for_each xs f) (h x) (All-for_each P xs f h)

All-map {ℓ κ μ} :
    {A : Type ℓ} {B : Type κ} (P : B → Type μ) (f : A → B) (xs : List A)
    → ((x : A) → P (f x))
    → All P (map f xs)
All-map P f [] h = tt
All-map P f (x ∷ xs) h = (h x, All-map P f xs h)

grid_envs-OfGrid : (g : Grid) → All (OfGrid g) (grid_envs g)
grid_envs-OfGrid g = All-for_each _ g.backends _ (λ backend. All-for_each _ g.threads _ (λ t.
    All-for_each _ g.batches _ (λ batch. All-for_each _ g.prefetches _ (λ prefetch.
      All-map _ (env_of g backend t batch prefetch) g.workers
        (λ w. (backend, t, batch, prefetch, w, refl))))))

-- Of the value, if a call returns one.
abbrev OnOk {ℓ κ} : {A : Type ℓ} → (A → Type κ) → Result A → Type κ
OnOk P (err e) = Unit
OnOk P (ok x) = P x

abbrev RunOf : Assoc String → BenchResult → Type 0
RunOf env r = r.env ≡ env

-- Two readings of numbers, and a result from both.
both-OnOk :
    (env : Assoc String) (m : Result ℤ) (n : Result Decimal) (f : ℤ → Decimal → BenchResult)
    → ((z : ℤ) (x : Decimal) → RunOf env (f z x))
    → OnOk (RunOf env) (m >>= λ z. n >>= λ x. ok (f z x))
both-OnOk env (err e) n f h = tt
both-OnOk env (ok z) (err e) f h = tt
both-OnOk env (ok z) (ok x) f h = h z x

read_record-RunOf :
    (env : Assoc String) (rec : Option Fields) → OnOk (RunOf env) (read_record env rec)
read_record-RunOf env none = refl
read_record-RunOf env (some d) =
    both-OnOk env (to_int (find_or "tries_used" (int (pos 0)) d))
      (to_float (find_or "elapsed_s" (float no_seconds) d)) _ (λ z x. refl)

run_one-RunOf : (env : Assoc String) (o : Outcome) → OnOk (RunOf env) (run_one env o)
unfolding run_one
run_one-RunOf env (Outcome.timed_out limit) = refl
run_one-RunOf env (Outcome.printed lines) = read_record-RunOf env (last_record none lines)

-- The results of runs with environments of the grid.
abbrev pub FromGrid : Grid → BenchResult → Type 0
FromGrid g r = OfGrid g r.env

with_first :
    (g : Grid) (env : Assoc String) (m : Result BenchResult) (n : Result (List BenchResult))
    → OfGrid g env
    → OnOk (RunOf env) m
    → OnOk (All (FromGrid g)) n
    → OnOk (All (FromGrid g)) (m >>= λ r. n >>= λ rs. ok (r ∷ rs))
with_first g env (err e) n h k l = tt
with_first g env (ok r) (err e) h k l = tt
with_first g env (ok r) (ok rs) h k l = (subst (OfGrid g) (sym k) h, l)

sweep_envs-FromGrid :
    (g : Grid) (outcome : Assoc String → Outcome) (envs : List (Assoc String))
    → All (OfGrid g) envs
    → OnOk (All (FromGrid g)) (sweep_envs outcome envs)
unfolding sweep_envs
sweep_envs-FromGrid g outcome [] h = tt
sweep_envs-FromGrid g outcome (env ∷ envs) (first, h) =
    with_first g env (run_one env (outcome env)) (sweep_envs outcome envs) first
      (run_one-RunOf env (outcome env)) (sweep_envs-FromGrid g outcome envs h)

pub sweep-FromGrid :
    (g : Grid) (outcome : Assoc String → Outcome) (results : List BenchResult)
    → sweep outcome g ≡ ok results
    → All (FromGrid g) results
unfolding sweep
sweep-FromGrid g outcome results e =
    subst (OnOk (All (FromGrid g))) e
      (sweep_envs-FromGrid g outcome (grid_envs g) (grid_envs-OfGrid g))

module _ (P : BenchResult → Type 0) where
  kept :
      (b : Bool) (r : BenchResult) (rs : List BenchResult)
      → P r
      → All P rs
      → All P (if b then r ∷ rs else rs)
  kept true r rs new h = (new, h)
  kept false r rs new h = h

  pub rated-All : (rs : List BenchResult) → All P rs → All P (rated rs)
  rated-All [] h = tt
  rated-All (r ∷ rs) (first, h) = kept r.usable r (rated rs) first (rated-All rs h)

  place-All : (r : BenchResult) (rs : List BenchResult) → P r → All P rs → All P (place r rs)
  unfolding place
  place-All r [] new h = (new, tt)
  place-All r (s ∷ ss) new (first, h) = elim (Bool-cases (slower s r)) [
    | inl faster ↦ rw faster (new, (first, h))
    | inr behind ↦ rw behind (first, place-All r ss new h)
  ]

  pub sort_rated-All : (rs : List BenchResult) → All P rs → All P (sort_rated rs)
  unfolding sort_rated
  sort_rated-All [] h = tt
  sort_rated-All (r ∷ rs) (first, h) = place-All r (sort_rated rs) first (sort_rated-All rs h)

-- The result is one of these.
abbrev pub In : BenchResult → List BenchResult → Type 0
In r [] = ⊥
In r (s ∷ ss) = (r ≡ s) ⊎ In r ss

All-imp {ℓ κ μ} :
    {A : Type ℓ} (P : A → Type κ) (Q : A → Type μ) (xs : List A)
    → ((x : A) → P x → Q x)
    → All P xs
    → All Q xs
All-imp P Q [] f h = tt
All-imp P Q (x ∷ xs) f (first, h) = (f x first, All-imp P Q xs f h)

All-In : (rs : List BenchResult) → All (λ r. In r rs) rs
All-In [] = tt
All-In (r ∷ rs) =
    (inl refl, All-imp (λ s. In s rs) (λ s. In s (r ∷ rs)) rs (λ s h. inr h) (All-In rs))

pub head_of :
    (P : BenchResult → Type 0) (rs : List BenchResult) {best : BenchResult}
    {others : List BenchResult}
    → rs ≡ best ∷ others
    → All P rs
    → P best
head_of P rs e h = (subst (All P) e h).0

-- The first run in the ranking is one of the usable ones.
pub first_of :
    (results : List BenchResult) {best : BenchResult} {others : List BenchResult}
    → sort_rated (rated results) ≡ best ∷ others
    → In best (rated results)
first_of results sorted =
    head_of (λ r. In r (rated results)) _ sorted
      (sort_rated-All _ (rated results) (All-In (rated results)))
