-- ===== src/Benchmark/Ranking.antt =====
-- The configuration that the benchmark recommends is the fastest one.
use native.Mathlib.Nat.{mul-le-mul_right, le_of_mul-le-mul_right}
use minebtx.Prelude.{
  ℕ, suc, ◌*◌, ◌≤◌, ◌<◌, ◌≡◌, refl, sym, subst, true, false, List, [], ◌∷◌, All, Bool-cases, inl,
  inr, leb, arith,
}
use minebtx.Benchmark.{BenchResult, rate, slower, rated, place, sort_rated}

leb→le : (a b : ℕ) → leb a b ≡ true → a ≤ b
leb→le a b h = ground arith

le→leb : (a b : ℕ) → a ≤ b → leb a b ≡ true
le→leb a b h = ground arith

-- Fractions with positive denominators are in order.
chain : (n p m q k r : ℕ) → 0 < q → n * q ≤ m * p → m * r ≤ k * q → n * r ≤ k * p
chain n p m q k r pos h h' =
    let first = mul-le-mul_right r h in
    let second = mul-le-mul_right p h' in le_of_mul-le-mul_right (grind (arith, first, second)) pos

slower_trans : (a b c : BenchResult) → slower a b ≡ true → slower b c ≡ true → slower a c ≡ true
slower_trans a b c h h' =
    let (n, p) = rate a in
    let (m, q) = rate b in
    let (k, r) = rate c in
    le→leb (n * suc r) (k * suc p)
      (chain n (suc p) m (suc q) k (suc r) (omega arith) (leb→le _ _ h) (leb→le _ _ h'))

slower_total : (a b : BenchResult) → slower a b ≡ false → slower b a ≡ true
slower_total a b h = let (n, p) = rate a in let (m, q) = rate b in ground (arith, h)

slower_refl : (a : BenchResult) → slower a a ≡ true
slower_refl a = let (n, p) = rate a in le→leb (n * suc p) (n * suc p) (omega arith)

abbrev pub NoFaster : BenchResult → List BenchResult → Type 0
NoFaster best rs = All (λ r. slower r best ≡ true) rs

-- The first of a list is no slower than these.
abbrev Leads : List BenchResult → List BenchResult → Type 0
Leads [] rs = rs ≡ []
Leads (b ∷ bs) rs = NoFaster b rs

all_slower :
    (a b : BenchResult) (rs : List BenchResult) → slower a b ≡ true → NoFaster a rs → NoFaster b rs
all_slower a b [] h x = tt
all_slower a b (r ∷ rs) h (x, xs) = (slower_trans r a b x h, all_slower a b rs h xs)

place-Leads :
    (r : BenchResult) (sorted rs : List BenchResult)
    → Leads sorted rs
    → Leads (place r sorted) (r ∷ rs)
unfolding place
place-Leads r [] rs h = (slower_refl r, subst (NoFaster r) (sym h) tt)
place-Leads r (s ∷ ss) rs h = elim (Bool-cases (slower s r)) [
  | inl faster ↦ rw faster (slower_refl r, all_slower s r rs faster h)
  | inr behind ↦ rw behind (slower_total s r behind, h)
]

sort-Leads : (rs : List BenchResult) → Leads (sort_rated rs) rs
unfolding sort_rated
sort-Leads [] = refl
sort-Leads (r ∷ rs) = place-Leads r (sort_rated rs) rs (sort-Leads rs)

-- The configuration that the benchmark recommends, the first of the sorted usable results, is no slower than
-- any usable result.
pub sort_rated-best :
    (results : List BenchResult) {best : BenchResult} {others : List BenchResult}
    → sort_rated (rated results) ≡ best ∷ others
    → NoFaster best (rated results)
sort_rated-best results h = subst (λ l. Leads l (rated results)) h (sort-Leads (rated results))
