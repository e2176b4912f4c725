-- ===== src/Hardware/Processor/Bounds.antt =====
-- The processor's utilization is a share.
use native.Mathlib.Nat.{div-add-mod, zero-div, zero-mod, div-le_of_le-mul}
use minebtx.Prelude.{
  ℕ, zero, suc, ◌+◌, ◌*◌, ◌-◌, ◌/◌, ◌%◌, ◌^◌, ◌≤◌, ◌<◌, ◌≡◌, ap, false, some, List, [], ◌∷◌,
  get_elem?, arith,
}
use minebtx.Prelude.Int.{
  ℤ, pos, pos_part, neg_part, ◌+ℤ◌, ◌-ℤ◌, ◌*ℤ◌, ◌≤ℤ◌, ◌<ℤ◌, leb_ℤ, +ℤ_parts, -ℤ_parts,
}
use minebtx.Py.Value.{Decimal}
use minebtx.Py.Round.{nearest, round_ratio}
use minebtx.Hardware.Processor.{sum_of, busy_share, idle_share, util_of}

-- No counter falls.
abbrev pub Grows : List ℤ → List ℤ → Type 0
Grows [] [] = Unit
Grows [] (y ∷ ys) = ⊥
Grows (x ∷ xs) [] = ⊥
Grows (x ∷ xs) (y ∷ ys) = (x ≤ℤ y) × Grows xs ys

sum_of-le : (xs ys : List ℤ) → Grows xs ys → sum_of xs ≤ℤ sum_of ys
unfolding sum_of
sum_of-le [] [] h = omega arith
sum_of-le [] (y ∷ ys) h = absurd h
sum_of-le (x ∷ xs) [] h = absurd h
sum_of-le (x ∷ xs) (y ∷ ys) (first, h) =
    omega (arith, +ℤ_parts x (sum_of xs), +ℤ_parts y (sum_of ys), sum_of-le xs ys h, first)

-- One counter grows, and no more than all of them do.
one_of_all :
    (xs ys : List ℤ) (i : ℕ) {a b : ℤ}
    → Grows xs ys
    → get_elem? xs i ≡ some a
    → get_elem? ys i ≡ some b
    → (a ≤ℤ b) × (b +ℤ sum_of xs ≤ℤ a +ℤ sum_of ys)
unfolding sum_of
one_of_all [] ys i h e k = cc
one_of_all (x ∷ xs) [] i h e k = absurd h
one_of_all (x ∷ xs) (y ∷ ys) zero {a} {b} (first, h) e k =
    let e' : x ≡ a = cc in
    let k' : y ≡ b = cc in
    rw (← e', ← k')
      (
        first,
        omega (
          arith,
          +ℤ_parts x (sum_of xs),
          +ℤ_parts y (sum_of ys),
          +ℤ_parts y (x +ℤ sum_of xs),
          +ℤ_parts x (y +ℤ sum_of ys),
          sum_of-le xs ys h,
        ),
      )
one_of_all (x ∷ xs) (y ∷ ys) (suc i) {a} {b} (first, h) e k =
    let (le, more) = one_of_all xs ys i h e k in
    (
      le,
      omega (
        arith,
        +ℤ_parts x (sum_of xs),
        +ℤ_parts y (sum_of ys),
        +ℤ_parts b (x +ℤ sum_of xs),
        +ℤ_parts a (y +ℤ sum_of ys),
        +ℤ_parts b (sum_of xs),
        +ℤ_parts a (sum_of ys),
        more,
        first,
      ),
    )

bound : (a b k : ℕ) → a ≤ k * b → a ≤ b * k
bound a b k h = grind (arith, h)

-- The largest quotient leaves no rest.
exact : (a b k : ℕ) → a ≤ k * b → a / b ≡ k → a % b ≡ 0
exact a b k h e =
    let d : b * k + a % b ≡ a = rw e at (div-add-mod a b) in
    let c : a ≤ b * k = bound a b k h in omega (arith, d, c)

nearest-le : (a b k : ℕ) → 0 < b → a ≤ k * b → nearest a b ≤ k
unfolding nearest
nearest-le a b k h le = ground (arith, div-le_of_le-mul b (bound a b k le), exact a b k le)

nearest-zero : (b : ℕ) → 0 < b → nearest 0 b ≡ 0
unfolding nearest
nearest-zero b h = ground (arith, zero-div b, zero-mod b)

-- A figure in tenths between 0 and 100.
abbrev pub IsShare : Decimal → Type 0
IsShare d = (neg_part d.mantissa ≡ 0) × (pos_part d.mantissa ≤ 1000) × (d.scale ≡ 1)

round_ratio-IsShare : (p b : ℕ) → 0 < b → p ≤ 100 * b → IsShare (round_ratio 1 (pos p) b)
unfolding round_ratio
round_ratio-IsShare p b h le =
    let none_below : nearest (0 * 10 ^ 1) b ≡ 0 = nearest-zero b h in
    let high : nearest (p * 10 ^ 1) b ≤ 1000 = nearest-le (p * 10 ^ 1) b 1000 h (omega arith) in
    ground arith

free_share : (i t : ℕ) → i ≤ t → pos 100 *ℤ (pos t -ℤ pos i) ≡ pos (100 * (t - i))
unfolding ◌-ℤ◌ ◌*ℤ◌
free_share i t h = ground arith

-- A whole that is positive, and a part of it.
busy_share-IsShare :
    (i t : ℕ) → i ≤ t → 0 < t → (d : Decimal) × (busy_share (pos i) (pos t) ≡ some d) × IsShare d
unfolding busy_share
busy_share-IsShare i t le h =
    let shown : leb_ℤ (pos t) (pos 0) ≡ false = ground arith in
    (
      round_ratio 1 (pos (100 * (t - i))) t,
      rw (shown, free_share i t le),
      round_ratio-IsShare (100 * (t - i)) t h (omega arith),
    )

growth : (a b : ℤ) → a ≤ℤ b → (n : ℕ) × (b -ℤ a ≡ pos n)
unfolding ◌-ℤ◌
growth a b h = (pos_part b + neg_part a - (neg_part b + pos_part a), ground arith)

smaller : (a b s t : ℤ) {i n : ℕ} → b -ℤ a ≡ pos i → t -ℤ s ≡ pos n → b +ℤ s ≤ℤ a +ℤ t → i ≤ n
smaller a b s t e k h = omega (
  arith,
  -ℤ_parts b a,
  -ℤ_parts t s,
  +ℤ_parts b s,
  +ℤ_parts a t,
  ap pos_part e,
  ap neg_part e,
  ap pos_part k,
  ap neg_part k,
)

positive : (s t : ℤ) {n : ℕ} → t -ℤ s ≡ pos n → s <ℤ t → 0 < n
positive s t k h = omega (arith, -ℤ_parts t s, ap pos_part k, ap neg_part k)

-- Where the counters are read twice, the idle one among them, none of them falls and their sum grows, there is a
-- figure for the processor, in tenths between 0 and 100.
util_of-IsShare :
    (xs ys : List ℤ) {a b : ℤ}
    → Grows xs ys
    → sum_of xs <ℤ sum_of ys
    → get_elem? xs 3 ≡ some a
    → get_elem? ys 3 ≡ some b
    → (d : Decimal) × (util_of xs ys ≡ some d) × IsShare d
unfolding util_of idle_share
util_of-IsShare xs ys {a} {b} h busy e k =
    let (le, more) = one_of_all xs ys 3 h e k in
    let (i, is_i) = growth a b le in
    let (t, is_t) = growth (sum_of xs) (sum_of ys) (sum_of-le xs ys h) in
    let (d, found, share) =
      busy_share-IsShare i t (smaller a b (sum_of xs) (sum_of ys) is_i is_t more)
        (positive (sum_of xs) (sum_of ys) is_t busy) in
    (d, rw (e, k, is_i, is_t) found, share)
