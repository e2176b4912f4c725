-- ===== src/Py/Edit/Laws.antt =====
-- What an edit of a text changes, and what it keeps.
use mathlib.Core.List.{append-nil}
use minebtx.Prelude.{
  ℕ, ◌≡◌, refl, sym, ap, subst, Bool, true, not, ◌&&◌, ◌||◌, List, [], ◌∷◌, ◌++◌, Bool-cases, inl,
  inr, arith,
}
use minebtx.Py.Edit.{begins, contains, behind, replace_first}

replace_first_here :
    (c : ℕ) (t s u : List ℕ)
    → begins (c ∷ t) s ≡ true
    → replace_first (c ∷ t) s u ≡ u ++ behind (c ∷ t) s
unfolding replace_first
replace_first_here c t s u h = rw h

begins_self : (t : List ℕ) → begins t t ≡ true
begins_self [] = refl
begins_self (c ∷ t) = ground (arith, begins_self t)

begins-behind : (t s : List ℕ) → begins t s ≡ true → t ≡ s ++ behind t s
begins-behind t [] h = refl
begins-behind [] (d ∷ s) h = cc
begins-behind (c ∷ t) (d ∷ s) h = ground (arith, begins-behind t s)

begins-append : (s r : List ℕ) → begins (s ++ r) s ≡ true
begins-append [] r = ground arith
begins-append (c ∷ s) r = ground (arith, begins-append s r)

begins-append_more : (t s r : List ℕ) → begins t s ≡ true → begins (t ++ r) s ≡ true
begins-append_more t [] r h = ground arith
begins-append_more [] (d ∷ s) r h = cc
begins-append_more (c ∷ t) (d ∷ s) r h = ground (arith, begins-append_more t s r)

contains-append_left : (t s r : List ℕ) → contains t s ≡ true → contains (t ++ r) s ≡ true
contains-append_left [] [] [] h = refl
contains-append_left [] [] (c ∷ r) h = ground arith
contains-append_left [] (d ∷ s) r h = cc
contains-append_left (c ∷ t) s r h =
    ground (arith, begins-append_more (c ∷ t) s r, contains-append_left t s r)

contains-append_right : (t s r : List ℕ) → contains r s ≡ true → contains (t ++ r) s ≡ true
contains-append_right [] s r h = h
contains-append_right (c ∷ t) s r h = ground (arith, contains-append_right t s r h)

pub contains_self : (t : List ℕ) → contains t t ≡ true
contains_self [] = refl
contains_self (c ∷ t) = ground (arith, begins_self (c ∷ t))

-- What the new text holds is there behind the edit.
pub contains-replace_first :
    (t s u n : List ℕ)
    → contains t s ≡ true
    → contains u n ≡ true
    → contains (replace_first t s u) n ≡ true
unfolding replace_first
contains-replace_first [] s u n h k = rw h k
contains-replace_first (c ∷ t) s u n h k = elim (Bool-cases (begins (c ∷ t) s)) [
  | inl here ↦ rw here (contains-append_left u n (behind (c ∷ t) s) k)
  | inr later ↦ ground (arith, contains-replace_first t s u n)
]

-- One place of the text, where the old text stands, holds the new text.
abbrev pub Edited : List ℕ → List ℕ → List ℕ → List ℕ → Type 0
Edited t s u t' =
    (before : List ℕ) × (after : List ℕ) × (t ≡ before ++ s ++ after) × (t' ≡ before ++ u ++ after)

Edited-cons : (c : ℕ) (t s u t' : List ℕ) → Edited t s u t' → Edited (c ∷ t) s u (c ∷ t')
Edited-cons c t s u t' (before, after, e, e') =
    (c ∷ before, after, ap (λ r. c ∷ r) e, ap (λ r. c ∷ r) e')

pub replace_first-Edited :
    (t s u : List ℕ) → contains t s ≡ true → Edited t s u (replace_first t s u)
unfolding replace_first
replace_first-Edited [] [] u h = ([], [], refl, sym (append-nil u))
replace_first-Edited [] (d ∷ s) u h = cc
replace_first-Edited (c ∷ t) s u h = elim (Bool-cases (begins (c ∷ t) s)) [
  | inl here ↦ rw here ([], behind (c ∷ t) s, begins-behind (c ∷ t) s here, refl)
  | inr later ↦ rw later (Edited-cons c t s u _ (replace_first-Edited t s u (ground arith)))
]

-- Two texts that both begin a third one: one of them begins the other.
meets : List ℕ → List ℕ → Bool
meets s n = begins s n || begins n s

begins-meets : (t s n : List ℕ) → begins t s ≡ true → begins t n ≡ true → meets s n ≡ true
unfolding meets
begins-meets t [] n h k = ground arith
begins-meets t (d ∷ s) [] h k = ground arith
begins-meets [] (d ∷ s) (e ∷ n) h k = cc
begins-meets (c ∷ t) (d ∷ s) (e ∷ n) h k = ground (arith, begins-meets t s n)

-- No end of `s` overlaps the beginning of `n`, and neither holds the other at an end.
unfoldable pub apart : List ℕ → List ℕ → Bool
unfolding meets
apart [] n = true
apart (c ∷ s) n = not (meets (c ∷ s) n) && apart s n

begins-replace_first :
    (t s u n : List ℕ)
    → apart n s ≡ true
    → begins t n ≡ true
    → begins (replace_first t s u) n ≡ true
unfolding replace_first apart
begins-replace_first t s u [] a h = ground arith
begins-replace_first [] s u (d ∷ n) a h = cc
begins-replace_first (c ∷ t) s u (d ∷ n) a h = elim (Bool-cases (begins (c ∷ t) s)) [
  | inl here ↦ ground (arith, begins-meets (c ∷ t) (d ∷ n) s h here)
  | inr later ↦ ground (arith, begins-replace_first t s u n)
]

contains-append_apart :
    (s r n : List ℕ) → apart s n ≡ true → contains (s ++ r) n ≡ true → contains r n ≡ true
unfolding apart
contains-append_apart [] r n a h = h
contains-append_apart (c ∷ s) r n a h = ground (
  arith,
  contains-append_apart s r n,
  begins-meets ((c ∷ s) ++ r) (c ∷ s) n (begins-append (c ∷ s) r),
)

contains-nil : (t : List ℕ) → contains t [] ≡ true
contains-nil [] = refl
contains-nil (c ∷ t) = refl

-- An edit keeps the text that it does not overlap.
pub contains-replace_first-apart :
    (t s u n : List ℕ)
    → apart n s ≡ true
    → apart s n ≡ true
    → contains t n ≡ true
    → contains (replace_first t s u) n ≡ true
unfolding replace_first
contains-replace_first-apart [] s u [] a b h = contains-nil (replace_first [] s u)
contains-replace_first-apart [] s u (d ∷ n) a b h = cc
contains-replace_first-apart (c ∷ t) s u n a b h = elim (Bool-cases (begins (c ∷ t) s)) [
  | inl here ↦ rw here (
      contains-append_right u n (behind (c ∷ t) s) (
        contains-append_apart s (behind (c ∷ t) s) n b
          (subst (λ r. contains r n ≡ true) (begins-behind (c ∷ t) s here) h)))
  | inr later ↦ rw later (
      ground
        (arith, begins-replace_first (c ∷ t) s u n a, contains-replace_first-apart t s u n a b))
]

begins-of_replace_first :
    (t s u n : List ℕ)
    → apart n u ≡ true
    → begins (replace_first t s u) n ≡ true
    → begins t n ≡ true
unfolding replace_first apart
begins-of_replace_first t s u [] a h = ground arith
begins-of_replace_first [] [] u (d ∷ n) a h =
    ground (arith, begins-meets u (d ∷ n) u, begins_self u)
begins-of_replace_first [] (e ∷ s) u (d ∷ n) a h = h
begins-of_replace_first (c ∷ t) s u (d ∷ n) a h = elim (Bool-cases (begins (c ∷ t) s)) [
  | inl here ↦
      ground
        (arith, begins-meets (u ++ behind (c ∷ t) s) (d ∷ n) u, begins-append u (behind (c ∷ t) s))
  | inr later ↦ ground (arith, begins-of_replace_first t s u n)
]

-- An edit brings in no text that the new text does not overlap.
pub contains-of_replace_first :
    (t s u n : List ℕ)
    → apart n u ≡ true
    → apart u n ≡ true
    → contains (replace_first t s u) n ≡ true
    → contains t n ≡ true
unfolding replace_first
contains-of_replace_first t s u [] a b h = contains-nil t
contains-of_replace_first [] [] u (d ∷ n) a b h =
    contains-append_apart u [] (d ∷ n) b (contains-append_left u (d ∷ n) [] h)
contains-of_replace_first [] (e ∷ s) u (d ∷ n) a b h = h
contains-of_replace_first (c ∷ t) s u (d ∷ n) a b h = elim (Bool-cases (begins (c ∷ t) s)) [
  | inl here ↦
      subst (λ r. contains r (d ∷ n) ≡ true) (sym (begins-behind (c ∷ t) s here))
        (contains-append_right s (d ∷ n) (behind (c ∷ t) s) (
          contains-append_apart u (behind (c ∷ t) s) (d ∷ n) b
            (rw (replace_first_here c t s u here) at h)))
  | inr later ↦ ground (
    arith,
    begins-of_replace_first (c ∷ t) s u (d ∷ n) a,
    contains-of_replace_first t s u (d ∷ n) a b,
  )
]
