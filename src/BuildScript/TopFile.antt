-- ===== src/BuildScript/TopFile.antt =====
-- Behind `_patch_top_cmake` each GCC flag is guarded, and a second call changes nothing.
use minebtx.Prelude.{
  ◌≡◌, refl, ◌∙◌, ap, Bool, true, false, List, ℕ, ◌⊎◌, inl, inr, arith, Bool-cases,
}
use minebtx.Py.Edit.{contains, replace_first}
use minebtx.Py.Edit.Laws.{
  Edited, replace_first-Edited, contains-replace_first, contains-replace_first-apart,
  contains-of_replace_first, contains_self, apart,
}
use minebtx.BuildScript.{
  extended_identifiers, stack_reuse, gcc_only_flag_lines, guarded, guard_flag, guard_flags,
  patch_top_cmake,
}

-- The flag is not there, or it is guarded.
abbrev pub IsGuarded : List ℕ → List ℕ → Type 0
IsGuarded txt line = (contains txt line ≡ false) ⊎ (contains txt (guarded line) ≡ true)

guard_flag_again : (txt line : List ℕ) → IsGuarded txt line → guard_flag txt line ≡ txt
unfolding guard_flag
guard_flag_again txt line (inl h) = rw h
guard_flag_again txt line (inr h) = ground (arith, h)

absent_there : {b : Bool} → b ≡ false → b ≡ true → ⊥
absent_there h k = cc

guard_flag-IsGuarded : (txt line : List ℕ) → IsGuarded (guard_flag txt line) line
unfolding guard_flag
guard_flag-IsGuarded txt line = elim (Bool-cases (contains txt line)) [
  | inl present ↦ elim (Bool-cases (contains txt (guarded line))) [
    | inl old ↦ inr (rw (present, old) old)
    | inr new ↦ inr (
        rw (present, new)
          (contains-replace_first txt line (guarded line) (guarded line) present
            (contains_self (guarded line))))
  ]
  | inr absent ↦ inl (rw absent absent)
]

-- The edit for one line leaves the other line alone.
record Independent (line other : List ℕ) : Type 0 where
  old_new : apart line (guarded other) ≡ true
  new_old : apart (guarded other) line ≡ true
  guarded_old : apart (guarded line) other ≡ true
  old_guarded : apart other (guarded line) ≡ true

replace_first-IsGuarded :
    (txt line other : List ℕ)
    → Independent line other
    → IsGuarded txt line
    → IsGuarded (replace_first txt other (guarded other)) line
replace_first-IsGuarded txt line other i (inl absent) =
    elim (Bool-cases (contains (replace_first txt other (guarded other)) line)) [
      | inl there ↦ absurd (
          absent_there absent
            (contains-of_replace_first txt other (guarded other) line i.old_new i.new_old there))
      | inr still ↦ inl still
    ]
replace_first-IsGuarded txt line other i (inr there) = inr (
    contains-replace_first-apart txt other (guarded other) (guarded line) i.guarded_old
      i.old_guarded there)

guard_flag_keeps :
    (txt line other : List ℕ)
    → Independent line other
    → IsGuarded txt line
    → IsGuarded (guard_flag txt other) line
unfolding guard_flag
guard_flag_keeps txt line other i h = elim (Bool-cases (contains txt other)) [
  | inl present ↦ elim (Bool-cases (contains txt (guarded other))) [
    | inl old ↦ rw (present, old) h
    | inr new ↦ rw (present, new) (replace_first-IsGuarded txt line other i h)
  ]
  | inr absent ↦ rw absent h
]

independent : Independent extended_identifiers stack_reuse
unfolding apart guarded extended_identifiers stack_reuse
independent = record { old_new = refl; new_old = refl; guarded_old = refl; old_guarded = refl }

-- Every flag of the list is guarded.
abbrev pub AllGuarded : List ℕ → Type 0
AllGuarded txt = IsGuarded txt extended_identifiers × IsGuarded txt stack_reuse

pub patch_top_cmake-AllGuarded : (txt : List ℕ) → AllGuarded (patch_top_cmake txt)
unfolding patch_top_cmake guard_flags gcc_only_flag_lines
patch_top_cmake-AllGuarded txt = (
  guard_flag_keeps (guard_flag txt extended_identifiers) extended_identifiers stack_reuse
      independent (guard_flag-IsGuarded txt extended_identifiers),
  guard_flag-IsGuarded (guard_flag txt extended_identifiers) stack_reuse,
)

-- A pass of the loop puts the condition round one occurrence of the flag, or changes nothing.
abbrev pub Guards : List ℕ → List ℕ → List ℕ → Type 0
Guards line txt out = (out ≡ txt) ⊎ Edited txt line (guarded line) out

guard_flag-Guards : (txt line : List ℕ) → Guards line txt (guard_flag txt line)
unfolding guard_flag
guard_flag-Guards txt line = elim (Bool-cases (contains txt line)) [
  | inl present ↦ elim (Bool-cases (contains txt (guarded line))) [
    | inl old ↦ inl (rw (present, old))
    | inr new ↦ inr (rw (present, new) (replace_first-Edited txt line (guarded line) present))
  ]
  | inr absent ↦ inl (rw absent)
]

-- What the two passes amount to.
abbrev pub TopPatched : List ℕ → List ℕ → Type 0
TopPatched txt out =
    (mid : List ℕ) × Guards extended_identifiers txt mid
    × Guards stack_reuse mid out
    × AllGuarded out

pub patch_top_cmake-TopPatched : (txt : List ℕ) → TopPatched txt (patch_top_cmake txt)
unfolding patch_top_cmake guard_flags gcc_only_flag_lines
patch_top_cmake-TopPatched txt = (
  guard_flag txt extended_identifiers,
  guard_flag-Guards txt extended_identifiers,
  guard_flag-Guards (guard_flag txt extended_identifiers) stack_reuse,
  patch_top_cmake-AllGuarded txt,
)

pub patch_top_cmake_again : (txt : List ℕ) → AllGuarded txt → patch_top_cmake txt ≡ txt
unfolding patch_top_cmake guard_flags gcc_only_flag_lines
patch_top_cmake_again txt (h, k) =
    ap (λ t. guard_flag t stack_reuse) (guard_flag_again txt extended_identifiers h)
    ∙ guard_flag_again txt stack_reuse k
