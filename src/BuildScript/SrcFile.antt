-- ===== src/BuildScript/SrcFile.antt =====
-- `_patch_src_cmake` puts both pieces of the wiring in place.
use minebtx.Prelude.{
  ◌≡◌, refl, sym, subst, ◌∙◌, true, false, List, ◌∷◌, ◌++◌, ℕ, ◌⊎◌, inl, inr, arith, Bool-cases,
}
use minebtx.Py.Result.{ok}
use minebtx.Py.Edit.{contains, replace_first}
use minebtx.Py.Edit.Laws.{
  Edited, replace_first-Edited, contains-replace_first, contains-replace_first-apart, apart,
}
use minebtx.BuildScript.{
  hip_option_block, add_lib_anchor, cuda_stub_block, hip_branch, marker, patch_src_cmake,
}

-- The text after the first of the two edits.
abbrev pub with_options : List ℕ → List ℕ
with_options txt = replace_first txt add_lib_anchor (hip_option_block ++ b'\n' ∷ add_lib_anchor)

stub_apart :
    (apart cuda_stub_block add_lib_anchor ≡ true) × (apart add_lib_anchor cuda_stub_block ≡ true)
unfolding apart cuda_stub_block add_lib_anchor
stub_apart = (refl, refl)

branch_marked : contains hip_branch marker ≡ true
unfolding hip_branch marker
branch_marked = refl

-- What the two edits of a file without the wiring amount to.
abbrev pub Wired : List ℕ → List ℕ → Type 0
Wired txt out =
    Edited txt add_lib_anchor (hip_option_block ++ b'\n' ∷ add_lib_anchor) (with_options txt)
    × Edited (with_options txt) cuda_stub_block hip_branch out
    × (contains out marker ≡ true)

wired :
    (txt : List ℕ)
    → contains txt add_lib_anchor ≡ true
    → contains txt cuda_stub_block ≡ true
    → Wired txt (replace_first (with_options txt) cuda_stub_block hip_branch)
wired txt anchor stub =
    let kept =
      contains-replace_first-apart txt add_lib_anchor _ cuda_stub_block stub_apart.0 stub_apart.1
        stub in
    (
      replace_first-Edited txt add_lib_anchor _ anchor,
      replace_first-Edited (with_options txt) cuda_stub_block hip_branch kept,
      contains-replace_first (with_options txt) cuda_stub_block hip_branch marker kept
          branch_marked,
    )

patch_src_cmake_new :
    (txt : List ℕ) {out : List ℕ}
    → contains txt marker ≡ false
    → patch_src_cmake txt ≡ ok out
    → (contains txt add_lib_anchor ≡ true)
      × (contains txt cuda_stub_block ≡ true)
      × (replace_first (with_options txt) cuda_stub_block hip_branch ≡ out)
unfolding patch_src_cmake
patch_src_cmake_new txt new h = ground (arith, h)

patch_src_cmake-Wired :
    (txt : List ℕ) {out : List ℕ}
    → contains txt marker ≡ false
    → patch_src_cmake txt ≡ ok out
    → Wired txt out
patch_src_cmake-Wired txt new h =
    let (anchor, stub, e) = patch_src_cmake_new txt new h in
    subst (Wired txt) e (wired txt anchor stub)

pub patch_src_cmake_old : (txt : List ℕ) → contains txt marker ≡ true → patch_src_cmake txt ≡ ok txt
unfolding patch_src_cmake
patch_src_cmake_old txt h = rw h

ok_inj : {s t : List ℕ} → ok s ≡ ok t → s ≡ t
ok_inj h = cc

pub patch_src_cmake-marked :
    (txt : List ℕ) {out : List ℕ} → patch_src_cmake txt ≡ ok out → contains out marker ≡ true
patch_src_cmake-marked txt {out} h = elim (Bool-cases (contains txt marker)) [
  | inl old ↦
      subst (λ t. contains t marker ≡ true) (ok_inj (sym (patch_src_cmake_old txt old) ∙ h)) old
  | inr new ↦ (patch_src_cmake-Wired txt new h).2
]

-- A file that has the wiring is left alone, and any other gets it.
abbrev pub SrcPatched : List ℕ → List ℕ → Type 0
SrcPatched txt out = ((contains txt marker ≡ true) × (out ≡ txt)) ⊎ Wired txt out

pub patch_src_cmake-SrcPatched :
    (txt : List ℕ) {out : List ℕ} → patch_src_cmake txt ≡ ok out → SrcPatched txt out
patch_src_cmake-SrcPatched txt h = elim (Bool-cases (contains txt marker)) [
  | inl old ↦ inl (old, ok_inj (sym h ∙ patch_src_cmake_old txt old))
  | inr new ↦ inr (patch_src_cmake-Wired txt new h)
]
