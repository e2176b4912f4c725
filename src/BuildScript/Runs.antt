-- ===== src/BuildScript/Runs.antt =====
-- Whole runs of the build script.
use minebtx.Prelude.{
  ◌∷◌, ◌++◌, ◌⊎◌, inl, inr, Bool-cases, ◌≡◌, refl, sym, subst, ap, true, Option, none, some, List,
  ℕ,
}
use minebtx.Py.Result.{Result, ok, err}
use minebtx.Py.Edit.{contains, replace_first}
use minebtx.BuildScript.{
  marker, add_lib_anchor, cuda_stub_block, hip_option_block, hip_branch, marker, patch_src_cmake,
  patch_top_cmake, Tree, then_top, then_src, read_src, patch_tree,
}
use minebtx.BuildScript.TopFile.{
  TopPatched, AllGuarded, patch_top_cmake-TopPatched, patch_top_cmake-AllGuarded,
  patch_top_cmake_again,
}
use minebtx.BuildScript.SrcFile.{
  SrcPatched, patch_src_cmake-SrcPatched, patch_src_cmake-marked, patch_src_cmake_old,
}

-- What a run that returns leaves: the first file as its edit left it, and the second one guarded.
abbrev pub Patched : Tree → Tree → Type 0
Patched t t' =
    (txt : List ℕ) × (out : List ℕ) × (top : List ℕ) × (top' : List ℕ) × (t.src_file ≡ some txt)
    × (t'.src_file ≡ some out)
    × (t.top_file ≡ some top)
    × (t'.top_file ≡ some top')
    × SrcPatched txt out
    × TopPatched top top'

then_top-shape :
    (t : Tree) (top : Option (List ℕ)) {t' : Tree}
    → then_top t top ≡ (t', ok tt)
    → (txt : List ℕ) × (top ≡ some txt) × (t' ≡ record t { top_file = some (patch_top_cmake txt) })
unfolding then_top
then_top-shape t none h = cc
then_top-shape t (some txt) h = (txt, refl, cc)

then_src-shape :
    (t : Tree) (r : Result (List ℕ)) {t' : Tree}
    → then_src t r ≡ (t', ok tt)
    → (out : List ℕ) × (txt : List ℕ) × (r ≡ ok out)
      × (t.top_file ≡ some txt)
      × (t' ≡ record { src_file = some out; top_file = some (patch_top_cmake txt) })
unfolding then_src
then_src-shape t (err e) h = cc
then_src-shape t (ok out) h =
    let (txt, there, e) = then_top-shape (record t { src_file = some out }) t.top_file h in
    (out, txt, refl, there, e)

read_src-shape :
    (t : Tree) (r : Option (List ℕ)) {t' : Tree}
    → read_src t r ≡ (t', ok tt)
    → (src : List ℕ) × (out : List ℕ) × (txt : List ℕ) × (r ≡ some src)
      × (patch_src_cmake src ≡ ok out)
      × (t.top_file ≡ some txt)
      × (t' ≡ record { src_file = some out; top_file = some (patch_top_cmake txt) })
unfolding read_src
read_src-shape t none h = cc
read_src-shape t (some src) h =
    let (out, txt, e, there, k) = then_src-shape t (patch_src_cmake src) h in
    (src, out, txt, refl, e, there, k)

patch_tree_ok : (t : Tree) {t' : Tree} → patch_tree t ≡ (t', ok tt) → Patched t t'
unfolding patch_tree
patch_tree_ok t h =
    let (src, out, txt, e, k, there, shape) = read_src-shape t t.src_file h in
    (
      src,
      out,
      txt,
      patch_top_cmake txt,
      e,
      ap (λ (r : Tree). r.src_file) shape,
      there,
      ap (λ (r : Tree). r.top_file) shape,
      patch_src_cmake-SrcPatched src k,
      patch_top_cmake-TopPatched txt,
    )

patch_tree_done :
    (out top : List ℕ)
    → contains out marker ≡ true
    → AllGuarded top
    → patch_tree (record { src_file = some out; top_file = some top })
      ≡ (record { src_file = some out; top_file = some top }, ok tt)
unfolding patch_tree read_src then_src then_top
patch_tree_done out top h k = rw (patch_src_cmake_old out h, patch_top_cmake_again top k)

-- A run that returned leaves files that another run does not change.
pub patch_tree_again :
    (t : Tree) {t' : Tree} → patch_tree t ≡ (t', ok tt) → patch_tree t' ≡ (t', ok tt)
unfolding patch_tree
patch_tree_again t h =
    let (src, out, txt, e, k, there, shape) = read_src-shape t t.src_file h in
    subst (λ s. patch_tree s ≡ (s, ok tt)) (sym shape)
      (patch_tree_done out (patch_top_cmake txt) (patch_src_cmake-marked src k)
        (patch_top_cmake-AllGuarded txt))

-- The file has the wiring, or both of the texts that it goes to.
abbrev pub CanPatch : List ℕ → Type 0
CanPatch src =
    (contains src marker ≡ true)
    ⊎ ((contains src add_lib_anchor ≡ true) × (contains src cuda_stub_block ≡ true))

patch_src_cmake-returns :
    (src : List ℕ) → CanPatch src → (out : List ℕ) × (patch_src_cmake src ≡ ok out)
unfolding patch_src_cmake
patch_src_cmake-returns src (inl old) = (src, rw old)
patch_src_cmake-returns src (inr (anchor, stub)) = elim (Bool-cases (contains src marker)) [
  | inl old ↦ (src, rw old)
  | inr new ↦ (
    replace_first (replace_first src add_lib_anchor (hip_option_block ++ b'\n' ∷ add_lib_anchor))
        cuda_stub_block hip_branch,
    rw (new, anchor, stub),
  )
]

patch_tree-returns :
    (src top : List ℕ)
    → CanPatch src
    → (t' : Tree) × (patch_tree (record { src_file = some src; top_file = some top }) ≡ (t', ok tt))
unfolding patch_tree read_src then_src then_top
patch_tree-returns src top h =
    let (out, e) = patch_src_cmake-returns src h in
    (record { src_file = some out; top_file = some (patch_top_cmake top) }, rw e)

-- Where the first file has the wiring or both of the texts that it goes to, a run returns. Then the first file
-- either had the wiring and is unchanged, or has the options in front of one occurrence of the anchor and the
-- HIP branch in the place of one occurrence of the stub's block; and in the second file at most one occurrence
-- of each of the two GCC flags is guarded, nothing else changes, and a flag that is there is guarded somewhere.
pub patch_tree-Patched :
    (src top : List ℕ)
    → CanPatch src
    → (t' : Tree) × (patch_tree (record { src_file = some src; top_file = some top }) ≡ (t', ok tt))
      × Patched (record { src_file = some src; top_file = some top }) t'
patch_tree-Patched src top h =
    let (t', e) = patch_tree-returns src top h in (t', e, patch_tree_ok _ e)
