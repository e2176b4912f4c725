-- ===== src/Witnesses/Build.antt =====
-- The build script on concrete files.
use minebtx.Prelude.{◌≡◌, refl, some, inr, List, ◌∷◌, ◌++◌, ℕ, []}
use minebtx.Py.Result.{ok}
use minebtx.Py.Text.{codes}
use minebtx.BuildScript.{
  Tree, FilePath, add_lib_anchor, cuda_stub_block, marker, patch_tree, patch_src_cmake,
  extended_identifiers, root_of,
}
use minebtx.BuildScript.Runs.{CanPatch, Patched, patch_tree-Patched, patch_tree_again}

abbrev upstream_src : List ℕ
upstream_src = add_lib_anchor ++ codes " a.cpp)\nif(CUDA)\n" ++ cuda_stub_block

abbrev upstream_top : List ℕ
upstream_top = codes "project(x)\n" ++ extended_identifiers

upstream-CanPatch : CanPatch upstream_src
unfolding add_lib_anchor cuda_stub_block
upstream-CanPatch = inr (refl, refl)

patch_tree-Patched_example :
    (t' : Tree) × (patch_tree
        (record { src_file = some upstream_src; top_file = some upstream_top })
      ≡ (t', ok tt))
    × Patched (record { src_file = some upstream_src; top_file = some upstream_top }) t'
patch_tree-Patched_example = patch_tree-Patched upstream_src upstream_top upstream-CanPatch

abbrev patched : Tree
patched = (patch_tree (record { src_file = some upstream_src; top_file = some upstream_top })).0

upstream_returns :
    patch_tree (record { src_file = some upstream_src; top_file = some upstream_top })
    ≡ (patched, ok tt)
unfolding patch_tree add_lib_anchor cuda_stub_block marker patch_src_cmake
upstream_returns = refl

patch_tree_again_example : patch_tree patched ≡ (patched, ok tt)
patch_tree_again_example =
    patch_tree_again (record { src_file = some upstream_src; top_file = some upstream_top })
      {t' = patched} upstream_returns

root_of_examples :
    ◌≡◌ {A = FilePath} (root_of ("CMakeLists.txt" ∷ "src" ∷ "node" ∷ [])) ("node" ∷ [])
unfolding root_of
root_of_examples = refl
