-- ===== src/BuildScript.antt =====
-- scripts/inject-hip-cmake.py: the edits that give the upstream CMake files a HIP backend. A file is its text.
pub mod TopFile
pub mod SrcFile
pub mod Runs
use minebtx.Prelude.{
  String, Bool, true, false, not, Option, none, some, List, [], ◌∷◌, ◌++◌, ℕ, str_eq, if◌then◌else◌,
}
use minebtx.Py.Result.{Result, ok, err, os_error, system_exit}
use minebtx.Py.Text.{codes}
use minebtx.Py.Edit.{lines, contains, replace_first}

-- The options of the backend.
unfoldable pub hip_option_block : List ℕ
hip_option_block = lines (
    "" ∷ "# ---- BTX experimental HIP/ROCm backend (AMD GPUs) — injected by CI ----------"
    ∷ "option(BTX_ENABLE_HIP_EXPERIMENTAL \"Enable experimental HIP/ROCm backend for AMD GPUs (mutually exclusive with CUDA)\" OFF)"
    ∷ "set(BTX_HIP_ARCHITECTURES \"\" CACHE STRING \"Semicolon-separated AMD GPU archs (e.g. gfx1030;gfx1100;gfx1101)\")"
    ∷ "if(BTX_ENABLE_CUDA_EXPERIMENTAL AND BTX_ENABLE_HIP_EXPERIMENTAL)"
    ∷ "  message(FATAL_ERROR \"BTX_ENABLE_CUDA_EXPERIMENTAL and BTX_ENABLE_HIP_EXPERIMENTAL are mutually exclusive.\")"
    ∷ "endif()" ∷ "if(BTX_ENABLE_HIP_EXPERIMENTAL)" ∷ "  if(BTX_HIP_ARCHITECTURES STREQUAL \"\")"
    ∷ "    message(FATAL_ERROR \"BTX_ENABLE_HIP_EXPERIMENTAL=ON requires BTX_HIP_ARCHITECTURES (e.g. gfx1030;gfx1100).\")"
    ∷ "  endif()" ∷ "  if(NOT DEFINED CMAKE_HIP_COMPILER AND NOT DEFINED CMAKE_HIP_PLATFORM)"
    ∷ "    set(CMAKE_HIP_PLATFORM amd)" ∷ "  endif()" ∷ "  include(CheckLanguage)"
    ∷ "  check_language(HIP)" ∷ "  if(NOT CMAKE_HIP_COMPILER)"
    ∷ "    message(FATAL_ERROR \"BTX_ENABLE_HIP_EXPERIMENTAL=ON requires hipcc (ROCm 6.2+).\")"
    ∷ "  endif()" ∷ "  enable_language(HIP)" ∷ "  find_package(hip REQUIRED)" ∷ "endif()"
    ∷ "# ----------------------------------------------------------------------------" ∷ "" ∷ [])

-- The line that the options go in front of.
unfoldable pub add_lib_anchor : List ℕ
add_lib_anchor = codes "add_library(btx_matmul_backend STATIC EXCLUDE_FROM_ALL"

-- The branch without a GPU.
unfoldable pub cuda_stub_block : List ℕ
cuda_stub_block = lines (
    "else()" ∷ "  target_sources(btx_matmul_backend PRIVATE" ∷ "    cuda/matmul_accel_stub.cpp"
    ∷ "    cuda/oracle_accel_stub.cpp" ∷ "  )" ∷ "endif()" ∷ [])

-- The same with a branch for HIP in front.
unfoldable pub hip_branch : List ℕ
hip_branch = lines (
    "elseif(BTX_ENABLE_HIP_EXPERIMENTAL)"
    ∷ "  # HIP/ROCm backend (AMD). Hipified from cuda/ at build time; implements the"
    ∷ "  # same btx::cuda:: interface, so it presents to backend_capabilities as \"cuda\"."
    ∷ "  target_sources(btx_matmul_backend PRIVATE" ∷ "    hip/cuda_context.cpp"
    ∷ "    hip/matmul_accel.hip" ∷ "    hip/oracle_accel.hip" ∷ "  )"
    ∷ "  set_source_files_properties(hip/matmul_accel.hip hip/oracle_accel.hip PROPERTIES LANGUAGE HIP)"
    ∷ "  target_compile_definitions(btx_matmul_backend PRIVATE BTX_ENABLE_CUDA_EXPERIMENTAL=1 __HIP_PLATFORM_AMD__=1)"
    ∷ "  target_link_libraries(btx_matmul_backend PRIVATE hip::host)"
    ∷ "  set_target_properties(btx_matmul_backend PROPERTIES"
    ∷ "    HIP_ARCHITECTURES \"${BTX_HIP_ARCHITECTURES}\"" ∷ "    HIP_STANDARD 20"
    ∷ "    HIP_STANDARD_REQUIRED ON)" ∷ "else()" ∷ "  target_sources(btx_matmul_backend PRIVATE"
    ∷ "    cuda/matmul_accel_stub.cpp" ∷ "    cuda/oracle_accel_stub.cpp" ∷ "  )" ∷ "endif()" ∷ [])

-- The name by which a patched file is known.
unfoldable pub marker : List ℕ
marker = codes "BTX_ENABLE_HIP_EXPERIMENTAL"

-- The flags that only GCC takes.
unfoldable pub extended_identifiers : List ℕ
extended_identifiers =
    codes "try_append_cxx_flags(\"-fno-extended-identifiers\" TARGET core_interface SKIP_LINK)"

unfoldable pub stack_reuse : List ℕ
stack_reuse = codes "try_append_cxx_flags(\"-fstack-reuse=none\" TARGET core_interface)"

unfoldable pub gcc_only_flag_lines : List (List ℕ)
gcc_only_flag_lines = extended_identifiers ∷ stack_reuse ∷ []

-- `_patch_src_cmake`: the text that the file holds afterwards.
unfoldable pub patch_src_cmake : List ℕ → Result (List ℕ)
patch_src_cmake txt =
    if contains txt marker
    then ok txt
    else if not (contains txt add_lib_anchor)
    then err system_exit
    else if not (contains txt cuda_stub_block)
    then err system_exit
    else ok (
        replace_first
          (replace_first txt add_lib_anchor (hip_option_block ++ b'\n' ∷ add_lib_anchor))
          cuda_stub_block hip_branch)

pub guarded : List ℕ → List ℕ
guarded line = codes "if(NOT BTX_ENABLE_HIP_EXPERIMENTAL)\n  " ++ line ++ codes "\nendif()"

-- One pass of the loop of `_patch_top_cmake`.
pub guard_flag : List ℕ → List ℕ → List ℕ
guard_flag txt line =
    if not (contains txt line)
    then txt
    else if contains txt (guarded line)
    then txt
    else replace_first txt line (guarded line)

guard_flags : List ℕ → List (List ℕ) → List ℕ
guard_flags txt [] = txt
guard_flags txt (line ∷ rest) = guard_flags (guard_flag txt line) rest

-- `_patch_top_cmake`
pub patch_top_cmake : List ℕ → List ℕ
patch_top_cmake txt = guard_flags txt gcc_only_flag_lines

-- The two files under a root, where they are there.
pub record Tree : Type 0 where
  pub src_file : Option (List ℕ)
  pub top_file : Option (List ℕ)

then_top : Tree → Option (List ℕ) → Tree × Result (Unit {0})
then_top t none = (t, err os_error)
then_top t (some txt) = (record t { top_file = some (patch_top_cmake txt) }, ok tt)

then_src : Tree → Result (List ℕ) → Tree × Result (Unit {0})
then_src t (err e) = (t, err e)
then_src t (ok txt) = then_top (record t { src_file = some txt }) t.top_file

read_src : Tree → Option (List ℕ) → Tree × Result (Unit {0})
read_src t none = (t, err os_error)
read_src t (some txt) = then_src t (patch_src_cmake txt)

-- Both files; an exception ends the run behind what was written before.
unfoldable pub patch_tree : Tree → Tree × Result (Unit {0})
unfolding read_src then_src then_top
patch_tree t = read_src t t.src_file

-- A path by its parts, the last one first; `.` has none.
abbrev pub FilePath : Type 0
FilePath = List String

parent_of_src : FilePath → FilePath
parent_of_src [] = []
parent_of_src (dir ∷ up) = if str_eq dir "src" then up else dir ∷ up

unfoldable pub root_of : FilePath → FilePath
unfolding parent_of_src
root_of [] = []
root_of (name ∷ up) = if str_eq name "CMakeLists.txt" then parent_of_src up else name ∷ up

-- `main`, on the trees that the disk has under its paths
pub main : (FilePath → Tree) → FilePath → Tree × Result (Unit {0})
main disk arg = patch_tree (disk (root_of arg))
