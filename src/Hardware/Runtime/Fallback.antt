-- ===== src/Hardware/Runtime/Fallback.antt =====
-- Where nvidia-smi gives no rows, the report names one GPU without a figure.
use minebtx.Prelude.{String, ◌≡◌, refl, Bool, true, false, List, [], if◌then◌else◌}
use minebtx.Hardware.Runtime.{gpu_runtime, all_rows, accumulate, gpus_of, or_amd, first_only}

pub gpu_runtime-first_only :
    (is_mac : Bool) (apple amd : List String) (samples : List (List (List String)))
    → all_rows samples ≡ []
    → gpu_runtime is_mac apple amd samples ≡ first_only (if is_mac then apple else amd)
unfolding gpu_runtime accumulate gpus_of or_amd
gpu_runtime-first_only true apple amd samples h = refl
gpu_runtime-first_only false apple amd samples h = rw h refl
