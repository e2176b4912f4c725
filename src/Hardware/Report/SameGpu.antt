-- ===== src/Hardware/Report/SameGpu.antt =====
-- Without rows of nvidia-smi the periodic report names the first GPU of the static one.
use minebtx.Prelude.{
  String, ◌≡◌, refl, ◌∙◌, sym, ap, Bool, true, false, List, [], ◌∷◌, if◌then◌else◌,
}
use minebtx.Hardware.{nvidia_query}
use minebtx.Hardware.Processor.{is_mac}
use minebtx.Hardware.Gpus.{StaticGpu, GpuProbes, enumerate_gpus, nvidia_gpus}
use minebtx.Hardware.Gpus.Others.{enumerate_gpus-others}
use minebtx.Hardware.Runtime.{Gpu, all_rows, first_only, idle_gpu}
use minebtx.Hardware.Runtime.Fallback.{gpu_runtime-first_only}
use minebtx.Hardware.Report.{uuids, runtime_gpus}

-- The first GPU of a static report, without a figure.
abbrev pub first_idle : List StaticGpu → List Gpu
first_idle [] = []
first_idle (g ∷ gpus) = idle_gpu g.gpu_uuid ∷ []

first_only-uuids : (gpus : List StaticGpu) → first_only (uuids gpus) ≡ first_idle gpus
unfolding first_only uuids
first_only-uuids [] = refl
first_only-uuids (g ∷ gpus) = refl

uuids-if :
    (b : Bool) (xs ys : List StaticGpu)
    → (if b then uuids xs else uuids ys) ≡ uuids (if b then xs else ys)
uuids-if true xs ys = refl
uuids-if false xs ys = refl

-- Where nvidia-smi lists no GPU, neither at the start nor in a sample, the periodic report names the first GPU of the
-- static report, without a figure and not latched, and no other GPU.
runtime_gpus-first_idle :
    (p : GpuProbes) (samples : List (List (List String)))
    → nvidia_gpus (nvidia_query p.smi) ≡ []
    → all_rows samples ≡ []
    → runtime_gpus p samples ≡ first_idle (enumerate_gpus p)
unfolding runtime_gpus
runtime_gpus-first_idle p samples h k =
    gpu_runtime-first_only (is_mac p.system) _ _ samples k
    ∙ ap first_only (uuids-if (is_mac p.system) _ _)
    ∙ first_only-uuids _
    ∙ ap first_idle (sym (enumerate_gpus-others p h))
