-- ===== src/Hardware/Gpus/Others.antt =====
-- The order in which the sources of the GPUs are asked.
use minebtx.Prelude.{◌≡◌, ap, [], if◌then◌else◌}
use minebtx.Hardware.{nvidia_query}
use minebtx.Hardware.Processor.{is_mac}
use minebtx.Hardware.Gpus.{
  GpuProbes, enumerate_gpus, apple_gpus, amd_gpus, nvidia_gpus, or_amd_gpus,
}

-- Where nvidia-smi lists no GPU, the others are asked.
pub enumerate_gpus-others :
    (p : GpuProbes)
    → nvidia_gpus (nvidia_query p.smi) ≡ []
    → enumerate_gpus p
      ≡ (if is_mac p.system then apple_gpus p.is_arm64 p.sysctl p.ioreg p.hostname else amd_gpus p)
unfolding enumerate_gpus or_amd_gpus
enumerate_gpus-others p h =
    ap
      (λ gpus.
        if is_mac p.system
        then apple_gpus p.is_arm64 p.sysctl p.ioreg p.hostname
        else or_amd_gpus gpus (amd_gpus p))
      h
