-- ===== src/Witnesses/Hardware.antt =====
-- The reports on concrete readings.
use minebtx.Prelude.{◌≡◌, refl, false, Option, none, some, String, List, [], ◌∷◌, All, arith}
use minebtx.Prelude.Int.{ℤ, pos, ◌<ℤ◌, ◌+ℤ◌}
use minebtx.Py.Lines.{splitlines}
use minebtx.Hardware.{nvidia_query}
use minebtx.Hardware.Processor.{linux, sum_of}
use minebtx.Hardware.Numa.{Device}
use minebtx.Hardware.Gpus.{GpuProbes, nvidia_gpus}
use minebtx.Py.Number.{float_of_text}
use minebtx.Hardware.Runtime.{
  Row, add_row, fresh_accum, or_fresh, Accum, gpu_of, gpu_runtime, all_rows, row_of,
}
use minebtx.Hardware.Runtime.Own.{own_rows, find_gpu, Distinct, gpu_runtime-own}
use minebtx.Hardware.Runtime.Percent.{RowReadsPercent, AllInPercent, gpu_runtime-AllInPercent}

cut_example : ◌≡◌ {A = List String} (splitlines "a, b\r\n\nc\n") ("a, b" ∷ "" ∷ "c" ∷ [])
unfolding splitlines
cut_example = refl

-- Two GPUs in two samples.
abbrev samples : List (List (List String))
samples =
    (("GPU-a" ∷ "98" ∷ "70.5" ∷ "61" ∷ "P2" ∷ "1800" ∷ "300" ∷ [])
      ∷ ("GPU-b" ∷ "10" ∷ "30" ∷ "40" ∷ [])
      ∷ [])
    ∷ (("GPU-a" ∷ "95" ∷ "[N/A]" ∷ "62" ∷ "P2" ∷ "1790" ∷ "300" ∷ []) ∷ [])
    ∷ []

abbrev first_row : Row
first_row = record {
  uuid = "GPU-a";
  util = "98";
  power = "70.5";
  temp = "61";
  pstate = "P2";
  clk_sm = "1800";
  plimit = "300";
}

abbrev second_row : Row
second_row = record first_row { util = "95"; power = "[N/A]"; temp = "62"; clk_sm = "1790" }

-- The readings of the first GPU.
abbrev own : Accum
own = add_row second_row (add_row first_row fresh_accum)

own_lem : own_rows "GPU-a" none (all_rows samples) ≡ some own
unfolding all_rows row_of or_fresh
own_lem = refl

gpu_runtime-own_example :
    (find_gpu "GPU-a" (gpu_runtime false [] [] samples) ≡ some (gpu_of "GPU-a" own))
    × Distinct (gpu_runtime false [] [] samples)
gpu_runtime-own_example = gpu_runtime-own [] [] samples "GPU-a" {d = own} own_lem

samples-RowReadsPercent : All (λ cells. RowReadsPercent (row_of cells)) (all_rows samples)
unfolding all_rows row_of float_of_text
samples-RowReadsPercent = omega arith

gpu_runtime-AllInPercent_example : AllInPercent (gpu_runtime false [] [] samples)
gpu_runtime-AllInPercent_example =
    gpu_runtime-AllInPercent false [] [] samples samples-RowReadsPercent

abbrev before : List ℤ
before = pos 100 ∷ pos 0 ∷ pos 50 ∷ pos 800 ∷ pos 5 ∷ pos 0 ∷ pos 1 ∷ []

abbrev after : List ℤ
after = pos 170 ∷ pos 0 ∷ pos 60 ∷ pos 820 ∷ pos 5 ∷ pos 0 ∷ pos 1 ∷ []

grown : sum_of before <ℤ sum_of after
unfolding sum_of ◌+ℤ◌
grown = omega arith

-- Two nodes, an NVIDIA GPU on the second one, and one on no node.
abbrev devices : List Device
devices =
    record {
      entry = "0000:01:00.0";
      class = some "0x030000\n";
      vendor = some "0x10de\n";
      numa_node = some "1\n";
    }
    ∷ record {
      entry = "0000:02:00.0";
      class = some "0x030200\n";
      vendor = some "0x10de\n";
      numa_node = some "-1\n";
    }
    ∷ []

abbrev bus_lines : Option String
bus_lines = some "GPU-a, 00000000:01:00.0\nGPU-b, 00000000:02:00.0\n"

-- A machine with an AMD card.
abbrev amd_rig : GpuProbes
amd_rig = record {
  system = linux;
  is_arm64 = false;
  sysctl = none;
  ioreg = none;
  hostname = some "rig-7";
  smi = none;
  rocminfo = some "  Name: gfx1100\n";
  rocm_versions = [];
  rocm_cards = ("card0", ("Card Series", "Radeon RX 7900 XTX") ∷ ("Unique ID", "0xAB12") ∷ []) ∷ [];
}

no_rows : nvidia_gpus (nvidia_query amd_rig.smi) ≡ []
unfolding nvidia_gpus nvidia_query
no_rows = refl

no_samples : all_rows [] ≡ []
unfolding all_rows
no_samples = refl
