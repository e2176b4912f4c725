-- ===== src/Hardware/Gpus.antt =====
-- The GPUs of the static report: `_enumerate_gpus` with `_apple_gpus` and `_amd_gpus`, and `_driver_and_cuda`.
pub mod Others
use minebtx.Prelude.{
  ℕ, ◌^◌, String, Bool, true, false, not, ◌&&◌, ◌||◌, Option, none, some, List, [], ◌∷◌, ◌<>◌, ◌==◌,
  str_eq, starts_with, if◌then◌else◌,
}
use minebtx.Prelude.Int.{ℤ, pos}
use minebtx.Py.Result.{Result, ok, err}
use minebtx.Py.Value.{Decimal}
use minebtx.Py.Text.{strip_text, is_space, is_digit}
use minebtx.Py.Number.{float_of_text, int_of_text}
use minebtx.Py.Assoc.{Assoc, lookup, insert}
use minebtx.Py.Lines.{lower, only_alphanumeric, without_char, text_in, any_in, splitlines}
use minebtx.Py.Round.{round_mean, round_ratio, zero_decimal}
use minebtx.Py.Regex.{Piece, text, spaces, run, search_group, search_gfx, is_hex}
use minebtx.Hardware.{nvidia_query}
use minebtx.Hardware.Processor.{System, is_mac}

pub record StaticGpu : Type 0 where
  pub model : String
  pub vram_gb : Option Decimal
  pub compute_capability : Option String
  pub pcie_link : Option String
  pub gpu_uuid : String

or_text : Option String → String → String
or_text none s = s
or_text (some t) s = if str_eq t "" then s else t

-- The first group of a pattern in an output that is not empty.
group_in : List Piece → Option String → Option String
group_in pieces none = none
group_in pieces (some out) = if str_eq out "" then none else search_group pieces out

first_line : List String → Option String
first_line [] = none
first_line (line ∷ lines) = if str_eq (strip_text line) "" then none else some (strip_text line)

driver_of : Option String → Option String
driver_of none = none
driver_of (some out) = if str_eq out "" then none else first_line (splitlines out)

-- `_driver_and_cuda`, on the outputs of the two commands
pub driver_and_cuda : Option String → Option String → Option String × Option String
driver_and_cuda driver smi = (
  driver_of driver,
  group_in (text "CUDA Version:" ∷ spaces ∷ run (λ c. not (is_space c)) ∷ []) smi,
)

chip_or : Option String → String
chip_or none = "Apple Silicon"
chip_or (some out) = if starts_with out "Apple" then strip_text out else "Apple Silicon"

-- `_apple_chip_brand`
pub apple_chip_brand : Option String → String
apple_chip_brand sysctl = chip_or sysctl

or_option : Option String → Option String → Option String
or_option none b = b
or_option (some a) b = some a

lowered : Option String → Option String
lowered none = none
lowered (some s) = some (lower (strip_text s))

quoted : String → (ℕ → Bool) → List Piece
quoted name test =
    text (String.◌∷◌ "\"" name <> "\"")
    ∷ spaces
    ∷ text "="
    ∷ spaces
    ∷ text "\""
    ∷ run test
    ∷ text "\""
    ∷ []

-- `_apple_platform_uuid`; neither a UUID nor its lower case has spaces around it.
pub apple_platform_uuid : Option String → Option String
apple_platform_uuid ioreg =
    or_option (lowered (group_in (quoted "IOPlatformUUID" is_hex) ioreg))
      (lowered (group_in (quoted "IOPlatformSerialNumber" (λ c. not (c == b'"'))) ioreg))

host_or : Option String → String
host_or hostname = lower (or_text hostname "unknown")

-- `_apple_gpu_uuid`
pub apple_gpu_uuid : Option String → Option String → Option String → String
apple_gpu_uuid sysctl ioreg hostname =
    "apple-"
    <> (or_text (some (only_alphanumeric (lower (apple_chip_brand sysctl)))) "applesilicon"
        <> ("-" <> or_text (apple_platform_uuid ioreg) (host_or hostname)))

-- `_apple_gpus`, on a machine with macOS
pub apple_gpus : Bool → Option String → Option String → Option String → List StaticGpu
apple_gpus is_arm64 sysctl ioreg hostname =
    if not is_arm64
    then []
    else record {
      model = apple_chip_brand sysctl <> " GPU";
      vram_gb = some zero_decimal;
      compute_capability = some "metal_3";
      pcie_link = none;
      gpu_uuid = apple_gpu_uuid sysctl ioreg hostname;
    }
      ∷ []

supported : String → Bool
supported s = not (str_eq s "") && not (str_eq s "[Not Supported]")

gb_of : Result Decimal → Option Decimal
gb_of (err e) = none
gb_of (ok mb) = some (round_mean 2 mb 1_024)

pub nvidia_gpu : String → String → String → String → String → String → StaticGpu
nvidia_gpu model vram_mb cc pcie_gen pcie_width uuid = record {
  model = model;
  vram_gb = if supported vram_mb then gb_of (float_of_text vram_mb) else none;
  compute_capability = if supported cc then some ("sm_" <> without_char b'.' cc) else none;
  pcie_link =
      if supported pcie_gen && not (str_eq pcie_width "") && not (str_eq pcie_gen "[N/A]")
      then some ("Gen" <> (pcie_gen <> (" x" <> pcie_width)))
      else none;
  gpu_uuid = uuid;
}

-- A row with fewer than six cells is passed over.
unfoldable pub nvidia_gpus : List (List String) → List StaticGpu
nvidia_gpus [] = []
nvidia_gpus ((model ∷ vram ∷ cc ∷ gen ∷ width ∷ uuid ∷ more) ∷ rows) =
    nvidia_gpu model vram cc gen width uuid ∷ nvidia_gpus rows
nvidia_gpus (cells ∷ rows) = nvidia_gpus rows

-- What rocm-smi says of a card; its values are texts.
abbrev pub Info : Type 0
Info = Assoc String

lower_keys : Info → Info → Info
lower_keys low [] = low
lower_keys low ((k, v) ∷ info) = lower_keys (insert (lower k) v low) info

first_model : Info → List String → String
first_model low [] = "AMD GPU"
first_model low (name ∷ names) = or_text (lookup name low) (first_model low names)

amd_model : Info → String
amd_model low =
    let model =
      or_text
        (some (
          strip_text
            (first_model low ("card series" ∷ "card model" ∷ "device name" ∷ "gpu id" ∷ []))))
        "AMD GPU" in
    if any_in ("amd" ∷ "radeon" ∷ "instinct" ∷ []) (lower model) then model else "AMD " <> model

unique_id : Info → String
unique_id low = elim (lookup "unique id" low) [
  | none ↦ ""
  | some s ↦ only_alphanumeric (lower (strip_text s))
]

-- The part of the UUID that names the card.
identity : String → Info → Option String → String
identity card low hostname =
    or_text (some (unique_id low)) (only_alphanumeric (lower card) <> ("-" <> host_or hostname))

take_vram : Option Decimal → Result ℤ → Option Decimal
take_vram old (err e) = old
take_vram old (ok n) = some (round_ratio 2 n (1_024 ^ 3))

vram_of : Option Decimal → Info → Option Decimal
vram_of old [] = old
vram_of old ((k, v) ∷ low) =
    vram_of (if text_in "vram total memory" k then take_vram old (int_of_text 10 v) else old) low

or_zero : Option Decimal → Decimal
or_zero none = zero_decimal
or_zero (some d) = d

amd_gpu : Option String → Option String → String → Info → StaticGpu
amd_gpu gfx hostname card low = record {
  model = amd_model low;
  vram_gb = some (or_zero (vram_of none low));
  compute_capability = some (or_text gfx "rocm");
  pcie_link = none;
  gpu_uuid =
      "amd-"
      <> (only_alphanumeric (lower (or_text gfx "amdgpu")) <> ("-" <> identity card low hostname));
}

amd_cards : Option String → Option String → Assoc Info → List StaticGpu
amd_cards gfx hostname [] = []
amd_cards gfx hostname ((card, info) ∷ cards) =
    let others = amd_cards gfx hostname cards in
    if starts_with (lower card) "card"
    then amd_gpu gfx hostname card (lower_keys [] info) ∷ others
    else others

gfx_of_info : Info → Option String
gfx_of_info [] = none
gfx_of_info ((k, v) ∷ info) = or_option (search_gfx false v) (gfx_of_info info)

gfx_of_cards : Assoc Info → Option String
gfx_of_cards [] = none
gfx_of_cards ((card, info) ∷ cards) = or_option (gfx_of_info info) (gfx_of_cards cards)

gfx_in : Option String → Option String
gfx_in none = none
gfx_in (some out) = search_gfx true out

-- `_amd_gfx_target`, on rocminfo and on the versions that rocm-smi gives
pub amd_gfx_target : Option String → Assoc Info → Option String
amd_gfx_target rocminfo versions = or_option (gfx_in rocminfo) (gfx_of_cards versions)

-- What the commands about GPUs print.
pub record GpuProbes : Type 0 where
  pub system : System
  pub is_arm64 : Bool
  pub sysctl : Option String
  pub ioreg : Option String
  pub hostname : Option String
  pub smi : Option String
  pub rocminfo : Option String
  pub rocm_versions : Assoc Info
  pub rocm_cards : Assoc Info

amd_on : System → GpuProbes → List StaticGpu
amd_on System.linux p =
    amd_cards (amd_gfx_target p.rocminfo p.rocm_versions) p.hostname p.rocm_cards
amd_on system p = []

-- `_amd_gpus`
pub amd_gpus : GpuProbes → List StaticGpu
amd_gpus p = amd_on p.system p

or_amd_gpus : List StaticGpu → List StaticGpu → List StaticGpu
or_amd_gpus [] amd = amd
or_amd_gpus (g ∷ gpus) amd = g ∷ gpus

-- `_enumerate_gpus`
pub enumerate_gpus : GpuProbes → List StaticGpu
enumerate_gpus p =
    if is_mac p.system
    then apple_gpus p.is_arm64 p.sysctl p.ioreg p.hostname
    else or_amd_gpus (nvidia_gpus (nvidia_query p.smi)) (amd_gpus p)
