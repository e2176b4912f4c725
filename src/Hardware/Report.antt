-- ===== src/Hardware/Report.antt =====
-- The two reports: `collect_static_hardware` and `collect_runtime_metrics`.
pub mod SameGpu
use minebtx.Prelude.{
  ℕ, String, Bool, true, false, not, ◌&&◌, ◌||◌, Option, none, some, List, [], ◌∷◌, ◌<>◌, ◌==◌, map,
  ◌≡◌, ap, sym, str_eq, if◌then◌else◌,
}
use minebtx.Prelude.Int.{ℤ}
use minebtx.Py.Result.{Result, ok, err, ◌>>=◌, >>=-eq-ok}
use minebtx.Py.Value.{Value, Decimal, null, dict, find_or}
use minebtx.Py.Text.{strip_text}
use minebtx.Py.Assoc.{Assoc, lookup, insert}
use minebtx.Py.Lines.{
  split, split_once, strip_char, lower, text_in, join, sort_texts, distinct_texts,
}
use minebtx.Py.Regex.{find_sm}
use minebtx.Hardware.Processor.{System, is_mac, cpu_model, ram_gb_total, ram_gb_used, cpu_util_pct}
use minebtx.Hardware.Environment.{Probes, Environment, detect_environment}
use minebtx.Hardware.Numa.{Device, Topology, collect_numa_topology}
use minebtx.Hardware.Gpus.{
  StaticGpu, GpuProbes, enumerate_gpus, apple_gpus, amd_gpus, driver_and_cuda,
}
use minebtx.Hardware.Runtime.{Gpu, gpu_runtime}

-- A line of /etc/os-release.
release_field : Assoc String → Option (String × String) → Assoc String
release_field fields none = fields
release_field fields (some (k, v)) = insert (strip_text k) (strip_char b'"' (strip_text v)) fields

release_fields : Assoc String → List String → Assoc String
release_fields fields [] = fields
release_fields fields (line ∷ lines) =
    release_fields (release_field fields (split_once b'=' line)) lines

get_or : String → String → Assoc String → String
get_or k default d = elim (lookup k d) [ none ↦ default | some v ↦ v ]

pretty_name : Assoc String → String
pretty_name fields =
    let name = get_or "PRETTY_NAME" "" fields in
    if str_eq name "" then get_or "NAME" "Linux" fields else name

linux_string : Option String → String → String
linux_string none rel = "Linux / " <> rel
linux_string (some txt) rel = pretty_name (release_fields [] (split b'\n' txt)) <> (" / " <> rel)

-- `_os_string`, on the system's name, its release and /etc/os-release
pub os_string : String → String → Option String → String
os_string sys rel release =
    if str_eq sys "Linux" then linux_string release rel else sys <> (" / " <> rel)

-- What the helper beside the solver prints, where it succeeds, by what `json.loads` makes of it.
pub data Helper : Type 0 where
  failed : Helper
  json : Value → Helper
  plain : String → Helper

backend_line : List String → Value
backend_line [] = null
backend_line (line ∷ lines) =
    let later = backend_line lines in
    if text_in "active_backend" (lower line)
    then (elim (split_once b':' line) [
      | none ↦ later
      | some (k, v) ↦ Value.str (strip_char b'"' (strip_text v))
    ])
    else later

-- An answer that is no dict has no `get`, and the exception is caught.
active_of : Helper → Value
active_of failed = null
active_of (json (dict d)) = find_or "active_backend" null d
active_of (json v) = null
active_of (plain out) = backend_line (split b'\n' out)

archs_of : Bool → Option String → Option String
archs_of bounded none = none
archs_of bounded (some out) = joined (sort_texts (distinct_texts (find_sm bounded out)))
  where
    joined : List String → Option String
    joined [] = none
    joined (a ∷ as') = some (join "," (a ∷ as'))

or_strings : Option String → Option String → Option String
or_strings none s = s
or_strings (some a) s = some a

pub record Backend : Type 0 where
  pub active : Value
  pub cuda_archs : Option String

-- `_probe_active_backend`, on whether the solver can be run, its helper, and the outputs of cuobjdump and strings
pub probe_active_backend : Bool → Helper → Option String → Option String → Backend
probe_active_backend false helper elf text = record { active = null; cuda_archs = none }
probe_active_backend true helper elf text = record {
  active = active_of helper;
  cuda_archs = or_strings (archs_of false elf) (archs_of true text);
}

-- What the machine says of itself.
pub record Machine : Type 0 where
  pub system : System
  pub system_name : String
  pub release : String
  pub os_release : Option String
  pub cpuinfo : Option String
  pub meminfo : Option String
  pub sysctl_brand : Option String
  pub sysctl_memory : Option String
  pub wmic : Option String
  pub processor : String
  pub cpu_count : Option ℕ
  pub driver_query : Option String
  pub smi_plain : Option String
  pub gpus : GpuProbes
  pub environment : Probes
  pub node_entries : Option (List String)
  pub cpulist : String → Option String
  pub devices : List Device
  pub smi_buses : Option String
  pub solver_runs : Bool
  pub helper : Helper
  pub elf : Option String
  pub solver_text : Option String

pub record Report : Type 0 where
  pub cpu_model : Option String
  pub cpu_threads_total : Option ℕ
  pub cpu_threads_allocated : Option ℤ
  pub ram_gb_total : Option Decimal
  pub os : String
  pub miner_version : String
  pub payout_splits : List Value
  pub driver_version : Option String
  pub cuda_version : Option String
  pub gpus : List StaticGpu
  pub host_hostname : Option String
  pub environment : Environment
  pub numa : Option Topology
  pub backend : Backend

-- `_cpu_threads_total`; a count of 0 is none.
threads_total : Option ℕ → Option ℕ
threads_total none = none
threads_total (some n) = if n == 0 then none else some n

-- `collect_static_hardware`; a file of an unexpected form may raise.
pub collect_static_hardware : String → Option ℤ → List Value → Machine → Result Report
collect_static_hardware miner_version allocated payout_splits m =
    cpu_model m.cpuinfo m.system m.sysctl_brand m.wmic m.processor >>= λ model.
    ram_gb_total m.meminfo m.system m.sysctl_memory >>= λ ram. ok (record {
      cpu_model = model;
      cpu_threads_total = threads_total m.cpu_count;
      cpu_threads_allocated = allocated;
      ram_gb_total = ram;
      os = os_string m.system_name m.release m.os_release;
      miner_version = miner_version;
      payout_splits = payout_splits;
      driver_version = (driver_and_cuda m.driver_query m.smi_plain).0;
      cuda_version = (driver_and_cuda m.driver_query m.smi_plain).1;
      gpus = enumerate_gpus m.gpus;
      host_hostname = m.environment.hostname;
      environment = detect_environment m.environment;
      numa = collect_numa_topology m.node_entries m.cpulist m.devices m.smi_buses;
      backend = probe_active_backend m.solver_runs m.helper m.elf m.solver_text;
    })

unfoldable pub uuids : List StaticGpu → List String
uuids gpus = map (λ (g : StaticGpu). g.gpu_uuid) gpus

-- The GPUs of the periodic report, on the samples of nvidia-smi.
pub runtime_gpus : GpuProbes → List (List (List String)) → List Gpu
runtime_gpus p samples =
    gpu_runtime (is_mac p.system) (uuids (apple_gpus p.is_arm64 p.sysctl p.ioreg p.hostname))
      (uuids (amd_gpus p)) samples

-- What only the client knows.
pub record Cohort : Type 0 where
  pub wrapper_version : Option String
  pub solver_sha256 : Option String
  pub solver_backend : Option String

pub record Metrics : Type 0 where
  pub session_id : String
  pub timestamp : ℕ
  pub cpu_util_pct : Option Decimal
  pub ram_gb_used : Option Decimal
  pub gpus : List Gpu
  pub solver_nps : Option Decimal
  pub shares_session_total : ℕ
  pub cohort : Cohort

-- The readings that a report is made from.
pub record Readings : Type 0 where
  pub now : ℕ
  pub stat_before : Option String
  pub stat_after : Option String
  pub meminfo : Option String
  pub samples : List (List (List String))

-- `collect_runtime_metrics`
unfoldable pub collect_runtime_metrics :
    String → Option Decimal → ℕ → Cohort → GpuProbes → Readings → Result Metrics
collect_runtime_metrics session_id nps total cohort p r = ram_gb_used r.meminfo >>= λ ram.
    ok (record {
      session_id = session_id;
      timestamp = r.now;
      cpu_util_pct = cpu_util_pct r.stat_before r.stat_after;
      ram_gb_used = ram;
      gpus = runtime_gpus p r.samples;
      solver_nps = nps;
      shares_session_total = total;
      cohort = cohort;
    })

-- A report carries the total that it is given.
pub collect_runtime_metrics-shares :
    (session_id : String) (nps : Option Decimal) (total : ℕ) (cohort : Cohort) (p : GpuProbes)
    (r : Readings) (m : Metrics)
    → collect_runtime_metrics session_id nps total cohort p r ≡ ok m
    → m.shares_session_total ≡ total
unfolding collect_runtime_metrics
collect_runtime_metrics-shares session_id nps total cohort p r m h =
    let (ram, read, built) = >>=-eq-ok (ram_gb_used r.meminfo) _ h in ap shares_of (sym built)
  where
    shares_of : Result Metrics → ℕ
    shares_of (ok m') = m'.shares_session_total
    shares_of (err e) = total
