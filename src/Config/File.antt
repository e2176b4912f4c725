-- ===== src/Config/File.antt =====
-- The settings of a file: `load_yaml_config`, and the loop of `_build_config` that puts them over the defaults.
-- `setattr` puts a value of any type into the settings, so that they are a dict of values here, and
-- `config_of` is what the rest of the program reads from it. The names of methods are not modelled as attributes.
use minebtx.Prelude.{
  ℕ, ◌*◌, ◌/◌, ◌^◌, String, ◌<>◌, Bool, true, false, not, ◌&&◌, Option, none, some, List, [], ◌∷◌,
  if◌then◌else◌,
}
use minebtx.Prelude.Int.{ℤ, pos, pos_part}
use minebtx.Py.Result.{Result, ok, err, runtime_error, os_error, attribute_error, ◌>>=◌}
use minebtx.Py.Value.{
  Value, Fields, Decimal, null, bool, int, float, str, list, dict, end, field, nil, items, find,
  has, put, or_else,
}
use minebtx.Config.{MinerConfig}
pub mod Laws

-- What the settings' file is: PyYAML may be missing, and the file too.
pub record YamlFile : Type 0 where
  pub has_yaml : Bool
  pub document : Option Value

abbrev pub loaded : Option Value → Result Value
loaded none = err os_error
loaded (some v) = ok (or_else v (dict end))

unfoldable pub load_yaml_config : YamlFile → Result Value
load_yaml_config f = if f.has_yaml then loaded f.document else err runtime_error

abbrev pub seconds : ℕ → Value
seconds n = float (record { mantissa = pos (n * 10); scale = 1 })

-- The attributes of `MinerConfig()`, in a home directory
abbrev pub default_attributes : String → Fields
default_attributes home = field "pool_host" (str "127.0.0.1") (
    field "pool_port" (int (pos 3333)) (
      field "pool_tls" (bool false) (
        field "payout_address" (str "") (
          field "worker_name" (str "default") (
            field "payout_splits" (list nil) (
              field "gbt_solve_path" (str (home <> "/.dexbtx-miner/bin/btx-gbt-solve")) (
                field "solver_threads" (int (pos 8)) (
                  field "solver_prepare_workers" (int (pos 16)) (
                    field "solver_batch_size" (int (pos 128)) (
                      field "solver_prefetch_depth" (int (pos 8)) (
                        field "solver_pipeline_async" (int (pos 1)) (
                          field "solver_backend" (str "cuda") (
                            field "gpu_inputs" (int (pos 1)) (
                              field "nonces_per_slice" (int (pos 100_000_000_000)) (
                                field "solver_max_seconds_per_slice" (seconds 30) (
                                  field "reconnect_initial_s" (seconds 1) (
                                    field "reconnect_max_s" (seconds 60) (
                                      field "solver_recheck_interval_secs" (seconds 1_800) (
                                        field "heal_enabled" (bool true) (
                                          field "heal_consec_rejects" (int (pos 8)) (
                                            field "heal_solver_stall_secs" (seconds 90) (
                                              field "heal_first_slice_grace_secs" (seconds 120) (
                                                field "heal_cooldown_secs" (seconds 300) (
                                                  field "heal_check_interval_secs" (seconds 15) (
                                                    field "log_level" (str "INFO")
                                                      end)))))))))))))))))))))))))

-- `setattr(cfg, k, v)`, where there is such an attribute
abbrev pub set_known : String → Value → Fields → Fields
set_known k v attributes = if has k attributes then put k v attributes else attributes

-- The settings of the file, in its order, over the attributes.
unfoldable pub overlay : Fields → Fields → Fields
overlay end attributes = attributes
overlay (field k v raw) attributes = overlay raw (set_known k v attributes)

-- The readings of an attribute; one of another type than its field's is told apart by `is_typed`, and `typed_config` gives no settings then.
abbrev pub text_of : Option Value → String
text_of (some (str s)) = s
text_of o = ""

abbrev pub flag_of : Option Value → Bool
flag_of (some (bool b)) = b
flag_of o = false

abbrev pub number_of : Option Value → ℤ
number_of (some (int z)) = z
number_of o = pos 0

abbrev pub optional_of : Option Value → Option ℤ
optional_of (some (int z)) = some z
optional_of o = none

abbrev pub list_of : Option Value → List Value
list_of (some (list vs)) = items vs
list_of o = []

-- Seconds, in whole milliseconds.
abbrev pub time_of : Option Value → ℕ
time_of (some (int z)) = pos_part z * 1_000
time_of (some (float d)) = (pos_part d.mantissa * 1_000) / (10 ^ d.scale)
time_of o = 0

unfoldable pub config_of : Fields → MinerConfig
config_of a = record {
  pool_host = text_of (find "pool_host" a);
  pool_port = number_of (find "pool_port" a);
  pool_tls = flag_of (find "pool_tls" a);
  payout_address = text_of (find "payout_address" a);
  worker_name = text_of (find "worker_name" a);
  payout_splits = list_of (find "payout_splits" a);
  gbt_solve_path = text_of (find "gbt_solve_path" a);
  solver_threads = optional_of (find "solver_threads" a);
  solver_prepare_workers = optional_of (find "solver_prepare_workers" a);
  solver_batch_size = optional_of (find "solver_batch_size" a);
  solver_prefetch_depth = optional_of (find "solver_prefetch_depth" a);
  solver_pipeline_async = optional_of (find "solver_pipeline_async" a);
  solver_backend = text_of (find "solver_backend" a);
  gpu_inputs = optional_of (find "gpu_inputs" a);
  nonces_per_slice = number_of (find "nonces_per_slice" a);
  solver_max_seconds_per_slice = time_of (find "solver_max_seconds_per_slice" a);
  reconnect_initial_s = time_of (find "reconnect_initial_s" a);
  reconnect_max_s = time_of (find "reconnect_max_s" a);
  solver_recheck_interval_secs = time_of (find "solver_recheck_interval_secs" a);
  heal_enabled = flag_of (find "heal_enabled" a);
  heal_consec_rejects = pos_part (number_of (find "heal_consec_rejects" a));
  heal_solver_stall_secs = time_of (find "heal_solver_stall_secs" a);
  heal_first_slice_grace_secs = time_of (find "heal_first_slice_grace_secs" a);
  heal_cooldown_secs = time_of (find "heal_cooldown_secs" a);
  heal_check_interval_secs = time_of (find "heal_check_interval_secs" a);
  log_level = text_of (find "log_level" a);
}

-- A type that a field is declared with.
pub data Kind : Type 0 where
  text flag number optional many time : Kind

abbrev pub is_of : Kind → Option Value → Bool
is_of text (some (str s)) = true
is_of flag (some (bool b)) = true
is_of number (some (int z)) = true
is_of optional (some (int z)) = true
is_of optional (some null) = true
is_of many (some (list vs)) = true
is_of time (some (int z)) = true
is_of time (some (float d)) = true
is_of kind o = false

abbrev pub kinds : List (String × Kind)
kinds =
    ("pool_host", text)
    ∷ ("pool_port", number)
    ∷ ("pool_tls", flag)
    ∷ ("payout_address", text)
    ∷ ("worker_name", text)
    ∷ ("payout_splits", many)
    ∷ ("gbt_solve_path", text)
    ∷ ("solver_threads", optional)
    ∷ ("solver_prepare_workers", optional)
    ∷ ("solver_batch_size", optional)
    ∷ ("solver_prefetch_depth", optional)
    ∷ ("solver_pipeline_async", optional)
    ∷ ("solver_backend", text)
    ∷ ("gpu_inputs", optional)
    ∷ ("nonces_per_slice", number)
    ∷ ("solver_max_seconds_per_slice", time)
    ∷ ("reconnect_initial_s", time)
    ∷ ("reconnect_max_s", time)
    ∷ ("solver_recheck_interval_secs", time)
    ∷ ("heal_enabled", flag)
    ∷ ("heal_consec_rejects", number)
    ∷ ("heal_solver_stall_secs", time)
    ∷ ("heal_first_slice_grace_secs", time)
    ∷ ("heal_cooldown_secs", time)
    ∷ ("heal_check_interval_secs", time)
    ∷ ("log_level", text)
    ∷ []

abbrev pub all_of : List (String × Kind) → Fields → Bool
all_of [] attributes = true
all_of ((k, kind) ∷ rest) attributes = is_of kind (find k attributes) && all_of rest attributes

-- The settings, where every attribute has the type of its field.
unfoldable pub typed_config : Fields → Option MinerConfig
unfolding config_of
typed_config attributes = if all_of kinds attributes then some (config_of attributes) else none

-- A document that is no mapping has no `items`.
abbrev pub overlay_document : Fields → Value → Result Fields
overlay_document attributes (dict raw) = ok (overlay raw attributes)
overlay_document attributes v = err attribute_error

-- The attributes before the flags, from the file if one is named
unfoldable pub file_attributes : String → Option YamlFile → Result Fields
unfolding overlay load_yaml_config
file_attributes home none = ok (default_attributes home)
file_attributes home (some f) = load_yaml_config f >>= overlay_document (default_attributes home)
