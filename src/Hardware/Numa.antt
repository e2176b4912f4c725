-- ===== src/Hardware/Numa.antt =====
-- `_collect_numa_topology`: the nodes of the machine, and the node of each GPU.
pub mod Devices
use minebtx.Prelude.{
  ℕ, String, Bool, true, false, not, ◌&&◌, ◌||◌, Option, none, some, List, [], ◌∷◌, length, leb,
  ◌==◌, str_eq, starts_with, if◌then◌else◌,
}
use minebtx.Prelude.Int.{ℤ, pos, ltb_ℤ}
use minebtx.Py.Result.{Result, ok, err}
use minebtx.Py.Text.{codes, isdigit, strip_text}
use minebtx.Py.Number.{int_of_text}
use minebtx.Py.Lines.{from, lower, split, split_once, sort_texts}
use minebtx.Py.Assoc.{Assoc, lookup, insert}

-- A node by its number, and the text of its processors.
abbrev pub Node : Type 0
Node = ℤ × String

cpus_of : Option String → String
cpus_of none = ""
cpus_of (some txt) = strip_text txt

add_node : Result ℤ → String → List Node → List Node
add_node (err e) cpus nodes = nodes
add_node (ok z) cpus nodes = (z, cpus) ∷ nodes

-- The entries that name a node, with their `cpulist` files.
pub nodes_of : (String → Option String) → List String → List Node
nodes_of cpulist [] = []
nodes_of cpulist (entry ∷ entries) =
    let rest = nodes_of cpulist entries in
    if not (starts_with entry "node") || not (isdigit (codes (from 4 entry)))
    then rest
    else add_node (int_of_text 10 (from 4 entry)) (cpus_of (cpulist entry)) rest

-- A directory of /sys/bus/pci/devices, with its files where they can be read.
pub record Device : Type 0 where
  pub entry : String
  pub class : Option String
  pub vendor : Option String
  pub numa_node : Option String

is_gpu_class : Option String → Bool
is_gpu_class none = false
is_gpu_class (some txt) =
    starts_with (strip_text txt) "0x0300" || starts_with (strip_text txt) "0x0302"

is_nvidia : Option String → Bool
is_nvidia none = false
is_nvidia (some txt) = str_eq (strip_text txt) "0x10de"

pub is_nvidia_gpu : Device → Bool
is_nvidia_gpu d = is_gpu_class d.class && is_nvidia d.vendor

known_node : Result ℤ → Option ℤ
known_node (err e) = none
known_node (ok z) = if ltb_ℤ z (pos 0) then none else some z

-- The node that a device's file names, if it is none below 0.
pub node_of : Option String → Option ℤ
node_of none = none
node_of (some txt) = known_node (int_of_text 10 (strip_text txt))

add_device : String → Option ℤ → Assoc ℤ → Assoc ℤ
add_device entry none affinity = affinity
add_device entry (some z) affinity = insert entry z affinity

pub affinity_of : Assoc ℤ → List Device → Assoc ℤ
affinity_of affinity [] = affinity
affinity_of affinity (d ∷ ds) =
    affinity_of
      (if is_nvidia_gpu d then add_device d.entry (node_of d.numa_node) affinity else affinity) ds

-- The address of a device as the file system writes it.
bus_address : String → String
bus_address bus_id =
    if length (codes (lower bus_id)) == 16 then from 4 (lower bus_id) else lower bus_id

add_uuid : Assoc ℤ → Option (String × String) → Assoc ℤ → Assoc ℤ
add_uuid affinity none nodes = nodes
add_uuid affinity (some (uuid, bus_id)) nodes =
    add_device (strip_text uuid) (lookup (bus_address (strip_text bus_id)) affinity) nodes

-- The lines of nvidia-smi that name a UUID and a device with a known node.
pub uuid_nodes : Assoc ℤ → Assoc ℤ → List String → Assoc ℤ
uuid_nodes affinity nodes [] = nodes
uuid_nodes affinity nodes (line ∷ lines) =
    uuid_nodes affinity (add_uuid affinity (split_once b',' line) nodes) lines

or_devices : Assoc ℤ → Assoc ℤ → Assoc ℤ
or_devices affinity [] = affinity
or_devices affinity (n ∷ nodes) = n ∷ nodes

-- By UUID where nvidia-smi succeeds and knows one, else by address.
by_uuid : Assoc ℤ → Option String → Assoc ℤ
by_uuid affinity none = affinity
by_uuid affinity (some out) =
    or_devices affinity (uuid_nodes affinity [] (split b'\n' (strip_text out)))

pub record Topology : Type 0 where
  pub nodes : ℕ
  pub topology : List Node
  pub gpu_numa_affinity : Assoc ℤ

topology_of : List Node → List Device → Option String → Topology
topology_of nodes devices smi =
    if leb (length nodes) 1
    then record { nodes = length nodes; topology = nodes; gpu_numa_affinity = [] }
    else record {
      nodes = length nodes;
      topology = nodes;
      gpu_numa_affinity = by_uuid (affinity_of [] devices) smi;
    }

-- `_collect_numa_topology`, on the entries of the directory of nodes, if there is one and it can be listed
pub collect_numa_topology :
    Option (List String) → (String → Option String) → List Device → Option String → Option Topology
collect_numa_topology none cpulist devices smi = none
collect_numa_topology (some entries) cpulist devices smi =
    some (topology_of (nodes_of cpulist (sort_texts entries)) devices smi)
