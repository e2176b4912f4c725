-- ===== src/Hardware/Numa/Devices.antt =====
-- The nodes that are reported for GPUs are those of NVIDIA devices.
use minebtx.Prelude.{
  String, ◌≡◌, refl, true, Option, none, some, List, [], ◌∷◌, ◌⊎◌, inl, inr, All, Bool-cases, leb,
  length, str_eq, arith,
}
use minebtx.Prelude.Int.{ℤ, pos, ◌≤ℤ◌}
use minebtx.Py.Result.{Result, ok, err}
use minebtx.Py.Assoc.{Assoc, lookup, insert}
use minebtx.Py.Lines.{split_once, sort_texts}
use minebtx.Py.Text.{strip_text}
use minebtx.Hardware.Numa.{
  Node, Device, is_nvidia_gpu, known_node, node_of, nodes_of, add_device, affinity_of, bus_address,
  add_uuid, uuid_nodes, or_devices, by_uuid, Topology, topology_of, collect_numa_topology,
}

-- Every value of a dict.
abbrev Values : (ℤ → Type 0) → Assoc ℤ → Type 0
Values P d = All (λ (e : String × ℤ). P e.1) d

module _ (P : ℤ → Type 0) where
  insert-Values : (k : String) (z : ℤ) (d : Assoc ℤ) → P z → Values P d → Values P (insert k z d)
  insert-Values k z [] new h = (new, tt)
  insert-Values k z ((j, w) ∷ d) new (first, h) = elim (Bool-cases (str_eq k j)) [
    | inl same ↦ rw same (new, h)
    | inr other ↦ rw other (first, insert-Values k z d new h)
  ]

  -- Of a value, if there is one.
  abbrev OnSome : Option ℤ → Type 0
  OnSome none = Unit
  OnSome (some z) = P z

  lookup-OnSome : (k : String) (d : Assoc ℤ) → Values P d → OnSome (lookup k d)
  lookup-OnSome k [] h = tt
  lookup-OnSome k ((j, w) ∷ d) (first, h) = elim (Bool-cases (str_eq k j)) [
    | inl same ↦ rw same first
    | inr other ↦ rw other (lookup-OnSome k d h)
  ]

  add_device-Values :
      (k : String) (z : Option ℤ) (d : Assoc ℤ)
      → OnSome z
      → Values P d
      → Values P (add_device k z d)
  unfolding add_device
  add_device-Values k none d new h = h
  add_device-Values k (some z) d new h = insert-Values k z d new h

  -- The node of each device that is an NVIDIA GPU.
  abbrev Nodes : List Device → Type 0
  Nodes [] = Unit
  Nodes (d ∷ ds) = ((is_nvidia_gpu d ≡ true) → OnSome (node_of d.numa_node)) × Nodes ds

  affinity_of-Values :
      (d : Assoc ℤ) (ds : List Device) → Values P d → Nodes ds → Values P (affinity_of d ds)
  unfolding affinity_of
  affinity_of-Values d [] h k = h
  affinity_of-Values d (v ∷ vs) h (first, k) = elim (Bool-cases (is_nvidia_gpu v)) [
    | inl gpu ↦ rw gpu (
        affinity_of-Values (add_device v.entry (node_of v.numa_node) d) vs
          (add_device-Values v.entry (node_of v.numa_node) d (first gpu) h) k)
    | inr other ↦ rw other (affinity_of-Values d vs h k)
  ]

  add_uuid-Values :
      (affinity : Assoc ℤ) (parts : Option (String × String)) (d : Assoc ℤ)
      → Values P affinity
      → Values P d
      → Values P (add_uuid affinity parts d)
  unfolding add_uuid
  add_uuid-Values affinity none d a h = h
  add_uuid-Values affinity (some (uuid, bus_id)) d a h =
      add_device-Values _ (lookup (bus_address (strip_text bus_id)) affinity) d
        (lookup-OnSome (bus_address (strip_text bus_id)) affinity a) h

  uuid_nodes-Values :
      (affinity d : Assoc ℤ) (lines : List String)
      → Values P affinity
      → Values P d
      → Values P (uuid_nodes affinity d lines)
  unfolding uuid_nodes
  uuid_nodes-Values affinity d [] a h = h
  uuid_nodes-Values affinity d (line ∷ lines) a h =
      uuid_nodes-Values affinity (add_uuid affinity (split_once b',' line) d) lines a
        (add_uuid-Values affinity (split_once b',' line) d a h)

  or_devices-Values :
      (affinity d : Assoc ℤ) → Values P affinity → Values P d → Values P (or_devices affinity d)
  unfolding or_devices
  or_devices-Values affinity [] a h = a
  or_devices-Values affinity (e ∷ d) a h = h

  by_uuid-Values :
      (affinity : Assoc ℤ) (smi : Option String)
      → Values P affinity
      → Values P (by_uuid affinity smi)
  unfolding by_uuid
  by_uuid-Values affinity none a = a
  by_uuid-Values affinity (some out) a =
      or_devices-Values affinity _ a (uuid_nodes-Values affinity [] _ a tt)

  topology_of-Values :
      (nodes : List Node) (ds : List Device) (smi : Option String)
      → Nodes ds
      → Values P (topology_of nodes ds smi).gpu_numa_affinity
  unfolding topology_of
  topology_of-Values nodes ds smi k = elim (Bool-cases (leb (length nodes) 1)) [
    | inl single ↦ rw single tt
    | inr many ↦ rw many (by_uuid-Values (affinity_of [] ds) smi (affinity_of-Values [] ds tt k))
  ]

-- The number is the node of an NVIDIA GPU among the devices.
abbrev pub IsNodeOf : List Device → ℤ → Type 0
IsNodeOf [] z = ⊥
IsNodeOf (d ∷ ds) z =
    ((is_nvidia_gpu d ≡ true) × (node_of d.numa_node ≡ some z) × (pos 0 ≤ℤ z)) ⊎ IsNodeOf ds z

known_node-le : (r : Result ℤ) {z : ℤ} → known_node r ≡ some z → pos 0 ≤ℤ z
unfolding known_node
known_node-le (err e) h = cc
known_node-le (ok w) h = ground (arith, h)

node_of-le : (txt : Option String) {z : ℤ} → node_of txt ≡ some z → pos 0 ≤ℤ z
unfolding node_of
node_of-le none h = cc
node_of-le (some txt) h = known_node-le _ h

OnSome-of : (P : ℤ → Type 0) (o : Option ℤ) → ((z : ℤ) → o ≡ some z → P z) → OnSome P o
OnSome-of P none h = tt
OnSome-of P (some z) h = h z refl

Nodes-of : (P : ℤ → Type 0) (ds : List Device) → ((z : ℤ) → IsNodeOf ds z → P z) → Nodes P ds
Nodes-of P [] h = tt
Nodes-of P (d ∷ ds) h = (
  λ gpu. OnSome-of P (node_of d.numa_node) (λ z e. h z (inl (gpu, e, node_of-le d.numa_node e))),
  Nodes-of P ds (λ z k. h z (inr k)),
)

-- Whatever nvidia-smi prints, each node that the report has for a GPU, by its UUID or by its address, is the node of
-- an NVIDIA GPU among the devices, and not negative.
collect_numa_topology-IsNodeOf :
    (entries : List String) (cpulist : String → Option String) (devices : List Device)
    (smi : Option String)
    → (t : Topology) × (collect_numa_topology (some entries) cpulist devices smi ≡ some t)
      × All (λ (e : String × ℤ). IsNodeOf devices e.1) t.gpu_numa_affinity
unfolding collect_numa_topology
collect_numa_topology-IsNodeOf entries cpulist devices smi = (
  topology_of (nodes_of cpulist (sort_texts entries)) devices smi,
  refl,
  topology_of-Values (IsNodeOf devices) (nodes_of cpulist (sort_texts entries)) devices smi
      (Nodes-of (IsNodeOf devices) devices (λ z k. k)),
)
