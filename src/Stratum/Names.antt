-- ===== src/Stratum/Names.antt =====
-- The canonical names that the pool assigns to the GPUs: the cache of src/dexbtx_miner/canonical_names.py,
-- and `_on_set_canonical_name`.
-- The cache file is what `json.loads` makes of it, if it is there and can be read. The order of its keys
-- and the banner's text are not modelled.
use minebtx.Prelude.{
  ℕ, String, Bool, true, false, not, ◌&&◌, Option, none, some, List, [], ◌∷◌, if◌then◌else◌,
}
use minebtx.Prelude.Int.{ℤ, pos}
use minebtx.Py.Result.{Result, ok, err, key_error, type_error, ◌>>=◌, ◌>>◌}
use minebtx.Py.Value.{
  Value, Items, Fields, Decimal, null, bool, int, float, str, list, dict, nil, cons, end, field,
  find_or, put, has, truthy,
}
use minebtx.Py.Text.{show_int}
use minebtx.Py.Number.{to_int}
pub mod Laws

abbrev pub Store : Type 0
Store = Option Value

-- What happens to the file when it is saved: its folder cannot be made, it cannot be written, or it is.
pub data Disk : Type 0 where
  no_folder no_write written : Disk

abbrev pub load : Store → Fields
load (some (dict d)) = d
load _ = end

-- The key of a cache entry in the file. `float_text` is the `repr` of a float.
abbrev key_text : (Decimal → String) → Value → Result String
key_text float_text (str s) = ok s
key_text float_text null = ok "null"
key_text float_text (bool true) = ok "true"
key_text float_text (bool false) = ok "false"
key_text float_text (int z) = ok (show_int z)
key_text float_text (float d) = ok (float_text d)
key_text float_text v = err type_error

-- A key that is no text cannot be sorted among texts.
abbrev sortable : Value → Fields → Bool
sortable (str s) d = true
sortable v end = true
sortable v (field k w d) = false

abbrev pub save : Disk → Value → Fields → Fields → Store → Result Store
save Disk.no_folder key old new store = ok store
save Disk.no_write key old new store = if sortable key old then ok store else err type_error
save Disk.written key old new store =
    if sortable key old then ok (some (dict new)) else err type_error

abbrev pub entry : Value → Value → ℤ → Value
entry name label assigned_at = dict (
    field "canonical_name" name
      (field "operator_label" label (field "assigned_at" (int assigned_at) end)))

unfoldable pub upsert : (Decimal → String) → Disk → Value → Value → Value → ℤ → Store → Result Store
upsert float_text disk key name label assigned_at store = do
  k ← key_text float_text key
  save disk key (load store) (put k (entry name label assigned_at) (load store)) store

-- The banner indexes each item by its name.
unfoldable pub format_assignment_banner : List Fields → Result (Unit {0})
format_assignment_banner [] = ok tt
format_assignment_banner (d ∷ ds) =
    if has "canonical_name" d then format_assignment_banner ds else err key_error

-- One item, at a time of the wall clock; an item without a required field is skipped.
unfoldable pub assign_name : (Decimal → String) → Disk → ℕ → Fields → Store → Result Store
assign_name float_text disk now d store =
    let key = find_or "gpu_uuid" null d in
    let name = find_or "canonical_name" null d in
    if truthy key && truthy name
    then (do
      assigned_at ← to_int (find_or "assigned_at" (int (pos now)) d)
      upsert float_text disk key name (find_or "operator_label" null d) assigned_at store)
    else ok store

abbrev dicts : Items → List Fields
dicts nil = []
dicts (cons (dict d) vs) = d ∷ dicts vs
dicts (cons v vs) = dicts vs

abbrev pub named_items : Value → List Fields
named_items (dict d) = d ∷ []
named_items (list vs) = dicts vs
named_items v = []

abbrev pub assign_rest :
    (Fields → Store → Result Store) → List Fields → Store → Result (Unit {0}) × Store
assign_rest f [] store = (ok tt, store)
assign_rest f (d ∷ ds) store = elim (f d store) [
  | ok next ↦ assign_rest f ds next
  | err e ↦ (err e, store)
]

abbrev pub then_banner : List Fields → Result (Unit {0}) × Store → Result (Unit {0}) × Store
then_banner ds (r, store) = (r >> format_assignment_banner ds, store)

unfoldable pub on_set_canonical_name :
    (Decimal → String) → Disk → ℕ → Value → Store → Result (Unit {0}) × Store
unfolding format_assignment_banner
on_set_canonical_name float_text disk now params store =
    let ds = named_items params in
    then_banner ds (assign_rest (assign_name float_text disk now) ds store)
