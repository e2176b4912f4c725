-- ===== src/Hardware/Runtime/Own.antt =====
-- Each GPU's report comes from its own rows alone.
use minebtx.Prelude.{
  Bool-cases, inl, inr, String, ◌≡◌, refl, sym, ap, ◌∙◌, Bool, false, ◌||◌, Option, none, some,
  List, [], ◌∷◌, str_eq, eq_iff, arith, if◌then◌else◌,
}
use minebtx.Py.Assoc.{Assoc, lookup, insert, lookup-insert}
use minebtx.Hardware.Runtime.{
  Accum, Row, row_of, add_row, or_fresh, sample_row, accumulate, Gpu, gpu_of, gpus_of, gpu_runtime,
  all_rows, or_amd,
}

-- What a row means to one GPU.
abbrev pub own_row : String → Option Accum → Option Row → Option Accum
own_row k d none = d
own_row k d (some r) = if str_eq k r.uuid then some (add_row r (or_fresh d)) else d

-- The readings of one GPU, from its own rows.
abbrev pub own_rows : String → Option Accum → List (List String) → Option Accum
own_rows k d [] = d
own_rows k d (cells ∷ rows) = own_rows k (own_row k d (row_of cells)) rows

lookup-sample_row :
    (k : String) (accum : Assoc Accum) (r : Option Row)
    → lookup k (sample_row accum r) ≡ own_row k (lookup k accum) r
unfolding sample_row
lookup-sample_row k accum none = refl
lookup-sample_row k accum (some r) = ground (
  arith,
  lookup-insert r.uuid k (add_row r (or_fresh (lookup r.uuid accum))) accum,
  eq_iff k r.uuid,
)

lookup-accumulate :
    (k : String) (accum : Assoc Accum) (rows : List (List String))
    → lookup k (accumulate accum rows) ≡ own_rows k (lookup k accum) rows
unfolding accumulate
lookup-accumulate k accum [] = refl
lookup-accumulate k accum (cells ∷ rows) =
    lookup-accumulate k (sample_row accum (row_of cells)) rows
    ∙ ap (λ d. own_rows k d rows) (lookup-sample_row k accum (row_of cells))

-- The report of a GPU, by its UUID.
abbrev pub find_gpu : String → List Gpu → Option Gpu
find_gpu k [] = none
find_gpu k (g ∷ gpus) = if str_eq k g.gpu_uuid then some g else find_gpu k gpus

abbrev pub report : String → Option Accum → Option Gpu
report k none = none
report k (some d) = some (gpu_of k d)

uuid_of : (j : String) (d : Accum) → (gpu_of j d).gpu_uuid ≡ j
unfolding gpu_of
uuid_of j d = refl

find_first :
    (k : String) (g : Gpu) (gpus : List Gpu) {j : String}
    → g.gpu_uuid ≡ j
    → find_gpu k (g ∷ gpus) ≡ (if str_eq k j then some g else find_gpu k gpus)
find_first k g gpus e = ap (λ u. if str_eq k u then some g else find_gpu k gpus) e

chosen :
    (k j : String) (d : Accum) (gpus : List Gpu) (other : Option Accum)
    → find_gpu k gpus ≡ report k other
    → (if str_eq k j then some (gpu_of j d) else find_gpu k gpus)
      ≡ report k (if str_eq k j then some d else other)
chosen k j d gpus other h = elim (Bool-cases (str_eq k j)) [
  | inl same ↦ rw same (ap (λ u. some (gpu_of u d)) (sym ((eq_iff k j).0 same)))
  | inr differs ↦ rw differs h
]

find_gpu-gpus_of :
    (k : String) (accum : Assoc Accum) → find_gpu k (gpus_of accum) ≡ report k (lookup k accum)
unfolding gpus_of
find_gpu-gpus_of k [] = refl
find_gpu-gpus_of k ((j, d) ∷ accum) =
    find_first k (gpu_of j d) (gpus_of accum) (uuid_of j d)
    ∙ chosen k j d (gpus_of accum) (lookup k accum) (find_gpu-gpus_of k accum)

-- No UUID twice.
abbrev pub named : String → List Gpu → Bool
named k [] = false
named k (g ∷ gpus) = str_eq k g.gpu_uuid || named k gpus

abbrev pub Distinct : List Gpu → Type 0
Distinct [] = Unit
Distinct (g ∷ gpus) = (named g.gpu_uuid gpus ≡ false) × Distinct gpus

is_key : String → Assoc Accum → Bool
is_key k [] = false
is_key k ((j, d) ∷ accum) = str_eq k j || is_key k accum

is_key-insert :
    (j k : String) (d : Accum) (accum : Assoc Accum)
    → is_key j (insert k d accum) ≡ (str_eq j k || is_key j accum)
unfolding is_key
is_key-insert j k d [] = refl
is_key-insert j k d ((i, e) ∷ accum) =
    ground (arith, is_key-insert j k d accum, eq_iff k i, eq_iff j k, eq_iff j i)

abbrev DistinctKeys : Assoc Accum → Type 0
DistinctKeys [] = Unit
DistinctKeys ((k, d) ∷ accum) = (is_key k accum ≡ false) × DistinctKeys accum

insert-DistinctKeys :
    (k : String) (d : Accum) (accum : Assoc Accum)
    → DistinctKeys accum
    → DistinctKeys (insert k d accum)
unfolding is_key
insert-DistinctKeys k d [] h = (refl, tt)
insert-DistinctKeys k d ((j, e) ∷ accum) (new, h) = elim (Bool-cases (str_eq k j)) [
  | inl same ↦ rw same (new, h)
  | inr other ↦ rw other (
    ground (arith, is_key-insert j k d accum, new, other, eq_iff k j, eq_iff j k),
    insert-DistinctKeys k d accum h,
  )
]

sample_row-DistinctKeys :
    (accum : Assoc Accum) (r : Option Row) → DistinctKeys accum → DistinctKeys (sample_row accum r)
unfolding sample_row
sample_row-DistinctKeys accum none h = h
sample_row-DistinctKeys accum (some r) h = insert-DistinctKeys r.uuid _ accum h

accumulate-DistinctKeys :
    (accum : Assoc Accum) (rows : List (List String))
    → DistinctKeys accum
    → DistinctKeys (accumulate accum rows)
unfolding accumulate
accumulate-DistinctKeys accum [] h = h
accumulate-DistinctKeys accum (cells ∷ rows) h =
    accumulate-DistinctKeys (sample_row accum (row_of cells)) rows
      (sample_row-DistinctKeys accum (row_of cells) h)

named-gpus_of : (k : String) (accum : Assoc Accum) → named k (gpus_of accum) ≡ is_key k accum
unfolding gpus_of is_key
named-gpus_of k [] = refl
named-gpus_of k ((j, d) ∷ accum) = rw (uuid_of j d, named-gpus_of k accum) refl

gpus_of-Distinct : (accum : Assoc Accum) → DistinctKeys accum → Distinct (gpus_of accum)
unfolding gpus_of
gpus_of-Distinct [] h = tt
gpus_of-Distinct ((k, d) ∷ accum) (new, h) =
    (rw (uuid_of k d) (named-gpus_of k accum ∙ new), gpus_of-Distinct accum h)

-- The rows of nvidia-smi, where there are any, decide the report.
or_amd_any :
    (k : String) (gpus : List Gpu) (amd : List String) {g : Gpu}
    → find_gpu k gpus ≡ some g
    → or_amd gpus amd ≡ gpus
unfolding or_amd
or_amd_any k [] amd h = cc
or_amd_any k (g ∷ gpus) amd h = refl

-- Off macOS, a GPU that some row of the samples names is reported with the figures that its own rows
-- give, whatever rows of other GPUs stand between them, and no UUID is reported twice.
pub gpu_runtime-own :
    (apple amd : List String) (samples : List (List (List String))) (k : String) {d : Accum}
    → own_rows k none (all_rows samples) ≡ some d
    → (find_gpu k (gpu_runtime false apple amd samples) ≡ some (gpu_of k d))
      × Distinct (gpu_runtime false apple amd samples)
unfolding gpu_runtime
gpu_runtime-own apple amd samples k {d} h =
    let accum : Assoc Accum = accumulate [] (all_rows samples) in
    let found : find_gpu k (gpus_of accum) ≡ some (gpu_of k d) =
      find_gpu-gpus_of k accum ∙ ap (report k) (lookup-accumulate k [] (all_rows samples) ∙ h) in
    rw (or_amd_any k (gpus_of accum) amd found)
      (found, gpus_of-Distinct accum (accumulate-DistinctKeys [] (all_rows samples) tt))
