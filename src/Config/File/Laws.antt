-- ===== src/Config/File/Laws.antt =====
-- What a file's settings are good for.
use minebtx.Prelude.{
  String, ◌≡◌, refl, ap, ◌∙◌, Bool, true, false, none, some, Bool-cases, inl, inr, str_eq, eq_iff,
  arith, if◌then◌else◌,
}
use minebtx.Py.Result.{ok}
use minebtx.Py.Value.{Value, Fields, dict, end, field, find, has, put}
use minebtx.Py.Dict.{find-put, has-put}
use minebtx.Py.Assoc.{override}
use minebtx.Config.{default_config}
use minebtx.Config.File.{
  default_attributes, set_known, overlay, config_of, load_yaml_config, file_attributes,
}

-- The defaults of the attributes are those of the record.
config_of-default_attributes :
    (home : String) → config_of (default_attributes home) ≡ default_config home
unfolding config_of
config_of-default_attributes home = refl

-- A file that holds a mapping gives its settings.
pub file_attributes-document :
    (home : String) (d : Fields)
    → file_attributes home (some (record { has_yaml = true; document = some (dict d) }))
      ≡ ok (overlay d (default_attributes home))
unfolding file_attributes load_yaml_config
file_attributes-document home end = refl
file_attributes-document home (field k v d) = refl

-- The keys of a mapping, each of which it has once.
abbrev pub Distinct : Fields → Type 0
Distinct end = Unit {0}
Distinct (field k v d) = (find k d ≡ none) × Distinct d

find-put-none :
    (k j : String) (v : Value) (d : Fields)
    → str_eq j k ≡ false
    → find j d ≡ none
    → find j (put k v d) ≡ none
find-put-none k j v d h e = ground (arith, find-put k j v d, h, e)

pub put-Distinct : (k : String) (v : Value) (d : Fields) → Distinct d → Distinct (put k v d)
put-Distinct k v end h = (refl, tt)
put-Distinct k v (field j w d) (new, h) = elim (Bool-cases (str_eq k j)) [
  | inl same ↦ rw same (new, h)
  | inr other ↦ rw other (
    find-put-none k j v d (ground (arith, other, eq_iff k j, eq_iff j k)) new,
    put-Distinct k v d h,
  )
]

has-set_known :
    (k j : String) (v : Value) (a : Fields) → has k a ≡ true → has k (set_known j v a) ≡ true
has-set_known k j v a h = elim (Bool-cases (has j a)) [
  | inl known ↦ rw known (has-put j k v a h)
  | inr unknown ↦ rw unknown h
]

find-set_known :
    (k j : String) (v : Value) (a : Fields)
    → has k a ≡ true
    → find k (set_known j v a) ≡ (if str_eq k j then some v else find k a)
find-set_known k j v a h = ground (arith, find-put j k v a, eq_iff k j, h)

-- An attribute has the value that the file gives it, and else its default.
pub find-overlay :
    (k : String) (raw a : Fields)
    → Distinct raw
    → has k a ≡ true
    → find k (overlay raw a) ≡ override (find k raw) (find k a)
unfolding overlay
find-overlay k end a h known = refl
find-overlay k (field j v raw) a (new, h) known =
    find-overlay k raw (set_known j v a) h (has-set_known k j v a known)
    ∙ (ap (override (find k raw)) (find-set_known k j v a known) ∙ first (str_eq k j) refl)
  where
    first :
        (b : Bool)
        → str_eq k j ≡ b
        → override (find k raw) (if b then some v else find k a)
          ≡ override (if b then some v else find k raw) (find k a)
    first true e = ap (λ o. override o (some v)) (ap (λ s. find s raw) ((eq_iff k j).0 e) ∙ new)
    first false e = refl
