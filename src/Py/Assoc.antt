-- ===== src/Py/Assoc.antt =====
-- A dict from texts to values of one type, in insertion order, such as the environment.
use minebtx.Prelude.{
  String, ◌≡◌, refl, ◌∙◌, sym, Bool, true, false, Option, none, some, List, [], ◌∷◌, arith, str_eq,
  eq_iff, if◌then◌else◌,
}

abbrev pub Assoc {ℓ} : Type ℓ → Type ℓ
Assoc V = List (String × V)

module _ {ℓ} {V : Type ℓ} where
  -- `d.get(k)`
  abbrev pub lookup : String → Assoc V → Option V
  lookup k [] = none
  lookup k ((j, v) ∷ d) = if str_eq k j then some v else lookup k d

  -- `d[k] = v`
  abbrev pub insert : String → V → Assoc V → Assoc V
  insert k v [] = (k, v) ∷ []
  insert k v ((j, w) ∷ d) = if str_eq k j then (j, v) ∷ d else (j, w) ∷ insert k v d

  -- `d.setdefault(k, v)`
  abbrev pub setdefault : String → V → Assoc V → Assoc V
  setdefault k v d = elim (lookup k d) [ none ↦ insert k v d | some w ↦ d ]

  -- `d.update(e)`
  abbrev pub update : Assoc V → Assoc V → Assoc V
  update d [] = d
  update d ((k, v) ∷ e) = update (insert k v d) e

  -- `d[k] = v` if there is a value
  abbrev pub insert_some : String → Option V → Assoc V → Assoc V
  insert_some k none d = d
  insert_some k (some v) d = insert k v d

  abbrev pub override : Option V → Option V → Option V
  override none w = w
  override (some v) w = some v

  pub lookup-insert :
      (k j : String) (v : V) (d : Assoc V)
      → lookup j (insert k v d) ≡ (if str_eq j k then some v else lookup j d)
  lookup-insert k j v [] = refl
  lookup-insert k j v ((i, w) ∷ d) =
      ground (arith, lookup-insert k j v d, eq_iff k i, eq_iff j i, eq_iff j k)

  abbrev pub when : Bool → Option V → Option V
  when true v = v
  when false v = none

  pub override_assoc : (u v w : Option V) → override (override u v) w ≡ override u (override v w)
  override_assoc none v w = refl
  override_assoc (some u) v w = refl

  pub lookup-insert_some :
      (k j : String) (v : Option V) (d : Assoc V)
      → lookup j (insert_some k v d) ≡ override (when (str_eq j k) v) (lookup j d)
  lookup-insert_some k j none d = ground arith
  lookup-insert_some k j (some v) d = ground (arith, lookup-insert k j v d)

  pub lookup-setdefault :
      (k j : String) (v : V) (d : Assoc V)
      → lookup j (setdefault k v d) ≡ override (lookup j d) (when (str_eq j k) (some v))
  lookup-setdefault k j v d = ground (arith, lookup-insert k j v d, eq_iff j k)

  -- The entries of an update win, a later one over an earlier one.
  abbrev pub last : String → Assoc V → Option V
  last k [] = none
  last k ((j, v) ∷ d) = override (last k d) (when (str_eq k j) (some v))

  pub lookup-update :
      (k : String) (d e : Assoc V) → lookup k (update d e) ≡ override (last k e) (lookup k d)
  lookup-update k d [] = refl
  lookup-update k d ((j, v) ∷ e) =
      ground (arith, lookup-update k (insert j v d) e, lookup-insert j k v d)

  -- The first entry of a name, where an entry may hold no value.
  abbrev pub choose : String → Assoc (Option V) → Option V
  choose k [] = none
  choose k ((j, v) ∷ d) = override (when (str_eq k j) v) (choose k d)

  abbrev pub insert_all : Assoc (Option V) → Assoc V → Assoc V
  insert_all [] d = d
  insert_all ((k, v) ∷ e) d = insert_some k v (insert_all e d)

  pub lookup-insert_all :
      (k : String) (e : Assoc (Option V)) (d : Assoc V)
      → lookup k (insert_all e d) ≡ override (choose k e) (lookup k d)
  lookup-insert_all k [] d = refl
  lookup-insert_all k ((j, v) ∷ e) d =
      lookup-insert_some j k v (insert_all e d)
      ∙ (rw (lookup-insert_all k e d) (sym (override_assoc (when (str_eq k j) v) _ _)))
