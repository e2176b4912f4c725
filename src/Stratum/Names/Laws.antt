-- ===== src/Stratum/Names/Laws.antt =====
-- What an assigned name leaves in the cache, and what an item without a name does.
use minebtx.Prelude.{ℕ, String, ◌≡◌, refl, true, none, some, str_eq, if◌then◌else◌, arith}
use minebtx.Prelude.Int.{ℤ, pos}
use minebtx.Py.Result.{Result, ok, err, key_error}
use minebtx.Py.Value.{
  Fields, Decimal, null, int, str, list, dict, nil, cons, find, find_or, put, has, truthy,
}
use minebtx.Py.Dict.{find-put}
use minebtx.Py.Number.{to_int}
use minebtx.Stratum.Names.{
  Store, Disk, load, entry, upsert, assign_name, assign_rest, format_assignment_banner,
  on_set_canonical_name,
}

-- The cache of what a call left, with the call's result.
abbrev pub after : Result (Unit {0}) × Store → Result (Unit {0}) × Fields
after (r, store) = (r, load store)

module _ (float_text : Decimal → String) (now : ℕ) (d : Fields) (store : Store) where
  assign_name-stored :
      {u name : String} {t : ℤ}
      → find "gpu_uuid" d ≡ some (str u)
      → find "canonical_name" d ≡ some (str name)
      → truthy (str u) ≡ true
      → truthy (str name) ≡ true
      → to_int (find_or "assigned_at" (int (pos now)) d) ≡ ok t
      → assign_name float_text Disk.written now d store
        ≡ ok (
            some (dict (put u (entry (str name) (find_or "operator_label" null d) t) (load store))))
  unfolding assign_name upsert
  assign_name-stored hu hn tu tn ht = ground arith

  -- An item with a GPU and a name in text and a readable time, where the cache can be written, is
  -- found in the cache under its GPU afterwards, every other entry stays, and the call returns.
  pub on_set_canonical_name-find :
      {u name : String} {t : ℤ}
      → find "gpu_uuid" d ≡ some (str u)
      → find "canonical_name" d ≡ some (str name)
      → truthy (str u) ≡ true
      → truthy (str name) ≡ true
      → to_int (find_or "assigned_at" (int (pos now)) d) ≡ ok t
      → (j : String)
      → ((on_set_canonical_name float_text Disk.written now (dict d) store).0 ≡ ok tt)
        × (find j (load (on_set_canonical_name float_text Disk.written now (dict d) store).1) ≡ (
            if str_eq j u
            then some (entry (str name) (find_or "operator_label" null d) t)
            else find j (load store)))
  unfolding on_set_canonical_name format_assignment_banner
  on_set_canonical_name-find {u} {name} {t} hu hn tu tn ht j =
      rw (assign_name-stored hu hn tu tn ht, assign_rest)
        (rw (hn, has)
          (refl, find-put u j (entry (str name) (find_or "operator_label" null d) t) (load store)))

  -- An item without a name is not stored, but ends the call with a KeyError.
  pub on_set_canonical_name-nameless :
      (disk : Disk)
      → find "canonical_name" d ≡ none
      → on_set_canonical_name float_text disk now (list (cons (dict d) nil)) store
        ≡ (err key_error, store)
  unfolding on_set_canonical_name assign_name format_assignment_banner
  on_set_canonical_name-nameless disk h = ground (arith, h)
