-- ===== src/Py/Dict.antt =====
-- Laws of a dict's lookups and updates.
use minebtx.Prelude.{String, ◌≡◌, refl, true, some, arith, str_eq, eq_iff, if◌then◌else◌}
use minebtx.Py.Value.{Value, Fields, end, field, find, put, has}

pub find-put :
    (k j : String) (v : Value) (d : Fields)
    → find j (put k v d) ≡ (if str_eq j k then some v else find j d)
find-put k j v end = refl
find-put k j v (field i w d) = ground (arith, find-put k j v d, eq_iff k i, eq_iff j i, eq_iff j k)

pub find-put_self : (k : String) (v : Value) (d : Fields) → find k (put k v d) ≡ some v
find-put_self k v d = ground (arith, find-put k k v d, eq_iff k k)

pub has-put : (k j : String) (v : Value) (d : Fields) → has j d ≡ true → has j (put k v d) ≡ true
has-put k j v d h = ground (arith, find-put k j v d)
