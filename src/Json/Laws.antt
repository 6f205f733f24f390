-- ===== src/Json/Laws.antt =====
-- Reading a property after a write, a removal or a merge.
use mikmongo.Base.{◌≡◌, refl, Option, none, some, arith, if◌then◌else◌, false}
use mikmongo.Text.{Text, equal}
use mikmongo.Text.Laws.{equal_iff, equal_refl}
use mikmongo.Json.{Json, Fields, end, field, get, put, remove, spread}

module _ {N : Type 0} where
  pub get-put :
      (k j : Text) (v : Json N) (o : Fields N)
      → get j (put k v o) ≡ (if equal k j then some v else get j o)
  unfolding get put
  get-put k j v end = refl
  get-put k j v (field i w o) =
      ground (arith, equal_iff k j, equal_iff i k, equal_iff i j, get-put k j v o)

  pub get-put_self : (k : Text) (v : Json N) (o : Fields N) → get k (put k v o) ≡ some v
  get-put_self k v o = ground (arith, get-put k k v o, equal_refl k)

  pub get-put_other :
      (k j : Text) (v : Json N) (o : Fields N) → equal k j ≡ false → get j (put k v o) ≡ get j o
  get-put_other k j v o n = rw (get-put k j v o, n) refl

  pub get-remove :
      (k j : Text) (o : Fields N) → get j (remove k o) ≡ (if equal k j then none else get j o)
  unfolding get remove
  get-remove k j end = ground arith
  get-remove k j (field i w o) =
      ground (arith, equal_iff k j, equal_iff i k, equal_iff i j, get-remove k j o)

  pub get-remove_self : (k : Text) (o : Fields N) → get k (remove k o) ≡ none
  get-remove_self k o = ground (arith, get-remove k k o, equal_refl k)

  pub get-remove_other :
      (k j : Text) (o : Fields N) → equal k j ≡ false → get j (remove k o) ≡ get j o
  get-remove_other k j o n = rw (get-remove k j o, n) refl

  -- No two properties have one key.
  abbrev pub IsObject : Fields N → Type 0
  IsObject end = Unit
  IsObject (field k v o) = (get k o ≡ none) × IsObject o

  abbrev pub or_else : Option (Json N) → Option (Json N) → Option (Json N)
  or_else (some v) d = some v
  or_else none d = d

  -- In a spread the right operand's properties win.
  pub get-spread :
      (j : Text) (a b : Fields N) → IsObject b → get j (spread a b) ≡ or_else (get j b) (get j a)
  unfolding get spread
  get-spread j a end h = refl
  get-spread j a (field k v b) h =
      ground (arith, get-spread j (put k v a) b h.1, get-put k j v a, equal_iff k j)
