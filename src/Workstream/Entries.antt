-- ===== src/Workstream/Entries.antt =====
-- The entries of a directory by their names.
use mikmongo.Base.{
  ◌≡◌, refl, Bool, true, false, Option, none, some, List, [], ◌∷◌, map, arith, if◌then◌else◌,
}
use mikmongo.Text.{Text, equal}
use mikmongo.Text.Laws.{equal_iff}

module _ {V : Type 0} where
  unfoldable pub lookup : Text → List (Text × V) → Option V
  lookup k [] = none
  lookup k ((j, v) ∷ es) = if equal j k then some v else lookup k es

  unfoldable pub put : Text → V → List (Text × V) → List (Text × V)
  put k v [] = (k, v) ∷ []
  put k v ((j, w) ∷ es) = if equal j k then (j, v) ∷ es else (j, w) ∷ put k v es

  unfoldable pub remove : Text → List (Text × V) → List (Text × V)
  remove k [] = []
  remove k ((j, w) ∷ es) = let rest = remove k es in if equal j k then rest else (j, w) ∷ rest

  abbrev pub is_some : Option V → Bool
  is_some none = false
  is_some (some v) = true

  abbrev pub has : Text → List (Text × V) → Bool
  has k es = is_some (lookup k es)

  abbrev pub names_of : List (Text × V) → List Text
  names_of es = map (λ e. e.0) es

  pub lookup-put :
      (k j : Text) (v : V) (es : List (Text × V))
      → lookup j (put k v es) ≡ (if equal k j then some v else lookup j es)
  unfolding lookup put
  lookup-put k j v [] = refl
  lookup-put k j v ((i, w) ∷ es) =
      ground (arith, equal_iff k j, equal_iff i k, equal_iff i j, lookup-put k j v es)

  pub lookup-remove :
      (k j : Text) (es : List (Text × V))
      → lookup j (remove k es) ≡ (if equal k j then none else lookup j es)
  unfolding lookup remove
  lookup-remove k j [] = ground arith
  lookup-remove k j ((i, w) ∷ es) =
      ground (arith, equal_iff k j, equal_iff i k, equal_iff i j, lookup-remove k j es)
