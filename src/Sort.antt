-- ===== src/Sort.antt =====
-- `Array.prototype.sort` with a comparison function: the stable sort, here by insertion.
pub mod Laws
use Prim.Native.Nat.{Ordering}
use mikmongo.Base.{List, [], ◌∷◌}

module _ {ℓ} {A : Type ℓ} (cmp : A → A → Ordering) where
  -- An element goes behind those that it does not come before.
  unfoldable pub insert : A → List A → List A
  insert x [] = x ∷ []
  insert x (y ∷ ys) =
      let rest = y ∷ insert x ys in elim (cmp x y) [ Ordering.gt ↦ rest | _ ↦ x ∷ y ∷ ys ]

  unfoldable pub sort : List A → List A
  unfolding insert
  sort [] = []
  sort (x ∷ xs) = insert x (sort xs)
