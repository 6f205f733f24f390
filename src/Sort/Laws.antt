-- ===== src/Sort/Laws.antt =====
-- Sorting permutes the list, and orders it where the comparison is a total preorder.
use mikmongo.Base.{◌≡◌, refl, ◌≢◌, List, [], ◌∷◌, All}
use Prim.Native.Nat.{Ordering}
use mathlib.Core.List.{Perm}
use mikmongo.Sort.{insert, sort}
use mathlib.Core.List.Perm

module _ {ℓ} {A : Type ℓ} (cmp : A → A → Ordering) where
  insert-perm : (x : A) (ys : List A) → Perm (insert cmp x ys) (x ∷ ys)
  unfolding insert
  insert-perm x [] = Perm.refl _
  insert-perm x (y ∷ ys) = go (cmp x y) refl (insert-perm x ys)
    where
      go :
          (o : Ordering)
          → cmp x y ≡ o
          → Perm (insert cmp x ys) (x ∷ ys)
          → Perm (insert cmp x (y ∷ ys)) (x ∷ y ∷ ys)
      go Ordering.gt e ih = rw (e, insert) (Perm.trans (Perm.cons y ih) (Perm.swap x y ys))
      go Ordering.lt e ih = rw (e, insert) (Perm.refl _)
      go Ordering.eq e ih = rw (e, insert) (Perm.refl _)

  pub sort-perm : (xs : List A) → Perm (sort cmp xs) xs
  unfolding sort
  sort-perm [] = Perm.refl []
  sort-perm (x ∷ xs) = Perm.trans (insert-perm x (sort cmp xs)) (Perm.cons x (sort-perm xs))

  -- Every element is "not after" all that follow it.
  abbrev pub IsSorted : List A → Type 0
  IsSorted [] = Unit
  IsSorted (x ∷ xs) = All (λ y. cmp x y ≢ Ordering.gt) xs × IsSorted xs

  All-insert {κ} : (Q : A → Type κ) (x : A) (ys : List A) → Q x → All Q ys → All Q (insert cmp x ys)
  unfolding insert
  All-insert Q x [] q h = (q, h)
  All-insert Q x (y ∷ ys) q h = go (cmp x y) refl (All-insert Q x ys q h.1)
    where
      go : (o : Ordering) → cmp x y ≡ o → All Q (insert cmp x ys) → All Q (insert cmp x (y ∷ ys))
      go Ordering.gt e ih = rw (e, insert) (h.0, ih)
      go Ordering.lt e ih = rw (e, insert) (q, h)
      go Ordering.eq e ih = rw (e, insert) (q, h)

  pub All-sort {κ} : (Q : A → Type κ) (xs : List A) → All Q xs → All Q (sort cmp xs)
  unfolding sort
  All-sort Q [] h = h
  All-sort Q (x ∷ xs) h = All-insert Q x (sort cmp xs) h.0 (All-sort Q xs h.1)

-- A comparison that is a total preorder on the elements with `P`.
pub record IsPreorder {ℓ κ} {A : Type ℓ} (cmp : A → A → Ordering) (P : A → Type κ)
    : Type (ℓ ⊔ κ) where
  pub turn : (x y : A) → P x → P y → cmp x y ≡ Ordering.gt → cmp y x ≢ Ordering.gt
  pub trans :
      (x y z : A)
      → P x
      → P y
      → P z
      → cmp x y ≢ Ordering.gt
      → cmp y z ≢ Ordering.gt
      → cmp x z ≢ Ordering.gt

module _ {ℓ κ} {A : Type ℓ} {cmp : A → A → Ordering} {P : A → Type κ} (o : IsPreorder cmp P) where
  All-after :
      (x y : A) (zs : List A)
      → P x
      → P y
      → All P zs
      → cmp x y ≢ Ordering.gt
      → All (λ z. cmp y z ≢ Ordering.gt) zs
      → All (λ z. cmp x z ≢ Ordering.gt) zs
  All-after x y [] px py pz h k = tt
  All-after x y (z ∷ zs) px py pz h k =
      (o.trans x y z px py pz.0 h k.0, All-after x y zs px py pz.1 h k.1)

  insert-IsSorted :
      (x : A) (ys : List A) → P x → All P ys → IsSorted cmp ys → IsSorted cmp (insert cmp x ys)
  unfolding insert
  insert-IsSorted x [] px py h = (tt, tt)
  insert-IsSorted x (y ∷ ys) px py h = go (cmp x y) refl (insert-IsSorted x ys px py.1 h.1)
    where
      before : cmp x y ≢ Ordering.gt → IsSorted cmp (x ∷ y ∷ ys)
      before n = ((n, All-after x y ys px py.0 py.1 n h.0), h)

      go :
          (t : Ordering)
          → cmp x y ≡ t
          → IsSorted cmp (insert cmp x ys)
          → IsSorted cmp (insert cmp x (y ∷ ys))
      go Ordering.gt e ih =
          rw (e, insert)
            (All-insert cmp (λ z. cmp y z ≢ Ordering.gt) x ys (o.turn x y px py.0 e) h.0, ih)
      go Ordering.lt e ih = rw (e, insert) (before (λ g. cc))
      go Ordering.eq e ih = rw (e, insert) (before (λ g. cc))

  pub sort-IsSorted : (xs : List A) → All P xs → IsSorted cmp (sort cmp xs)
  unfolding sort
  sort-IsSorted [] h = tt
  sort-IsSorted (x ∷ xs) h =
      insert-IsSorted x (sort cmp xs) h.0 (All-sort cmp P xs h.1) (sort-IsSorted xs h.1)

module _ {ℓ} {A : Type ℓ} (cmp : A → A → Ordering) where
  -- What holds of all that is sorted holds of all that was given.
  All-insert_inv {κ} :
      (Q : A → Type κ) (x : A) (ys : List A) → All Q (insert cmp x ys) → Q x × All Q ys
  unfolding insert
  All-insert_inv Q x [] h = h
  All-insert_inv Q x (y ∷ ys) h = go (cmp x y) refl h (All-insert_inv Q x ys)
    where
      go :
          (o : Ordering)
          → cmp x y ≡ o
          → All Q (insert cmp x (y ∷ ys))
          → (All Q (insert cmp x ys) → Q x × All Q ys)
          → Q x × All Q (y ∷ ys)
      go Ordering.gt e h ih =
          let (a, b) : Q y × All Q (insert cmp x ys) = rw (insert, e) at h in
          let (c, d) = ih b in (c, (a, d))
      go Ordering.lt e h ih = rw (insert, e) at h
      go Ordering.eq e h ih = rw (insert, e) at h

  pub All-sort_inv {κ} : (Q : A → Type κ) (xs : List A) → All Q (sort cmp xs) → All Q xs
  unfolding sort
  All-sort_inv Q [] h = h
  All-sort_inv Q (x ∷ xs) h =
      let (a, b) = All-insert_inv Q x (sort cmp xs) h in (a, All-sort_inv Q xs b)
