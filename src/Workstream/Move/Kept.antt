-- ===== src/Workstream/Move/Kept.antt =====
-- Where the entries of a directory are while they are moved.
use mikmongo.Base.{
  ◌≡◌, refl, sym, ◌∙◌, ◌⊎◌, inl, inr, Bool, true, false, ◌||◌, Option, none, some, List, [], ◌∷◌,
  ◌++◌, arith, Bool-cases, Option-cases, any,
}
use mikmongo.Text.{Text, equal}
use mikmongo.Text.Laws.{equal_iff, equal_refl}
use mikmongo.Workstream.Entries.{lookup, lookup-put, lookup-remove}
use mikmongo.Workstream.Move.{Sides, Moved, shift, move_all}

pub any-append :
    (p : Text → Bool) (xs : List Text) (y : Text) → any p (xs ++ y ∷ []) ≡ any p xs || p y
any-append p [] y = ground arith
any-append p (x ∷ xs) y = ground (arith, any-append p xs y)

module _ {V : Type 0} (before : Text → Option V) where
  -- An entry stands in the first directory alone, or, if it is one of those moved, in the second alone.
  abbrev pub IsPlaced : (Text → Bool) → Sides V → Text → Type 0
  IsPlaced moved s j =
      ((lookup j s.from ≡ before j) × (lookup j s.to ≡ none))
      ⊎ ((moved j ≡ true) × (lookup j s.from ≡ none) × (lookup j s.to ≡ before j))

  abbrev pub IsSplit : (Text → Bool) → Sides V → Type 0
  IsSplit moved s = (j : Text) → IsPlaced moved s j

  shift-IsPlaced_self :
      (ms : List Text) (s : Sides V) (n : Text) (v : V)
      → lookup n s.from ≡ some v
      → IsPlaced (λ j. any (equal j) ms) s n
      → IsPlaced (λ j. any (equal j) (ms ++ n ∷ [])) (shift n v s) n
  shift-IsPlaced_self ms s n v e (inl (f, t)) = inr (
    rw (any-append (equal n) ms n, equal_refl n) (ground arith),
    rw (lookup-remove n n s.from, equal_refl n) refl,
    rw (lookup-put n n v s.to, equal_refl n) (sym e ∙ f),
  )
  shift-IsPlaced_self ms s n v e (inr (m, f, t)) = cc

  shift-IsPlaced_other :
      (ms : List Text) (s : Sides V) (n : Text) (v : V) (j : Text)
      → equal n j ≡ false
      → IsPlaced (λ j. any (equal j) ms) s j
      → IsPlaced (λ j. any (equal j) (ms ++ n ∷ [])) (shift n v s) j
  shift-IsPlaced_other ms s n v j e h =
      rw (lookup-remove n j s.from, lookup-put n j v s.to, e, any-append (equal j) ms n)
        (elim h [ inl (f, t) ↦ inl (f, t) | inr (m, f, t) ↦ inr (rw m refl, f, t) ])

  shift-IsSplit :
      (ms : List Text) (s : Sides V) (n : Text) (v : V)
      → lookup n s.from ≡ some v
      → IsSplit (λ j. any (equal j) ms) s
      → IsSplit (λ j. any (equal j) (ms ++ n ∷ [])) (shift n v s)
  shift-IsSplit ms s n v e h j = elim (Bool-cases (equal n j)) [
    | inl same ↦ rw (sym ((equal_iff n j).0 same)) (shift-IsPlaced_self ms s n v e (h n))
    | inr other ↦ shift-IsPlaced_other ms s n v j other (h j)
  ]

  pub record IsKept (m : Moved V) : Type 0 where
    pub split : IsSplit (λ j. any (equal j) m.moved) m.sides

  pub move_all-IsKept :
      (throws : Text → Bool) (ns : List Text) (s : Sides V) (ms : List Text)
      → IsSplit (λ j. any (equal j) ms) s
      → IsKept (move_all throws ns s ms)
  unfolding move_all
  move_all-IsKept throws [] s ms h = record { split = h }
  move_all-IsKept throws (n ∷ ns) s ms h = elim (Option-cases (lookup n s.from)) [
    | inl e ↦ rw (move_all, e) (move_all-IsKept throws ns s ms h)
    | inr (v, e) ↦ elim (Bool-cases (throws n)) [
      | inl t ↦ rw (move_all, e, t) (record { split = h })
      | inr f ↦
          rw (move_all, e, f)
            (move_all-IsKept throws ns (shift n v s) (ms ++ n ∷ []) (shift-IsSplit ms s n v e h))
    ]
  ]
