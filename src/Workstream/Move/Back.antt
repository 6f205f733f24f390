-- ===== src/Workstream/Move/Back.antt =====
-- Moving the entries back gives the directory that there was.
use mikmongo.Base.{
  ◌≡◌, refl, sym, ◌∙◌, inl, inr, Bool, false, Option, List, [], ◌∷◌, arith, Bool-cases,
  Option-cases, any,
}
use mikmongo.Text.{Text, equal}
use mikmongo.Text.Laws.{equal_iff, equal_refl}
use mikmongo.Workstream.Entries.{lookup, lookup-put, lookup-remove}
use mikmongo.Workstream.Move.{Sides, move_back, restore}
use mikmongo.Workstream.Move.Kept.{IsPlaced, IsSplit}

module _ {V : Type 0} (before : Text → Option V) where
  move_back-IsPlaced_self :
      (moved still : Text → Bool) (s : Sides V) (n : Text)
      → IsPlaced before moved s n
      → IsPlaced before still (move_back n s) n
  unfolding move_back
  move_back-IsPlaced_self moved still s n (inl (f, t)) = rw (move_back, t) (inl (f, t))
  move_back-IsPlaced_self moved still s n (inr (m, f, t)) = elim (Option-cases (lookup n s.to)) [
    | inl e ↦ rw (move_back, e) (inl (f ∙ sym e ∙ t, e))
    | inr (v, e) ↦
        rw (move_back, e)
          (inl (
            rw (lookup-put n n v s.from, equal_refl n) (sym e ∙ t),
            rw (lookup-remove n n s.to, equal_refl n) refl,
          ))
  ]

  move_back-IsPlaced_other :
      (moved : Text → Bool) (s : Sides V) (n j : Text)
      → equal n j ≡ false
      → IsPlaced before moved s j
      → IsPlaced before moved (move_back n s) j
  unfolding move_back
  move_back-IsPlaced_other moved s n j o h = elim (Option-cases (lookup n s.to)) [
    | inl e ↦ rw (move_back, e) h
    | inr (v, e) ↦ rw (move_back, e) (rw (lookup-put n j v s.from, lookup-remove n j s.to, o) h)
  ]

  narrow :
      (n : Text) (ns : List Text) (s : Sides V) (j : Text)
      → equal n j ≡ false
      → IsPlaced before (λ k. any (equal k) (n ∷ ns)) s j
      → IsPlaced before (λ k. any (equal k) ns) s j
  narrow n ns s j o (inl h) = inl h
  narrow n ns s j o (inr (m, f, t)) = inr (ground (arith, equal_iff n j, equal_iff j n), f, t)

  move_back-IsSplit :
      (n : Text) (ns : List Text) (s : Sides V)
      → IsSplit before (λ k. any (equal k) (n ∷ ns)) s
      → IsSplit before (λ k. any (equal k) ns) (move_back n s)
  move_back-IsSplit n ns s h j = elim (Bool-cases (equal n j)) [
    | inl same ↦
        rw (sym ((equal_iff n j).0 same))
          (move_back-IsPlaced_self (λ k. any (equal k) (n ∷ ns)) (λ k. any (equal k) ns) s n (h n))
    | inr other ↦
        move_back-IsPlaced_other (λ k. any (equal k) ns) s n j other (narrow n ns s j other (h j))
  ]

  restore-IsSplit :
      (ns : List Text) (s : Sides V)
      → IsSplit before (λ k. any (equal k) ns) s
      → IsSplit before (λ k. false) (restore (λ k. false) ns s)
  unfolding restore
  restore-IsSplit [] s h = h
  restore-IsSplit (n ∷ ns) s h = restore-IsSplit ns (move_back n s) (move_back-IsSplit n ns s h)

  -- When no rename back throws, every entry is in its first directory again.
  pub restore-before :
      (ns : List Text) (s : Sides V) (j : Text)
      → IsSplit before (λ k. any (equal k) ns) s
      → lookup j (restore (λ k. false) ns s).from ≡ before j
  restore-before ns s j h = elim (restore-IsSplit ns s h j) [ inl (f, t) ↦ f | inr (m, f, t) ↦ cc ]
