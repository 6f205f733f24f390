-- ===== src/Workstream/Move/Done.antt =====
-- Which entries a loop of moves has taken.
use mikmongo.Base.{
  ◌≡◌, refl, ◌∙◌, inl, inr, Bool, false, none, List, [], ◌∷◌, ◌++◌, arith, Bool-cases, Option-cases,
  any, In,
}
use mikmongo.Text.{Text, equal}
use mikmongo.Text.Laws.{equal_refl}
use mikmongo.Workstream.Entries.{lookup, lookup-remove}
use mikmongo.Workstream.Move.{Sides, shift, move_all}
use mikmongo.Workstream.Move.Kept.{any-append}

append-unlisted :
    (ms : List Text) (n j : Text)
    → equal j n ≡ false
    → any (equal j) (ms ++ n ∷ []) ≡ any (equal j) ms
append-unlisted ms n j h = ground (arith, any-append (equal j) ms n)

module _ {V : Type 0} (throws : Text → Bool) where
  shift-away :
      (n : Text) (v : V) (s : Sides V) (j : Text)
      → lookup j s.from ≡ none
      → lookup j (shift n v s).from ≡ none
  shift-away n v s j h = ground (arith, lookup-remove n j s.from)

  shift-left : (n : Text) (v : V) (s : Sides V) → lookup n (shift n v s).from ≡ none
  shift-left n v s = rw (lookup-remove n n s.from, equal_refl n) refl

  -- What is away stays away.
  move_all-away :
      (ns : List Text) (s : Sides V) (ms : List Text) (j : Text)
      → lookup j s.from ≡ none
      → lookup j (move_all throws ns s ms).sides.from ≡ none
  unfolding move_all
  move_all-away [] s ms j h = h
  move_all-away (n ∷ ns) s ms j h = elim (Option-cases (lookup n s.from)) [
    | inl e ↦ rw (move_all, e) (move_all-away ns s ms j h)
    | inr (v, e) ↦ elim (Bool-cases (throws n)) [
      | inl t ↦ rw (move_all, e, t) h
      | inr f ↦
          rw (move_all, e, f)
            (move_all-away ns (shift n v s) (ms ++ n ∷ []) j (shift-away n v s j h))
    ]
  ]

  move_all-head :
      (n : Text) (ns : List Text) (s : Sides V) (ms : List Text)
      → (move_all throws (n ∷ ns) s ms).failed ≡ false
      → lookup n (move_all throws (n ∷ ns) s ms).sides.from ≡ none
  unfolding move_all
  move_all-head n ns s ms d = elim (Option-cases (lookup n s.from)) [
    | inl e ↦ rw (move_all, e) (move_all-away ns s ms n e)
    | inr (v, e) ↦ elim (Bool-cases (throws n)) [
      | inl t ↦ cc (rw (move_all, e, t) at d)
      | inr f ↦
          rw (move_all, e, f) (move_all-away ns (shift n v s) (ms ++ n ∷ []) n (shift-left n v s))
    ]
  ]

  -- Without a failure each of the names has left.
  pub move_all-left :
      (ns : List Text) (s : Sides V) (ms : List Text) (j : Text)
      → (move_all throws ns s ms).failed ≡ false
      → In j ns
      → lookup j (move_all throws ns s ms).sides.from ≡ none
  unfolding move_all
  move_all-left [] s ms j d i = absurd i
  move_all-left (n ∷ ns) s ms j d (inl same) = rw same (move_all-head n ns s ms d)
  move_all-left (n ∷ ns) s ms j d (inr later) = elim (Option-cases (lookup n s.from)) [
    | inl e ↦ rw (move_all, e) (move_all-left ns s ms j (rw (move_all, e) at d) later)
    | inr (v, e) ↦ elim (Bool-cases (throws n)) [
      | inl t ↦ cc (rw (move_all, e, t) at d)
      | inr f ↦
          rw (move_all, e, f)
            (move_all-left ns (shift n v s) (ms ++ n ∷ []) j (rw (move_all, e, f) at d) later)
    ]
  ]

  -- A name that is not given is not moved.
  pub move_all-unlisted :
      (ns : List Text) (s : Sides V) (ms : List Text) (j : Text)
      → any (equal j) ns ≡ false
      → any (equal j) (move_all throws ns s ms).moved ≡ any (equal j) ms
  unfolding move_all
  move_all-unlisted [] s ms j h = refl
  move_all-unlisted (n ∷ ns) s ms j h =
      let other : equal j n ≡ false = ground arith in
      let later : any (equal j) ns ≡ false = ground arith in
      elim (Option-cases (lookup n s.from)) [
        | inl e ↦ rw (move_all, e) (move_all-unlisted ns s ms j later)
        | inr (v, e) ↦ elim (Bool-cases (throws n)) [
          | inl t ↦ rw (move_all, e, t) refl
          | inr f ↦
              rw (move_all, e, f)
                (move_all-unlisted ns (shift n v s) (ms ++ n ∷ []) j later
                  ∙ append-unlisted ms n j other)
        ]
      ]
