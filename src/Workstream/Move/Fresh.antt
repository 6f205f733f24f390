-- ===== src/Workstream/Move/Fresh.antt =====
-- Moving entries to a new directory.
use mikmongo.Base.{
  ◌≡◌, refl, sym, ◌∙◌, ◌⊎◌, inl, inr, Bool, true, false, none, List, [], Bool-cases, any,
}
use mikmongo.Text.{Text, equal}
use mikmongo.Text.Laws.{any-In}
use mikmongo.Workstream.Entries.{lookup}
use mikmongo.Workstream.Move.{Sides, Moved, move_all, restore}
use mikmongo.Workstream.Move.Kept.{IsPlaced, IsSplit, move_all-IsKept}
use mikmongo.Workstream.Move.Done.{move_all-left, move_all-unlisted}
use mikmongo.Workstream.Move.Back.{restore-before}

module _ {V : Type 0} where
  -- The entries of two directories after those of the names have left the one for the other.
  abbrev pub IsMoved : List Text → List (Text × V) → List (Text × V) → List (Text × V) → Type 0
  IsMoved ns before from to =
      (j : Text)
      → ((any (equal j) ns ≡ true) × (lookup j from ≡ none) × (lookup j to ≡ lookup j before))
        ⊎ ((any (equal j) ns ≡ false) × (lookup j from ≡ lookup j before) × (lookup j to ≡ none))

  abbrev pub fresh : List (Text × V) → Sides V
  fresh es = record { from = es; to = [] }

  module _ (throws : Text → Bool) (ns : List Text) (es : List (Text × V)) where
    abbrev outcome : Moved V
    outcome = move_all throws ns (fresh es) []

    fresh-IsSplit : IsSplit (λ j. lookup j es) (λ j. any (equal j) []) (fresh es)
    unfolding lookup
    fresh-IsSplit j = inl (refl, refl)

    outcome-IsSplit : IsSplit (λ j. lookup j es) (λ j. any (equal j) outcome.moved) outcome.sides
    outcome-IsSplit =
        let kept = move_all-IsKept (λ j. lookup j es) throws ns (fresh es) [] fresh-IsSplit in
        kept.split

    left-cases :
        (s : Sides V) (moved : Text → Bool) (j : Text)
        → lookup j s.from ≡ none
        → IsPlaced (λ k. lookup k es) moved s j
        → lookup j s.to ≡ lookup j es
    left-cases s moved j e (inl (f, t)) = t ∙ sym e ∙ f
    left-cases s moved j e (inr (m, f, t)) = t

    stayed-cases :
        (s : Sides V) (moved : Text → Bool) (j : Text)
        → moved j ≡ false
        → IsPlaced (λ k. lookup k es) moved s j
        → (lookup j s.from ≡ lookup j es) × (lookup j s.to ≡ none)
    stayed-cases s moved j e (inl (f, t)) = (f, t)
    stayed-cases s moved j e (inr (m, f, t)) = cc

    pub outcome-IsMoved : outcome.failed ≡ false → IsMoved ns es outcome.sides.from outcome.sides.to
    outcome-IsMoved d j = elim (Bool-cases (any (equal j) ns)) [
      | inl i ↦
          let away = move_all-left throws ns (fresh es) [] j d (any-In j ns i) in
          inl (
            i,
            away,
            left-cases outcome.sides (λ k. any (equal k) outcome.moved) j away (outcome-IsSplit j),
          )
      | inr o ↦
          let (f, t) =
            stayed-cases outcome.sides (λ k. any (equal k) outcome.moved) j
              (move_all-unlisted throws ns (fresh es) [] j o) (outcome-IsSplit j) in
          inr (o, f, t)
    ]

    -- What has been moved is there again when it is moved back.
    pub outcome-restored :
        (j : Text) → lookup j (restore (λ k. false) outcome.moved outcome.sides).from ≡ lookup j es
    outcome-restored j =
        restore-before (λ k. lookup k es) outcome.moved outcome.sides j outcome-IsSplit
