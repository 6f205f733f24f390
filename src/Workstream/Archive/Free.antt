-- ===== src/Workstream/Archive/Free.antt =====
-- The name of a new archive is not taken.
use mikmongo.Base.{
  ℕ, zero, suc, ◌≤◌, ◌<◌, ◌≡◌, refl, sym, ap, ◌∙◌, inl, inr, true, false, List, [], ◌∷◌, ◌++◌,
  arith, if◌then◌else◌, Bool-cases, length, any,
}
use mathlib.Core.List.{append_cancel_left}
use mikmongo.Text.{Text, codes, equal}
use mikmongo.Text.Laws.{equal_iff}
use mikmongo.State.Command.{show_nat}
use mikmongo.State.Command.Decimal.{show_nat_injective}
use mikmongo.Workstream.Archive.{free_from, first_name, numbered, archive_name}

without : Text → List Text → List Text
without x [] = []
without x (y ∷ ys) = let rest = without x ys in if equal x y then rest else y ∷ rest

any-without :
    (x z : Text) (ys : List Text)
    → equal z x ≡ false
    → any (equal z) (without x ys) ≡ any (equal z) ys
unfolding without
any-without x z [] h = refl
any-without x z (y ∷ ys) h =
    ground (arith, any-without x z ys h, equal_iff x y, equal_iff z y, equal_iff z x)

length-without : (x : Text) (ys : List Text) → length (without x ys) ≤ length ys
unfolding without
length-without x [] = omega arith
length-without x (y ∷ ys) = ground (arith, length-without x ys)

length-without_less :
    (x : Text) (ys : List Text) → any (equal x) ys ≡ true → length (without x ys) < length ys
unfolding without
length-without_less x [] h = cc
length-without_less x (y ∷ ys) h = ground (arith, length-without x ys, length-without_less x ys)

module _ (candidate : ℕ → Text) where
  free_from-agree :
      (fuel k : ℕ) (xs ys : List Text)
      → ((i : ℕ) → k ≤ i → any (equal (candidate i)) xs ≡ any (equal (candidate i)) ys)
      → free_from fuel xs candidate k ≡ free_from fuel ys candidate k
  unfolding free_from
  free_from-agree zero k xs ys h = refl
  free_from-agree (suc fuel) k xs ys h =
      rw (h k (omega arith), free_from-agree fuel (suc k) xs ys (λ i l. h i (omega arith))) refl

  -- The name is a candidate from `k` on.
  free_from-candidate :
      (fuel k : ℕ) (xs : List Text)
      → (i : ℕ) × (k ≤ i) × (free_from fuel xs candidate k ≡ candidate i)
  unfolding free_from
  free_from-candidate zero k xs = (k, omega arith, refl)
  free_from-candidate (suc fuel) k xs = elim (Bool-cases (any (equal (candidate k)) xs)) [
    | inl e ↦ let (i, l, q) = free_from-candidate fuel (suc k) xs in (i, omega arith, rw e q)
    | inr e ↦ (k, omega arith, rw e refl)
  ]

  module _ (injective : (i j : ℕ) → candidate i ≡ candidate j → i ≡ j) where
    later-differs : (i k : ℕ) → suc k ≤ i → equal (candidate i) (candidate k) ≡ false
    later-differs i k l = elim (Bool-cases (equal (candidate i) (candidate k))) [
      | inl e ↦ absurd (omega (arith, injective i k ((equal_iff (candidate i) (candidate k)).0 e)))
      | inr e ↦ e
    ]

    free_from-IsFree :
        (fuel k : ℕ) (xs : List Text)
        → length xs ≤ fuel
        → any (equal (free_from fuel xs candidate k)) xs ≡ false
    unfolding free_from
    free_from-IsFree zero k [] h = refl
    free_from-IsFree zero k (x ∷ xs) h = absurd (omega arith)
    free_from-IsFree (suc fuel) k xs h = elim (Bool-cases (any (equal (candidate k)) xs)) [
      | inr e ↦ rw e e
      | inl e ↦
          let ys = without (candidate k) xs in
          let same =
            free_from-agree fuel (suc k) xs ys
              (λ i l. sym (any-without (candidate k) (candidate i) xs (later-differs i k l))) in
          let (i, l, q) = free_from-candidate fuel (suc k) xs in
          let free =
            free_from-IsFree fuel (suc k) ys
              (omega (arith, length-without_less (candidate k) xs e)) in
          rw (e, q)
            (sym (any-without (candidate k) (candidate i) xs (later-differs i k l))
              ∙ ap (λ t. any (equal t) ys) (sym q ∙ same)
              ∙ free)
    ]

numbered_injective : (first : Text) (i j : ℕ) → numbered first i ≡ numbered first j → i ≡ j
numbered_injective first i j e = show_nat_injective i j (
    append_cancel_left (codes "-") (show_nat i) (show_nat j)
      (append_cancel_left first (codes "-" ++ show_nat i) (codes "-" ++ show_nat j) e))

-- The name of the archive is not that of another, so the loop over the numbers ends with a free one.
pub archive_name-IsFree :
    (taken : List Text) (name today : Text)
    → any (equal (archive_name taken name today)) taken ≡ false
unfolding archive_name
archive_name-IsFree taken name today =
    elim (Bool-cases (any (equal (first_name name today)) taken)) [
      | inl e ↦ rw e (
          free_from-IsFree (numbered (first_name name today))
            (numbered_injective (first_name name today)) (length taken) 1 taken (omega arith))
      | inr e ↦ rw e e
    ]
