-- ===== src/PhaseNum/Order.antt =====
-- The comparison of phase numbers is a total preorder.
use mikmongo.Base.{ℕ, ◌≡◌, refl, ◌≢◌, Option, none, some, List, [], ◌∷◌, arith}
use Prim.Native.Nat.{Ordering}
use mikmongo.PhaseNum.{
  compare_parts, compare_decimals, compare_letters, compare_groups, Groups, dec_parts,
  compare_phase_num, Text, IsNumeric,
}

abbrev pub flip : Ordering → Ordering
flip Ordering.lt = Ordering.gt
flip Ordering.eq = Ordering.eq
flip Ordering.gt = Ordering.lt

compare_parts-flip : (as' bs : List ℕ) → compare_parts bs as' ≡ flip (compare_parts as' bs)
unfolding compare_parts
compare_parts-flip [] [] = refl
compare_parts-flip [] (b ∷ bs) = ground (arith, compare_parts-flip [] bs)
compare_parts-flip (a ∷ as') [] = ground (arith, compare_parts-flip as' [])
compare_parts-flip (a ∷ as') (b ∷ bs) = ground (arith, compare_parts-flip as' bs)

pub compare_parts_refl : (as' : List ℕ) → compare_parts as' as' ≡ Ordering.eq
unfolding compare_parts
compare_parts_refl [] = refl
compare_parts_refl (a ∷ as') = ground (arith, compare_parts_refl as')

compare_parts_trans :
    (as' bs cs : List ℕ)
    → compare_parts as' bs ≢ Ordering.gt
    → compare_parts bs cs ≢ Ordering.gt
    → (compare_parts as' cs ≢ Ordering.gt)
      × (compare_parts as' cs ≡ Ordering.eq
          → (compare_parts as' bs ≡ Ordering.eq) × (compare_parts bs cs ≡ Ordering.eq))
unfolding compare_parts
compare_parts_trans [] [] cs h k = ground arith
compare_parts_trans [] (b ∷ bs) [] h k = ground (arith, compare_parts_trans [] bs [])
compare_parts_trans [] (b ∷ bs) (c ∷ cs) h k = ground (arith, compare_parts_trans [] bs cs)
compare_parts_trans (a ∷ as') [] [] h k = ground (arith, compare_parts_trans as' [] [])
compare_parts_trans (a ∷ as') [] (c ∷ cs) h k = ground (arith, compare_parts_trans as' [] cs)
compare_parts_trans (a ∷ as') (b ∷ bs) [] h k = ground (arith, compare_parts_trans as' bs [])
compare_parts_trans (a ∷ as') (b ∷ bs) (c ∷ cs) h k = ground (arith, compare_parts_trans as' bs cs)

compare_letters-flip : (a b : Option ℕ) → compare_letters b a ≡ flip (compare_letters a b)
unfolding compare_letters
compare_letters-flip none none = refl
compare_letters-flip none (some b) = refl
compare_letters-flip (some a) none = refl
compare_letters-flip (some a) (some b) = ground arith

compare_decimals-flip : (as' bs : List ℕ) → compare_decimals bs as' ≡ flip (compare_decimals as' bs)
unfolding compare_decimals
compare_decimals-flip [] [] = refl
compare_decimals-flip [] (b ∷ bs) = refl
compare_decimals-flip (a ∷ as') [] = refl
compare_decimals-flip (a ∷ as') (b ∷ bs) = compare_parts-flip (a ∷ as') (b ∷ bs)

-- Transitivity of one component of the order, in the form that a lexicographic order needs.
abbrev Transitive : Ordering → Ordering → Ordering → Type 0
Transitive xy yz xz =
    (xy ≢ Ordering.gt)
    → (yz ≢ Ordering.gt)
    → (xz ≢ Ordering.gt) × (xz ≡ Ordering.eq → (xy ≡ Ordering.eq) × (yz ≡ Ordering.eq))

compare_letters_trans :
    (a b c : Option ℕ)
    → Transitive (compare_letters a b) (compare_letters b c) (compare_letters a c)
unfolding compare_letters
compare_letters_trans a b c h k = ground arith

compare_decimals_trans :
    (as' bs cs : List ℕ)
    → Transitive (compare_decimals as' bs) (compare_decimals bs cs) (compare_decimals as' cs)
unfolding compare_decimals
compare_decimals_trans [] [] cs h k = ground arith
compare_decimals_trans [] (b ∷ bs) [] h k = ground arith
compare_decimals_trans [] (b ∷ bs) (c ∷ cs) h k = ground arith
compare_decimals_trans (a ∷ as') [] cs h k = ground arith
compare_decimals_trans (a ∷ as') (b ∷ bs) [] h k = ground arith
compare_decimals_trans (a ∷ as') (b ∷ bs) (c ∷ cs) h k =
    compare_parts_trans (a ∷ as') (b ∷ bs) (c ∷ cs) h k

pub compare_groups-flip : (a b : Groups) → compare_groups b a ≡ flip (compare_groups a b)
unfolding compare_groups
compare_groups-flip a b = ground (
  arith,
  compare_letters-flip a.letter b.letter,
  compare_decimals-flip (dec_parts a.decimal) (dec_parts b.decimal),
)

compare_letters-eq_trans :
    (a b c : Option ℕ)
    → compare_letters a b ≡ Ordering.eq
    → compare_letters b c ≡ Ordering.eq
    → compare_letters a c ≡ Ordering.eq
unfolding compare_letters
compare_letters-eq_trans a b c h k = ground arith

pub compare_groups_trans :
    (a b c : Groups)
    → compare_groups a b ≢ Ordering.gt
    → compare_groups b c ≢ Ordering.gt
    → compare_groups a c ≢ Ordering.gt
unfolding compare_groups
compare_groups_trans a b c h k e = ground (
  arith,
  compare_letters_trans a.letter b.letter c.letter,
  compare_letters-eq_trans a.letter b.letter c.letter,
  compare_decimals_trans (dec_parts a.decimal) (dec_parts b.decimal) (dec_parts c.decimal),
)

-- On numeric phases the sign of the comparison turns over with its arguments.
pub compare_phase_num-flip :
    (locale_compare : Text → Text → Ordering) (a b : Text)
    → IsNumeric a
    → IsNumeric b
    → compare_phase_num locale_compare b a ≡ flip (compare_phase_num locale_compare a b)
unfolding compare_phase_num
compare_phase_num-flip lc a b (p, e) (q, f) = rw (e, f) (compare_groups-flip p q)

-- On numeric phases "not after" is transitive.
pub compare_phase_num_trans :
    (locale_compare : Text → Text → Ordering) (a b c : Text)
    → IsNumeric a
    → IsNumeric b
    → IsNumeric c
    → compare_phase_num locale_compare a b ≢ Ordering.gt
    → compare_phase_num locale_compare b c ≢ Ordering.gt
    → compare_phase_num locale_compare a c ≢ Ordering.gt
unfolding compare_phase_num
compare_phase_num_trans lc a b c (p, e) (q, f) (r, g) h k =
    rw (e, g) (compare_groups_trans p q r (rw (e, f) at h) (rw (f, g) at k))
