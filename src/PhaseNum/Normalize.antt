-- ===== src/PhaseNum/Normalize.antt =====
-- A normalised phase name stands for the same phase, and normalising it again changes nothing.
use mikmongo.Base.{
  ℕ, zero, suc, ◌-◌, ◌≡◌, refl, inl, inr, true, Option, none, some, List, [], ◌∷◌, ◌++◌, arith,
  Option-cases, length, replicate, length-append, length-replicate,
}
use Prim.Native.Nat.{Ordering}
use mikmongo.Text.{Text, parse_int, pad_start, digits_from}
use mikmongo.PhaseNum.{
  Groups, match_phase, normalized, normalize_phase_name, compare_groups, compare_phase_num,
  compare_decimals, compare_letters, dec_parts, is_letter, IsNumeric,
}
use mikmongo.PhaseNum.Order.{compare_parts_refl}
use mikmongo.PhaseNum.Parts.{
  IsMatch, match_phase-IsMatch, match_phase-normalized, padded, upper_letter-map_upper, map_upper,
  is_letter-to_upper,
}

pad_start_idem : (s : Text) (n : ℕ) → pad_start (pad_start s n b'0') n b'0' ≡ pad_start s n b'0'
unfolding pad_start
pad_start_idem s n =
    let zeros : Text = replicate (n - length s) b'0' in
    let measured : length zeros ≡ n - length s = length-replicate (n - length s) _ in
    let full : n - length (zeros ++ s) ≡ 0 = omega (arith, length-append zeros s, measured) in
    rw full

parse_int-replicate : (n : ℕ) (s : Text) → digits_from 0 (replicate n b'0' ++ s) ≡ digits_from 0 s
unfolding digits_from
parse_int-replicate zero s = refl
parse_int-replicate (suc n) s = parse_int-replicate n s

parse_int-pad_start : (s : Text) (n : ℕ) → parse_int (pad_start s n b'0') ≡ parse_int s
unfolding parse_int pad_start
parse_int-pad_start s n = parse_int-replicate (n - length s) s

normalized-padded : (g : Groups) → IsMatch g → normalized (padded g) ≡ normalized g
normalized-padded g m = rw (upper_letter-map_upper g.letter m.a_letter, pad_start_idem)

-- Normalising a phase name a second time changes nothing, whatever the name.
pub normalize_phase_name_idempotent :
    (s : Text) → normalize_phase_name (normalize_phase_name s) ≡ normalize_phase_name s
unfolding normalize_phase_name
normalize_phase_name_idempotent s = elim (Option-cases (match_phase s)) [
  | inl e ↦ rw e (rw e)
  | inr (g, e) ↦ rw e (
      rw (match_phase-normalized g (match_phase-IsMatch s e))
        (normalized-padded g (match_phase-IsMatch s e)))
]

compare_letters-upper :
    (l k : Option ℕ)
    → ((c : ℕ) → l ≡ some c → is_letter c ≡ true)
    → ((c : ℕ) → k ≡ some c → is_letter c ≡ true)
    → (compare_letters (map_upper l) (map_upper k) ≡ compare_letters l k)
      × (compare_letters (map_upper l) l ≡ Ordering.eq)
unfolding compare_letters
compare_letters-upper none none a b = (refl, refl)
compare_letters-upper none (some d) a b = (refl, refl)
compare_letters-upper (some c) none a b = ground (arith, is_letter-to_upper c (a c refl))
compare_letters-upper (some c) (some d) a b =
    ground (arith, is_letter-to_upper c (a c refl), is_letter-to_upper d (b d refl))

compare_decimals_refl : (as' : List ℕ) → compare_decimals as' as' ≡ Ordering.eq
unfolding compare_decimals
compare_decimals_refl [] = refl
compare_decimals_refl (a ∷ as') = compare_parts_refl (a ∷ as')

compare_groups-padded :
    (g h : Groups)
    → IsMatch g
    → IsMatch h
    → (compare_groups (padded g) (padded h) ≡ compare_groups g h)
      × (compare_groups (padded g) g ≡ Ordering.eq)
unfolding compare_groups
compare_groups-padded g h m n = ground (
  arith,
  parse_int-pad_start g.digits 2,
  parse_int-pad_start h.digits 2,
  compare_letters-upper g.letter h.letter m.a_letter n.a_letter,
  compare_decimals_refl (dec_parts g.decimal),
)

-- Two numeric phases compare as their normalised names do, and a normalised name compares equal to
-- the name that it comes from.
pub compare_phase_num-normalize :
    (locale_compare : Text → Text → Ordering) (s t : Text)
    → IsNumeric s
    → IsNumeric t
    → (compare_phase_num locale_compare (normalize_phase_name s) (normalize_phase_name t)
        ≡ compare_phase_num locale_compare s t)
      × (compare_phase_num locale_compare (normalize_phase_name s) s ≡ Ordering.eq)
unfolding compare_phase_num normalize_phase_name
compare_phase_num-normalize lc s t (g, e) (h, f) =
    let m = match_phase-IsMatch s e in
    let n = match_phase-IsMatch t f in
    rw (e, f)
      (rw (match_phase-normalized g m, match_phase-normalized h n) (compare_groups-padded g h m n))
