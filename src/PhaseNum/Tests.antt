-- ===== src/PhaseNum/Tests.antt =====
-- Phase numbers of the comments and of the workflows.
use mikmongo.Base.{◌≡◌, refl, ◌≢◌}
use Prim.Native.Nat.{Ordering}
use mikmongo.PhaseNum.{
  IsNumeric, match_phase, normalize_phase_name, compare_phase_num, decimals, letter_groups,
  compare_groups,
}
use mikmongo.PhaseNum.Order.{compare_phase_num_trans}
use mikmongo.Text.{compare_text, codes, to_upper, is_letter, pad_start, is_digit, span, parse_int}

normalized_names :
    (normalize_phase_name (codes "1") ≡ codes "01")
    × (normalize_phase_name (codes "12a.1.20-x") ≡ codes "12A.1.20")
    × (normalize_phase_name (codes "PROJ-42") ≡ codes "PROJ-42")
unfolding normalize_phase_name match_phase decimals span is_digit pad_start letter_groups is_letter
    to_upper
normalized_names = (refl, refl, refl)

two : IsNumeric (codes "2")
unfolding match_phase span is_digit letter_groups decimals
two = (_, refl)

two_a : IsNumeric (codes "2a-x")
unfolding match_phase span is_digit letter_groups decimals is_letter
two_a = (_, refl)

ten : IsNumeric (codes "10")
unfolding match_phase span is_digit letter_groups decimals
ten = (_, refl)

not_gt : (o : Ordering) → o ≡ Ordering.lt → o ≢ Ordering.gt
not_gt o e h = cc

two_before : compare_phase_num compare_text (codes "2") (codes "2a-x") ≡ Ordering.lt
unfolding compare_phase_num match_phase span is_digit compare_groups parse_int letter_groups
    is_letter
two_before = refl

ten_after : compare_phase_num compare_text (codes "2a-x") (codes "10") ≡ Ordering.lt
unfolding compare_phase_num match_phase span is_digit compare_groups parse_int letter_groups
    is_letter
ten_after = refl

compare_phase_num_trans_example :
    compare_phase_num compare_text (codes "2") (codes "10") ≢ Ordering.gt
compare_phase_num_trans_example =
    compare_phase_num_trans compare_text (codes "2") (codes "2a-x") (codes "10") two two_a ten
      (not_gt _ two_before) (not_gt _ ten_after)
