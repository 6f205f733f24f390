-- ===== src/PhaseDir/Listing.antt =====
-- The listing of a directory of phases.
use mikmongo.Base.{some, List, arith, All}
use Prim.Native.Nat.{Ordering}
use mathlib.Core.List.{Perm}
use mikmongo.Text.{Text}
use mikmongo.PhaseNum.{IsNumeric, compare_phase_num}
use mikmongo.PhaseNum.Order.{compare_phase_num-flip, compare_phase_num_trans}
use mikmongo.Sort.Laws.{IsPreorder, sort-IsSorted, sort-perm, IsSorted}
use mikmongo.PhaseDir.{Dirent, directories, read_subdirectories}

pub phases-IsPreorder : (lc : Text → Text → Ordering) → IsPreorder (compare_phase_num lc) IsNumeric
phases-IsPreorder lc = record {
  turn = λ x y p q e. ground (arith, compare_phase_num-flip lc x y p q);
  trans = compare_phase_num_trans lc;
}

-- A sorted listing of a directory whose subdirectories all have numeric phase names holds exactly
-- those subdirectories, each as often, and none stands before one that it comes after.
pub read_subdirectories-IsSorted :
    (locale_compare : Text → Text → Ordering) (es : List Dirent)
    → All IsNumeric (directories es)
    → IsSorted (compare_phase_num locale_compare) (read_subdirectories locale_compare (some es))
      × Perm (read_subdirectories locale_compare (some es)) (directories es)
unfolding read_subdirectories
read_subdirectories-IsSorted lc es h = (
  sort-IsSorted (phases-IsPreorder lc) (directories es) h,
  sort-perm (compare_phase_num lc) (directories es),
)
