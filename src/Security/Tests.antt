-- ===== src/Security/Tests.antt =====
-- Arguments and paths, and the theorems at concrete inputs.
use mikmongo.Base.{
  ◌≡◌, refl, Bool, true, false, not, ◌&&◌, Option, none, some, [], ◌∷◌, ◌==◌, if◌then◌else◌, any,
  All,
}
use mathlib.Core.Path.{subst}
use mikmongo.Text.{
  Text, to_upper, is_space, codes, equal, split, trim, includes, is_alnum, is_letter, is_digit,
  span, starts_with,
}
use mikmongo.PhaseNum.{match_phase, letter_groups}
use mikmongo.Security.{
  validate_shell_arg, err, command_substitution, validate_field_name, validate_phase_number,
  is_numeric_phase,
}
use mikmongo.Security.Arguments.{IsPhaseArg, validate_phase_number-IsPhaseArg}
use mikmongo.Security.Injection.Sanitize.{sanitize_for_display}
use mikmongo.Security.Injection.Quiet.{IsLeaked, sanitize_for_display-IsQuiet}
use mikmongo.Regex.{lit, lit_ci}
use mikmongo.Security.Paths.{
  Segs, safe, unsafe, escapes, validate_path, resolve, real_base, is_absolute, contained, enter,
  real_target, render,
}
use mikmongo.Security.Paths.Segments.{IsPlain}
use mikmongo.Security.Paths.Containment.{IsInside, IsReal, IsResolved, validate_path-IsInside}

refused : validate_shell_arg (codes "a $(rm) b") ≡ err command_substitution
unfolding validate_shell_arg includes
refused = refl

plan_field : validate_field_name (codes "Current Plan") ≡ true
unfolding validate_field_name is_letter is_alnum
plan_field = refl

phase_arg : validate_phase_number (codes " 12A.1 ") ≡ some (codes "12A.1")
unfolding validate_phase_number is_numeric_phase match_phase span trim is_digit letter_groups
    is_letter split
phase_arg = refl

validate_phase_number-IsPhaseArg_example :
    (codes "12A.1" ≡ trim (codes " 12A.1 ")) × IsPhaseArg (codes "12A.1")
validate_phase_number-IsPhaseArg_example =
    validate_phase_number-IsPhaseArg (codes " 12A.1 ") (codes "12A.1") phase_arg

-- A directory tree with one symbolic link, `/p/out`, to `/etc`.
abbrev link_target : Segs
link_target = codes "etc" ∷ []

abbrev project : Segs
project = codes "p" ∷ []

abbrev is_out : Segs → Bool
is_out (a ∷ b ∷ []) = equal a (codes "p") && equal b (codes "out")
is_out _ = false

abbrev realpath : Segs → Option Segs
realpath p = if is_out p then some link_target else none

link_refused : validate_path realpath project (codes "out") (codes "/p") false ≡ unsafe escapes
unfolding validate_path contained equal render real_target resolve split enter starts_with
link_refused = refl

sibling_refused :
    validate_path realpath project (codes "../p2/x") (codes "/p") false ≡ unsafe escapes
unfolding validate_path contained equal render real_target resolve split enter starts_with
sibling_refused = refl

-- Below the root directory nothing is accepted but the root itself.
root_refused : validate_path realpath project (codes "x") (codes "/") false ≡ unsafe escapes
unfolding validate_path contained equal render real_target resolve split enter starts_with
root_refused = refl

inside :
    validate_path realpath project (codes "a/../b") (codes "/p") false
    ≡ safe (codes "p" ∷ codes "b" ∷ [])
unfolding validate_path contained equal render real_target resolve split enter starts_with
inside = refl

project-IsPlain : All IsPlain project
project-IsPlain = (((refl, tt), (λ e. cc), (λ e. cc), (λ e. cc)), tt)

link_IsPlain : All IsPlain link_target
link_IsPlain = (((refl, (refl, (refl, tt))), (λ f. cc), (λ f. cc), (λ f. cc)), tt)

real_link : (b : Bool) (q : Segs) → (if b then some link_target else none) ≡ some q → All IsPlain q
real_link true q e = let same : link_target ≡ q = cc in subst (All IsPlain) same link_IsPlain
real_link false q e = cc

realpath-IsReal : IsReal realpath
realpath-IsReal p q e = real_link (is_out p) q e

validate_path-IsInside_example :
    IsInside (real_base realpath (resolve project (codes "/p"))) (codes "p" ∷ codes "b" ∷ [])
    × IsResolved realpath
        (resolve (resolve project (codes "/p")) (codes "a/../b"))
        (codes "p" ∷ codes "b" ∷ [])
    × (any (λ u. u == 0) (codes "a/../b") ≡ false)
    × ((is_absolute (codes "a/../b") && not false) ≡ false)
validate_path-IsInside_example =
    validate_path-IsInside realpath realpath-IsReal project (codes "a/../b") (codes "/p") false
      (codes "p" ∷ codes "b" ∷ []) project-IsPlain inside

abbrev leaked : Text
leaked = codes "Ok\nuser to=a:b"

displayed : sanitize_for_display leaked ≡ codes "Ok"
unfolding sanitize_for_display lit lit_ci to_upper is_space
displayed = refl

sanitize_for_display-IsQuiet_example :
    All (λ l. ¬ IsLeaked l) (split b'\n' (sanitize_for_display leaked))
sanitize_for_display-IsQuiet_example = sanitize_for_display-IsQuiet leaked
