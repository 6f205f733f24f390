-- ===== src/Security.antt =====
-- .opencode/get-shit-done/bin/lib/security.cjs: the checks of arguments. An error carries which
-- check failed; its wording is left out.
pub mod Injection
pub mod Paths
pub mod Arguments
mod Tests
use mikmongo.Base.{
  ℕ, Bool, true, false, not, ◌&&◌, ◌||◌, Option, none, some, List, [], ◌∷◌, leb, ◌==◌,
  if◌then◌else◌, within, length, is_empty, all, any,
}
use mikmongo.Text.{Text, codes, includes, is_letter, is_alnum, trim, split}
use mikmongo.PhaseNum.{taken, Groups, match_phase}

pub data ArgError : Type 0 where
  empty null_bytes command_substitution : ArgError

pub data Checked (A : Type 0) : Type 0 where
  ok : A → Checked A
  err : ArgError → Checked A

-- `/[$`]/.test(v)`
abbrev has_dollar_or_tick : Text → Bool
has_dollar_or_tick = any (λ c. c == b'$' || c == b'`')

-- `validateShellArg`; the error is what it throws.
pub validate_shell_arg : Text → Checked Text
validate_shell_arg [] = err empty
validate_shell_arg (c ∷ v) =
    let value = c ∷ v in
    if any (λ u. u == 0) value
    then err null_bytes
    else if has_dollar_or_tick value && (includes value (codes "$(") || any (λ u. u == b'`') value)
    then err command_substitution
    else ok value

abbrev field_unit : ℕ → Bool
field_unit c = is_alnum c || c == b' ' || c == b'_' || c == b'.' || c == b'-' || c == b'/'

-- `validateFieldName`: `/^[A-Za-z][A-Za-z0-9 _.\-/]{0,60}$/`
unfoldable pub validate_field_name : Text → Bool
validate_field_name [] = false
validate_field_name (c ∷ s) = is_letter c && (all field_unit s && leb (length s) 60)

-- The segments of `(?:\.\d{1,3})*`, each behind its dot.
abbrev short_parts : Text → Bool
short_parts [] = true
short_parts (c ∷ s) = all (λ p. leb (length p) 3) (split b'.' s)

-- `/^\d{1,4}[A-Z]?(?:\.\d{1,3})*$/i`: what the phase pattern takes is the whole text, and no group
-- is too long.
unfoldable pub is_numeric_phase : Text → Option Groups → Bool
is_numeric_phase s none = false
is_numeric_phase s (some g) =
    length (taken g) == length s && (leb (length g.digits) 4 && short_parts g.decimal)

abbrev word : Text → Bool
word p = not (is_empty p) && all is_alnum p

abbrev starts_letter : Text → Bool
starts_letter [] = false
starts_letter (c ∷ s) = is_letter c

-- `/^[A-Z][A-Z0-9]*(?:-[A-Z0-9]+){1,4}$/i`, on the words between the dashes.
unfoldable pub is_custom_phase : List Text → Bool
is_custom_phase [] = false
is_custom_phase (first ∷ more) =
    starts_letter first && (all is_alnum first && (all word more && within 1 4 (length more)))

-- `validatePhaseNumber`: the normalised number.
pub validate_phase_number : Text → Option Text
validate_phase_number phase =
    let trimmed = trim phase in
    if is_empty phase
    then none
    else if is_numeric_phase trimmed (match_phase trimmed)
    then some trimmed
    else if is_custom_phase (split b'-' trimmed) && leb (length trimmed) 30
    then some trimmed
    else none
