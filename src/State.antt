-- ===== src/State.antt =====
-- .opencode/get-shit-done/bin/lib/state.cjs: reading and replacing a field of STATE.md, in the form
-- `**Field:** value` or `Field: value`. Matching without case is that of ASCII.
pub mod Load
pub mod Command
pub mod Update
pub mod Position
pub mod Progress
pub mod Entries
pub mod Metric
pub mod Snapshot
pub mod Begin
pub mod Strip
pub mod Header
pub mod Edits
pub mod Fields
pub mod Matching
mod Tests
mod Runs
use mikmongo.Base.{
  ℕ, Bool, true, false, not, ◌&&◌, ◌||◌, Option, none, some, [], ◌∷◌, ◌++◌, ◌==◌, if◌then◌else◌,
  length, drop, take, any,
}
use mikmongo.Text.{Text, codes, is_space, is_line_end, span, trim, to_upper}

-- The text begins with `lead`, case aside.
unfoldable pub starts_ci : Text → Text → Bool
starts_ci s [] = true
starts_ci [] (d ∷ lead) = false
starts_ci (c ∷ s) (d ∷ lead) = to_upper c == to_upper d && starts_ci s lead

-- The literal begin of the two patterns.
abbrev pub bold : Text → Text
bold field = codes "**" ++ (field ++ codes ":**")

abbrev pub plain : Text → Text
plain field = field ++ codes ":"

-- The spaces at the begin of a text, and what follows.
abbrev pub after_spaces : Text → Text × Text
after_spaces s = span is_space s

-- The line at the begin of a text, and what follows.
abbrev pub first_line : Text → Text × Text
first_line s = span (λ c. not (is_line_end c)) s

-- `\s*(.+)` behind the field's name: the trimmed group. At the end of the text the group takes the
-- last space that ends no line.
unfoldable pub captured : Text × Text → Option Text
captured (ws, c ∷ s) = some (trim (first_line (c ∷ s)).0)
captured (ws, []) = if any (λ c. not (is_line_end c)) ws then some [] else none

abbrev pub or_later : Option Text → Option Text → Option Text
or_later none later = later
or_later (some v) later = some v

-- The first match of the name with a value behind it. With `anchored` a match stands at the begin of
-- a line, and `here` says that this place is one.
unfoldable pub scan : Bool → Text → Bool → Text → Option Text
scan anchored lead here [] = none
scan anchored lead here (c ∷ s) =
    let later = scan anchored lead (is_line_end c) s in
    if (here || not anchored) && starts_ci (c ∷ s) lead
    then or_later (captured (after_spaces (drop (length lead) (c ∷ s)))) later
    else later

abbrev pub or_plain : Option Text → Option Text → Option Text
or_plain none p = p
or_plain (some v) p = some v

-- `stateExtractField(content, fieldName)`
unfoldable pub state_extract_field : Text → Text → Option Text
state_extract_field content field =
    or_plain (scan false (bold field) true content) (scan true (plain field) true content)

-- What stands behind the name, with the first line of the value replaced.
unfoldable pub with_value : Text × Text → Text → Text
with_value (ws, s) value = ws ++ (value ++ (first_line s).1)

abbrev pub push : ℕ → Option Text → Option Text
push c none = none
push c (some s) = some (c ∷ s)

-- The first match of the name, with the value behind it replaced; `none` if the pattern fails.
unfoldable pub replace_scan : Bool → Text → Text → Bool → Text → Option Text
replace_scan anchored lead value here [] = none
replace_scan anchored lead value here (c ∷ s) =
    let later = replace_scan anchored lead value (is_line_end c) s in
    if (here || not anchored) && starts_ci (c ∷ s) lead
    then some
        (take (length lead) (c ∷ s) ++ with_value (after_spaces (drop (length lead) (c ∷ s))) value)
    else push c later

-- `stateReplaceField(content, fieldName, newValue)`
unfoldable pub state_replace_field : Text → Text → Text → Option Text
state_replace_field content field value =
    or_plain (replace_scan false (bold field) value true content)
      (replace_scan true (plain field) value true content)

abbrev or_unchanged : Option Text → Text → Text
or_unchanged none content = content
or_unchanged (some s) content = s

-- `stateReplaceFieldWithFallback(content, primary, fallback, value)`
unfoldable pub state_replace_field_with_fallback : Text → Text → Option Text → Text → Text
state_replace_field_with_fallback content primary none value =
    or_unchanged (state_replace_field content primary value) content
state_replace_field_with_fallback content primary (some fallback) value =
    or_unchanged
      (or_plain (state_replace_field content primary value)
        (state_replace_field content fallback value))
      content
