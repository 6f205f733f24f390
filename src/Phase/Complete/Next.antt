-- ===== src/Phase/Complete/Next.antt =====
-- .opencode/get-shit-done/bin/lib/phase.cjs: `cmdPhaseComplete`: the next phase, STATE.md and the answer.
pub mod Search
use mikmongo.Base.{
  suc, Bool, true, false, not, Option, none, some, List, [], ◌∷◌, ◌++◌, map, ◌==◌, if◌then◌else◌,
  keep,
}
use Prim.Native.Nat.{Ordering}
use mikmongo.Text.{Text, codes, trim, to_lower, is_letter}
use mikmongo.Regex.{
  Regex, Found, find, find_all, replace, replace_all, expand, text_of, word, word_ci, spaces,
  some_spaces, digits, no_newline, some_of, maybe, ◌⨟◌,
}
use mikmongo.Sort.{sort}
use mikmongo.PhaseNum.{compare_phase_num}
use mikmongo.PhaseDir.{Dirent, directories}
use mikmongo.Milestone.{hashes, extract_current_milestone}
use mikmongo.Milestone.Info.{milestone_phases, milestone_filter}
use mikmongo.State.{state_extract_field, state_replace_field, state_replace_field_with_fallback}
use mikmongo.State.Command.{ℤ, pos, next, parse_number, show, truthy, or_text}
use mikmongo.State.Position.{or_same}
use mikmongo.Phase.{dir_pattern}
use mikmongo.Phase.Remove.{show_number}

-- The next phase: its number and its name.
pub record NextPhase : Type 0 where
  pub number : Text
  pub name : Option Text

abbrev pub is_greater : Ordering → Bool
is_greater Ordering.gt = true
is_greater _ = false

-- `/#{2,4}\s*Phase\s+(\d+[A-Z]?(?:\.\d+)*)\s*:\s*([^\n]+)/gi`
abbrev pub named_phase : Regex
named_phase =
    hashes 2 2
    ⨟ spaces
    ⨟ word_ci "Phase"
    ⨟ some_spaces
    ⨟ Regex.group 1 (digits ⨟ maybe (Regex.test is_letter) ⨟ Regex.many true (word "." ⨟ digits))
    ⨟ spaces
    ⨟ word ":"
    ⨟ spaces
    ⨟ Regex.group 2 no_newline

-- `name.replace(/\(INSERTED\)/i, '').trim().toLowerCase().replace(/\s+/g, '-')`
unfoldable pub name_in_roadmap : Text → Text
unfolding replace replace_all trim to_lower
name_in_roadmap name =
    replace_all some_spaces (λ m. codes "-")
      (map to_lower (trim (replace (word_ci "(INSERTED)") (λ m. []) name)))

abbrev nonempty : Text → Option Text
nonempty [] = none
nonempty (c ∷ s) = some (c ∷ s)

-- `name.replace(/-/g, ' ')`
abbrev pub with_spaces : Text → Text
with_spaces s = map (λ c. if c == b'-' then b' ' else c) s

-- The numbers of a compound field.
abbrev of_total : Regex
of_total = word "of" ⨟ some_spaces ⨟ Regex.group 1 digits

abbrev in_brackets : Regex
in_brackets = word "(" ⨟ Regex.group 1 (some_of (Regex.test (λ c. not (c == b')')))) ⨟ word ")"

abbrev bracketed : Option Text → Option Found → Text
bracketed (some (c ∷ name)) m = codes " (" ++ (with_spaces (c ∷ name) ++ codes ")")
bracketed _ (some m) = codes " (" ++ (text_of 1 m ++ codes ")")
bracketed _ none = []

unfoldable pub phase_value : Text → Option Text → Option Text → Text
unfolding find text_of
phase_value value name (some (c ∷ old)) = elim (find of_total (c ∷ old)) [
  | none ↦ value
  | some m ↦ value ++ (codes " of " ++ (text_of 1 m ++ bracketed name (find in_brackets (c ∷ old))))
]
phase_value value name old = value

abbrev or_field : Option Text → Option Text → Option Text
or_field (some (c ∷ s)) other = some (c ∷ s)
or_field _ other = other

abbrev pub next_name : Option NextPhase → Option Text
next_name none = none
next_name (some p) = p.name

abbrev pub next_number : Option NextPhase → Option Text
next_number none = none
next_number (some p) = some p.number

abbrev increased : Option ℤ → Option ℤ
increased none = none
increased (some n) = some (next n)

-- `/(percent:\s*)\d+/`
abbrev percent_pattern : Regex
percent_pattern = Regex.group 1 (word "percent:" ⨟ spaces) ⨟ digits

abbrev name_field : Option Text → Text → Text
name_field (some (c ∷ name)) content =
    state_replace_field_with_fallback content (codes "Current Phase Name") none
      (with_spaces (c ∷ name))
name_field _ content = content

abbrev moved_on : Option Text → Text
moved_on (some (c ∷ n)) = codes ", transitioned to Phase " ++ (c ∷ n)
moved_on _ = []

abbrev pub status_of : Option NextPhase → Text
status_of none = codes "Milestone complete"
status_of (some p) = codes "Ready to plan"

unfoldable pub transition_fields : Text → Option NextPhase → Text → Text → Text
unfolding phase_value
transition_fields number after today content =
    let old =
      or_field (state_extract_field content (codes "Current Phase"))
        (state_extract_field content (codes "Phase")) in
    let content1 =
      state_replace_field_with_fallback content (codes "Current Phase") (some (codes "Phase"))
        (phase_value (or_text (next_number after) number) (next_name after) old) in
    let content2 = name_field (next_name after) content1 in
    let content3 =
      state_replace_field_with_fallback content2 (codes "Status") none (status_of after) in
    let content4 =
      state_replace_field_with_fallback content3 (codes "Current Plan") (some (codes "Plan"))
        (codes "Not started") in
    let content5 =
      state_replace_field_with_fallback content4 (codes "Last Activity")
        (some (codes "Last activity")) today in
    state_replace_field_with_fallback content5 (codes "Last Activity Description") none
      (codes "Phase " ++ (number ++ (codes " complete" ++ moved_on (next_number after))))

module _ (round_percent : ℤ → ℤ → ℤ) where
  abbrev percent_text : Option ℤ → ℤ → Text
  percent_text none total = codes "NaN"
  percent_text (some c) total = show (round_percent c total)

  abbrev set_percent : Option ℤ → ℤ → Text → Text
  set_percent completed (pos (suc n)) content =
      let percent = percent_text completed (pos (suc n)) in
      let content1 =
        or_same (state_replace_field content (codes "Progress") (percent ++ codes "%")) content in
      replace percent_pattern (expand 1 (codes "$1" ++ percent)) content1
  set_percent completed total content = content

  abbrev with_percent : Option ℤ → Option ℤ → Text → Text
  with_percent completed none content = content
  with_percent completed (some total) content = set_percent completed total content

  -- The counter of the completed phases, and the percentage; `round_percent` is
  -- `Math.round((completed / total) * 100)`.
  unfoldable pub count_completed : Text → Text
  unfolding replace expand parse_number show
  count_completed content =
      let old = state_extract_field content (codes "Completed Phases") in
      let completed = increased (parse_number (or_text old [])) in
      if truthy old
      then (let content1 =
            or_same (state_replace_field content (codes "Completed Phases") (show_number completed))
              content in
          let total = state_extract_field content1 (codes "Total Phases") in
          if truthy total
          then with_percent completed (parse_number (or_text total [])) content1
          else content1)
      else content

module _ (locale_compare : Text → Text → Ordering) where
  abbrev pub later_phase : Text → Text → Bool
  later_phase number n = is_greater (compare_phase_num locale_compare n number)

  -- The loop over the sorted directories of the milestone.
  unfoldable pub next_dir : Text → List Text → Option NextPhase
  unfolding find text_of
  next_dir number [] = none
  next_dir number (dir ∷ dirs) =
      let rest = next_dir number dirs in
      elim (find dir_pattern dir) [
        | none ↦ rest
        | some m ↦
            if later_phase number (text_of 1 m)
            then some (record { number = text_of 1 m; name = nonempty (text_of 2 m) })
            else rest
      ]

  -- The loop over the phases of the roadmap.
  unfoldable pub next_listed : Text → List Found → Option NextPhase
  unfolding text_of name_in_roadmap
  next_listed number [] = none
  next_listed number (m ∷ ms) =
      let rest = next_listed number ms in
      if later_phase number (text_of 1 m)
      then some (record { number = text_of 1 m; name = some (name_in_roadmap (text_of 2 m)) })
      else rest

  abbrev pub dirs_in : List Text → Option (List Dirent) → List Text
  dirs_in phases none = []
  dirs_in phases (some es) =
      sort (compare_phase_num locale_compare) (keep (milestone_filter phases) (directories es))

  -- The next phase in the directories, or else in the roadmap.
  unfoldable pub next_phase :
      Text → Option (List Dirent) → Option Text → Option Text → Option NextPhase
  unfolding next_dir next_listed milestone_phases milestone_filter find_all
      extract_current_milestone
  next_phase number entries state roadmap =
      elim (next_dir number (dirs_in (milestone_phases state roadmap) entries)) [
        | some p ↦ some p
        | none ↦ elim roadmap [
          | none ↦ none
          | some content ↦
              next_listed number (find_all named_phase (extract_current_milestone state content))
        ]
      ]
