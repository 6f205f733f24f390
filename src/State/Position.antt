-- ===== src/State/Position.antt =====
-- .opencode/get-shit-done/bin/lib/state.cjs: `updateCurrentPositionFields` and `cmdStateAdvancePlan`.
pub mod Bounds
use mikmongo.Base.{true, false, ◌&&◌, Option, none, some, [], ◌∷◌, ◌++◌, if◌then◌else◌}
use mikmongo.Text.{Text, codes}
use mikmongo.Json.{Json}
use mikmongo.Regex.{
  Regex, find, replace, matches, expand, text_of, word, word_ci, spaces, some_spaces, line, digits,
  anything, ◌⨟◌,
}
use mikmongo.State.{state_extract_field, state_replace_field, state_replace_field_with_fallback}
use mikmongo.State.Command.{
  ℤ, Reply, object, string, printed, truthy, parse_number, show, reaches, next, no_state,
}
use Prim.Native.String.{String}

-- `/(##\s*Current Position\s*\n)([\s\S]*?)(?=\n##|$)/i`
abbrev pub position_pattern : Regex
position_pattern =
    Regex.group 1 (word "##" ⨟ spaces ⨟ word_ci "Current Position" ⨟ spaces ⨟ word "\n")
    ⨟ Regex.group 2 anything
    ⨟ Regex.look (Regex.alt (word "\n##") (Regex.eol false))

-- `/^Name:.*$/m`, and the same with the flag `i`.
abbrev pub line_pattern : String → Regex
line_pattern name = Regex.bol true ⨟ word name ⨟ line ⨟ Regex.eol true

abbrev pub line_pattern_ci : String → Regex
line_pattern_ci name = Regex.bol true ⨟ word_ci name ⨟ line ⨟ Regex.eol true

-- One of the three fields: when it is given and its name begins a line.
unfoldable pub set_line : Regex → Regex → String → Option Text → Text → Text
unfolding matches replace expand
set_line name whole lead none body = body
set_line name whole lead (some v) body =
    if truthy (some v) && matches name body
    then replace whole (expand 0 (codes lead ++ v)) body
    else body

pub record Position : Type 0 where
  pub status : Option Text
  pub last_activity : Option Text
  pub plan : Option Text

unfoldable pub position_body : Position → Text → Text
unfolding set_line
position_body p body =
    let body1 =
      set_line (Regex.bol true ⨟ word "Status:") (line_pattern "Status:") "Status: " p.status
        body in
    let body2 =
      set_line (Regex.bol true ⨟ word_ci "Last activity:") (line_pattern_ci "Last activity:")
        "Last activity: " p.last_activity body1 in
    set_line (Regex.bol true ⨟ word "Plan:") (line_pattern "Plan:") "Plan: " p.plan body2

-- `updateCurrentPositionFields(content, fields)`
unfoldable pub update_current_position_fields : Text → Position → Text
unfolding find replace expand text_of position_body
update_current_position_fields content p = elim (find position_pattern content) [
  | none ↦ content
  | some m ↦
      replace position_pattern (expand 2 (text_of 1 m ++ position_body p (text_of 2 m))) content
]

-- The current and the total plan, and the compound field if it is used.
pub record Plans : Type 0 where
  pub current : ℤ
  pub total : ℤ
  pub compound : Option Text

abbrev of_pattern : Regex
of_pattern = word "of" ⨟ some_spaces ⨟ Regex.group 1 digits

unfoldable pub compound_total : Text → Option ℤ
unfolding find text_of parse_number
compound_total plan = elim (find of_pattern plan) [
  | none ↦ none
  | some m ↦ parse_number (text_of 1 m)
]

abbrev both : Option ℤ → Option ℤ → Option Text → Option Plans
both (some c) (some t) compound = some (record { current = c; total = t; compound = compound })
both _ _ compound = none

abbrev or_none : Option Text → Text
or_none none = []
or_none (some s) = s

unfoldable pub read_plans : Text → Option Plans
unfolding parse_number compound_total
read_plans content =
    let legacy_plan = state_extract_field content (codes "Current Plan") in
    let legacy_total = state_extract_field content (codes "Total Plans in Phase") in
    let plan = state_extract_field content (codes "Plan") in
    if truthy legacy_plan && truthy legacy_total
    then both (parse_number (or_none legacy_plan)) (parse_number (or_none legacy_total)) none
    else if truthy plan
    then both (parse_number (or_none plan)) (compound_total (or_none plan)) plan
    else none

abbrev pub or_same : Option Text → Text → Text
or_same none content = content
or_same (some s) content = s

abbrev pub set_status : Text → Text → Text → Text
set_status content status today =
    let content1 = state_replace_field_with_fallback content (codes "Status") none status in
    state_replace_field_with_fallback content1 (codes "Last Activity")
      (some (codes "Last activity")) today

abbrev pub complete_status : Text
complete_status = codes "Phase complete — ready for verification"

unfoldable pub last_plan : Text → Text → Text
unfolding update_current_position_fields
last_plan content today =
    update_current_position_fields (set_status content complete_status today)
      (record { status = some complete_status; last_activity = some today; plan = none })

-- The plan's new text, and the content with the plan's field replaced.
unfoldable pub plan_text : Plans → Text
unfolding replace show
plan_text p = elim p.compound [
  | none ↦ show (next p.current) ++ (codes " of " ++ show p.total)
  | some plan ↦ replace (Regex.bol false ⨟ digits) (λ m. show (next p.current)) plan
]

unfoldable pub set_plan : Text → Plans → Text
unfolding plan_text show
set_plan content p = elim p.compound [
  | none ↦
      or_same (state_replace_field content (codes "Current Plan") (show (next p.current))) content
  | some plan ↦ or_same (state_replace_field content (codes "Plan") (plan_text p)) content
]

unfoldable pub next_plan : Text → Plans → Text → Text
unfolding update_current_position_fields plan_text set_plan
next_plan content p today =
    update_current_position_fields
      (set_status (set_plan content p) (codes "Ready to execute") today)
      (record {
        status = some (codes "Ready to execute");
        last_activity = some today;
        plan = some (plan_text p);
      })

-- `cmdStateAdvancePlan(cwd, raw)` on the content of STATE.md and the date.
unfoldable pub cmd_state_advance_plan : Option Text → Text → Reply
unfolding read_plans last_plan next_plan
cmd_state_advance_plan none today = no_state
cmd_state_advance_plan (some content) today = elim (read_plans content) [
  | none ↦
      printed
        (object (
          (codes "error", string "Cannot parse Current Plan or Total Plans in Phase from STATE.md")
          ∷ []))
        none none
  | some p ↦
      if reaches p.current p.total
      then printed
          (object (
            (codes "advanced", Json.bool false)
            ∷ (codes "reason", string "last_plan")
            ∷ (codes "current_plan", Json.num p.current)
            ∷ (codes "total_plans", Json.num p.total)
            ∷ (codes "status", string "ready_for_verification")
            ∷ []))
          (some (codes "false")) (some (last_plan content today))
      else printed
          (object (
            (codes "advanced", Json.bool true)
            ∷ (codes "previous_plan", Json.num p.current)
            ∷ (codes "current_plan", Json.num (next p.current))
            ∷ (codes "total_plans", Json.num p.total)
            ∷ []))
          (some (codes "true")) (some (next_plan content p today))
]
