-- ===== src/State/Begin.antt =====
-- .opencode/get-shit-done/bin/lib/state.cjs: `cmdStateBeginPhase`.
use mikmongo.Base.{zero, true, Option, none, some, [], ◌∷◌, ◌++◌, if◌then◌else◌, is_empty}
use mikmongo.Text.{Text, codes}
use mikmongo.Json.{Json}
use mikmongo.Regex.{
  Regex, find, replace, matches, expand, text_of, word, word_ci, spaces, line, ◌⨟◌,
}
use mikmongo.State.{state_replace_field}
use mikmongo.State.Command.{
  ℤ, Reply, object, texts, printed, truthy, or_text, show, no_state, or_null,
}
use mikmongo.State.Position.{position_pattern, line_pattern, line_pattern_ci}
use mikmongo.State.Metric.{Session, record_field}
use Prim.Native.String.{String}

-- The options of the command; a number of plans that is no number (`NaN`) counts as missing, and so
-- does zero.
pub record Phase : Type 0 where
  pub number : Text
  pub name : Option Text
  pub plans : Option ℤ

abbrev nonzero : Option ℤ → Option ℤ
nonzero (some (ℤ.pos zero)) = none
nonzero n = n

-- One of the fields, replaced if it is there.
unfoldable pub begin_field : String → Text → Session → Session
begin_field name value s =
    record_field (codes name) (state_replace_field s.content (codes name) value) s

unfoldable pub begin_fields : Text → Phase → Session → Session
unfolding begin_field show
begin_fields today p s =
    let s1 = begin_field "Status" (codes "Executing Phase " ++ p.number) s in
    let s2 = begin_field "Last Activity" today s1 in
    let s3 =
      begin_field "Last Activity Description"
        (codes "Phase " ++ (p.number ++ codes " execution started")) s2 in
    let s4 = begin_field "Current Phase" p.number s3 in
    let s5 =
      if truthy p.name then begin_field "Current Phase Name" (or_text p.name []) s4 else s4 in
    let s6 = begin_field "Current Plan" (codes "1") s5 in
    elim (nonzero p.plans) [ none ↦ s6 | some n ↦ begin_field "Total Plans in Phase" (show n) s6 ]

-- `/(\*\*Current focus:\*\*\s*).*/i`
abbrev pub focus_pattern : Regex
focus_pattern = Regex.group 1 (word_ci "**Current focus:**" ⨟ spaces) ⨟ line

abbrev pub focus_label : Phase → Text
focus_label p =
    codes "Phase " ++ (p.number ++ (if truthy p.name then codes " — " ++ or_text p.name [] else []))

unfoldable pub set_focus : Phase → Session → Session
unfolding matches replace text_of
set_focus p s =
    if matches focus_pattern s.content
    then record {
      content = replace focus_pattern (λ m. text_of 1 m ++ focus_label p) s.content;
      updated = s.updated ++ codes "Current focus" ∷ [];
    }
    else s

-- `body.replace(whole, line)` if a line begins with the name, or `otherwise`.
unfoldable pub put_line : Regex → Regex → Text → Text → Text → Text
unfolding matches replace expand
put_line name whole value otherwise body =
    if matches name body then replace whole (expand 0 value) body else otherwise

abbrev starts_line : String → Regex
starts_line name = Regex.bol true ⨟ word name

abbrev phase_line : Phase → Text
phase_line p =
    codes "Phase: "
    ++ (p.number
        ++ ((if truthy p.name then codes " (" ++ (or_text p.name [] ++ codes ")") else [])
            ++ codes " — EXECUTING"))

abbrev plan_line : Phase → Text
plan_line p = codes "Plan: 1 of " ++ elim (nonzero p.plans) [ none ↦ codes "?" | some n ↦ show n ]

-- `/^(Phase:.*$)/m`
abbrev phase_group : Regex
phase_group = Regex.bol true ⨟ Regex.group 1 (word "Phase:" ⨟ line ⨟ Regex.eol true)

unfoldable pub begin_body : Text → Phase → Text → Text
unfolding put_line show
begin_body today p body =
    let body1 =
      put_line (starts_line "Phase:") (line_pattern "Phase:") (phase_line p)
        (phase_line p ++ (codes "\n" ++ body)) body in
    let body2 =
      put_line (starts_line "Plan:") (line_pattern "Plan:") (plan_line p)
        (replace phase_group (expand 1 (codes "$1\n" ++ plan_line p)) body1) body1 in
    let body3 =
      put_line (starts_line "Status:") (line_pattern "Status:")
        (codes "Status: Executing Phase " ++ p.number) body2 body2 in
    put_line (Regex.bol true ⨟ word_ci "Last activity:") (line_pattern_ci "Last activity:")
      (codes "Last activity: "
        ++ (today ++ (codes " -- Phase " ++ (p.number ++ codes " execution started"))))
      body3 body3

unfoldable pub set_position : Text → Phase → Session → Session
unfolding find replace expand text_of begin_body
set_position today p s = elim (find position_pattern s.content) [
  | none ↦ s
  | some m ↦ record {
    content =
        replace position_pattern (expand 2 (text_of 1 m ++ begin_body today p (text_of 2 m)))
          s.content;
    updated = s.updated ++ codes "Current Position" ∷ [];
  }
]

unfoldable pub begin_phase : Text → Phase → Session → Session
unfolding begin_fields set_focus set_position
begin_phase today p s = set_position today p (set_focus p (begin_fields today p s))

abbrev text_or_null : Option Text → Json ℤ
text_or_null s = if truthy s then or_null s else Json.null

abbrev count_or_null : Option ℤ → Json ℤ
count_or_null none = Json.null
count_or_null (some n) = Json.num n

abbrev begin_reply : Phase → Session → Reply
begin_reply p s =
    let result = object (
      (codes "updated", texts s.updated)
      ∷ (codes "phase", Json.str p.number)
      ∷ (codes "phase_name", text_or_null p.name)
      ∷ (codes "plan_count", count_or_null (nonzero p.plans))
      ∷ []) in
    if is_empty s.updated
    then printed result (some (codes "false")) none
    else printed result (some (codes "true")) (some s.content)

-- `cmdStateBeginPhase(cwd, phaseNumber, phaseName, planCount, raw)` on the date `today`.
unfoldable pub cmd_state_begin_phase : Option Text → Text → Phase → Reply
unfolding begin_phase
cmd_state_begin_phase none today p = no_state
cmd_state_begin_phase (some content) today p =
    begin_reply p (begin_phase today p (record { content = content; updated = [] }))
