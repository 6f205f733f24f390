-- ===== src/State/Metric.antt =====
-- .opencode/get-shit-done/bin/lib/state.cjs: `cmdStateRecordMetric` and `cmdStateRecordSession`.
use mikmongo.Base.{
  true, false, ◌||◌, Option, none, some, List, [], ◌∷◌, ◌++◌, ◌==◌, if◌then◌else◌, is_empty,
}
use mikmongo.Text.{Text, codes, includes, trim, trim_end, is_space}
use mikmongo.Json.{Json}
use mikmongo.Regex.{
  Regex, find, replace, text_of, word, word_ci, spaces, anything, no_newline, some_of, newline, ◌⨟◌,
}
use mikmongo.State.{state_replace_field}
use mikmongo.State.Command.{Reply, object, string, texts, printed, truthy, or_text, no_state}

pub record Metric : Type 0 where
  pub phase : Option Text
  pub plan : Option Text
  pub duration : Option Text
  pub tasks : Option Text
  pub files : Option Text

-- `\n\|[^\n]+\n\|[-|\s]+\n`: the two lines at the head of a table.
abbrev pub table_head : Regex
table_head =
    word "\n|"
    ⨟ no_newline
    ⨟ word "\n|"
    ⨟ some_of (Regex.test (λ c. c == b'-' || c == b'|' || is_space c))
    ⨟ newline

-- `(?=\n##|\n$|$)`
abbrev pub table_end : Regex
table_end =
    Regex.look (Regex.alt (word "\n##") (Regex.alt (newline ⨟ Regex.eol false) (Regex.eol false)))

abbrev pub metrics_pattern : Regex
metrics_pattern =
    Regex.group 1 (word "##" ⨟ spaces ⨟ word_ci "Performance Metrics" ⨟ anything ⨟ table_head)
    ⨟ Regex.group 2 anything
    ⨟ table_end

abbrev pub row_of : Text → Text → Text → Metric → Text
row_of phase plan duration o =
    codes "| Phase "
    ++ (phase
        ++ (codes " P"
            ++ (plan
                ++ (codes " | "
                    ++ (duration
                        ++ (codes " | "
                            ++ (or_text o.tasks (codes "-")
                                ++ (codes " tasks | "
                                    ++ (or_text o.files (codes "-") ++ codes " files |")))))))))

unfoldable pub table_body : Text → Text → Text
unfolding trim_end trim includes
table_body body row =
    let old = trim_end body in
    if is_empty (trim old) || includes old (codes "None yet")
    then row
    else old ++ (codes "\n" ++ row)

abbrev no_metrics : Reply
no_metrics =
    printed
      (object (
        (codes "recorded", Json.bool false)
        ∷ (codes "reason", string "Performance Metrics section not found in STATE.md")
        ∷ []))
      (some (codes "false")) none

unfoldable pub record_metric : Text → Text → Text → Text → Metric → Reply
unfolding find replace text_of table_body
record_metric content phase plan duration o = elim (find metrics_pattern content) [
  | none ↦ no_metrics
  | some m ↦
      let body = table_body (text_of 2 m) (row_of phase plan duration o) in
      printed
        (object (
          (codes "recorded", Json.bool true)
          ∷ (codes "phase", Json.str phase)
          ∷ (codes "plan", Json.str plan)
          ∷ (codes "duration", Json.str duration)
          ∷ []))
        (some (codes "true"))
        (some (replace metrics_pattern (λ f. text_of 1 f ++ (body ++ codes "\n")) content))
]

-- `cmdStateRecordMetric(cwd, options, raw)`
unfoldable pub cmd_state_record_metric : Option Text → Metric → Reply
unfolding record_metric
cmd_state_record_metric none o = no_state
cmd_state_record_metric (some content) o =
    let phase = or_text o.phase [] in
    let plan = or_text o.plan [] in
    let duration = or_text o.duration [] in
    if is_empty phase || (is_empty plan || is_empty duration)
    then printed (object ((codes "error", string "phase, plan, and duration required") ∷ [])) none
        none
    else record_metric content phase plan duration o

-- A document and the names of the fields that were replaced in it.
pub record Session : Type 0 where
  pub content : Text
  pub updated : List Text

-- `if (result) { content = result; updated.push(name); }`
abbrev pub record_field : Text → Option Text → Session → Session
record_field name none s = s
record_field name (some content) s = record { content = content; updated = s.updated ++ name ∷ [] }

abbrev either_field : Option Text → Option Text → Option Text
either_field none other = other
either_field (some c) other = some c

unfoldable pub session_field : Text → Text → Text → Session → Session
session_field name other value s =
    record_field name
      (either_field (state_replace_field s.content name value)
        (state_replace_field s.content other value))
      s

unfoldable pub record_session : Text → Option Text → Option Text → Session → Session
unfolding session_field
record_session now stopped_at resume_file s =
    let s1 =
      record_field (codes "Last session") (state_replace_field s.content (codes "Last session") now)
        s in
    let s2 =
      record_field (codes "Last Date") (state_replace_field s1.content (codes "Last Date") now)
        s1 in
    let s3 =
      if truthy stopped_at
      then session_field (codes "Stopped At") (codes "Stopped at") (or_text stopped_at []) s2
      else s2 in
    session_field (codes "Resume File") (codes "Resume file") (or_text resume_file (codes "None"))
      s3

abbrev session_reply : Session → Reply
session_reply s =
    if is_empty s.updated
    then printed
        (object (
          (codes "recorded", Json.bool false)
          ∷ (codes "reason", string "No session fields found in STATE.md")
          ∷ []))
        (some (codes "false")) none
    else printed
        (object ((codes "recorded", Json.bool true) ∷ (codes "updated", texts s.updated) ∷ []))
        (some (codes "true")) (some s.content)

-- `cmdStateRecordSession(cwd, options, raw)` at the time `now`.
unfoldable pub cmd_state_record_session : Option Text → Text → Option Text → Option Text → Reply
unfolding record_session
cmd_state_record_session none now stopped_at resume_file = no_state
cmd_state_record_session (some content) now stopped_at resume_file =
    session_reply
      (record_session now stopped_at resume_file (record { content = content; updated = [] }))
