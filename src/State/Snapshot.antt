-- ===== src/State/Snapshot.antt =====
-- .opencode/get-shit-done/bin/lib/state.cjs: `cmdStateSnapshot`.
use mikmongo.Base.{true, false, not, Option, none, some, List, [], ◌∷◌, ◌++◌, map, is_empty, keep}
use mikmongo.Text.{Text, codes, includes, trim, split, replace_first}
use mikmongo.Json.{Json}
use mikmongo.Regex.{
  Regex, find, find_all, replace, text_of, lit_ci, word, word_ci, spaces, some_spaces, some_line,
  anything, newline, ◌⨟◌,
}
use mikmongo.State.{state_extract_field}
use mikmongo.State.Command.{
  ℤ, Reply, object, items, texts, printed, or_null, parse_number, no_state,
}
use mikmongo.State.Metric.{table_head, table_end}

abbrev number_or_null : Option ℤ → Json ℤ
number_or_null none = Json.null
number_or_null (some n) = Json.num n

-- `raw ? parseInt(raw, 10) : null`; `NaN` is printed as `null` too.
abbrev pub number_field : Option Text → Json ℤ
number_field none = Json.null
number_field (some s) = number_or_null (parse_number s)

abbrev pub decisions_table : Regex
decisions_table =
    word "##"
    ⨟ spaces
    ⨟ word_ci "Decisions Made"
    ⨟ anything
    ⨟ table_head
    ⨟ Regex.group 1 anything
    ⨟ table_end

-- `row.split('|').map(c => c.trim()).filter(Boolean)`
unfoldable pub cells : Text → List Text
unfolding split trim
cells row = keep (λ c. not (is_empty c)) (map trim (split b'|' row))

abbrev decision : List Text → List (Json ℤ)
decision (phase ∷ summary ∷ rationale ∷ rest) =
    object (
      (codes "phase", Json.str phase)
      ∷ (codes "summary", Json.str summary)
      ∷ (codes "rationale", Json.str rationale)
      ∷ [])
    ∷ []
decision _ = []

-- The loop over the rows: a row of less than three cells is passed over.
unfoldable pub decision_rows : List Text → List (Json ℤ)
unfolding cells
decision_rows [] = []
decision_rows (row ∷ rows) = decision (cells row) ++ decision_rows rows

unfoldable pub decisions_of : Text → List (Json ℤ)
unfolding find text_of decision_rows trim split includes
decisions_of content = elim (find decisions_table content) [
  | none ↦ []
  | some m ↦ decision_rows (keep (λ r. includes r (codes "|")) (split b'\n' (trim (text_of 1 m))))
]

-- `/##\s*Name\s*\n([\s\S]*?)(?=\n##|$)/i`
abbrev pub named_section : Regex → Regex
named_section name =
    word "##"
    ⨟ spaces
    ⨟ name
    ⨟ spaces
    ⨟ newline
    ⨟ Regex.group 1 anything
    ⨟ Regex.look (Regex.alt (word "\n##") (Regex.eol false))

-- `/^-\s+(.+)$/m`
abbrev pub item_pattern : Regex
item_pattern = Regex.bol true ⨟ word "-" ⨟ some_spaces ⨟ Regex.group 1 some_line ⨟ Regex.eol true

-- `item.replace(/^-\s+/, '').trim()`
unfoldable pub item_text : Text → Text
unfolding replace trim
item_text item = trim (replace (Regex.bol false ⨟ word "-" ⨟ some_spaces) (λ m. []) item)

unfoldable pub blockers_of : Text → List Text
unfolding find find_all text_of item_text
blockers_of content = elim (find (named_section (word_ci "Blockers")) content) [
  | none ↦ []
  | some m ↦ map (λ i. item_text i.matched) (find_all item_pattern (text_of 1 m))
]

-- One of the three values of the session: in the bold form, or in the plain form.
abbrev bold_field : Text → Regex
bold_field name = word "**" ⨟ lit_ci name ⨟ word ":**" ⨟ spaces ⨟ Regex.group 1 some_line

abbrev plain_field : Text → Regex
plain_field name = Regex.bol true ⨟ lit_ci name ⨟ word ":" ⨟ spaces ⨟ Regex.group 1 some_line

unfoldable pub session_value : Text → Text → Option Text
unfolding find text_of trim
session_value name section = elim (find (bold_field name) section) [
  | some m ↦ some (trim (text_of 1 m))
  | none ↦ elim (find (plain_field name) section) [
    | some m ↦ some (trim (text_of 1 m))
    | none ↦ none
  ]
]

abbrev session_object : Option Text → Option Text → Option Text → Json ℤ
session_object last_date stopped_at resume_file = object (
    (codes "last_date", or_null last_date)
    ∷ (codes "stopped_at", or_null stopped_at)
    ∷ (codes "resume_file", or_null resume_file)
    ∷ [])

unfoldable pub session_of : Text → Json ℤ
unfolding find text_of session_value
session_of content = elim (find (named_section (word_ci "Session")) content) [
  | none ↦ session_object none none none
  | some m ↦
      let section = text_of 1 m in
      session_object (session_value (codes "Last Date") section)
        (session_value (codes "Stopped At") section) (session_value (codes "Resume File") section)
]

abbrev without_percent : Option Text → Option Text
without_percent none = none
without_percent (some s) = some (replace_first (codes "%") [] s)

-- `cmdStateSnapshot(cwd, raw)`
unfoldable pub cmd_state_snapshot : Option Text → Reply
unfolding decisions_of blockers_of session_of parse_number replace_first
cmd_state_snapshot none = no_state
cmd_state_snapshot (some content) =
    let field = state_extract_field content in
    printed
      (object (
        (codes "current_phase", or_null (field (codes "Current Phase")))
        ∷ (codes "current_phase_name", or_null (field (codes "Current Phase Name")))
        ∷ (codes "total_phases", number_field (field (codes "Total Phases")))
        ∷ (codes "current_plan", or_null (field (codes "Current Plan")))
        ∷ (codes "total_plans_in_phase", number_field (field (codes "Total Plans in Phase")))
        ∷ (codes "status", or_null (field (codes "Status")))
        ∷ (codes "progress_percent", number_field (without_percent (field (codes "Progress"))))
        ∷ (codes "last_activity", or_null (field (codes "Last Activity")))
        ∷ (codes "last_activity_desc", or_null (field (codes "Last Activity Description")))
        ∷ (codes "decisions", Json.arr (items (decisions_of content)))
        ∷ (codes "blockers", texts (blockers_of content))
        ∷ (codes "paused_at", or_null (field (codes "Paused At")))
        ∷ (codes "session", session_of content)
        ∷ []))
      none none
