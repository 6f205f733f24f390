-- ===== src/Roadmap.antt =====
-- .opencode/get-shit-done/bin/lib/roadmap.cjs: `cmdRoadmapGetPhase`.
pub mod Analyze
pub mod Progress
pub mod Requirements
mod Tests
use mikmongo.Base.{
  true, false, not, ◌||◌, Option, none, some, List, [], ◌∷◌, ◌++◌, map, ◌==◌, is_empty, keep,
}
use mikmongo.Text.{Text, codes, split, trim}
use mikmongo.Json.{Json}
use mikmongo.Regex.{
  Regex, Found, find, replace, text_of, lit_ci, word, word_ci, spaces, some_spaces, digits,
  no_newline, some_of, maybe, newline, ◌⨟◌,
}
use mikmongo.Milestone.{extract_current_milestone, phase_heading, group_trimmed}
use mikmongo.Phase.Add.{next_heading}
use mikmongo.State.Command.{ℤ, object, string, texts, or_null}

-- `error(message)`, or `output(result, raw, raw_value)` and what is written to ROADMAP.md.
pub data Answer : Type 0 where
  failed : Text → Answer
  printed : (result : Json ℤ) → (raw_value : Text) → (written : Option Text) → Answer

-- `/\*\*Goal(?::\*\*|\*\*:)\s*([^\n]+)/i`, and the same for another word.
abbrev pub labelled : Regex → Regex
labelled name =
    word "**" ⨟ name ⨟ Regex.alt (word ":**") (word "**:") ⨟ spaces ⨟ Regex.group 1 no_newline

-- `/\*\*Success Criteria\*\*[^\n]*:\s*\n((?:\s*\d+\.\s*[^\n]+\n?)+)/i`
abbrev pub criteria_pattern : Regex
criteria_pattern =
    word_ci "**Success Criteria**"
    ⨟ Regex.many true (Regex.test (λ c. not (c == b'\n')))
    ⨟ word ":"
    ⨟ spaces
    ⨟ newline
    ⨟ Regex.group 1 (some_of (spaces ⨟ digits ⨟ word "." ⨟ spaces ⨟ no_newline ⨟ maybe newline))

-- `line.replace(/^\s*\d+\.\s*/, '').trim()`
unfoldable pub criterion : Text → Text
unfolding replace trim
criterion l = trim (replace (Regex.bol false ⨟ spaces ⨟ digits ⨟ word "." ⨟ spaces) (λ m. []) l)

unfoldable pub success_criteria : Text → List Text
unfolding find text_of criterion trim split
success_criteria section = elim (find criteria_pattern section) [
  | none ↦ []
  | some m ↦ keep (λ s. not (is_empty s)) (map criterion (split b'\n' (trim (text_of 1 m))))
]

abbrev pub before_next : Text → Text
before_next s = elim (find next_heading s) [ none ↦ s | some m ↦ m.before ]

-- `-\s*\[[ x]\]\s*\*\*Phase\s+number:\s*([^*]+)\*\*`, with the flag `i`.
abbrev pub checklist_name : Text → Regex
checklist_name number =
    word "-"
    ⨟ spaces
    ⨟ word "["
    ⨟ Regex.test (λ c. c == b' ' || c == b'x' || c == b'X')
    ⨟ word "]"
    ⨟ spaces
    ⨟ word_ci "**Phase"
    ⨟ some_spaces
    ⨟ lit_ci number
    ⨟ word ":"
    ⨟ spaces
    ⨟ Regex.group 1 (some_of (Regex.test (λ c. not (c == b'*'))))
    ⨟ word "**"

abbrev only_listed : Text → Found → Answer
only_listed number m =
    printed
      (object (
        (codes "found", Json.bool false)
        ∷ (codes "phase_number", Json.str number)
        ∷ (codes "phase_name", Json.str (trim (text_of 1 m)))
        ∷ (codes "error", string "malformed_roadmap")
        ∷ (
          codes "message",
          Json.str (
              codes "Phase "
              ++ (number
                  ++ (codes " exists in summary list but missing \"### Phase "
                      ++ (number ++ codes ":\" detail section. ROADMAP.md needs both formats.")))),
        )
        ∷ []))
      [] none

abbrev not_there : Text → Answer
not_there number =
    printed
      (object ((codes "found", Json.bool false) ∷ (codes "phase_number", Json.str number) ∷ [])) []
      none

abbrev phase_answer : Text → Text → Text → Answer
phase_answer number name section =
    printed
      (object (
        (codes "found", Json.bool true)
        ∷ (codes "phase_number", Json.str number)
        ∷ (codes "phase_name", Json.str name)
        ∷ (codes "goal", or_null (group_trimmed 1 (find (labelled (word_ci "Goal")) section)))
        ∷ (codes "success_criteria", texts (success_criteria section))
        ∷ (codes "section", Json.str section)
        ∷ []))
      section none

unfoldable pub get_phase : Text → Text → Answer
unfolding find text_of trim success_criteria
get_phase number content = elim (find (phase_heading number) content) [
  | some m ↦ phase_answer number (trim (text_of 1 m)) (trim (before_next (m.matched ++ m.after)))
  | none ↦ elim (find (checklist_name number) content) [
    | some m ↦ only_listed number m
    | none ↦ not_there number
  ]
]

-- `cmdRoadmapGetPhase(cwd, phaseNum, raw)` on STATE.md and ROADMAP.md.
unfoldable pub cmd_roadmap_get_phase : Option Text → Option Text → Text → Answer
unfolding get_phase extract_current_milestone
cmd_roadmap_get_phase state none number =
    printed
      (object
        ((codes "found", Json.bool false) ∷ (codes "error", string "ROADMAP.md not found") ∷ []))
      [] none
cmd_roadmap_get_phase state (some roadmap) number =
    get_phase number (extract_current_milestone state roadmap)
