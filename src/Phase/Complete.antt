-- ===== src/Phase/Complete.antt =====
-- .opencode/get-shit-done/bin/lib/phase.cjs: `cmdPhaseComplete`: the warnings, ROADMAP.md and
-- REQUIREMENTS.md.
pub mod Next
pub mod Command
use mikmongo.Base.{
  ℕ, Bool, true, false, not, ◌&&◌, ◌||◌, Option, none, some, List, [], ◌∷◌, ◌++◌, ◌==◌,
  if◌then◌else◌, drop, is_empty, keep,
}
use mikmongo.Text.{Text, codes, includes, ends_with, split, join, is_space}
use mikmongo.Regex.{
  Regex, Found, find, replace, replace_all, expand, text_of, lit_ci, word, word_ci, spaces,
  some_spaces, line, anything, no_newline, some_of, maybe, ◌⨟◌,
}
use mikmongo.Milestone.{hashes, extract_current_milestone, replace_in_current_milestone}
use mikmongo.State.Command.{show_nat}

-- A file and its content.
pub record File : Type 0 where
  pub name : Text
  pub content : Text

abbrev warn_if : Text → Text → File → List Text
warn_if sign message f =
    if includes f.content sign then (f.name ++ (codes ": " ++ message)) ∷ [] else []

unfoldable pub uat_warnings : File → List Text
unfolding includes
uat_warnings f =
    warn_if (codes "result: pending") (codes "has pending tests") f
    ++ (warn_if (codes "result: blocked") (codes "has blocked tests") f
        ++ (warn_if (codes "status: partial") (codes "testing incomplete (partial)") f
            ++ warn_if (codes "status: diagnosed") (codes "has diagnosed gaps") f))

unfoldable pub verification_warnings : File → List Text
unfolding includes
verification_warnings f =
    warn_if (codes "status: human_needed") (codes "needs human verification") f
    ++ warn_if (codes "status: gaps_found") (codes "has unresolved gaps") f

abbrev for_each : (File → List Text) → List File → List Text
for_each warn [] = []
for_each warn (f ∷ fs) = warn f ++ for_each warn fs

abbrev is_report : Text → File → Bool
is_report sign f = includes f.name sign && ends_with f.name (codes ".md")

-- The warnings of the phase's files, all of which can be read.
unfoldable pub warnings_of : List File → List Text
unfolding uat_warnings verification_warnings ends_with
warnings_of fs =
    for_each uat_warnings (keep (is_report (codes "-UAT")) fs)
    ++ for_each verification_warnings (keep (is_report (codes "-VERIFICATION")) fs)

abbrev until : ℕ → Regex
until c = Regex.many true (Regex.test (λ u. not (u == c)))

abbrev colon_or_space : Regex
colon_or_space = Regex.test (λ c. c == b':' || is_space c)

-- `(-\s*\[)[ ](\]\s*.*Phase\s+number[:\s][^\n]*)`, with the flag `i`.
abbrev pub open_checkbox : Text → Regex
open_checkbox number =
    Regex.group 1 (word "-" ⨟ spaces ⨟ word "[")
    ⨟ word " "
    ⨟ Regex.group 2 (
        word "]"
        ⨟ spaces
        ⨟ line
        ⨟ word_ci "Phase"
        ⨟ some_spaces
        ⨟ lit_ci number
        ⨟ colon_or_space
        ⨟ until b'\n')

-- `^(\|\s*number\.?\s[^|]*(?:\|[^\n]*))$`, with the flags `im`.
abbrev pub table_row : Text → Regex
table_row number =
    Regex.bol true
    ⨟ Regex.group 1 (
        word "|"
        ⨟ spaces
        ⨟ lit_ci number
        ⨟ maybe (word ".")
        ⨟ Regex.test is_space
        ⨟ until b'|'
        ⨟ word "|"
        ⨟ until b'\n')
    ⨟ Regex.eol true

-- `(#{2,4}\s*Phase\s+number[\s\S]*?\*\*Plans:\*\*\s*)[^\n]+`, with the flag `i`.
abbrev pub plans_line : Text → Regex
plans_line number =
    Regex.group 1 (
      hashes 2 2
      ⨟ spaces
      ⨟ word_ci "Phase"
      ⨟ some_spaces
      ⨟ lit_ci number
      ⨟ anything
      ⨟ word_ci "**Plans:**"
      ⨟ spaces)
    ⨟ no_newline

abbrev without_last : List Text → List Text
without_last [] = []
without_last (x ∷ []) = []
without_last (x ∷ y ∷ ys) = x ∷ without_last (y ∷ ys)

-- `fullRow.split('|').slice(1, -1)`
abbrev pub inner_cells : Text → List Text
inner_cells row = without_last (drop 1 (split b'|' row))

abbrev complete_cell : Text
complete_cell = codes " Complete    "

abbrev date_cell : Text → Text
date_cell today = codes " " ++ (today ++ codes " ")

unfoldable pub complete_cells : Text → List Text → List Text
complete_cells today (a ∷ b ∷ c ∷ d ∷ e ∷ []) = a ∷ b ∷ c ∷ complete_cell ∷ date_cell today ∷ []
complete_cells today (a ∷ b ∷ c ∷ d ∷ []) = a ∷ b ∷ complete_cell ∷ date_cell today ∷ []
complete_cells today cells = cells

unfoldable pub complete_row : Text → Text → Text
unfolding split join complete_cells
complete_row today row =
    codes "|" ++ (join (codes "|") (complete_cells today (inner_cells row)) ++ codes "|")

-- The three replacements in ROADMAP.md.
unfoldable pub complete_roadmap : Text → Text → ℕ → ℕ → Text → Text
unfolding replace expand text_of replace_in_current_milestone complete_row show_nat
complete_roadmap number today summaries plans content =
    let content1 =
      replace_in_current_milestone
        (replace (open_checkbox number)
          (expand 2 (codes "$1x$2 (completed " ++ (today ++ codes ")"))))
        content in
    let content2 = replace (table_row number) (λ m. complete_row today m.matched) content1 in
    replace_in_current_milestone
      (replace (plans_line number) (
        expand 1 (
          codes "$1"
          ++ (show_nat summaries ++ (codes "/" ++ (show_nat plans ++ codes " plans complete"))))))
      content2

-- `(#{2,4}\s*Phase\s+number[:\s][\s\S]*?)(?=#{2,4}\s*Phase\s+|$)`, with the flag `i`.
abbrev pub phase_section : Text → Regex
phase_section number =
    Regex.group 1 (
      hashes 2 2
      ⨟ spaces
      ⨟ word_ci "Phase"
      ⨟ some_spaces
      ⨟ lit_ci number
      ⨟ colon_or_space
      ⨟ anything)
    ⨟ Regex.look (Regex.alt (hashes 2 2 ⨟ spaces ⨟ word_ci "Phase" ⨟ some_spaces) (Regex.eol false))

-- `/\*\*Requirements:\*\*\s*([^\n]+)/i`
abbrev pub requirements_line : Regex
requirements_line = word_ci "**Requirements:**" ⨟ spaces ⨟ Regex.group 1 no_newline

abbrev is_bracket : ℕ → Bool
is_bracket c = c == b'[' || c == b']'

-- `text.split(/[,\s]+/)`, up to empty parts.
unfoldable pub split_ids : Text → List Text
split_ids [] = [] ∷ []
split_ids (c ∷ s) =
    let rest = split_ids s in if c == b',' || is_space c then [] ∷ rest else push c rest
  where
    push : ℕ → List Text → List Text
    push c [] = (c ∷ []) ∷ []
    push c (p ∷ ps) = (c ∷ p) ∷ ps

-- The identifiers of the requirements of the phase.
unfoldable pub requirement_ids : Text → List Text
unfolding split_ids
requirement_ids text =
    keep (λ r. not (is_empty r)) (split_ids (keep (λ c. not (is_bracket c)) text))

-- `(-\s*\[)[ ](\]\s*\*\*id\*\*)`, with the flags `gi`.
abbrev pub requirement_checkbox : Text → Regex
requirement_checkbox id =
    Regex.group 1 (word "-" ⨟ spaces ⨟ word "[")
    ⨟ word " "
    ⨟ Regex.group 2 (word "]" ⨟ spaces ⨟ word "**" ⨟ lit_ci id ⨟ word "**")

-- `(\|\s*id\s*\|[^|]+\|)\s*(?:Pending|In Progress)\s*(\|)`, with the flags `gi`.
abbrev pub requirement_row : Text → Regex
requirement_row id =
    Regex.group 1 (
      word "|"
      ⨟ spaces
      ⨟ lit_ci id
      ⨟ spaces
      ⨟ word "|"
      ⨟ some_of (Regex.test (λ u. not (u == b'|')))
      ⨟ word "|")
    ⨟ spaces
    ⨟ Regex.alt (word_ci "Pending") (word_ci "In Progress")
    ⨟ spaces
    ⨟ Regex.group 2 (word "|")

unfoldable pub complete_requirement : Text → Text → Text
unfolding replace_all expand
complete_requirement id content =
    let content1 = replace_all (requirement_checkbox id) (expand 2 (codes "$1x$2")) content in
    replace_all (requirement_row id) (expand 2 (codes "$1 Complete $2")) content1

-- The loop over the identifiers.
unfoldable pub complete_requirements : List Text → Text → Text
unfolding complete_requirement
complete_requirements [] content = content
complete_requirements (id ∷ ids) content =
    complete_requirements ids (complete_requirement id content)

abbrev section_text : Option Found → Text
section_text none = []
section_text (some m) = text_of 1 m

-- REQUIREMENTS.md, when the phase names requirements in the roadmap; `none` when it is not written.
unfoldable pub update_requirements : Option Text → Text → Text → Text → Option Text
unfolding find text_of extract_current_milestone requirement_ids complete_requirements
update_requirements state number roadmap requirements =
    elim (find requirements_line
      (section_text (find (phase_section number) (extract_current_milestone state roadmap)))) [
        | none ↦ none
        | some m ↦ some (complete_requirements (requirement_ids (text_of 1 m)) requirements)
      ]
