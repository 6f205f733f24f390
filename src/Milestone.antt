-- ===== src/Milestone.antt =====
-- The milestone functions of .opencode/get-shit-done/bin/lib/core.cjs: `stripShippedMilestones`,
-- `extractCurrentMilestone`, `replaceInCurrentMilestone`, `getRoadmapPhaseInternal`,
-- `extractOneLinerFromBody`, `getMilestoneInfo` and `getMilestonePhaseFilter`. ROADMAP.md and STATE.md
-- are the texts that reading them gives, `none` if that throws or the file is missing.
pub mod Info
use mikmongo.Base.{
  ℕ, zero, suc, ◌-◌, true, false, not, Option, none, some, [], ◌∷◌, ◌++◌, ◌==◌, if◌then◌else◌,
  length, drop,
}
use mikmongo.Text.{Text, codes, starts_with, trim, is_space}
use mikmongo.Regex.{
  Regex, Found, find, replace, replace_all, text_of, lit_ci, word, word_ci, spaces, some_spaces,
  line, some_line, digits, anything, no_newline, some_of, maybe, newline, ◌⨟◌, is_word,
}

-- `#{lo,lo+more}`
abbrev pub hashes : ℕ → ℕ → Regex
hashes zero zero = Regex.empty
hashes zero (suc more) = maybe (word "#" ⨟ hashes zero more)
hashes (suc lo) more = word "#" ⨟ hashes lo more

abbrev pub works : Regex
works = Regex.test (λ c. c == 0xd83d) ⨟ Regex.test (λ c. c == 0xdea7)

abbrev pub checked : Regex
checked = Regex.test (λ c. c == 0x2705)

abbrev pub listed : Regex
listed = Regex.test (λ c. c == 0xd83d) ⨟ Regex.test (λ c. c == 0xdccb)

abbrev pub details : Regex
details = word_ci "<details>" ⨟ anything ⨟ word_ci "</details>"

-- `stripShippedMilestones(content)`
unfoldable pub strip_shipped_milestones : Text → Text
unfolding replace_all
strip_shipped_milestones content = replace_all details (λ m. []) content

abbrev pub group_trimmed : ℕ → Option Found → Option Text
group_trimmed n none = none
group_trimmed n (some m) = some (trim (text_of n m))

-- `/^milestone:\s*(.+)/m`
abbrev pub milestone_field : Regex
milestone_field = Regex.bol true ⨟ word "milestone:" ⨟ spaces ⨟ Regex.group 1 some_line

-- `/🚧\s*\*\*v(\d+\.\d+)\s/`
abbrev pub working_version : Regex
working_version =
    works ⨟ spaces ⨟ word "**v" ⨟ Regex.group 1 (digits ⨟ word "." ⨟ digits) ⨟ Regex.test is_space

-- An empty version counts as none.
abbrev nonempty : Option Text → Option Text
nonempty (some (c ∷ v)) = some (c ∷ v)
nonempty v = none

abbrev from_state : Option Text → Option Text
from_state none = none
from_state (some raw) = group_trimmed 1 (find milestone_field raw)

unfoldable pub current_version : Option Text → Text → Option Text
unfolding find text_of trim
current_version state content = elim (nonempty (from_state state)) [
  | some v ↦ some v
  | none ↦ elim (find working_version content) [ none ↦ none | some m ↦ some (b'v' ∷ text_of 1 m) ]
]

-- `(^#{1,3}\s+.*version[^\n]*)` under the flags `mi`.
abbrev pub version_heading : Text → Regex
version_heading version =
    Regex.bol true
    ⨟ Regex.group 1 (
        hashes 1 2
        ⨟ some_spaces
        ⨟ line
        ⨟ lit_ci version
        ⨟ Regex.many true (Regex.test (λ c. not (c == b'\n'))))

-- `/^(#{1,3})\s/`
abbrev pub heading_marks : Regex
heading_marks = Regex.bol false ⨟ Regex.group 1 (hashes 1 2) ⨟ Regex.test is_space

-- `^#{1,level}\s+(?:.*v\d+\.\d+|✅|📋|🚧)` under the flags `mi`.
abbrev pub next_milestone : ℕ → Regex
next_milestone level =
    Regex.bol true
    ⨟ hashes 1 (level - 1)
    ⨟ some_spaces
    ⨟ Regex.alt (line ⨟ word_ci "v" ⨟ digits ⨟ word "." ⨟ digits)
        (Regex.alt checked (Regex.alt listed works))

-- The length of the marks of a heading.
abbrev pub heading_level : Text → ℕ
heading_level heading = elim (find heading_marks heading) [
  | none ↦ 0
  | some m ↦ length (text_of 1 m)
]

-- The section that begins at a heading: the heading and what stands before the next milestone.
abbrev pub section_of : Found → Text
section_of m = elim (find (next_milestone (heading_level (text_of 1 m))) m.after) [
  | none ↦ m.matched ++ m.after
  | some n ↦ m.matched ++ n.before
]

unfoldable pub milestone_section : Text → Text → Option Text
unfolding find text_of strip_shipped_milestones
milestone_section version content = elim (find (version_heading version) content) [
  | none ↦ none
  | some m ↦ some (strip_shipped_milestones m.before ++ section_of m)
]

-- `extractCurrentMilestone(content, cwd)`
unfoldable pub extract_current_milestone : Option Text → Text → Text
unfolding current_version milestone_section strip_shipped_milestones
extract_current_milestone state content = elim (current_version state content) [
  | none ↦ strip_shipped_milestones content
  | some version ↦ elim (milestone_section version content) [
    | none ↦ strip_shipped_milestones content
    | some section ↦ section
  ]
]

-- What stands up to the last `</details>`, and what follows it.
unfoldable pub after_details : Text → Option (Text × Text)
unfolding starts_with
after_details [] = none
after_details (c ∷ s) =
    let later = after_details s in
    elim later [
      | some (before, after) ↦ some (c ∷ before, after)
      | none ↦
          if starts_with (c ∷ s) (codes "</details>")
          then some (codes "</details>", drop 10 (c ∷ s))
          else none
    ]

-- `replaceInCurrentMilestone(content, pattern, replacement)`, for a replacement of the text by `change`.
unfoldable pub replace_in_current_milestone : (Text → Text) → Text → Text
unfolding after_details
replace_in_current_milestone change content = elim (after_details content) [
  | none ↦ change content
  | some (before, after) ↦ before ++ change after
]

pub record RoadmapPhase : Type 0 where
  pub phase_number : Text
  pub phase_name : Text
  pub goal : Option Text
  pub section : Text

-- `#{2,4}\s*Phase\s+number:\s*([^\n]+)` under the flag `i`.
abbrev pub phase_heading : Text → Regex
phase_heading number =
    hashes 2 2
    ⨟ spaces
    ⨟ word_ci "Phase"
    ⨟ some_spaces
    ⨟ lit_ci number
    ⨟ word ":"
    ⨟ spaces
    ⨟ Regex.group 1 no_newline

-- `/\n#{2,4}\s+Phase\s+[\w]/i`
abbrev pub next_phase_heading : Regex
next_phase_heading =
    newline ⨟ hashes 2 2 ⨟ some_spaces ⨟ word_ci "Phase" ⨟ some_spaces ⨟ Regex.test is_word

-- `/\*\*Goal(?:\*\*:|\*?\*?:\*\*)\s*([^\n]+)/i`
abbrev pub goal_pattern : Regex
goal_pattern =
    word_ci "**Goal"
    ⨟ Regex.alt (word "**:") (maybe (word "*") ⨟ maybe (word "*") ⨟ word ":**")
    ⨟ spaces
    ⨟ Regex.group 1 no_newline

abbrev up_to : Regex → Text → Text
up_to r s = elim (find r s) [ none ↦ s | some m ↦ m.before ]

unfoldable pub roadmap_phase : Text → Text → Option RoadmapPhase
unfolding find text_of trim
roadmap_phase number content = elim (find (phase_heading number) content) [
  | none ↦ none
  | some m ↦
      let section = trim (up_to next_phase_heading (m.matched ++ m.after)) in
      some (record {
        phase_number = number;
        phase_name = trim (text_of 1 m);
        goal = group_trimmed 1 (find goal_pattern section);
        section = section;
      })
]

-- `getRoadmapPhaseInternal(cwd, phaseNum)`
unfoldable pub get_roadmap_phase : Option Text → Option Text → Text → Option RoadmapPhase
unfolding roadmap_phase extract_current_milestone
get_roadmap_phase state roadmap [] = none
get_roadmap_phase state none number = none
get_roadmap_phase state (some content) (c ∷ number) =
    roadmap_phase (c ∷ number) (extract_current_milestone state content)

-- `extractOneLinerFromBody(content)`
unfoldable pub extract_one_liner : Text → Option Text
unfolding replace find text_of trim
extract_one_liner [] = none
extract_one_liner (c ∷ s) =
    let header =
      Regex.bol false ⨟ word "---\n" ⨟ anything ⨟ word "\n---\n" ⨟ Regex.many true newline in
    let bold =
      Regex.bol true
      ⨟ word "#"
      ⨟ Regex.many true (Regex.test (λ u. not (u == b'\n')))
      ⨟ some_of newline
      ⨟ word "**"
      ⨟ Regex.group 1 (some_of (Regex.test (λ u. not (u == b'*'))))
      ⨟ word "**" in
    group_trimmed 1 (find bold (replace header (λ m. []) (c ∷ s)))
