-- ===== src/Milestone/Info.antt =====
-- .opencode/get-shit-done/bin/lib/core.cjs: `getMilestoneInfo` and `getMilestonePhaseFilter`.
use mikmongo.Base.{
  ℕ, Bool, true, false, not, ◌||◌, Option, none, some, List, [], ◌∷◌, ◌++◌, map, ◌==◌,
  if◌then◌else◌, length, any,
}
use mikmongo.Text.{Text, codes, equal, trim, strip_start, to_lower, is_letter, is_alnum, is_space}
use mikmongo.Regex.{
  Regex, Found, find, find_all, text_of, word, word_ci, spaces, some_spaces, line, digits, some_of,
  maybe, ◌⨟◌,
}
use mikmongo.Milestone.{works, hashes, strip_shipped_milestones, extract_current_milestone, is_word}

-- `\d+(?:\.\d+)+`
abbrev pub long_version : Regex
long_version = digits ⨟ some_of (word "." ⨟ digits)

-- `/🚧\s*\*\*v(\d+(?:\.\d+)+)\s+([^*]+)\*\*/`
abbrev pub working_milestone : Regex
working_milestone =
    works
    ⨟ spaces
    ⨟ word "**v"
    ⨟ Regex.group 1 long_version
    ⨟ some_spaces
    ⨟ Regex.group 2 (some_of (Regex.test (λ c. not (c == b'*'))))
    ⨟ word "**"

-- `/## .*v(\d+(?:\.\d+)+)[:\s]+([^\n(]+)/`
abbrev pub milestone_heading : Regex
milestone_heading =
    word "## "
    ⨟ line
    ⨟ word "v"
    ⨟ Regex.group 1 long_version
    ⨟ some_of (Regex.test (λ c. c == b':' || is_space c))
    ⨟ Regex.group 2 (some_of (Regex.test (λ c. not (c == b'\n' || c == b'('))))

pub record MilestoneInfo : Type 0 where
  pub version : Text
  pub name : Text

abbrev named : Found → MilestoneInfo
named m = record { version = b'v' ∷ text_of 1 m; name = trim (text_of 2 m) }

abbrev unnamed : Text → MilestoneInfo
unnamed version = record { version = version; name = codes "milestone" }

-- `getMilestoneInfo(cwd)` on ROADMAP.md.
unfoldable pub get_milestone_info : Option Text → MilestoneInfo
unfolding find text_of trim strip_shipped_milestones
get_milestone_info none = unnamed (codes "v1.0")
get_milestone_info (some roadmap) = elim (find working_milestone roadmap) [
  | some m ↦ named m
  | none ↦
      let cleaned = strip_shipped_milestones roadmap in
      elim (find milestone_heading cleaned) [
        | some m ↦ named m
        | none ↦ elim (find (word "v" ⨟ long_version) cleaned) [
          | some m ↦ unnamed m.matched
          | none ↦ unnamed (codes "v1.0")
        ]
      ]
]

-- `/#{2,4}\s*Phase\s+([\w][\w.-]*)\s*:/gi`
abbrev pub listed_phase : Regex
listed_phase =
    hashes 2 2
    ⨟ spaces
    ⨟ word_ci "Phase"
    ⨟ some_spaces
    ⨟ Regex.group 1 (
        Regex.test is_word
        ⨟ Regex.many true (Regex.test (λ c. is_word c || c == b'.' || c == b'-')))
    ⨟ spaces
    ⨟ word ":"

-- `set.add(x)` in the order of insertion.
unfoldable pub add_new : List Text → List Text → List Text
unfolding equal
add_new seen [] = seen
add_new seen (x ∷ xs) = add_new (if any (equal x) seen then seen else seen ++ x ∷ []) xs

-- `milestonePhaseNums`
unfoldable pub milestone_phases : Option Text → Option Text → List Text
unfolding find_all text_of add_new extract_current_milestone
milestone_phases state none = []
milestone_phases state (some roadmap) =
    add_new [] (map (text_of 1) (find_all listed_phase (extract_current_milestone state roadmap)))

abbrev or_zero : Text → Text
or_zero [] = codes "0"
or_zero (c ∷ s) = c ∷ s

-- `(n.replace(/^0+/, '') || '0').toLowerCase()`
unfoldable pub bare_number : Text → Text
unfolding strip_start to_lower
bare_number n = map to_lower (or_zero (strip_start b'0' n))

-- `/^0*(\d+[A-Za-z]?(?:\.\d+)*)/`
abbrev pub dir_number : Regex
dir_number =
    Regex.bol false
    ⨟ Regex.many true (word "0")
    ⨟ Regex.group 1 (digits ⨟ maybe (Regex.test is_letter) ⨟ Regex.many true (word "." ⨟ digits))

-- `/^([A-Za-z][A-Za-z0-9]*(?:-[A-Za-z0-9]+)*)/`
abbrev pub dir_id : Regex
dir_id =
    Regex.bol false
    ⨟ Regex.group 1 (
        Regex.test is_letter
        ⨟ Regex.many true (Regex.test is_alnum)
        ⨟ Regex.many true (word "-" ⨟ some_of (Regex.test is_alnum)))

abbrev names_one : List Text → Option Found → Bool
names_one normalized none = false
names_one normalized (some m) = any (equal (map to_lower (text_of 1 m))) normalized

unfoldable pub in_milestone : List Text → Text → Bool
unfolding find text_of to_lower equal
in_milestone normalized dir =
    names_one normalized (find dir_number dir) || names_one normalized (find dir_id dir)

-- `getMilestonePhaseFilter(cwd)`: the filter on the names of directories, and its `phaseCount`.
unfoldable pub milestone_filter : List Text → Text → Bool
unfolding in_milestone bare_number
milestone_filter [] dir = true
milestone_filter (p ∷ ps) dir = in_milestone (map bare_number (p ∷ ps)) dir

abbrev pub phase_count : List Text → ℕ
phase_count phases = length phases
