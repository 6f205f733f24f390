-- ===== src/Roadmap/Analyze.antt =====
-- .opencode/get-shit-done/bin/lib/roadmap.cjs: `cmdRoadmapAnalyze`.
use mikmongo.Base.{
  ℕ, ◌+◌, min, Bool, true, false, not, ◌&&◌, ◌||◌, Option, none, some, List, [], ◌∷◌, ◌++◌, map,
  ltb, leb, ◌==◌, if◌then◌else◌, length, any, keep,
}
use mikmongo.Text.{Text, codes, equal, trim, is_letter, is_space, join_path}
use mikmongo.Json.{Json}
use mikmongo.Regex.{
  Regex, Found, find, find_all, replace, text_of, lit_ci, word, word_ci, spaces, some_spaces, line,
  digits, maybe, ◌⨟◌,
}
use mikmongo.PhaseNum.{normalize_phase_name}
use mikmongo.PhaseDir.{Fs, directories, PhaseFileStats, get_phase_file_stats}
use mikmongo.Milestone.{extract_current_milestone, group_trimmed}
use mikmongo.Milestone.Info.{long_version, add_new}
use mikmongo.Phase.Decimals.{is_base}
use mikmongo.Phase.Complete.Next.{named_phase}
use mikmongo.Roadmap.{labelled, before_next}
use mikmongo.State.Command.{ℤ, pos, object, items, texts, string, or_null}
use mikmongo.PhaseDir

-- What the directory of a phase says of it.
pub record OnDisk : Type 0 where
  pub plan_count : ℕ
  pub summary_count : ℕ
  pub has_context : Bool
  pub has_research : Bool
  pub disk_status : Text

unfoldable pub disk_status_of : ℕ → ℕ → Bool → Bool → Text
disk_status_of plans summaries has_context has_research =
    if leb plans summaries && ltb 0 plans
    then codes "complete"
    else if ltb 0 summaries
    then codes "partial"
    else if ltb 0 plans
    then codes "planned"
    else if has_research
    then codes "researched"
    else if has_context
    then codes "discussed"
    else codes "empty"

abbrev from_stats : PhaseFileStats → OnDisk
from_stats s = record {
  plan_count = length s.plans;
  summary_count = length s.summaries;
  has_context = s.has_context;
  has_research = s.has_research;
  disk_status = disk_status_of (length s.plans) (length s.summaries) s.has_context s.has_research;
}

abbrev pub no_directory : OnDisk
no_directory = record {
  plan_count = 0;
  summary_count = 0;
  has_context = false;
  has_research = false;
  disk_status = codes "no_directory";
}

unfoldable pub on_disk : Fs → Text → Text → OnDisk
unfolding disk_status_of get_phase_file_stats PhaseDir.find
on_disk fs phases number = elim (fs.read_dir phases) [
  | none ↦ no_directory
  | some es ↦ elim (PhaseDir.find (is_base (normalize_phase_name number)) (directories es)) [
    | none ↦ no_directory
    | some dir ↦ elim (get_phase_file_stats fs (join_path phases dir)) [
      | none ↦ no_directory
      | some s ↦ from_stats s
    ]
  ]
]

-- `-\s*\[(x| )\]\s*.*Phase\s+number[:\s]`, with the flag `i`.
abbrev pub phase_checkbox : Text → Regex
phase_checkbox number =
    word "-"
    ⨟ spaces
    ⨟ word "["
    ⨟ Regex.group 1 (Regex.alt (word_ci "x") (word " "))
    ⨟ word "]"
    ⨟ spaces
    ⨟ line
    ⨟ word_ci "Phase"
    ⨟ some_spaces
    ⨟ lit_ci number
    ⨟ Regex.test (λ c. c == b':' || is_space c)

unfoldable pub roadmap_complete : Text → Text → Bool
unfolding find text_of equal
roadmap_complete number content = elim (find (phase_checkbox number) content) [
  | none ↦ false
  | some m ↦ equal (text_of 1 m) (codes "x")
]

pub record Analyzed : Type 0 where
  pub number : Text
  pub name : Text
  pub goal : Option Text
  pub depends_on : Option Text
  pub disk : OnDisk
  pub disk_status : Text
  pub is_done : Bool

-- The roadmap's mark outweighs the files.
abbrev pub trusted_status : Bool → Text → Text
trusted_status done status =
    if done && not (equal status (codes "complete")) then codes "complete" else status

unfoldable pub analyze_phase : Fs → Text → Text → Found → Analyzed
unfolding on_disk roadmap_complete find replace text_of trim
analyze_phase fs phases content m =
    let number = text_of 1 m in
    let section = before_next (m.matched ++ m.after) in
    let disk = on_disk fs phases number in
    let done = roadmap_complete number content in
    record {
      number = number;
      name = trim (replace (word_ci "(INSERTED)") (λ x. []) (text_of 2 m));
      goal = group_trimmed 1 (find (labelled (word_ci "Goal")) section);
      depends_on = group_trimmed 1 (find (labelled (word_ci "Depends on")) section);
      disk = disk;
      disk_status = trusted_status done disk.disk_status;
      is_done = done;
    }

abbrev phase_json : Analyzed → Json ℤ
phase_json a = object (
    (codes "number", Json.str a.number)
    ∷ (codes "name", Json.str a.name)
    ∷ (codes "goal", or_null a.goal)
    ∷ (codes "depends_on", or_null a.depends_on)
    ∷ (codes "plan_count", Json.num (pos a.disk.plan_count))
    ∷ (codes "summary_count", Json.num (pos a.disk.summary_count))
    ∷ (codes "has_context", Json.bool a.disk.has_context)
    ∷ (codes "has_research", Json.bool a.disk.has_research)
    ∷ (codes "disk_status", Json.str a.disk_status)
    ∷ (codes "roadmap_complete", Json.bool a.is_done)
    ∷ [])

-- `/##\s*(.*v(\d+(?:\.\d+)+)[^(\n]*)/gi`
abbrev pub milestone_line : Regex
milestone_line =
    word "##"
    ⨟ spaces
    ⨟ Regex.group 1 (
        line
        ⨟ word_ci "v"
        ⨟ Regex.group 2 long_version
        ⨟ Regex.many true (Regex.test (λ c. not (c == b'(' || c == b'\n'))))

abbrev milestone_json : Found → Json ℤ
milestone_json m = object (
    (codes "heading", Json.str (trim (text_of 1 m)))
    ∷ (codes "version", Json.str (b'v' ∷ text_of 2 m))
    ∷ [])

abbrev has_status : List Text → Analyzed → Bool
has_status statuses a = any (equal a.disk_status) statuses

-- The number of the first phase of one of the statuses.
unfoldable pub first_number : List Text → List Analyzed → Option Text
unfolding equal
first_number statuses [] = none
first_number statuses (a ∷ more) =
    let rest = first_number statuses more in if has_status statuses a then some a.number else rest

abbrev pub under_way : List Text
under_way = codes "planned" ∷ codes "partial" ∷ []

abbrev pub ahead : List Text
ahead = codes "empty" ∷ codes "no_directory" ∷ codes "discussed" ∷ codes "researched" ∷ []

abbrev pub total : (Analyzed → ℕ) → List Analyzed → ℕ
total count [] = 0
total count (a ∷ more) = count a + total count more

-- `/-\s*\[[ x]\]\s*\*\*Phase\s+(\d+[A-Z]?(?:\.\d+)*)/gi`
abbrev pub checklist_phase : Regex
checklist_phase =
    word "-"
    ⨟ spaces
    ⨟ word "["
    ⨟ Regex.test (λ c. c == b' ' || c == b'x' || c == b'X')
    ⨟ word "]"
    ⨟ spaces
    ⨟ word_ci "**Phase"
    ⨟ some_spaces
    ⨟ Regex.group 1 (digits ⨟ maybe (Regex.test is_letter) ⨟ Regex.many true (word "." ⨟ digits))

-- The phases of the checklist that have no section of their own.
unfoldable pub missing_details : Text → List Analyzed → List Text
unfolding find_all text_of add_new equal
missing_details content phases =
    keep (λ n. not (any (λ a. equal n a.number) phases))
      (add_new [] (map (text_of 1) (find_all checklist_phase content)))

abbrev missing_json : List Text → Json ℤ
missing_json [] = Json.null
missing_json (n ∷ ns) = texts (n ∷ ns)

module _ (round_percent : ℕ → ℕ → ℕ) where
  -- `round_percent` is `Math.round((totalSummaries / totalPlans) * 100)`.
  abbrev progress_percent : ℕ → ℕ → ℕ
  progress_percent summaries plans =
      if ltb 0 plans then min 100 (round_percent summaries plans) else 0

  abbrev analysis : Text → List Analyzed → Json ℤ
  analysis content phases =
      let plans = total (λ a. a.disk.plan_count) phases in
      let summaries = total (λ a. a.disk.summary_count) phases in
      let complete = length (keep (has_status (codes "complete" ∷ [])) phases) in
      object (
        (
          codes "milestones",
          Json.arr (items (map milestone_json (find_all milestone_line content))),
        )
        ∷ (codes "phases", Json.arr (items (map phase_json phases)))
        ∷ (codes "phase_count", Json.num (pos (length phases)))
        ∷ (codes "completed_phases", Json.num (pos complete))
        ∷ (codes "total_plans", Json.num (pos plans))
        ∷ (codes "total_summaries", Json.num (pos summaries))
        ∷ (codes "progress_percent", Json.num (pos (progress_percent summaries plans)))
        ∷ (codes "current_phase", or_null (first_number under_way phases))
        ∷ (codes "next_phase", or_null (first_number ahead phases))
        ∷ (codes "missing_phase_details", missing_json (missing_details content phases))
        ∷ [])

  -- `cmdRoadmapAnalyze(cwd, raw)` on the directory of the phases, STATE.md and ROADMAP.md.
  unfoldable pub cmd_roadmap_analyze : Fs → Text → Option Text → Option Text → Json ℤ
  unfolding analyze_phase first_number missing_details find_all text_of trim
      extract_current_milestone
  cmd_roadmap_analyze fs phases state none = object (
      (codes "error", string "ROADMAP.md not found")
      ∷ (codes "milestones", Json.arr (items []))
      ∷ (codes "phases", Json.arr (items []))
      ∷ (codes "current_phase", Json.null)
      ∷ [])
  cmd_roadmap_analyze fs phases state (some roadmap) =
      let content = extract_current_milestone state roadmap in
      analysis content (map (analyze_phase fs phases content) (find_all named_phase content))
