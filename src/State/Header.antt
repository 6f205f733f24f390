-- ===== src/State/Header.antt =====
-- .opencode/get-shit-done/bin/lib/state.cjs: `buildStateFrontmatter`.
use mikmongo.Base.{
  ℕ, suc, ◌+◌, Bool, ◌&&◌, ◌||◌, Option, none, some, List, [], ◌∷◌, ◌++◌, map, ltb, leb,
  if◌then◌else◌, keep,
}
use mikmongo.Text.{Text, codes, includes, to_lower, join_path}
use mikmongo.Json.{Json}
use mikmongo.Regex.{Regex, find, text_of, word, digits, ◌⨟◌}
use mikmongo.PhaseDir.{Fs, names, directories}
use mikmongo.Milestone.Info.{MilestoneInfo}
use mikmongo.State.{state_extract_field}
use mikmongo.State.Command.{ℤ, pos, object, truthy, or_text, parse_number, string}
use mikmongo.State.Progress.{plan_file, summary_file, count_files}

-- The status of the header, from the text of the field and whether the work is paused.
unfoldable pub normalized_status : Option Text → Bool → Text
unfolding includes to_lower
normalized_status status paused =
    let lower = map to_lower (or_text status []) in
    if includes lower (codes "paused") || (includes lower (codes "stopped") || paused)
    then codes "paused"
    else if includes lower (codes "executing") || includes lower (codes "in progress")
    then codes "executing"
    else if includes lower (codes "planning") || includes lower (codes "ready to plan")
    then codes "planning"
    else if includes lower (codes "discussing")
    then codes "discussing"
    else if includes lower (codes "verif")
    then codes "verifying"
    else if includes lower (codes "complete") || includes lower (codes "done")
    then codes "completed"
    else if includes lower (codes "ready to execute")
    then codes "executing"
    else or_text status (codes "unknown")

-- The numbers that the phase directories give.
pub record Disk : Type 0 where
  pub dirs : ℕ
  pub plans : ℕ
  pub summaries : ℕ
  pub completed : ℕ

abbrev add_dir : ℕ → ℕ → Disk → Disk
add_dir plans summaries d = record {
  dirs = suc d.dirs;
  plans = plans + d.plans;
  summaries = summaries + d.summaries;
  completed = if ltb 0 plans && leb plans summaries then suc d.completed else d.completed;
}

-- The loop over the phase directories; `none` when one cannot be read.
unfoldable pub count_disk : Fs → Text → List Text → Option Disk
count_disk fs phases [] = some (record { dirs = 0; plans = 0; summaries = 0; completed = 0 })
count_disk fs phases (dir ∷ dirs) =
    let rest = count_disk fs phases dirs in
    elim (fs.read_dir (join_path phases dir)) [
      | none ↦ none
      | some es ↦ elim rest [
        | none ↦ none
        | some d ↦
            some
              (add_dir (count_files plan_file (names es)) (count_files summary_file (names es)) d)
      ]
    ]

-- The block under `try`: it leaves no numbers if it throws, or if there are no phases.
unfoldable pub read_disk : Fs → Text → (Text → Bool) → Option Disk
unfolding count_disk
read_disk fs phases in_milestone =
    if fs.exists phases
    then elim (fs.read_dir phases) [
      | none ↦ none
      | some es ↦ count_disk fs phases (keep in_milestone (directories es))
    ]
    else none

abbrev pub Pairs : Type 0
Pairs = List (Text × Json ℤ)

-- `if (value) fm.key = value`
abbrev when_given : Text → Option Text → Pairs
when_given key none = []
when_given key (some []) = []
when_given key (some (c ∷ s)) = (key, Json.str (c ∷ s)) ∷ []

-- `if (value !== null) progress.key = value`, for a value of a field; `NaN` is printed as `null`.
abbrev field_number : Text → Option Text → Pairs
field_number key none = []
field_number key (some []) = []
field_number key (some (c ∷ s)) = elim (parse_number (c ∷ s)) [
  | none ↦ (key, Json.null) ∷ []
  | some n ↦ (key, Json.num n) ∷ []
]

abbrev nat_field : Text → ℕ → Pairs
nat_field key n = (key, Json.num (pos n)) ∷ []

-- `isDirInMilestone.phaseCount > 0 ? Math.max(…) : phaseDirs.length`
abbrev pub total_phases : ℕ → ℕ → ℕ
total_phases dirs count = if ltb dirs count then count else dirs

-- The number before the first `%` that follows one.
unfoldable pub percent_field : Option Text → Pairs
unfolding find text_of parse_number
percent_field none = []
percent_field (some s) = elim (find (Regex.group 1 digits ⨟ word "%") s) [
  | none ↦ []
  | some m ↦ elim (parse_number (text_of 1 m)) [
    | none ↦ []
    | some n ↦ (codes "percent", Json.num n) ∷ []
  ]
]

unfoldable pub progress_pairs : Text → Option Disk → ℕ → Pairs
unfolding percent_field parse_number
progress_pairs body none count =
    field_number (codes "total_phases") (state_extract_field body (codes "Total Phases"))
    ++ (field_number (codes "total_plans") (state_extract_field body (codes "Total Plans in Phase"))
        ++ percent_field (state_extract_field body (codes "Progress")))
progress_pairs body (some d) count =
    nat_field (codes "total_phases") (total_phases d.dirs count)
    ++ (nat_field (codes "completed_phases") d.completed
        ++ (nat_field (codes "total_plans") d.plans
            ++ (nat_field (codes "completed_plans") d.summaries
                ++ percent_field (state_extract_field body (codes "Progress")))))

abbrev progress_object : Pairs → Pairs
progress_object [] = []
progress_object (p ∷ ps) = (codes "progress", object (p ∷ ps)) ∷ []

abbrev or_field : Option Text → Option Text → Option Text
or_field (some (c ∷ s)) other = some (c ∷ s)
or_field _ other = other

-- `buildStateFrontmatter(bodyContent, cwd)` for the milestone, the numbers of the directories, the
-- `phaseCount` of the filter and the time: the properties of the object in their order.
unfoldable pub build_state_frontmatter : MilestoneInfo → Option Disk → ℕ → Text → Text → Pairs
unfolding normalized_status progress_pairs
build_state_frontmatter info disk count now body =
    let field = state_extract_field body in
    let paused_at = field (codes "Paused At") in
    (codes "gsd_state_version", string "1.0")
    ∷ (when_given (codes "milestone") (some info.version)
        ++ (when_given (codes "milestone_name") (some info.name)
            ++ (when_given (codes "current_phase") (field (codes "Current Phase"))
                ++ (when_given (codes "current_phase_name") (field (codes "Current Phase Name"))
                    ++ (when_given (codes "current_plan") (field (codes "Current Plan"))
                        ++ ((
                          codes "status",
                          Json.str (normalized_status (field (codes "Status")) (truthy paused_at)),
                        )
                            ∷ (when_given (codes "stopped_at") (
                                  or_field (field (codes "Stopped At"))
                                    (field (codes "Stopped at")))
                                ++ (when_given (codes "paused_at") paused_at
                                    ++ ((codes "last_updated", Json.str now)
                                        ∷ (when_given (codes "last_activity")
                                              (field (codes "Last Activity"))
                                            ++ progress_object
                                                (progress_pairs body disk count)))))))))))
