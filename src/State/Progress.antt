-- ===== src/State/Progress.antt =====
-- .opencode/get-shit-done/bin/lib/state.cjs: `cmdStateUpdateProgress`.
pub mod Bounds
use mikmongo.Base.{
  ℕ, ◌+◌, ◌-◌, ◌*◌, ◌/◌, min, Bool, true, false, Option, none, some, List, [], ◌∷◌, ◌++◌, ltb,
  if◌then◌else◌, length, replicate, keep,
}
use mikmongo.Text.{Text, codes, join_path}
use mikmongo.Json.{Json}
use mikmongo.Regex.{Regex, replace, matches, text_of, word_ci, spaces, line, ◌⨟◌}
use mikmongo.PhaseDir.{Fs, names, directories}
use mikmongo.State.Command.{pos, Reply, object, string, printed, show_nat, no_state}

-- `f.match(/-PLAN\.md$/i)` and `f.match(/-SUMMARY\.md$/i)`
abbrev pub plan_file : Regex
plan_file = word_ci "-PLAN.md" ⨟ Regex.eol false

abbrev pub summary_file : Regex
summary_file = word_ci "-SUMMARY.md" ⨟ Regex.eol false

abbrev pub count_files : Regex → List Text → ℕ
count_files r files = length (keep (matches r) files)

-- The loop over the phase directories; `none` when a directory cannot be read, which throws.
unfoldable pub count_plans : Fs → Text → List Text → Option (ℕ × ℕ)
unfolding matches
count_plans fs phases [] = some (0, 0)
count_plans fs phases (dir ∷ dirs) =
    let rest = count_plans fs phases dirs in
    elim (fs.read_dir (join_path phases dir)) [
      | none ↦ none
      | some es ↦ elim rest [
        | none ↦ none
        | some (plans, summaries) ↦ some (
          count_files plan_file (names es) + plans,
          count_files summary_file (names es) + summaries,
        )
      ]
    ]

-- `Math.round(a / b)` of the exact quotient.
abbrev pub round_div : ℕ → ℕ → ℕ
round_div a b = (2 * a + b) / (2 * b)

-- `totalPlans > 0 ? Math.min(100, Math.round(totalSummaries / totalPlans * 100)) : 0`, where
-- `round_percent` is the rounded percentage, which depends on the arithmetic of the runtime.
unfoldable pub percent_of : (ℕ → ℕ → ℕ) → ℕ → ℕ → ℕ
percent_of round_percent summaries plans =
    if ltb 0 plans then min 100 (round_percent summaries plans) else 0

abbrev pub bar_width : ℕ
bar_width = 10

-- `Math.round(percent / 100 * barWidth)`; the runtime's result is exact up to 100.
unfoldable pub filled_of : ℕ → ℕ
filled_of percent = round_div (percent * bar_width) 100

unfoldable pub bar_of : ℕ → Text
unfolding filled_of
bar_of percent =
    replicate (filled_of percent) 0x2588 ++ replicate (bar_width - filled_of percent) 0x2591

unfoldable pub progress_text : ℕ → Text
unfolding bar_of
progress_text percent =
    codes "[" ++ (bar_of percent ++ (codes "] " ++ (show_nat percent ++ codes "%")))

-- `/(\*\*Progress:\*\*\s*).*/i` and `/^(Progress:\s*).*/im`
abbrev pub bold_progress : Regex
bold_progress = Regex.group 1 (word_ci "**Progress:**" ⨟ spaces) ⨟ line

abbrev pub plain_progress : Regex
plain_progress = Regex.bol true ⨟ Regex.group 1 (word_ci "Progress:" ⨟ spaces) ⨟ line

unfoldable pub set_progress : Text → Text → Option Text
unfolding matches replace text_of
set_progress content text =
    if matches bold_progress content
    then some (replace bold_progress (λ m. text_of 1 m ++ text) content)
    else if matches plain_progress content
    then some (replace plain_progress (λ m. text_of 1 m ++ text) content)
    else none

abbrev progress_reply : ℕ → ℕ × ℕ → Text → Option Text → Reply
progress_reply percent counts text none =
    printed
      (object (
        (codes "updated", Json.bool false)
        ∷ (codes "reason", string "Progress field not found in STATE.md")
        ∷ []))
      (some (codes "false")) none
progress_reply percent (plans, summaries) text (some content) =
    printed
      (object (
        (codes "updated", Json.bool true)
        ∷ (codes "percent", Json.num (pos percent))
        ∷ (codes "completed", Json.num (pos summaries))
        ∷ (codes "total", Json.num (pos plans))
        ∷ (codes "bar", Json.str text)
        ∷ []))
      (some text) (some content)

-- The counts of the phases of the milestone; `in_milestone` is `getMilestonePhaseFilter(cwd)`.
unfoldable pub milestone_counts : Fs → Text → (Text → Bool) → Option (ℕ × ℕ)
unfolding count_plans
milestone_counts fs phases in_milestone =
    if fs.exists phases
    then elim (fs.read_dir phases) [
      | none ↦ none
      | some es ↦ count_plans fs phases (keep in_milestone (directories es))
    ]
    else some (0, 0)

-- `cmdStateUpdateProgress(cwd, raw)`; `none` when reading a directory throws.
unfoldable pub cmd_state_update_progress :
    (ℕ → ℕ → ℕ) → Fs → Text → (Text → Bool) → Option Text → Option Reply
unfolding milestone_counts progress_text set_progress percent_of
cmd_state_update_progress round_percent fs phases in_milestone none = some no_state
cmd_state_update_progress round_percent fs phases in_milestone (some content) =
    elim (milestone_counts fs phases in_milestone) [
      | none ↦ none
      | some (plans, summaries) ↦
          let percent = percent_of round_percent summaries plans in
          let text = progress_text percent in
          some (progress_reply percent (plans, summaries) text (set_progress content text))
    ]
