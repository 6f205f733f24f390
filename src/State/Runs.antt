-- ===== src/State/Runs.antt =====
-- Runs of the commands on small documents.
use mikmongo.Base.{
  ℕ, ◌*◌, ◌≤◌, ◌≡◌, refl, ◌⊎◌, true, false, none, some, List, [], ◌∷◌, ◌++◌, ◌==◌, if◌then◌else◌,
  length, any, All,
}
use mikmongo.Text.{
  Text, codes, split, is_space, span, is_line_end, to_upper, is_alnum, is_letter, join_path,
}
use mikmongo.Json.{Json}
use mikmongo.PhaseDir.{Fs}
use mikmongo.Regex.{find, lit_ci, lit}
use mikmongo.State.Entries.Lines.{kept_lines, is_item, resolved_body-lines}
use mikmongo.State.Strip.{block, strip_frontmatter}
use mikmongo.State.Strip.Ends.{strip_frontmatter-ends}
use mikmongo.Security.{validate_field_name}
use mikmongo.State.Command.{object, pos, Reply, written, reaches, show_nat, ℤ}
use mikmongo.State.Entries.{resolved_body}
use mikmongo.State.Update.{cmd_state_patch}
use mikmongo.State.Update.Chain.{Edits, cmd_state_patch-Edits}
use mikmongo.State.Progress.{
  cmd_state_update_progress, milestone_counts, percent_of, bar_of, progress_text, set_progress,
  round_div,
}
use mikmongo.State.Progress.Bounds.{cmd_state_update_progress-bounds}
use mikmongo.State.Position.{Plans, read_plans, cmd_state_advance_plan}
use mikmongo.State.Position.Bounds.{IsAfter, finished, ready, cmd_state_advance_plan-bounds}
use mikmongo.State.{with_value, starts_ci, replace_scan, state_replace_field}

abbrev blocked : Text
blocked = codes "# State\n\n## Blockers\n- No access\n- Slow build\n\n## Session\n"

abbrev unblocked : Text
unblocked = codes "# State\n\n## Blockers\n- Slow build\n\n## Session\n"

abbrev fields : Text
fields = codes "**Status:** Old\nPlan: 1\nProgress: none\n"

abbrev patches : List (Text × Text)
patches =
    (codes "Status", codes "New") ∷ (codes "Missing", codes "x") ∷ (codes "Plan", codes "2") ∷ []

abbrev patched_fields : Text
patched_fields = codes "**Status:** New\nPlan: 2\nProgress: none\n"

patch_run : written (cmd_state_patch (some fields) patches) ≡ some patched_fields
unfolding cmd_state_patch validate_field_name is_letter is_alnum state_replace_field replace_scan
    starts_ci to_upper is_line_end with_value span is_space
patch_run = refl

cmd_state_patch-Edits_example :
    All (λ x. validate_field_name x.0 ≡ true) patches
    × ((content : Text) × (some fields ≡ some content) × Edits patches content patched_fields)
cmd_state_patch-Edits_example = cmd_state_patch-Edits (some fields) patches patched_fields patch_run

abbrev disk : Fs
disk = record {
  read_dir = λ p.
      if length p == 1
      then some (record { name = codes "01-a"; is_directory = true } ∷ [])
      else some (
          record { name = codes "01-01-PLAN.md"; is_directory = false }
          ∷ record { name = codes "01-02-PLAN.md"; is_directory = false }
          ∷ record { name = codes "01-01-SUMMARY.md"; is_directory = false }
          ∷ []);
  exists = λ p. true;
}

abbrev half : ℕ → ℕ → ℕ
half s p = round_div (s * 100) p

abbrev progressed : Text
progressed = codes "**Status:** Old\nPlan: 1\nProgress: [█████░░░░░] 50%\n"

abbrev progress_result : Reply
progress_result =
    Reply.printed
      (object (
        (codes "updated", Json.bool true)
        ∷ (codes "percent", Json.num (pos 50))
        ∷ (codes "completed", Json.num (pos 1))
        ∷ (codes "total", Json.num (pos 2))
        ∷ (codes "bar", Json.str (codes "[█████░░░░░] 50%"))
        ∷ []))
      (some (codes "[█████░░░░░] 50%")) (some progressed)

progress_run :
    cmd_state_update_progress half disk (codes "p") (λ d. true) (some fields) ≡ some progress_result
unfolding cmd_state_update_progress join_path lit_ci is_line_end is_space show_nat
progress_run = refl

cmd_state_update_progress-bounds_example :
    (plans summaries percent : ℕ) × (milestone_counts disk (codes "p") (λ d. true)
      ≡ some (plans, summaries))
    × (percent ≡ percent_of half summaries plans)
    × (percent ≤ 100)
    × (length (bar_of percent) ≡ 10)
    × (set_progress fields (progress_text percent) ≡ some progressed)
cmd_state_update_progress-bounds_example =
    cmd_state_update_progress-bounds half disk (codes "p") (λ d. true) fields progress_result
      progressed progress_run refl

abbrev compound : Text
compound = codes "Plan: 1 of 3\nStatus: Busy\n"

abbrev advanced : Text
advanced = codes "Plan: 2 of 3\nStatus: Ready to execute\n"

advance_run : written (cmd_state_advance_plan (some compound) (codes "2024-05-01")) ≡ some advanced
unfolding cmd_state_advance_plan mikmongo.State.state_extract_field mikmongo.State.scan starts_ci
    to_upper is_line_end mikmongo.State.captured mikmongo.Text.trim lit lit_ci mikmongo.Text.span
    is_space mikmongo.Regex.expand mikmongo.Regex.text_of mikmongo.State.state_replace_field
    mikmongo.State.state_replace_field_with_fallback mikmongo.State.replace_scan
    mikmongo.State.with_value mikmongo.Text.is_digit
advance_run = refl

cmd_state_advance_plan-bounds_example :
    (p : Plans) × (read_plans compound ≡ some p)
    × (((reaches p.current p.total ≡ true) × (advanced ≡ finished compound (codes "2024-05-01")))
        ⊎ ((n : ℤ) × IsAfter p.current n
            × (reaches p.total n ≡ true)
            × (advanced ≡ ready n p.total p.compound compound (codes "2024-05-01"))))
cmd_state_advance_plan-bounds_example =
    cmd_state_advance_plan-bounds compound advanced (codes "2024-05-01") advance_run

abbrev items : Text
items = codes "- No access\ntext\n- Slow build"

resolved_body-lines_example :
    (split b'\n' (resolved_body (codes "ACCESS") items) ≡ kept_lines (codes "ACCESS") items)
    ⊎ ((any is_item (kept_lines (codes "ACCESS") items) ≡ false)
        × (resolved_body (codes "ACCESS") items ≡ codes "None\n"))
resolved_body-lines_example = resolved_body-lines (codes "ACCESS") items

abbrev headed : Text
headed = codes "---\na: 1\n---\n---\nb: 2\n---\nBody\n---\n"

stripped : strip_frontmatter headed ≡ codes "Body\n---\n"
unfolding strip_frontmatter is_space lit
stripped = refl

strip_frontmatter-ends_example :
    (find block (strip_frontmatter headed) ≡ none)
    × ((u : Text) × (headed ≡ u ++ strip_frontmatter headed))
strip_frontmatter-ends_example = strip_frontmatter-ends headed
