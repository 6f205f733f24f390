-- ===== src/Roadmap/Progress.antt =====
-- .opencode/get-shit-done/bin/lib/roadmap.cjs: `cmdRoadmapUpdatePlanProgress`.
use mikmongo.Base.{
  ℕ, Bool, true, false, Option, none, some, List, [], ◌∷◌, ◌++◌, ltb, leb, ◌==◌, if◌then◌else◌,
  length, is_empty,
}
use Prim.Native.Nat.{Ordering}
use mikmongo.Text.{Text, codes, split, join, pad_end}
use mikmongo.Json.{Json}
use mikmongo.Regex.{Regex, replace, expand, lit_ci, word, spaces, ◌⨟◌}
use mikmongo.PhaseDir.{Fs, PhaseInfo, find_phase, summary_id}
use mikmongo.Milestone.{replace_in_current_milestone}
use mikmongo.Phase.Complete.{table_row, plans_line, open_checkbox, inner_cells}
use mikmongo.State.Command.{pos, object, show_nat}
use mikmongo.Roadmap.{Answer, failed, printed}

-- The plans and summaries of a phase, one summary at most for each plan.
pub record Counts : Type 0 where
  pub plans : ℕ
  pub summaries : ℕ

abbrev pub is_complete : Counts → Bool
is_complete c = leb c.plans c.summaries

unfoldable pub status_of : Counts → Text
status_of c =
    if is_complete c
    then codes "Complete"
    else if ltb 0 c.summaries
    then codes "In Progress"
    else codes "Planned"

abbrev fraction : Counts → Text
fraction c = show_nat c.summaries ++ (codes "/" ++ show_nat c.plans)

abbrev fraction_cell : Counts → Text
fraction_cell c = codes " " ++ (fraction c ++ codes " ")

abbrev status_cell : Counts → Text
status_cell c = codes " " ++ pad_end (status_of c) 11

abbrev date_cell : Text → Counts → Text
date_cell today c = if is_complete c then codes " " ++ (today ++ codes " ") else codes "  "

unfoldable pub progress_cells : Text → Counts → List Text → List Text
unfolding status_of pad_end show_nat
progress_cells today n (a ∷ b ∷ c ∷ d ∷ e ∷ []) =
    a ∷ b ∷ fraction_cell n ∷ status_cell n ∷ date_cell today n ∷ []
progress_cells today n (a ∷ b ∷ c ∷ d ∷ []) =
    a ∷ fraction_cell n ∷ status_cell n ∷ date_cell today n ∷ []
progress_cells today n cells = cells

unfoldable pub progress_row : Text → Counts → Text → Text
unfolding progress_cells join split
progress_row today n row =
    codes "|" ++ (join (codes "|") (progress_cells today n (inner_cells row)) ++ codes "|")

-- `(-\s*\[) (\]\s*id)`, with the flag `i`.
abbrev pub plan_checkbox : Text → Regex
plan_checkbox id =
    Regex.group 1 (word "-" ⨟ spaces ⨟ word "[")
    ⨟ word " "
    ⨟ Regex.group 2 (word "]" ⨟ spaces ⨟ lit_ci id)

-- The loop over the summaries.
unfoldable pub check_plans : List Text → Text → Text
unfolding summary_id replace expand
check_plans [] content = content
check_plans (f ∷ fs) content =
    let id = summary_id f in
    check_plans fs (
      if is_empty id
      then content
      else replace (plan_checkbox id) (expand 2 (codes "$1x$2")) content)

abbrev done_text : Counts → Text
done_text n = if is_complete n then codes " plans complete" else codes " plans executed"

abbrev check_phase : Text → Text → Counts → Text → Text
check_phase number today n content =
    if is_complete n
    then replace_in_current_milestone
        (replace (open_checkbox number)
          (expand 2 (codes "$1x$2 (completed " ++ (today ++ codes ")"))))
        content
    else content

unfoldable pub plan_progress : Text → Text → Counts → List Text → Text → Text
unfolding replace expand progress_row replace_in_current_milestone check_plans show_nat
plan_progress number today n summaries content =
    let content1 = replace (table_row number) (λ m. progress_row today n m.matched) content in
    let content2 =
      replace_in_current_milestone
        (replace (plans_line number) (expand 1 (codes "$1" ++ (fraction n ++ done_text n))))
        content1 in
    check_plans summaries (check_phase number today n content2)

abbrev not_updated : Text → Counts → Text → Answer
not_updated reason n raw =
    printed
      (object (
        (codes "updated", Json.bool false)
        ∷ (codes "reason", Json.str reason)
        ∷ (codes "plan_count", Json.num (pos n.plans))
        ∷ (codes "summary_count", Json.num (pos n.summaries))
        ∷ []))
      raw none

abbrev was_updated : Text → Counts → Text → Answer
was_updated number n content =
    printed
      (object (
        (codes "updated", Json.bool true)
        ∷ (codes "phase", Json.str number)
        ∷ (codes "plan_count", Json.num (pos n.plans))
        ∷ (codes "summary_count", Json.num (pos n.summaries))
        ∷ (codes "status", Json.str (status_of n))
        ∷ (codes "complete", Json.bool (is_complete n))
        ∷ []))
      (fraction n ++ (codes " " ++ status_of n)) (some content)

unfoldable pub update_plan_progress : Text → Text → PhaseInfo → Option Text → Answer
unfolding plan_progress status_of
update_plan_progress number today info roadmap =
    let n : Counts = record { plans = length info.plans; summaries = length info.summaries } in
    if n.plans == 0
    then not_updated (codes "No plans found") (record { plans = 0; summaries = 0 })
        (codes "no plans")
    else elim roadmap [
      | none ↦ not_updated (codes "ROADMAP.md not found") n (codes "no roadmap")
      | some content ↦ was_updated number n (plan_progress number today n info.summaries content)
    ]

-- `cmdRoadmapUpdatePlanProgress(cwd, phaseNum, raw)` on the date `today`.
unfoldable pub cmd_roadmap_update_plan_progress :
    (Text → Text → Ordering) → Fs → Text → Option Text → Text → Text → Option Text → Answer
unfolding update_plan_progress find_phase
cmd_roadmap_update_plan_progress locale_compare fs cwd ws [] today roadmap =
    failed (codes "phase number required for roadmap update-plan-progress")
cmd_roadmap_update_plan_progress locale_compare fs cwd ws (c ∷ number) today roadmap =
    elim (find_phase locale_compare fs cwd ws (c ∷ number)) [
      | none ↦ failed (codes "Phase " ++ ((c ∷ number) ++ codes " not found"))
      | some info ↦ update_plan_progress (c ∷ number) today info roadmap
    ]
