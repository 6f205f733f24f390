-- ===== src/Phase/Tests.antt =====
-- Runs of the phase commands.
use mikmongo.Base.{All-keep, ◌≡◌, refl, true, false, none, some, List, [], ◌∷◌, All}
use mikmongo.Text.{
  Text, codes, compare_text, pad_start, is_digit, is_space, is_line_end, is_letter, span, to_lower,
  is_lower_alnum, strip_start, join_path, strip_end, parse_int,
}
use mikmongo.Json.{Json}
use mikmongo.PhaseDir.{Dirent, planning_rel}
use mikmongo.Milestone.Info.{milestone_phases, milestone_filter}
use mikmongo.State.Command.{ℤ, object, pos, show_nat}
use mikmongo.Phase.Add.{cmd_phase_add, cmd_phase_insert, added}
use mikmongo.Phase.Add.Fresh.{
  IsAdded, IsInserted, cmd_phase_add-IsAdded, cmd_phase_insert-IsInserted,
}
use mikmongo.Phase.Rename.{Tree, Outcome, rename_integer_phases}
use mikmongo.Phase.Renumber.{update_roadmap}
use mikmongo.Phase.Complete.Next.{next_phase}
use mikmongo.Phase.Complete.Next.Search.{milestone_dirs, IsNext, listed_in, next_phase-IsNext}
use mikmongo.Regex.{lit_ci, lit, is_word}
use mikmongo.PhaseNum.{
  letter_groups, compare_groups, match_phase, compare_phase_num, normalize_phase_name, dec_parts,
  decimals, IsNumeric,
}
use mikmongo.Sort.{sort}

abbrev roadmap : Text
roadmap = codes "### Phase 2: B\n### Phase 3: C\n### Phase 4: D\n"

-- The numbers of later phases in ROADMAP.md fall together when a phase is removed, because a phase that
-- has been renumbered is met again in the next round.
renumbered :
    update_roadmap (codes "2") false (some 2) roadmap ≡ codes "\n### Phase 2: C\n### Phase 2: D\n"
unfolding update_roadmap lit is_space lit_ci is_digit pad_start
renumbered = refl

abbrev same_names : Tree
same_names =
    record { name = codes "03-fix"; files = codes "03-01-PLAN.md" ∷ [] }
    ∷ record { name = codes "04-fix"; files = codes "04-01-PLAN.md" ∷ [] }
    ∷ []

-- The renumbering of directories stops at once when two of them differ in their number only, because the
-- greater one is renamed first.
not_renumbered : rename_integer_phases compare_text 2 same_names ≡ Outcome.thrown same_names
unfolding rename_integer_phases sort compare_phase_num match_phase span is_digit compare_groups
    letter_groups is_letter lit is_line_end
not_renumbered = refl

abbrev added_roadmap : Text
added_roadmap =
    codes
      "### Phase 2: B\n### Phase 3: C\n### Phase 4: D\n\n### Phase 5: End it\n\n**Goal:** [To be planned]\n**Requirements**: TBD\n**Depends on:** Phase 4\n**Plans:** 0 plans\n\nPlans:\n- [ ] TBD (run /gsd:plan-phase 5 to break down)\n"

abbrev added_result : Json ℤ
added_result = object (
    (codes "phase_number", Json.num (pos 5))
    ∷ (codes "padded", Json.str (codes "05"))
    ∷ (codes "name", Json.str (codes "End it"))
    ∷ (codes "slug", Json.str (codes "end-it"))
    ∷ (codes "directory", Json.str (codes ".planning/phases/05-end-it"))
    ∷ (codes "naming_mode", Json.str (codes "sequential"))
    ∷ [])

add_run :
    cmd_phase_add none (some (codes "sequential")) none (some roadmap) (codes "End it") none
    ≡ added (codes "05-end-it") added_roadmap added_result (codes "05")
unfolding cmd_phase_add pad_start lit_ci lit is_digit is_letter strip_end join_path strip_start
    planning_rel is_lower_alnum to_lower
add_run = refl

cmd_phase_add-IsAdded_example :
    IsAdded none (some roadmap) (some (codes "sequential")) (codes "End it") added_roadmap
cmd_phase_add-IsAdded_example =
    cmd_phase_add-IsAdded none (some (codes "sequential")) none (some roadmap) (codes "End it") none
      (codes "05-end-it") added_roadmap added_result (codes "05") add_run

abbrev entries : List Dirent
entries =
    record { name = codes "03-c"; is_directory = true }
    ∷ record { name = codes "03.1-d"; is_directory = true }
    ∷ []

abbrev inserted_roadmap : Text
inserted_roadmap =
    codes
      "### Phase 2: B\n### Phase 3: C\n### Phase 4: D\n\n### Phase 03.2: Now (INSERTED)\n\n**Goal:** [Urgent work - to be planned]\n**Requirements**: TBD\n**Depends on:** Phase 3\n**Plans:** 0 plans\n\nPlans:\n- [ ] TBD (run /gsd:plan-phase 03.2 to break down)\n"

abbrev inserted_result : Json ℤ
inserted_result = object (
    (codes "phase_number", Json.str (codes "03.2"))
    ∷ (codes "after_phase", Json.str (codes "3"))
    ∷ (codes "name", Json.str (codes "Now"))
    ∷ (codes "slug", Json.str (codes "now"))
    ∷ (codes "directory", Json.str (codes ".planning/phases/03.2-now"))
    ∷ [])

-- The entry goes behind the next section when that begins directly behind the heading, because the line
-- end of the heading is taken already.
insert_run :
    cmd_phase_insert none (some entries) none (some roadmap) (codes "3") (codes "Now")
    ≡ added (codes "03.2-now") inserted_roadmap inserted_result (codes "03.2")
unfolding cmd_phase_insert lit_ci lit normalize_phase_name match_phase span is_digit pad_start
    letter_groups show_nat strip_end join_path is_lower_alnum planning_rel to_lower
insert_run = refl

cmd_phase_insert-IsInserted_example :
    IsInserted
      (some entries)
      (some roadmap)
      (codes "3")
      (codes "Now")
      inserted_roadmap
      (codes "03.2")
cmd_phase_insert-IsInserted_example =
    cmd_phase_insert-IsInserted none (some entries) none (some roadmap) (codes "3") (codes "Now")
      (codes "03.2-now") inserted_roadmap inserted_result (codes "03.2") insert_run

next_run :
    next_phase compare_text (codes "3") (some entries) none (some roadmap)
    ≡ some (record { number = codes "4"; name = some (codes "d") })
unfolding next_phase sort lit_ci lit is_word is_line_end compare_phase_num match_phase span
    compare_groups parse_int letter_groups dec_parts
next_run = refl

named_numeric : All IsNumeric (codes "03-c" ∷ codes "03.1-d" ∷ [])
unfolding match_phase span is_digit letter_groups decimals is_letter
named_numeric = ((_, refl), ((_, refl), tt))

entries_numeric :
    All IsNumeric (
      milestone_dirs compare_text (codes "3") (milestone_phases none (some roadmap)) (some entries))
entries_numeric =
    All-keep IsNumeric (milestone_filter (milestone_phases none (some roadmap)))
      (codes "03-c" ∷ codes "03.1-d" ∷ []) named_numeric

next_phase-IsNext_example :
    IsNext compare_text
      (codes "3")
      (milestone_dirs compare_text
        (codes "3")
        (milestone_phases none (some roadmap))
        (some entries))
      (listed_in none (some roadmap))
      (next_phase compare_text (codes "3") (some entries) none (some roadmap))
next_phase-IsNext_example =
    next_phase-IsNext compare_text (codes "3") (some entries) none (some roadmap) entries_numeric
