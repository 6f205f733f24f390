-- ===== src/Roadmap/Tests.antt =====
-- Runs of the roadmap commands.
use mikmongo.Base.{◌≡◌, refl, ◌⊎◌, false, List, [], ◌∷◌, is_empty}
use mathlib.Core.List.{Perm}
use mikmongo.Text.{Text, codes, is_space, is_line_end, replace_first, is_digit, to_upper}
use mikmongo.Roadmap.{success_criteria}
use mikmongo.Roadmap.Progress.{plan_progress, check_plans}
use mikmongo.Roadmap.Requirements.{mark_all, unmarked}
use mikmongo.Roadmap.Requirements.Filed.{listed, mark_all-IsFiled}
use mikmongo.Regex.{lit_ci, lit}

abbrev requirements : Text
requirements = codes "- [ ] **A-1**: x\n- [x] **A-2**: y\n| A-3 | Phase 1 | Pending |\n"

abbrev given : List Text
given = codes "A-1" ∷ codes "A-2" ∷ codes "A-3" ∷ codes "A-4" ∷ []

-- A checkbox and a row of the table are marked, and the others are told apart.
marked : mark_all given (unmarked requirements) ≡ record {
  content = codes "- [x] **A-1**: x\n- [x] **A-2**: y\n| A-3 | Phase 1 | Complete |\n";
  updated = codes "A-1" ∷ codes "A-3" ∷ [];
  already_complete = codes "A-2" ∷ [];
  not_found = codes "A-4" ∷ [];
}
unfolding mark_all lit is_space lit_ci
marked = refl

mark_all-IsFiled_example :
    Perm (listed (mark_all given (unmarked requirements))) given
    × ((is_empty (mark_all given (unmarked requirements)).updated ≡ false)
        ⊎ ((mark_all given (unmarked requirements)).content ≡ requirements))
mark_all-IsFiled_example = mark_all-IsFiled given requirements

-- The row, the plans, the checkbox of the phase and that of its plan.
progress_run :
    plan_progress
      (codes "1")
      (codes "2025-01-02")
      (record { plans = 1; summaries = 1 })
      (codes "01-01-SUMMARY.md" ∷ [])
      (codes
        "- [ ] **Phase 1: A**\n### Phase 1: A\n**Plans:** 0\n- [ ] 01-01-PLAN.md\n| 1. A | 0/1 | Planned | - |")
    ≡ codes
        "- [x] **Phase 1: A** (completed 2025-01-02)\n### Phase 1: A\n**Plans:** 1/1 plans complete\n- [x] 01-01-PLAN.md\n| 1. A | 1/1 | Complete   | 2025-01-02 |"
unfolding plan_progress replace_first lit is_line_end is_space lit_ci
progress_run = refl

criteria_run :
    success_criteria (codes "**Success Criteria** (true):\n 1. one\n2. two \n\n**Plans**")
    ≡ codes "one" ∷ codes "two" ∷ []
unfolding success_criteria lit_ci lit is_digit
criteria_run = refl

-- The pattern of a plan does not end with its number: when plan 1-1 is marked already, the next run
-- marks plan 1-10.
marked_twice :
    check_plans (codes "1-1-SUMMARY.md" ∷ []) (codes "- [x] 1-1\n- [ ] 1-10\n")
    ≡ codes "- [x] 1-1\n- [x] 1-10\n"
unfolding check_plans lit lit_ci is_space to_upper replace_first
marked_twice = refl
