-- ===== src/State/Tests.antt =====
-- Fields of a small document.
use mikmongo.State.Load.{cmd_signal_waiting, signaled, waiting_signal, cmd_signal_resume}
use mikmongo.Base.{◌∷◌, [], ◌≡◌, refl, sym, ◌∙◌, ◌⊎◌, true, false, none, some, ℕ}
use mikmongo.Text.{Text, codes, trim, is_space, span, is_line_end, to_upper, equal}
use mikmongo.State.{
  replace_scan, state_extract_field, state_replace_field, bold, plain, captured, starts_ci, scan,
  with_value,
}
use mikmongo.State.Matching.{IsValue}
use mikmongo.State.Fields.{state_replace_field-extract, KeepsBold}
use mikmongo.State.Edits.{IsEdit, state_replace_field-IsEdit}

abbrev status : Text
status = codes "Status"

abbrev document : Text
document = codes "# State\n**status:** old thing\nPlan: 2 of 5\n"

abbrev written : Text
written = codes "# State\n**status:** Ready \nPlan: 2 of 5\n"

status_old : state_extract_field document status ≡ some (codes "old thing")
unfolding state_extract_field scan starts_ci to_upper is_line_end captured span is_space trim
status_old = refl

plan_read : state_extract_field document (codes "Plan") ≡ some (codes "2 of 5")
unfolding state_extract_field scan starts_ci to_upper is_line_end captured span is_space trim
plan_read = refl

status-written : state_replace_field document status (codes "Ready ") ≡ some written
unfolding state_replace_field replace_scan starts_ci to_upper is_line_end with_value span is_space
status-written = refl

-- An empty field reads as the line behind it, and writing it overwrites that line.
empty_reads :
    state_extract_field (codes "**Status:**\n**Plan:** 2") status ≡ some (codes "**Plan:** 2")
unfolding state_extract_field scan starts_ci to_upper captured span is_space trim is_line_end
empty_reads = refl

empty_overwrites :
    state_replace_field (codes "**Status:**\n**Plan:** 2") status (codes "Ready")
    ≡ some (codes "**Status:**\nReady")
unfolding state_replace_field replace_scan starts_ci to_upper with_value span is_space is_line_end
empty_overwrites = refl

none-some : {s : Text} → none ≡ some s → ⊥
none-some e = cc

bold_there : replace_scan false (bold status) (codes "Ready ") true document ≡ some written
unfolding replace_scan starts_ci to_upper is_line_end with_value span is_space
bold_there = refl

ready-IsValue : IsValue (codes "Ready ")
unfolding is_space is_line_end
ready-IsValue = (refl, refl)

status-KeepsBold : KeepsBold document written status (codes "Ready ")
status-KeepsBold e = absurd (none-some (sym e ∙ bold_there))

state_replace_field-extract_example : state_extract_field written status ≡ some (codes "Ready")
unfolding trim
state_replace_field-extract_example =
    state_replace_field-extract document written status (codes "Ready ") ready-IsValue
      status-written status-KeepsBold

state_replace_field-IsEdit_example :
    IsEdit (bold status) (codes "Ready ") document written
    ⊎ IsEdit (plain status) (codes "Ready ") document written
state_replace_field-IsEdit_example =
    state_replace_field-IsEdit document written status (codes "Ready ") status-written

-- A signal goes to `.gsd` where that is, and its options are told apart by bars.
signal_run :
    cmd_signal_waiting {N = ℕ}
      (codes "/p")
      (codes "/p/.planning")
      true
      none
      none
      (some (codes "yes | no"))
      none
      (codes "now")
      none
    ≡ signaled
        (codes "/p/.gsd/WAITING.json")
        (waiting_signal none none (some (codes "yes|no")) none (codes "now"))
unfolding cmd_signal_waiting
signal_run = refl

-- Of the two signals one is there and is removed.
resume_run :
    cmd_signal_resume
      (equal (codes "/p/.planning/WAITING.json"))
      (λ p. true)
      (codes "/p")
      (codes "/p/.planning")
    ≡ (codes "/p/.planning/WAITING.json" ∷ [], true)
unfolding cmd_signal_resume equal
resume_run = refl
