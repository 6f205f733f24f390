-- ===== src/Phase/Complete/Command.antt =====
-- .opencode/get-shit-done/bin/lib/phase.cjs: `cmdPhaseComplete` as a whole.
use mikmongo.Base.{
  Bool, true, false, not, Option, none, some, List, [], ◌∷◌, ◌++◌, length, is_empty,
}
use Prim.Native.Nat.{Ordering}
use mikmongo.Text.{Text, codes, join_path}
use mikmongo.Json.{Json}
use mikmongo.PhaseDir.{Fs, PhaseInfo, find_phase, planning_dir}
use mikmongo.State.Command.{ℤ, object, texts, show_nat, or_null}
use mikmongo.Phase.Complete.{File, warnings_of, complete_roadmap, update_requirements}
use mikmongo.Phase.Complete.Next.{
  NextPhase, next_phase, next_number, next_name, transition_fields, count_completed,
}

-- The planning files, `none` for one that is missing.
pub record Planning : Type 0 where
  pub roadmap : Option Text
  pub requirements : Option Text
  pub state : Option Text

-- The files that the command writes, with their new content (for STATE.md what is handed to
-- `writeStateMd`), and its answer.
pub record Completed : Type 0 where
  pub files : Planning
  pub result : Json ℤ

pub data Completion : Type 0 where
  refused : Text → Completion
  completed : Completed → Completion

abbrev on_some : (Text → Text) → Option Text → Option Text
on_some f none = none
on_some f (some s) = some (f s)

abbrev requirements_after : Option Text → Text → Option Text → Option Text → Option Text
requirements_after state number (some roadmap) (some requirements) =
    update_requirements state number roadmap requirements
requirements_after state number roadmap requirements = none

abbrev is_there : Option Text → Bool
is_there none = false
is_there (some s) = true

abbrev is_last : Option NextPhase → Bool
is_last none = true
is_last (some p) = false

abbrev result_of : Text → Text → PhaseInfo → Option NextPhase → Planning → List Text → Json ℤ
result_of number today info next written warnings = object (
    (codes "completed_phase", Json.str number)
    ∷ (codes "phase_name", or_null info.phase_name)
    ∷ (
      codes "plans_executed",
      Json.str (show_nat (length info.summaries) ++ (codes "/" ++ show_nat (length info.plans))),
    )
    ∷ (codes "next_phase", or_null (next_number next))
    ∷ (codes "next_phase_name", or_null (next_name next))
    ∷ (codes "is_last_phase", Json.bool (is_last next))
    ∷ (codes "date", Json.str today)
    ∷ (codes "roadmap_updated", Json.bool (is_there written.roadmap))
    ∷ (codes "state_updated", Json.bool (is_there written.state))
    ∷ (codes "requirements_updated", Json.bool (is_there written.requirements))
    ∷ (codes "warnings", texts warnings)
    ∷ (codes "has_warnings", Json.bool (not (is_empty warnings)))
    ∷ [])

module _ (locale_compare : Text → Text → Ordering) (round_percent : ℤ → ℤ → ℤ) (fs : Fs)
    (cwd : Text) (ws : Option Text) where
  unfoldable pub complete_phase : Text → Text → PhaseInfo → List File → Planning → Completed
  unfolding complete_roadmap update_requirements next_phase transition_fields count_completed
      warnings_of
  complete_phase number today info reports p =
      let roadmap =
        on_some (complete_roadmap number today (length info.summaries) (length info.plans))
          p.roadmap in
      let entries = fs.read_dir (join_path (planning_dir cwd ws) (codes "phases")) in
      let next = next_phase locale_compare number entries p.state roadmap in
      let written : Planning = record {
        roadmap = roadmap;
        requirements = requirements_after p.state number roadmap p.requirements;
        state =
            on_some (λ s. count_completed round_percent (transition_fields number next today s))
              p.state;
      } in
      record {
        files = written;
        result = result_of number today info next written (warnings_of reports);
      }

  -- `cmdPhaseComplete(cwd, phaseNum, raw)` on the date `today` and the files of the phase's directory.
  unfoldable pub cmd_phase_complete : Text → Text → List File → Planning → Completion
  unfolding complete_phase find_phase
  cmd_phase_complete [] today reports p = refused (codes "phase number required for phase complete")
  cmd_phase_complete (c ∷ number) today reports p =
      elim (find_phase locale_compare fs cwd ws (c ∷ number)) [
        | none ↦ refused (codes "Phase " ++ ((c ∷ number) ++ codes " not found"))
        | some info ↦ completed (complete_phase (c ∷ number) today info reports p)
      ]
