-- ===== src/Workstream/Tests.antt =====
-- A planning directory goes to workstreams and back.
use mikmongo.Base.{
  List, ℕ, ◌*◌, ◌+◌, ◌/◌, In, ◌↔◌, ◌≡◌, refl, Bool, true, false, none, some, [], ◌∷◌, ◌++◌,
}
use mikmongo.Slug.{slug}
use mikmongo.Workstream.{Sub, file, folder, Dir, plain, stream, Planning}
use mikmongo.Workstream.Entries.{names_of}
use mikmongo.Workstream.Router.{Call, workstream_command}
use mikmongo.Workstream.Router.History.{IsHistory, run_calls, run_calls-IsHistory}
use mikmongo.Workstream.Create.{CreateOptions, created, state_content, cmd_workstream_create}
use mikmongo.Workstream.Create.Made.{IsCreated, cmd_workstream_create-IsCreated}
use mikmongo.Workstream.Complete.{entries, cmd_workstream_complete, completed}
use mikmongo.Workstream.Reports.{phase_counts, completed_count}
use mikmongo.Workstream.Progress.{
  other_of, get_other_active_workstreams, roadmap_phase_count, progress_percent,
}
use mikmongo.Workstream.Progress.Others.{IsOther, get_other_active_workstreams-IsOther}
use mikmongo.Text.{
  Text, codes, equal, is_alnum, trim, ends_with, is_line_end, is_digit, is_space, to_lower,
  is_lower_alnum, strip_start, strip_end,
}
use mikmongo.Workstream.Migrate.{migrate_to_workstreams, rolled_back}
use mikmongo.Workstream.Migrate.Atomic.{IsAtomic, migrate_to_workstreams-IsAtomic}
use mikmongo.Workstream.Complete.Atomic.{IsArchived, cmd_workstream_complete-IsArchived}
use mikmongo.ActiveWorkstream.{is_name}
use mikmongo.Regex.{lit}

abbrev flat_base : Dir
flat_base =
    (codes "PROJECT.md", file (codes "# P"))
    ∷ (codes "ROADMAP.md", file (codes "# R"))
    ∷ (codes "STATE.md", file (codes "# S"))
    ∷ []

abbrev flat : Planning
flat = record { base = flat_base; streams = none; archive = []; active = none }

abbrev api : Dir
api = (codes "STATE.md", file (codes "# S")) ∷ (codes "phases", folder []) ∷ []

abbrev api_first : Text
api_first = codes "ws-api-2026-01-02"

abbrev two : Planning
two = record {
  base = (codes "PROJECT.md", file (codes "# P")) ∷ [];
  streams = some ((codes "api", stream api) ∷ (codes "notes", plain) ∷ []);
  archive = (api_first, []) ∷ [];
  active = some (codes "api\n");
}

abbrev no_state : Text → Bool
no_state n = equal n (codes "STATE.md")

abbrev nothing : Text → Bool
nothing n = false

abbrev plain_options : CreateOptions
plain_options = record { migrate = true; migrate_name = none }

migrate_to_workstreams-IsAtomic_example :
    IsAtomic
      (codes "main")
      flat
      (migrate_to_workstreams no_state (λ j. false) true (codes "main") flat)
migrate_to_workstreams-IsAtomic_example =
    migrate_to_workstreams-IsAtomic no_state (codes "main") flat

cmd_workstream_complete-IsArchived_example :
    IsArchived
      (codes "api")
      two
      (cmd_workstream_complete nothing (λ j. false) true (codes "api") (codes "2026-01-02") two)
cmd_workstream_complete-IsArchived_example =
    cmd_workstream_complete-IsArchived nothing (codes "api") (codes "2026-01-02") two

cmd_workstream_create-IsCreated_example : IsCreated (slug (codes "New API")) flat (
    cmd_workstream_create no_state
      (λ j. false)
      true
      (codes "New API")
      (codes "2026-01-02")
      plain_options
      none
      (some flat))
cmd_workstream_create-IsCreated_example =
    cmd_workstream_create-IsCreated no_state (codes "New API") (codes "2026-01-02") plain_options
      none flat

get_other_active_workstreams-IsOther_example :
    In (other_of (codes "api") api) (get_other_active_workstreams (codes "web") two)
    ↔ IsOther (codes "web") (entries two) (other_of (codes "api") api)
get_other_active_workstreams-IsOther_example =
    get_other_active_workstreams-IsOther (codes "web") two (other_of (codes "api") api)

abbrev done_phase : Text → Sub
done_phase n = record {
  entry = record { name = n; is_directory = true };
  files = codes "01-PLAN.md" ∷ codes "01-SUMMARY.md" ∷ [];
}

abbrev busy : Text → Dir
busy roadmap =
    (codes "ROADMAP.md", file roadmap)
    ∷ (codes "phases", folder (done_phase (codes "01-a") ∷ done_phase (codes "02-b") ∷ []))
    ∷ []

abbrev rounded : ℕ → ℕ → ℕ
rounded a b = (200 * a + b) / (2 * b)

-- The roadmap has been moved when the state cannot be moved; it comes back.
rolled_back_run :
    migrate_to_workstreams no_state (λ j. false) true (codes "main") flat
    ≡ rolled_back (record flat {
      base =
          (codes "PROJECT.md", file (codes "# P"))
          ∷ (codes "STATE.md", file (codes "# S"))
          ∷ (codes "ROADMAP.md", file (codes "# R"))
          ∷ [];
    })
unfolding migrate_to_workstreams
rolled_back_run = refl

-- The roadmap cannot be moved back either, and it goes with the new directory.
lost_run :
    migrate_to_workstreams no_state (λ j. true) true (codes "main") flat
    ≡ rolled_back (record flat {
      base = (codes "PROJECT.md", file (codes "# P")) ∷ (codes "STATE.md", file (codes "# S")) ∷ [];
    })
unfolding migrate_to_workstreams
lost_run = refl

-- The first name is taken, and no workstream is left, but `workstreams` is.
completed_run :
    cmd_workstream_complete nothing (λ j. false) true (codes "api") (codes "2026-01-02") two
    ≡ completed
        (record two {
          streams = some ((codes "notes", plain) ∷ []);
          archive = (api_first, []) ∷ (api_first ++ codes "-1", api) ∷ [];
          active = none;
        })
        (api_first ++ codes "-1")
        0
unfolding cmd_workstream_complete is_name trim is_alnum
completed_run = refl

-- Two directories are complete, and the roadmap has one phase.
over_run :
    progress_percent rounded
      (completed_count (phase_counts (busy (codes "## Phase 1\n"))))
      (roadmap_phase_count (busy (codes "## Phase 1\n")))
    ≡ 200
unfolding progress_percent completed_count phase_counts roadmap_phase_count equal lit is_space
    is_digit is_line_end ends_with
over_run = refl

-- A first workstream in a directory without work.
created_run :
    cmd_workstream_create nothing
      (λ j. false)
      true
      (codes "API")
      (codes "2026-01-02")
      plain_options
      none
      (some (record flat { base = [] }))
    ≡ created
        (record flat {
          base = [];
          streams = some (
              (
                codes "api",
                stream (
                    (codes "phases", folder [])
                    ∷ (codes "STATE.md", file (state_content (codes "api") (codes "2026-01-02")))
                    ∷ []),
              )
              ∷ []);
          active = some (codes "api\n");
        })
        (codes "api")
        none
unfolding cmd_workstream_create strip_end strip_start is_lower_alnum to_lower is_name is_alnum
created_run = refl

abbrev call : List Text → Call
call args = record {
  args = codes "workstream" ∷ args;
  today = codes "2026-01-02";
  milestone = none;
  throws = nothing;
}

abbrev again : List Call
again =
    call (codes "complete" ∷ codes "api" ∷ [])
    ∷ call (codes "create" ∷ codes "api" ∷ codes "--no-migrate" ∷ [])
    ∷ call (codes "complete" ∷ codes "api" ∷ [])
    ∷ []

run_calls-IsHistory_example : IsHistory two (run_calls rounded again two)
run_calls-IsHistory_example = run_calls-IsHistory rounded again two (refl, tt)

-- The workstream is archived twice on one day.
again_run :
    names_of (run_calls rounded again two).archive
    ≡ api_first ∷ (api_first ++ codes "-1") ∷ (api_first ++ codes "-2") ∷ []
unfolding run_calls workstream_command strip_end strip_start is_lower_alnum to_lower is_alnum
again_run = refl
