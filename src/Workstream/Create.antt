-- ===== src/Workstream/Create.antt =====
-- .opencode/get-shit-done/bin/lib/workstream.cjs: `cmdWorkstreamCreate`, `cmdWorkstreamSet` and
-- `cmdWorkstreamGet`.
pub mod Active
pub mod Filled
pub mod Made
use mikmongo.Base.{
  Bool, true, false, not, ◌||◌, Option, none, some, List, [], ◌∷◌, ◌++◌, if◌then◌else◌,
}
use mikmongo.Text.{Text, codes, join}
use mikmongo.Slug.{slug, generate_slug}
use mikmongo.ActiveWorkstream.{is_name, written, invalid_name, set_active_workstream}
use mikmongo.Workstream.{Node, file, folder, Dir, Entry, plain, stream, Planning}
use mikmongo.Workstream.Entries.{lookup, put, has}
use mikmongo.Workstream.Migrate.{Migration, refused, migrated, rolled_back, migrate_to_workstreams}
use mikmongo.Workstream.Complete.{entries, active_of}

-- `error(message)`, an exception that is not caught, or what is printed, with the planning directory
-- as it is left.
pub data Creation : Type 0 where
  failed : Text → Creation
  thrown : Planning → Creation
  already_exists : Text → Creation
  migration_failed : Planning → Creation
  created : Planning → (workstream : Text) → (migrated_files : Option (List Text)) → Creation

pub record CreateOptions : Type 0 where
  pub migrate : Bool
  pub migrate_name : Option Text

unfoldable pub state_content : Text → Text → Text
unfolding join
state_content name today = join (codes "\n") (
    codes "---"
    ∷ (codes "workstream: " ++ name)
    ∷ (codes "created: " ++ today)
    ∷ codes "---"
    ∷ []
    ∷ codes "# Project State"
    ∷ []
    ∷ codes "## Current Position"
    ∷ codes "**Status:** Not started"
    ∷ codes "**Current Phase:** None"
    ∷ (codes "**Last Activity:** " ++ today)
    ∷ codes "**Last Activity Description:** Workstream created"
    ∷ []
    ∷ codes "## Progress"
    ∷ codes "**Phases Complete:** 0"
    ∷ codes "**Current Plan:** N/A"
    ∷ []
    ∷ codes "## Session Continuity"
    ∷ codes "**Stopped At:** N/A"
    ∷ codes "**Resume File:** None"
    ∷ []
    ∷ [])

abbrev pub has_work : Dir → Bool
has_work base =
    has (codes "ROADMAP.md") base || has (codes "STATE.md") base || has (codes "phases") base

-- The name of the workstream for the work that is there; `milestone` is the name that
-- `getMilestoneInfo` gives, if it does not throw.
abbrev pub or_default : Option Text → Text
or_default none = codes "default"
or_default (some []) = codes "default"
or_default (some (c ∷ s)) = c ∷ s

unfoldable pub existing_name : Option Text → Option Text → Text
unfolding generate_slug
existing_name (some (c ∷ name)) milestone = c ∷ name
existing_name _ none = codes "default"
existing_name _ (some milestone) = or_default (generate_slug milestone)

abbrev pub with_phases : Option Node → Dir → Option Dir
with_phases none dir = some (put (codes "phases") (folder []) dir)
with_phases (some (folder subs)) dir = some dir
with_phases (some (file t)) dir = none

abbrev pub with_state : Bool → Text → Dir → Dir
with_state true content dir = dir
with_state false content dir = put (codes "STATE.md") (file content) dir

-- The directory of a workstream, as it is there or new; a plain file in its place is an exception.
abbrev pub dir_of : Option Entry → Option Dir
dir_of none = some []
dir_of (some plain) = none
dir_of (some (stream dir)) = some dir

abbrev pub set_active : Text → Planning → Planning
set_active name p = elim (set_active_workstream name) [
  | written content ↦ record p { active = content }
  | invalid_name ↦ p
]

abbrev pub add_stream : Text → Dir → Planning → Planning
add_stream name dir p = record p { streams = some (put name (stream dir) (entries p)) }

-- The state and the active workstream, on the workstream with its phases, if they can be made.
abbrev pub finish : Text → Text → Option (List Text) → Planning → Dir → Option Dir → Creation
finish name today files p dir none = thrown (add_stream name dir p)
finish name today files p dir (some full) =
    let done = with_state (has (codes "STATE.md") full) (state_content name today) full in
    created (set_active name (add_stream name done p)) name files

abbrev pub fill : Text → Text → Option (List Text) → Planning → Option Dir → Creation
fill name today files p none = thrown p
fill name today files p (some dir) =
    finish name today files p dir (with_phases (lookup (codes "phases") dir) dir)

abbrev pub fill_in : Text → Text → Option (List Text) → Planning → Creation
fill_in name today files p = fill name today files p (dir_of (lookup name (entries p)))

abbrev pub after_migration : Text → Text → Planning → Migration → Creation
after_migration name today p (refused message) = migration_failed p
after_migration name today p (rolled_back q) = migration_failed q
after_migration name today p (migrated q files) = fill_in name today (some files) q

abbrev pub is_created : Option Entry → Bool
is_created (some (stream dir)) = has (codes "STATE.md") dir
is_created _ = false

module _ (throws stuck : Text → Bool) (swept : Bool) where
  abbrev pub in_flat_mode : Text → Text → CreateOptions → Option Text → Planning → Creation
  in_flat_mode name today options milestone p =
      if options.migrate
      then if has_work p.base
        then after_migration name today p (
            migrate_to_workstreams throws stuck swept (existing_name options.migrate_name milestone)
              p)
        else fill_in name today none (record p { streams = some [] })
      else fill_in name today none p

  -- On what stands at `workstreams`: a migration comes first only where nothing does.
  abbrev pub in_mode :
      Option (List (Text × Entry)) → Text → Text → CreateOptions → Option Text → Planning → Creation
  in_mode none name today options milestone p = in_flat_mode name today options milestone p
  in_mode (some es) name today options milestone p = fill_in name today none p

  abbrev pub create_in : Text → Text → CreateOptions → Option Text → Planning → Creation
  create_in name today options milestone p =
      if is_created (lookup name (entries p))
      then already_exists name
      else in_mode p.streams name today options milestone p

  abbrev pub create_slug : Text → Text → CreateOptions → Option Text → Option Planning → Creation
  create_slug [] today options milestone p =
      failed (codes "Invalid workstream name — must contain at least one alphanumeric character")
  create_slug (c ∷ name) today options milestone none =
      failed (codes ".planning/ directory not found — run /gsd:new-project first")
  create_slug (c ∷ name) today options milestone (some p) =
      create_in (c ∷ name) today options milestone p

  -- `cmdWorkstreamCreate(cwd, name, options, raw)` on the date `today`.
  unfoldable pub cmd_workstream_create :
      Text → Text → CreateOptions → Option Text → Option Planning → Creation
  unfolding slug lookup put existing_name migrate_to_workstreams state_content set_active_workstream
  cmd_workstream_create [] today options milestone p =
      failed (codes "workstream name required. Usage: workstream create <name>")
  cmd_workstream_create (c ∷ name) today options milestone p =
      create_slug (slug (c ∷ name)) today options milestone p

-- What `cmdWorkstreamSet` prints.
pub data Selection : Type 0 where
  cleared invalid : Selection
  missing selected : Text → Selection

-- On whether the name is that of a workstream, and whether there is one.
abbrev pub set_checked : Bool → Bool → Text → Planning → Selection × Planning
set_checked false there name p = (invalid, p)
set_checked true false name p = (missing name, p)
set_checked true true name p = (selected name, set_active name p)

-- `cmdWorkstreamSet(cwd, name, raw)`
unfoldable pub cmd_workstream_set : Text → Planning → Selection × Planning
unfolding is_name lookup
cmd_workstream_set [] p = (cleared, set_active [] p)
cmd_workstream_set (c ∷ name) p =
    set_checked (is_name (c ∷ name)) (has (c ∷ name) (entries p)) (c ∷ name) p

-- `cmdWorkstreamGet(cwd, raw)`: the active workstream, and whether there are workstreams.
unfoldable pub cmd_workstream_get : Planning → Option Text × Bool
unfolding active_of
cmd_workstream_get p = (active_of p, elim p.streams [ none ↦ false | some es ↦ true ])
