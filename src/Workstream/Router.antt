-- ===== src/Workstream/Router.antt =====
-- .opencode/get-shit-done/bin/gsd-tools.cjs: the case `workstream` of the router, in a directory with
-- `.planning`.
pub mod History
use mikmongo.Base.{ℕ, Bool, not, Option, none, some, List, [], ◌∷◌, any, get_elem?}
use mikmongo.Text.{Text, codes, equal}
use mikmongo.Json.{Json}
use mikmongo.State.Command.{ℤ, Reply, or_text}
use mikmongo.Workstream.{Planning}
use mikmongo.Workstream.Create.{
  Creation, CreateOptions, failed, thrown, already_exists, migration_failed, created, Selection,
  cmd_workstream_create, cmd_workstream_set, cmd_workstream_get,
}
use mikmongo.Workstream.Complete.{
  Completion, refused, not_found, archive_failed, completed, cmd_workstream_complete,
}
use mikmongo.Workstream.Reports.{cmd_workstream_list, cmd_workstream_status}
use mikmongo.Workstream.Progress.{cmd_workstream_progress}
use mikmongo.Base.{if◌then◌else◌}

-- A call of the program: its arguments, the date, the name of the milestone, if it can be read, and
-- which renames throw.
pub record Call : Type 0 where
  pub args : List Text
  pub today : Text
  pub milestone : Option Text
  pub throws : Text → Bool

pub data Subcommand : Type 0 where
  create list status complete set get progress unknown : Subcommand

-- The tests of `subcommand`; a missing argument is none of the names.
unfoldable pub subcommand_of : Text → Subcommand
unfolding equal
subcommand_of s =
    if equal s (codes "create")
    then Subcommand.create
    else if equal s (codes "list")
    then Subcommand.list
    else if equal s (codes "status")
    then Subcommand.status
    else if equal s (codes "complete")
    then Subcommand.complete
    else if equal s (codes "set")
    then Subcommand.set
    else if equal s (codes "get")
    then Subcommand.get
    else if equal s (codes "progress")
    then Subcommand.progress
    else Subcommand.unknown

-- `args[n]`; a missing argument is false like an empty one.
abbrev pub arg : ℕ → List Text → Text
arg n args = or_text (get_elem? args n) []

-- `args[args.indexOf(flag) + 1]`, if the flag is there.
unfoldable pub after_flag : Text → List Text → Option Text
after_flag flag [] = none
after_flag flag (a ∷ args) = if equal a flag then get_elem? args 0 else after_flag flag args

unfoldable pub create_options : List Text → CreateOptions
unfolding after_flag
create_options args = record {
  migrate = not (any (equal (codes "--no-migrate")) args);
  migrate_name = after_flag (codes "--migrate-name") args;
}

-- What a call comes to.
pub data Answered : Type 0 where
  creation : Creation → Answered
  completion : Completion → Answered
  selection : Selection × Planning → Answered
  selected : Option Text × Bool → Answered
  report : Json ℤ → Answered
  reply : Reply → Answered
  no_subcommand : Answered

module _ (round_percent : ℕ → ℕ → ℕ) (stuck : Text → Bool) (swept : Bool) where
  abbrev pub dispatch : Subcommand → Call → Planning → Answered
  dispatch create i p = Answered.creation (
      cmd_workstream_create i.throws stuck swept (arg 2 i.args) i.today (create_options i.args)
        i.milestone (some p))
  dispatch list i p = Answered.report (cmd_workstream_list p)
  dispatch status i p = Answered.reply (cmd_workstream_status (arg 2 i.args) p)
  dispatch complete i p =
      Answered.completion (cmd_workstream_complete i.throws stuck swept (arg 2 i.args) i.today p)
  dispatch set i p = Answered.selection (cmd_workstream_set (arg 2 i.args) p)
  dispatch get i p = Answered.selected (cmd_workstream_get p)
  dispatch progress i p = Answered.report (cmd_workstream_progress round_percent p)
  dispatch unknown i p = Answered.no_subcommand

  unfoldable pub workstream_command : Call → Planning → Answered
  unfolding subcommand_of create_options cmd_workstream_create cmd_workstream_list
      cmd_workstream_status cmd_workstream_complete cmd_workstream_set cmd_workstream_get
      cmd_workstream_progress
  workstream_command i p = dispatch (subcommand_of (arg 1 i.args)) i p

-- The planning directory after a call.
abbrev pub left_by_creation : Planning → Creation → Planning
left_by_creation p (failed message) = p
left_by_creation p (thrown q) = q
left_by_creation p (already_exists name) = p
left_by_creation p (migration_failed q) = q
left_by_creation p (created q name files) = q

abbrev pub left_by_completion : Planning → Completion → Planning
left_by_completion p (refused message) = p
left_by_completion p not_found = p
left_by_completion p (archive_failed q) = q
left_by_completion p (completed q at remaining) = q

abbrev pub left_by : Planning → Answered → Planning
left_by p (creation c) = left_by_creation p c
left_by p (completion c) = left_by_completion p c
left_by p (selection (s, q)) = q
left_by p _ = p
