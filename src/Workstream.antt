-- ===== src/Workstream.antt =====
-- .opencode/get-shit-done/bin/lib/workstream.cjs: the planning directory with its workstreams.
pub mod Entries
pub mod Move
pub mod Migrate
pub mod Archive
pub mod Complete
pub mod Create
pub mod Reports
pub mod Progress
pub mod Router
mod Tests
use mikmongo.Base.{Option, List}
use mikmongo.Text.{Text}
use mikmongo.PhaseDir.{Dirent}

-- An entry of `phases`: its name, whether it is a directory, and the names in it.
pub record Sub : Type 0 where
  pub entry : Dirent
  pub files : List Text

-- What stands in the planning directory or in a workstream: a file with its text, or a directory.
pub data Node : Type 0 where
  file : Text → Node
  folder : List Sub → Node

abbrev pub Dir : Type 0
Dir = List (Text × Node)

-- An entry of the directory of the workstreams.
pub data Entry : Type 0 where
  plain : Entry
  stream : Dir → Entry

-- `.planning`: its own entries, `workstreams` if it is there, the archives in `milestones`, and the
-- content of `active-workstream`.
pub record Planning : Type 0 where
  pub base : Dir
  pub streams : Option (List (Text × Entry))
  pub archive : List (Text × Dir)
  pub active : Option Text
