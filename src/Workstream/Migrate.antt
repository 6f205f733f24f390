-- ===== src/Workstream/Migrate.antt =====
-- .opencode/get-shit-done/bin/lib/workstream.cjs: `migrateToWorkstreams`.
pub mod Atomic
use mikmongo.Base.{
  Bool, true, false, ◌||◌, Option, none, some, List, [], ◌∷◌, ◌==◌, if◌then◌else◌, is_empty, any,
}
use mikmongo.Text.{Text, codes, equal}
use mikmongo.Workstream.{Node, Dir, Entry, stream, Planning}
use mikmongo.Workstream.Move.{Moved, move_all, restore}

-- An exception before anything is done; the migration; or the exception of a rename that threw, with
-- the planning directory as it is left.
pub data Migration : Type 0 where
  refused : Text → Migration
  migrated : Planning → (files_moved : List Text) → Migration
  rolled_back : Planning → Migration

-- `/[/\\]/.test(name) || name === '.' || name === '..'`
unfoldable pub is_bad_name : Text → Bool
unfolding equal
is_bad_name name =
    any (λ c. c == b'/' || c == b'\\') name || equal name (codes ".") || equal name (codes "..")

abbrev pub to_move : List Text
to_move = codes "ROADMAP.md" ∷ codes "STATE.md" ∷ codes "REQUIREMENTS.md" ∷ codes "phases" ∷ []

abbrev pub only_stream : Text → Dir → Option (List (Text × Entry))
only_stream name dir = some ((name, stream dir) ∷ [])

-- `throws` and `stuck` tell which entries cannot be moved and moved back, and `swept` whether the new
-- directories can be removed again; the first removal takes everything that is in them.
module _ (throws stuck : Text → Bool) (swept : Bool) where
  abbrev pub roll_back : Text → Planning → Moved Node → Planning
  roll_back name p m =
      let back = restore stuck m.moved m.sides in
      record p { base = back.from; streams = if swept then none else only_stream name back.to }

  abbrev pub settle : Text → Planning → Moved Node → Migration
  settle name p m = elim m.failed [
    | true ↦ rolled_back (roll_back name p m)
    | false ↦
        migrated (record p { base = m.sides.from; streams = only_stream name m.sides.to }) m.moved
  ]

  -- On what stands at `workstreams`.
  abbrev pub attempt : Option (List (Text × Entry)) → Text → Planning → Migration
  attempt (some es) name p =
      refused (codes "Already in workstream mode — .planning/workstreams/ exists")
  attempt none name p =
      settle name p (move_all throws to_move (record { from = p.base; to = [] }) [])

  -- `migrateToWorkstreams(cwd, workstreamName)`
  unfoldable pub migrate_to_workstreams : Text → Planning → Migration
  unfolding is_bad_name move_all restore
  migrate_to_workstreams name p =
      if is_empty name || is_bad_name name
      then refused (codes "Invalid workstream name for migration")
      else attempt p.streams name p
