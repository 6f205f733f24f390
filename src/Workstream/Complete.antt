-- ===== src/Workstream/Complete.antt =====
-- .opencode/get-shit-done/bin/lib/workstream.cjs: `cmdWorkstreamComplete`.
pub mod Atomic
use mikmongo.Base.{
  ℕ, suc, Bool, true, false, Option, none, some, List, [], ◌∷◌, ◌++◌, if◌then◌else◌, is_empty,
}
use mikmongo.Text.{Text, codes, equal}
use mikmongo.ActiveWorkstream.{get_active_workstream}
use mikmongo.Workstream.{Node, Dir, Entry, plain, stream, Planning}
use mikmongo.Workstream.Entries.{lookup, put, remove, has, names_of}
use mikmongo.Workstream.Move.{Moved, move_all, restore}
use mikmongo.Workstream.Migrate.{is_bad_name}
use mikmongo.Workstream.Archive.{archive_name}

-- `error(message)`, or what is printed, with the planning directory as it is left.
pub data Completion : Type 0 where
  refused : Text → Completion
  not_found : Completion
  archive_failed : Planning → Completion
  completed : Planning → (archived_to : Text) → (remaining : ℕ) → Completion

abbrev pub entries_of : Option (List (Text × Entry)) → List (Text × Entry)
entries_of none = []
entries_of (some es) = es

abbrev pub entries : Planning → List (Text × Entry)
entries p = entries_of p.streams

-- `getActiveWorkstream(cwd)`
unfoldable pub active_of : Planning → Option Text
unfolding get_active_workstream lookup
active_of p = get_active_workstream p.active (λ name. has name (entries p))

abbrev pub is_named : Text → Option Text → Bool
is_named name none = false
is_named name (some a) = equal a name

abbrev pub is_active : Text → Planning → Bool
is_active name p = is_named name (active_of p)

unfoldable pub stream_count : List (Text × Entry) → ℕ
stream_count [] = 0
stream_count ((name, plain) ∷ es) = stream_count es
stream_count ((name, stream dir) ∷ es) = suc (stream_count es)

-- `fs.rmdirSync(wsRoot)` when no workstream is left, which throws while something else is there.
abbrev pub left_streams : List (Text × Entry) → Option (List (Text × Entry))
left_streams [] = none
left_streams (e ∷ es) = some (e ∷ es)

-- The active workstream is cleared first, and set again when the archive fails.
abbrev pub active_again : Text → Planning → Option Text
active_again name p = if is_active name p then some (name ++ codes "\n") else p.active

abbrev pub archived : Text → Text → Planning → Dir → Planning
archived name at p dir = record p {
  streams = left_streams (remove name (entries p));
  archive = p.archive ++ (at, dir) ∷ [];
  active = if is_active name p then none else p.active;
}

module _ (throws stuck : Text → Bool) (swept : Bool) where
  abbrev pub give_back : Text → Text → Planning → Moved Node → Planning
  give_back name at p m =
      let back = restore stuck m.moved m.sides in
      record p {
        streams = some (put name (stream back.from) (entries p));
        archive = if swept then p.archive else p.archive ++ (at, back.to) ∷ [];
        active = active_again name p;
      }

  abbrev pub archive_stream : Text → Text → Planning → Moved Node → Completion
  archive_stream name at p m = elim m.failed [
    | true ↦ archive_failed (give_back name at p m)
    | false ↦ completed (archived name at p m.sides.to) at (stream_count (remove name (entries p)))
  ]

  -- A workstream that is a plain file cannot be listed, which throws before anything is moved.
  abbrev pub archive_entry : Text → Text → Planning → Option Entry → Completion
  archive_entry name at p none = not_found
  archive_entry name at p (some plain) = archive_failed (record p {
    archive = if swept then p.archive else p.archive ++ (at, []) ∷ [];
    active = active_again name p;
  })
  archive_entry name at p (some (stream dir)) =
      archive_stream name at p (move_all throws (names_of dir) (record { from = dir; to = [] }) [])

  -- `cmdWorkstreamComplete(cwd, name, options, raw)` on the date `today`.
  unfoldable pub cmd_workstream_complete : Text → Text → Planning → Completion
  unfolding is_bad_name move_all restore archive_name active_of stream_count lookup put remove
  cmd_workstream_complete name today p =
      if is_empty name
      then refused (codes "workstream name required. Usage: workstream complete <name>")
      else if is_bad_name name
      then refused (codes "Invalid workstream name")
      else archive_entry name (archive_name (names_of p.archive) name today) p
          (lookup name (entries p))
