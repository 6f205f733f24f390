-- ===== src/Workstream/Migrate/Atomic.antt =====
-- A migration moves all the files of a workstream, or leaves the planning directory as it was.
use mikmongo.Base.{
  ◌≡◌, refl, ◌≢◌, ◌⊎◌, inl, inr, Bool, true, false, ◌||◌, Option, none, some, List, [], Bool-cases,
  is_empty,
}
use mikmongo.Text.{Text}
use mikmongo.Workstream.{Node, Dir, Entry, Planning}
use mikmongo.Workstream.Entries.{lookup}
use mikmongo.Workstream.Move.{Moved, move_all}
use mikmongo.Workstream.Move.Fresh.{IsMoved, fresh, outcome-IsMoved, outcome-restored}
use mikmongo.Workstream.Migrate.{
  Migration, refused, migrated, rolled_back, to_move, only_stream, settle, attempt, is_bad_name,
  migrate_to_workstreams,
}

-- What may come of a migration of `p` to the workstream `name`.
abbrev pub IsAtomic : Text → Planning → Migration → Type 0
IsAtomic name p (refused message) = (is_empty name || is_bad_name name ≡ true) ⊎ (p.streams ≢ none)
IsAtomic name p (migrated q files) =
    (dir : Dir) × (q ≡ record p { base = q.base; streams = only_stream name dir })
    × IsMoved to_move p.base q.base dir
IsAtomic name p (rolled_back q) =
    (q ≡ record p { base = q.base; streams = none })
    × ((j : Text) → lookup j q.base ≡ lookup j p.base)

module _ (throws : Text → Bool) (name : Text) (p : Planning) where
  abbrev tried : Moved Node
  tried = move_all throws to_move (fresh p.base) []

  settle-IsAtomic : IsAtomic name p (settle throws (λ j. false) true name p tried)
  settle-IsAtomic = elim (Bool-cases tried.failed) [
    | inl e ↦ rw e (refl, outcome-restored throws to_move p.base)
    | inr e ↦ rw e (tried.sides.to, refl, outcome-IsMoved throws to_move p.base e)
  ]

  attempt-IsAtomic :
      (o : Option (List (Text × Entry)))
      → p.streams ≡ o
      → IsAtomic name p (attempt throws (λ j. false) true o name p)
  attempt-IsAtomic none e = settle-IsAtomic
  attempt-IsAtomic (some es) e = inr (λ h. cc)

-- A migration does one of three things, whichever renames throw, as long as the moved files can be
-- moved back and the new directories removed: it is refused for a bad name or existing workstreams;
-- it moves the roadmap, the state, the requirements and the phases to the new workstream and
-- nothing else; or it leaves every entry where it was and no workstreams.
pub migrate_to_workstreams-IsAtomic :
    (throws : Text → Bool) (name : Text) (p : Planning)
    → IsAtomic name p (migrate_to_workstreams throws (λ j. false) true name p)
unfolding migrate_to_workstreams
migrate_to_workstreams-IsAtomic throws name p =
    elim (Bool-cases (is_empty name || is_bad_name name)) [
      | inl bad ↦ rw (migrate_to_workstreams, bad) (inl bad)
      | inr good ↦ rw (migrate_to_workstreams, good) (attempt-IsAtomic throws name p p.streams refl)
    ]
