-- ===== src/Workstream/Move.antt =====
-- .opencode/get-shit-done/bin/lib/workstream.cjs: the loops that move the entries of one directory to
-- another and, when a rename throws, the moved ones back.
pub mod Kept
pub mod Done
pub mod Back
pub mod Fresh
use mikmongo.Base.{Bool, true, false, none, some, List, [], ◌∷◌, ◌++◌, if◌then◌else◌}
use mikmongo.Text.{Text}
use mikmongo.Workstream.Entries.{lookup, put, remove}

-- The directory that entries leave and the one that takes them.
pub record Sides (V : Type 0) : Type 0 where
  pub from : List (Text × V)
  pub to : List (Text × V)

-- The directories, the names that have been moved, and whether a rename threw.
pub record Moved (V : Type 0) : Type 0 where
  pub sides : Sides V
  pub moved : List Text
  pub failed : Bool

module _ {V : Type 0} where
  abbrev pub shift : Text → V → Sides V → Sides V
  shift n v s = record { from = remove n s.from; to = put n v s.to }

  -- The loop over the names; `throws` tells which entries cannot be moved.
  unfoldable pub move_all : (Text → Bool) → List Text → Sides V → List Text → Moved V
  unfolding lookup
  move_all throws [] s moved = record { sides = s; moved = moved; failed = false }
  move_all throws (n ∷ ns) s moved = elim (lookup n s.from) [
    | none ↦ move_all throws ns s moved
    | some v ↦ elim (throws n) [
      | true ↦ record { sides = s; moved = moved; failed = true }
      | false ↦ move_all throws ns (shift n v s) (moved ++ n ∷ [])
    ]
  ]

  unfoldable pub move_back : Text → Sides V → Sides V
  unfolding lookup put remove
  move_back n s = elim (lookup n s.to) [
    | none ↦ s
    | some v ↦ record { from = put n v s.from; to = remove n s.to }
  ]

  -- The loop of the exception handler; `stuck` tells which entries cannot be moved back.
  unfoldable pub restore : (Text → Bool) → List Text → Sides V → Sides V
  unfolding move_back
  restore stuck [] s = s
  restore stuck (n ∷ ns) s = restore stuck ns (if stuck n then s else move_back n s)
