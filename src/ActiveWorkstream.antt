-- ===== src/ActiveWorkstream.antt =====
-- `getActiveWorkstream` and `setActiveWorkstream` of .opencode/get-shit-done/bin/lib/core.cjs: the
-- file that names the active workstream. Names are given as texts; an empty one clears the file.
pub mod Names
mod Tests
use mikmongo.Base.{
  ℕ, Bool, false, ◌&&◌, ◌||◌, Option, none, some, [], ◌∷◌, ◌++◌, ◌==◌, if◌then◌else◌, all,
}
use mikmongo.Text.{Text, codes, is_alnum, trim}

abbrev pub name_unit : ℕ → Bool
name_unit c = is_alnum c || c == b'_' || c == b'-'

-- `/^[a-zA-Z0-9_-]+$/`
unfoldable pub is_name : Text → Bool
is_name [] = false
is_name (c ∷ s) = all name_unit (c ∷ s)

pub data SetResult : Type 0 where
  -- The new content of the file, `none` when it is removed.
  written : Option Text → SetResult
  -- The error is thrown, and the file stays.
  invalid_name : SetResult

-- `setActiveWorkstream(cwd, name)`
unfoldable pub set_active_workstream : Text → SetResult
set_active_workstream [] = written none
set_active_workstream (c ∷ s) =
    if is_name (c ∷ s) then written (some ((c ∷ s) ++ codes "\n")) else invalid_name

-- `getActiveWorkstream(cwd)`, on the content of the file and whether the workstream of a name has a
-- directory.
unfoldable pub get_active_workstream : Option Text → (Text → Bool) → Option Text
get_active_workstream none exists = none
get_active_workstream (some content) exists =
    let name = trim content in if is_name name && exists name then some name else none
