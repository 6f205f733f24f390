-- ===== src/Cli/Options.antt =====
-- The options of `main` in .opencode/get-shit-done/bin/gsd-tools.cjs that every command takes:
-- `--cwd`, `--ws`, `--raw` and `--pick`, up to the command's name.
pub mod Taken
mod Tests
pub mod Workstream
use mikmongo.Base.{
  ℕ, ◌+◌, Bool, true, ◌||◌, Option, none, some, List, [], ◌∷◌, ◌++◌, ◌==◌, if◌then◌else◌, length,
  drop, is_empty, all, any,
}
use mikmongo.Text.{Text, codes, equal, starts_with, is_alnum, trim}
use mikmongo.Cli.{dashed, is_flag, behind}

pub data OptionError : Type 0 where
  missing_value : (flag : Text) → OptionError
  invalid_cwd : (directory : Text) → OptionError
  invalid_workstream usage : OptionError

pub data Parsed (A : Type 0) : Type 0 where
  ok : A → Parsed A
  failed : OptionError → Parsed A

pub record Options : Type 0 where
  pub cwd : Text
  pub ws : Option Text
  pub raw : Bool
  pub pick : Option Text
  pub command : Text
  pub args : List Text

-- `args.find(arg => arg.startsWith(lead))`
unfoldable pub find_lead : Text → List Text → Option Text
find_lead lead [] = none
find_lead lead (a ∷ args) = if starts_with a lead then some a else find_lead lead args

-- `args.splice(args.indexOf(arg), n)` for an argument that is there.
unfoldable pub splice : Text → ℕ → List Text → List Text
splice arg n [] = []
splice arg n (a ∷ args) =
    let rest = splice arg n args in if equal a arg then drop n (a ∷ args) else a ∷ rest

-- A value that is there, and neither empty nor a flag.
unfoldable pub present : Option (List Text) → Option Text
present none = none
present (some []) = none
present (some (v ∷ args)) = if is_empty v || is_flag v then none else some v

-- `--flag value`
unfoldable pub spaced : Text → List Text → Parsed (Option Text × List Text)
spaced flag args =
    if any (equal (dashed flag)) args
    then elim (present (behind (dashed flag) args)) [
      | none ↦ failed (missing_value flag)
      | some v ↦ ok (some v, splice (dashed flag) 2 args)
    ]
    else ok (none, args)

-- The value behind the equals sign.
unfoldable pub equal_value : Text → Text → Text
equal_value flag arg = trim (drop (length (dashed flag) + 1) arg)

-- `--flag=value`, or else `--flag value`: the value, and the arguments without the option.
unfoldable pub take_option : Text → List Text → Parsed (Option Text × List Text)
take_option flag args = elim (find_lead (dashed flag ++ codes "=") args) [
  | none ↦ spaced flag args
  | some arg ↦
      let value = equal_value flag arg in
      if is_empty value then failed (missing_value flag) else ok (some value, splice arg 1 args)
]

abbrev ws_unit : ℕ → Bool
ws_unit c = is_alnum c || c == b'_' || c == b'-'

-- The priority of the workstream: option, environment, file.
unfoldable pub chosen_ws : Option Text → Option Text → Option Text → Option Text
chosen_ws (some w) env active = some w
chosen_ws none (some (c ∷ e)) active = some (trim (c ∷ e))
chosen_ws none _ active = active

-- `ws && !/^[a-zA-Z0-9_-]+$/.test(ws)`, negated.
unfoldable pub ws_allowed : Option Text → Bool
ws_allowed none = true
ws_allowed (some w) = all ws_unit w

abbrev with_command : Text → Option Text → Bool → Option Text → List Text → Parsed Options
with_command cwd ws raw pick [] = failed usage
with_command cwd ws raw pick (command ∷ args) =
    if is_empty command
    then failed usage
    else ok (record { cwd = cwd; ws = ws; raw = raw; pick = pick; command = command; args = args })

unfoldable pub and_then : {A B : Type 0} → Parsed A → (A → Parsed B) → Parsed B
and_then (ok a) f = f a
and_then (failed e) f = failed e

-- The rest of the options, of the arguments without `--cwd` and `--ws`.
unfoldable pub later_options : Text → Option Text → List Text → Parsed Options
later_options cwd ws args =
    let raw = any (equal (codes "--raw")) args in
    and_then (spaced (codes "pick") (if raw then splice (codes "--raw") 1 args else args))
      (λ (pick, rest). with_command cwd ws raw pick rest)

-- What the code reads of the file system: the directory that it runs in, `path.resolve`, the paths
-- that are directories, those with a `.planning` below, `resolveWorktreeRoot`, and
-- `getActiveWorkstream`.
pub record Place : Type 0 where
  pub here : Text
  pub resolve : Text → Text
  pub is_directory : Text → Bool
  pub has_planning : Text → Bool
  pub worktree_root : Text → Text
  pub active : Text → Option Text

abbrev pub given_directory : Place → Option Text → Text
given_directory place none = place.here
given_directory place (some value) = place.resolve value

-- A directory without a `.planning` gives way to the root of its worktree.
unfoldable pub directory_of : Place → Option Text → Parsed Text
directory_of place value =
    let cwd = given_directory place value in
    if place.is_directory cwd
    then ok (if place.has_planning cwd then cwd else place.worktree_root cwd)
    else failed (invalid_cwd cwd)

-- `env` is `GSD_WORKSTREAM`.
unfoldable pub parse_options : Place → List Text → Option Text → Parsed Options
parse_options place args env = and_then (take_option (codes "cwd") args) (λ (value, rest).
    and_then (directory_of place value) (λ cwd.
      and_then (take_option (codes "ws") rest) (λ (given, more).
        let ws = chosen_ws given env (place.active cwd) in
        if ws_allowed ws then later_options cwd ws more else failed invalid_workstream)))
