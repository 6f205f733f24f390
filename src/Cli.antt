-- ===== src/Cli.antt =====
-- .opencode/get-shit-done/bin/gsd-tools.cjs: `parseNamedArgs` and `parseMultiwordArg`.
pub mod Named
pub mod Multiword
pub mod Options
mod Tests
use mikmongo.Base.{Bool, Option, none, some, List, [], ◌∷◌, if◌then◌else◌, any}
use mikmongo.Text.{Text, codes, equal, starts_with, join}
use mikmongo.Json.{Json, Fields, null, bool, str, end, put}
use mikmongo.Base.{◌++◌}

-- `--${flag}`
abbrev pub dashed : Text → Text
dashed flag = codes "--" ++ flag

abbrev pub is_flag : Text → Bool
is_flag arg = starts_with arg (codes "--")

-- The arguments behind the first one that is `arg`, from `args.indexOf(arg)`.
unfoldable pub behind : Text → List Text → Option (List Text)
behind arg [] = none
behind arg (a ∷ args) = if equal a arg then some args else behind arg args

-- `args[idx + 1]`, if it is there and is no flag.
unfoldable pub value_in : Option (List Text) → Option Text
value_in none = none
value_in (some []) = none
value_in (some (v ∷ args)) = if is_flag v then none else some v

-- The arguments before the next flag.
unfoldable pub tokens_of : List Text → List Text
tokens_of [] = []
tokens_of (a ∷ args) = let rest = tokens_of args in if is_flag a then [] else a ∷ rest

unfoldable pub joined : List Text → Option Text
joined [] = none
joined (t ∷ ts) = some (join (codes " ") (t ∷ ts))

-- `parseMultiwordArg(args, flag)`
unfoldable pub parse_multiword_arg : List Text → Text → Option Text
unfolding joined tokens_of behind
parse_multiword_arg args flag = elim (behind (dashed flag) args) [
  | none ↦ none
  | some rest ↦ joined (tokens_of rest)
]

module _ {N : Type 0} where
  abbrev pub text_or_null : Option Text → Json N
  text_or_null none = null
  text_or_null (some v) = str v

  -- The loop over the flags with a value.
  unfoldable pub put_values : List Text → List Text → Fields N → Fields N
  unfolding value_in behind
  put_values args [] o = o
  put_values args (flag ∷ flags) o =
      put_values args flags (put flag (text_or_null (value_in (behind (dashed flag) args))) o)

  -- The loop over the flags without one.
  unfoldable pub put_booleans : List Text → List Text → Fields N → Fields N
  put_booleans args [] o = o
  put_booleans args (flag ∷ flags) o =
      put_booleans args flags (put flag (bool (any (equal (dashed flag)) args)) o)

  -- `parseNamedArgs(args, valueFlags, booleanFlags)`
  unfoldable pub parse_named_args : List Text → List Text → List Text → Fields N
  parse_named_args args value_flags boolean_flags =
      put_booleans args boolean_flags (put_values args value_flags end)
