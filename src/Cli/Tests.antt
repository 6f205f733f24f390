-- ===== src/Cli/Tests.antt =====
-- Command lines.
use mikmongo.Base.{ℕ, ◌≡◌, refl, ◌↔◌, inl, false, none, some, List, [], ◌∷◌, is_empty}
use mikmongo.Text.{Text, codes, equal, starts_with, join}
use mikmongo.Json.{null, str, get, put}
use mikmongo.Cli.{parse_named_args, parse_multiword_arg, put_values, put_booleans}
use mikmongo.Cli.Named.{IsGiven, parse_named_args-value}
use mikmongo.Cli.Multiword.{IsPhrase, parse_multiword_arg_iff}

-- record-metric --phase 3 --plan --force --name Foo Bar --raw
abbrev line : List Text
line =
    codes "record-metric"
    ∷ codes "--phase"
    ∷ codes "3"
    ∷ codes "--plan"
    ∷ codes "--force"
    ∷ codes "--name"
    ∷ codes "Foo"
    ∷ codes "Bar"
    ∷ codes "--raw"
    ∷ []

abbrev value_flags : List Text
value_flags = codes "phase" ∷ codes "plan" ∷ []

abbrev boolean_flags : List Text
boolean_flags = codes "force" ∷ []

phase_given :
    get (codes "phase") (parse_named_args {N = ℕ} line value_flags boolean_flags)
    ≡ some (str (codes "3"))
unfolding get parse_named_args put_booleans put put_values equal starts_with
phase_given = refl

-- A flag in the place of a value is none.
plan_missing :
    get (codes "plan") (parse_named_args {N = ℕ} line value_flags boolean_flags) ≡ some null
unfolding get parse_named_args put_booleans put put_values equal starts_with
plan_missing = refl

name_phrase : parse_multiword_arg line (codes "name") ≡ some (codes "Foo Bar")
unfolding parse_multiword_arg equal starts_with join
name_phrase = refl

no_phrase : parse_multiword_arg line (codes "raw") ≡ none
unfolding parse_multiword_arg equal
no_phrase = refl

parse_named_args-value_example :
    (get (codes "phase") (parse_named_args {N = ℕ} line value_flags boolean_flags)
      ≡ some (str (codes "3")))
    ↔ IsGiven line (codes "phase") (codes "3")
unfolding equal
parse_named_args-value_example =
    parse_named_args-value line value_flags boolean_flags (codes "phase") (codes "3") (inl refl)
      refl

parse_multiword_arg_iff_example :
    (parse_multiword_arg line (codes "name") ≡ some (codes "Foo Bar")) ↔ (
      (words : List Text) × IsPhrase line (codes "name") words
      × (is_empty words ≡ false)
      × (codes "Foo Bar" ≡ join (codes " ") words))
parse_multiword_arg_iff_example = parse_multiword_arg_iff line (codes "name") (codes "Foo Bar")
