-- ===== src/Cli/Options/Tests.antt =====
-- Command lines with options.
use mikmongo.Base.{◌≡◌, refl, ◌||◌, true, none, some, List, [], ◌∷◌}
use mikmongo.Text.{Text, codes, is_alnum, equal, trim, starts_with}
use mikmongo.Security.Paths.Segments.{IsPlain}
use mikmongo.Cli.Options.{
  Place, directory_of, invalid_cwd, ok, failed, Options, invalid_workstream, missing_value,
  take_option, parse_options, later_options, chosen_ws, ws_allowed, present, spaced, splice,
  equal_value, find_lead, and_then,
}
use mikmongo.Cli.Options.Taken.{IsTaken, take_option-IsTaken}
use mikmongo.Cli.Options.Workstream.{parse_options-IsPlain}
use mikmongo.Cli.{behind}

abbrev line : List Text
line =
    codes "state"
    ∷ codes "--ws"
    ∷ codes "api"
    ∷ codes "--cwd= /w "
    ∷ codes "--raw"
    ∷ codes "load"
    ∷ []

-- The directory `/w` is a worktree of `/main`, and `/main` has the `.planning`.
abbrev place : Place
place = record {
  here = codes "/main";
  resolve = λ p. p;
  is_directory = λ p. equal p (codes "/main") || equal p (codes "/w");
  has_planning = λ p. equal p (codes "/main");
  worktree_root = λ p. codes "/main";
  active = λ p. none;
}

abbrev parsed : Options
parsed = record {
  cwd = codes "/main";
  ws = some (codes "api");
  raw = true;
  pick = none;
  command = codes "state";
  args = codes "load" ∷ [];
}

line_parsed : parse_options place line none ≡ ok parsed
unfolding parse_options directory_of and_then take_option find_lead starts_with equal_value trim
    splice equal spaced present behind ws_allowed chosen_ws is_alnum later_options
line_parsed = refl

traversal_refused :
    parse_options place (codes "state" ∷ []) (some (codes "../x")) ≡ failed invalid_workstream
unfolding parse_options directory_of and_then take_option find_lead starts_with spaced equal
    ws_allowed chosen_ws trim is_alnum
traversal_refused = refl

pick_refused :
    parse_options place (codes "state" ∷ codes "--pick" ∷ codes "--raw" ∷ []) none
    ≡ failed (missing_value (codes "pick"))
unfolding parse_options directory_of and_then take_option find_lead starts_with spaced equal
    ws_allowed chosen_ws later_options splice present behind
pick_refused = refl

directory_refused :
    parse_options place (codes "--cwd=/x" ∷ codes "state" ∷ []) none
    ≡ failed (invalid_cwd (codes "/x"))
unfolding parse_options directory_of and_then take_option find_lead starts_with equal_value trim
    splice equal
directory_refused = refl

cwd_taken :
    take_option (codes "cwd") line
    ≡ ok (
      some (codes "/w"),
      codes "state" ∷ codes "--ws" ∷ codes "api" ∷ codes "--raw" ∷ codes "load" ∷ [],
    )
unfolding take_option find_lead starts_with equal_value trim splice equal
cwd_taken = refl

take_option-IsTaken_example :
    IsTaken
      (codes "cwd")
      (codes "/w")
      line
      (codes "state" ∷ codes "--ws" ∷ codes "api" ∷ codes "--raw" ∷ codes "load" ∷ [])
take_option-IsTaken_example =
    take_option-IsTaken (codes "cwd") (codes "/w") line
      (codes "state" ∷ codes "--ws" ∷ codes "api" ∷ codes "--raw" ∷ codes "load" ∷ []) cwd_taken

parse_options-IsPlain_example : IsPlain (codes "api")
parse_options-IsPlain_example =
    parse_options-IsPlain place line none parsed b'a' (codes "pi") line_parsed refl
