-- ===== src/Uat/Current.antt =====
-- .opencode/get-shit-done/bin/lib/uat.cjs: `parseCurrentTest`, `buildCheckpoint` and
-- `cmdRenderCheckpoint`.
use mikmongo.Base.{
  ℕ, true, false, ◌||◌, Option, none, some, [], ◌∷◌, ◌++◌, map, ◌==◌, if◌then◌else◌, replicate,
  is_empty,
}
use mikmongo.Text.{Text, codes, equal, split, join, trim, trim_end, parse_int, is_space}
use mikmongo.Json.{Json}
use mikmongo.Regex.{
  Regex, Found, find, replace, matches, text_of, word, word_ci, spaces, some_line, digits, some_of,
  maybe, newline, anything, is_word, ◌⨟◌,
}
use mikmongo.Security.Paths.{
  Segs, validate_path, render, resolve, real_target, real_base, safe, unsafe, PathError,
}
use mikmongo.Security.Injection.Sanitize.{sanitize_for_display}
use mikmongo.State.Command.{ℤ, pos, object, show_nat}
use mikmongo.State.Entries.{path_message}

pub data CurrentTest : Type 0 where
  failed : Text → CurrentTest
  complete : CurrentTest
  waiting : (number : ℕ) → (name : Text) → (expected : Text) → CurrentTest

-- `/##\s*Current Test\s*(?:\n<!--[\s\S]*?-->)?\n([\s\S]*?)(?=\n##\s|$)/i`
abbrev pub current_section : Regex
current_section =
    word "##"
    ⨟ spaces
    ⨟ word_ci "Current Test"
    ⨟ spaces
    ⨟ maybe (word "\n<!--" ⨟ anything ⨟ word "-->")
    ⨟ newline
    ⨟ Regex.group 1 anything
    ⨟ Regex.look (Regex.alt (word "\n##" ⨟ Regex.test is_space) (Regex.eol false))

-- `/^number:\s*(\d+)\s*$/m`, and the same for a name and another value.
abbrev pub entry : Regex → Regex → Regex
entry name value =
    Regex.bol true ⨟ name ⨟ word ":" ⨟ spaces ⨟ Regex.group 1 value ⨟ spaces ⨟ Regex.eol true

abbrev block_start : Regex
block_start = Regex.bol true ⨟ word "expected:" ⨟ spaces ⨟ word "|\n"

-- `/^expected:\s*\|\n([\s\S]*?)(?=^\w[\w-]*:\s)/m`
abbrev pub closed_block : Regex
closed_block =
    block_start
    ⨟ Regex.group 1 anything
    ⨟ Regex.look (
        Regex.bol true
        ⨟ Regex.test is_word
        ⨟ Regex.many true (Regex.test (λ c. is_word c || c == b'-'))
        ⨟ word ":"
        ⨟ Regex.test is_space)

-- `/^expected:\s*\|\n([\s\S]+)/m`
abbrev pub open_block : Regex
open_block = block_start ⨟ Regex.group 1 (some_of (Regex.test (λ c. true)))

-- `line.replace(/^ {2}/, '')`
abbrev pub outdent : Text → Text
outdent l = replace (Regex.bol false ⨟ word "  ") (λ m. []) l

abbrev pub block_text : Found → Text
block_text m = trim (join (codes "\n") (map outdent (split b'\n' (text_of 1 m))))

abbrev inline_text : Text → Option Text
inline_text section = elim (find (entry (word "expected") some_line) section) [
  | none ↦ none
  | some m ↦ some (trim (text_of 1 m))
]

-- What the test expects: a block, or the rest of the line.
unfoldable pub expected_text : Text → Option Text
unfolding find replace text_of trim join split
expected_text section = elim (find closed_block section) [
  | some m ↦ some (block_text m)
  | none ↦ elim (find open_block section) [
    | some m ↦ some (block_text m)
    | none ↦ inline_text section
  ]
]

abbrev malformed : CurrentTest
malformed = failed (codes "Current Test section is malformed")

unfoldable pub read_test : Text → CurrentTest
unfolding find text_of trim parse_int expected_text sanitize_for_display
read_test section = elim (find (entry (word "number") digits) section) [
  | none ↦ malformed
  | some n ↦ elim (find (entry (word "name") some_line) section) [
    | none ↦ malformed
    | some m ↦ elim (expected_text section) [
      | none ↦ malformed
      | some expected ↦
          waiting (parse_int (text_of 1 n)) (sanitize_for_display (trim (text_of 1 m)))
            (sanitize_for_display expected)
    ]
  ]
]

unfoldable pub read_section : Text → CurrentTest
unfolding read_test matches trim
read_section section =
    if is_empty (trim section)
    then failed (codes "Current Test section is empty")
    else if matches (word_ci "[testing complete]") section
    then complete
    else read_test section

-- `parseCurrentTest(content)`
unfoldable pub parse_current_test : Text → CurrentTest
unfolding read_section find text_of trim_end
parse_current_test content = elim (find current_section content) [
  | none ↦ failed (codes "UAT file is missing a Current Test section")
  | some m ↦ read_section (trim_end (text_of 1 m))
]

-- `buildCheckpoint(currentTest)`
unfoldable pub build_checkpoint : ℕ → Text → Text → Text
unfolding join show_nat
build_checkpoint number name expected = join (codes "\n") (
    (codes "╔" ++ (replicate 62 0x2550 ++ codes "╗"))
    ∷ codes "║  CHECKPOINT: Verification Required                           ║"
    ∷ (codes "╚" ++ (replicate 62 0x2550 ++ codes "╝"))
    ∷ []
    ∷ (codes "**Test " ++ (show_nat number ++ (codes ": " ++ (name ++ codes "**"))))
    ∷ []
    ∷ expected
    ∷ []
    ∷ replicate 62 0x2500
    ∷ codes "Type `pass` or describe what's wrong."
    ∷ replicate 62 0x2500
    ∷ [])

-- `error(message)`, an exception, or `output(result, raw, checkpoint)`.
pub data Rendered : Type 0 where
  refused : Text → Rendered
  thrown : Text → Rendered
  rendered : (result : Json ℤ) → (checkpoint : Text) → Rendered

abbrev show_checkpoint : Text → CurrentTest → Rendered
show_checkpoint path (failed message) = refused message
show_checkpoint path complete =
    refused (codes "UAT session is already complete; no pending checkpoint to render")
show_checkpoint path (waiting number name expected) =
    let checkpoint = build_checkpoint number name expected in
    rendered
      (object (
        (codes "file_path", Json.str path)
        ∷ (codes "test_number", Json.num (pos number))
        ∷ (codes "test_name", Json.str name)
        ∷ (codes "checkpoint", Json.str checkpoint)
        ∷ []))
      checkpoint

-- The steps of `path.relative(from, to)`: up to the common directory, then down.
unfoldable pub relative_steps : Segs → Segs → Segs
unfolding equal
relative_steps [] to = to
relative_steps (f ∷ from) [] = map (λ s. codes "..") (f ∷ from)
relative_steps (f ∷ from) (t ∷ to) =
    let deeper = relative_steps from to in
    if equal f t then deeper else map (λ s. codes "..") (f ∷ from) ++ t ∷ to

abbrev message_of : Segs → Segs → PathError → Text
message_of target base reason =
    codes "UAT file validation failed: " ++ path_message target base reason

-- `fs.existsSync` and `fs.readFileSync` are `read`: `none` stands for a file that is not there.
module _ (realpath : Segs → Option Segs) (read : Segs → Option Text) where
  abbrev render_file : Segs → Text → Segs → Rendered
  render_file cwd file at = elim (read at) [
    | none ↦ refused (codes "UAT file not found: " ++ file)
    | some content ↦
        show_checkpoint (join (codes "/") (relative_steps cwd at)) (parse_current_test content)
  ]

  -- `cmdRenderCheckpoint(cwd, { file }, raw)`
  unfoldable pub cmd_render_checkpoint : Segs → Option Text → Rendered
  unfolding validate_path render relative_steps parse_current_test build_checkpoint join
  cmd_render_checkpoint cwd none =
      refused (codes "UAT file required: use uat render-checkpoint --file <path>")
  cmd_render_checkpoint cwd (some []) =
      refused (codes "UAT file required: use uat render-checkpoint --file <path>")
  cmd_render_checkpoint cwd (some (c ∷ file)) =
      elim (validate_path realpath cwd (c ∷ file) (render cwd) true) [
        | safe at ↦ render_file cwd (c ∷ file) at
        | unsafe reason ↦ thrown (
            message_of (real_target realpath (resolve cwd (c ∷ file))) (real_base realpath cwd)
              reason)
      ]
