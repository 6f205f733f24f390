-- ===== src/Phase/Add.antt =====
-- .opencode/get-shit-done/bin/lib/phase.cjs: `cmdPhaseAdd` and `cmdPhaseInsert`.
pub mod Fresh
use mikmongo.Base.{
  ℕ, ◌+◌, ◌-◌, Bool, true, false, not, ◌||◌, Option, none, some, List, [], ◌∷◌, ◌++◌, map, ltb,
  ◌==◌, if◌then◌else◌, is_empty,
}
use mikmongo.Text.{
  Text, codes, equal, starts_with, strip_start, to_upper, join_path, parse_int, is_letter, is_digit,
}
use mikmongo.Json.{Json}
use mikmongo.Regex.{
  Regex, Found, find, find_all, matches, text_of, word, word_ci, spaces, some_spaces, digits, maybe,
  newline, ◌⨟◌, lit_ci,
}
use mikmongo.Slug.{slug}
use mikmongo.PhaseNum.{normalize_phase_name}
use mikmongo.PhaseDir.{Dirent, directories, planning_rel}
use mikmongo.Milestone.{hashes, extract_current_milestone}
use mikmongo.State.Command.{ℤ, pos, object, show_nat, truthy, or_text, or_null}
use mikmongo.Phase.Decimals.{unescaped}
use mikmongo.Phase.Rename.{padded}

-- The last place where the pattern stands: what is before it, and what begins with it.
unfoldable pub last_split : Text → Text → Option (Text × Text)
unfolding starts_with
last_split p [] = none
last_split p (c ∷ s) =
    let later = last_split p s in
    elim later [
      | some (before, rest) ↦ some (c ∷ before, rest)
      | none ↦ if starts_with (c ∷ s) p then some ([], c ∷ s) else none
    ]

-- The entry before the last separator that is not at the begin, or at the end.
unfoldable pub put_entry : Text → Text → Text
unfolding last_split
put_entry entry content = elim (last_split (codes "\n---") content) [
  | none ↦ content ++ entry
  | some ([], rest) ↦ content ++ entry
  | some (c ∷ before, rest) ↦ (c ∷ before) ++ (entry ++ rest)
]

-- `/#{2,4}\s*Phase\s+(\d+)[A-Z]?(?:\.\d+)*:/gi`
abbrev pub numbered_phase : Regex
numbered_phase =
    hashes 2 2
    ⨟ spaces
    ⨟ word_ci "Phase"
    ⨟ some_spaces
    ⨟ Regex.group 1 digits
    ⨟ maybe (Regex.test is_letter)
    ⨟ Regex.many true (word "." ⨟ digits)
    ⨟ word ":"

abbrev pub greater : ℕ → ℕ → ℕ
greater a b = if ltb b a then a else b

-- The loop that looks for the greatest number.
unfoldable pub max_from : ℕ → List ℕ → ℕ
max_from best [] = best
max_from best (n ∷ ns) = max_from (greater n best) ns

unfoldable pub phase_numbers : Text → List ℕ
unfolding find_all text_of parse_int
phase_numbers content = map (λ m. parse_int (text_of 1 m)) (find_all numbered_phase content)

unfoldable pub max_phase_number : Text → ℕ
unfolding phase_numbers max_from
max_phase_number content = max_from 0 (phase_numbers content)

-- The new phase: a number, or a name of its own.
pub data PhaseId : Type 0 where
  number : ℕ → PhaseId
  custom : Text → PhaseId

abbrev id_text : PhaseId → Text
id_text (number n) = show_nat n
id_text (custom s) = s

abbrev padded_id : PhaseId → Text
padded_id (number n) = padded n
padded_id (custom s) = s

abbrev before_id : PhaseId → Text
before_id (number n) = show_nat (n - 1)
before_id (custom s) = codes "TBD"

abbrev id_json : PhaseId → Json ℤ
id_json (number n) = Json.num (pos n)
id_json (custom s) = Json.str s

abbrev is_custom : Option Text → Bool
is_custom none = false
is_custom (some naming) = equal naming (codes "custom")

abbrev depends_on : Option Text → PhaseId → Text
depends_on naming id =
    if is_custom naming then [] else codes "\n**Depends on:** Phase " ++ before_id id

unfoldable pub phase_entry : Option Text → PhaseId → Text → Text
unfolding show_nat
phase_entry naming id description =
    codes "\n### Phase "
    ++ (id_text id
        ++ (codes ": "
            ++ (description
                ++ (codes "\n\n**Goal:** [To be planned]\n**Requirements**: TBD"
                    ++ (depends_on naming id
                        ++ (codes "\n**Plans:** 0 plans\n\nPlans:\n- [ ] TBD (run /gsd:plan-phase "
                            ++ (id_text id ++ codes " to break down)\n")))))))

-- What the command leaves: the name of the new directory, ROADMAP.md, and its answer.
pub data Added : Type 0 where
  refused : Text → Added
  added : (dir_name : Text) → (roadmap : Text) → (result : Json ℤ) → (raw : Text) → Added

abbrev directory_of : Option Text → Text → Text
directory_of ws dir = join_path (join_path (planning_rel ws) (codes "phases")) dir

abbrev add_phase : Option Text → Option Text → PhaseId → Text → Text → Added
add_phase ws naming id description roadmap =
    let dir = padded_id id ++ (codes "-" ++ slug description) in
    added dir (put_entry (phase_entry naming id description) roadmap)
      (object (
        (codes "phase_number", id_json id)
        ∷ (codes "padded", Json.str (padded_id id))
        ∷ (codes "name", Json.str description)
        ∷ (codes "slug", Json.str (slug description))
        ∷ (codes "directory", Json.str (directory_of ws dir))
        ∷ (codes "naming_mode", or_null naming)
        ∷ []))
      (padded_id id)

abbrev custom_id_of : Option Text → Text → Text
custom_id_of given description = or_text given (map to_upper (slug description))

-- `cmdPhaseAdd(cwd, description, raw, customId)` on `config.phase_naming`, STATE.md and ROADMAP.md.
unfoldable pub cmd_phase_add :
    Option Text → Option Text → Option Text → Option Text → Text → Option Text → Added
unfolding put_entry phase_entry max_phase_number extract_current_milestone slug equal to_upper
cmd_phase_add ws naming state roadmap [] custom_id =
    refused (codes "description required for phase add")
cmd_phase_add ws naming state none (c ∷ description) custom_id =
    refused (codes "ROADMAP.md not found")
cmd_phase_add ws naming state (some roadmap) (c ∷ description) custom_id =
    let id = custom_id_of custom_id (c ∷ description) in
    if truthy custom_id || is_custom naming
    then if is_empty id
      then refused (codes "--id required when phase_naming is \"custom\"")
      else add_phase ws naming (custom id) (c ∷ description) roadmap
    else add_phase ws naming
        (number (max_phase_number (extract_current_milestone state roadmap) + 1)) (c ∷ description)
        roadmap

-- `#{2,4}\s*Phase\s+0*number:`, with the flag `i`.
abbrev pub target_heading : Text → Regex
target_heading n =
    hashes 2 2
    ⨟ spaces
    ⨟ word_ci "Phase"
    ⨟ some_spaces
    ⨟ Regex.many true (word "0")
    ⨟ lit_ci n
    ⨟ word ":"

-- The decimals of a base phase.
unfoldable pub decimal_numbers : Text → List Text → List ℕ
unfolding find text_of parse_int
decimal_numbers base [] = []
decimal_numbers base (dir ∷ dirs) =
    let rest = decimal_numbers base dirs in
    elim (find (Regex.bol false ⨟ unescaped base ⨟ word "." ⨟ Regex.group 1 digits) dir) [
      | none ↦ rest
      | some m ↦ parse_int (text_of 1 m) ∷ rest
    ]

-- `existing.length === 0 ? 1 : Math.max(...existing) + 1`
unfoldable pub next_number : List ℕ → ℕ
unfolding max_from
next_number [] = 1
next_number (n ∷ ns) = max_from n ns + 1

unfoldable pub inserted_entry : Text → Text → Text → Text
inserted_entry decimal after description =
    codes "\n### Phase "
    ++ (decimal
        ++ (codes ": "
            ++ (description
                ++ (codes
                      " (INSERTED)\n\n**Goal:** [Urgent work - to be planned]\n**Requirements**: TBD\n**Depends on:** Phase "
                    ++ (after
                        ++ (codes "\n**Plans:** 0 plans\n\nPlans:\n- [ ] TBD (run /gsd:plan-phase "
                            ++ (decimal ++ codes " to break down)\n")))))))

-- `/\n#{2,4}\s+Phase\s+\d/i`
abbrev pub next_heading : Regex
next_heading =
    newline ⨟ hashes 2 2 ⨟ some_spaces ⨟ word_ci "Phase" ⨟ some_spaces ⨟ Regex.test is_digit

-- The entry behind the section of a heading.
unfoldable pub put_after : Found → Text → Text
unfolding find
put_after header entry = elim (find next_heading header.after) [
  | none ↦ header.before ++ (header.matched ++ (header.after ++ entry))
  | some m ↦ header.before ++ (header.matched ++ (m.before ++ (entry ++ (m.matched ++ m.after))))
]

abbrev entries_of : Option (List Dirent) → List Text
entries_of none = []
entries_of (some es) = directories es

abbrev line_heading : Text → Regex
line_heading n =
    Regex.group 1
      (target_heading n ⨟ Regex.many true (Regex.test (λ c. not (c == b'\n'))) ⨟ newline)

abbrev insert_phase : Option Text → Option (List Dirent) → Text → Text → Found → Added
insert_phase ws phases after description header =
    let base = normalize_phase_name after in
    let decimal =
      base ++ (codes "." ++ show_nat (next_number (decimal_numbers base (entries_of phases)))) in
    let dir = decimal ++ (codes "-" ++ slug description) in
    added dir (put_after header (inserted_entry decimal after description))
      (object (
        (codes "phase_number", Json.str decimal)
        ∷ (codes "after_phase", Json.str after)
        ∷ (codes "name", Json.str description)
        ∷ (codes "slug", Json.str (slug description))
        ∷ (codes "directory", Json.str (directory_of ws dir))
        ∷ []))
      decimal

-- `cmdPhaseInsert(cwd, afterPhase, description, raw)` on the entries of `phases`, STATE.md and ROADMAP.md.
unfoldable pub cmd_phase_insert :
    Option Text → Option (List Dirent) → Option Text → Option Text → Text → Text → Added
unfolding put_after inserted_entry decimal_numbers next_number extract_current_milestone matches
    slug strip_start
cmd_phase_insert ws phases state roadmap [] description =
    refused (codes "after-phase and description required for phase insert")
cmd_phase_insert ws phases state roadmap (c ∷ after) [] =
    refused (codes "after-phase and description required for phase insert")
cmd_phase_insert ws phases state none (c ∷ after) (d ∷ description) =
    refused (codes "ROADMAP.md not found")
cmd_phase_insert ws phases state (some roadmap) (c ∷ after) (d ∷ description) =
    let bare = strip_start b'0' (normalize_phase_name (c ∷ after)) in
    if matches (target_heading bare) (extract_current_milestone state roadmap)
    then elim (find (line_heading bare) roadmap) [
      | none ↦ refused (codes "Could not find Phase " ++ ((c ∷ after) ++ codes " header"))
      | some header ↦ insert_phase ws phases (c ∷ after) (d ∷ description) header
    ]
    else refused (codes "Phase " ++ ((c ∷ after) ++ codes " not found in ROADMAP.md"))
