-- ===== src/Uat.antt =====
-- .opencode/get-shit-done/bin/lib/uat.cjs: the items of `parseUatItems` and `parseVerificationItems`.
pub mod Current
mod Tests
use mikmongo.Base.{
  ℕ, ◌+◌, ◌-◌, ◌*◌, Bool, true, false, not, ◌||◌, Option, none, some, List, [], ◌∷◌, ◌++◌, map, ltb,
  ◌==◌, if◌then◌else◌, length, is_empty, any, keep,
}
use mikmongo.Text.{Text, codes, equal, split, trim, parse_int, is_space}
use mikmongo.Regex.{
  Regex, Found, find, find_all, matches, text_of, word, word_ci, spaces, some_spaces, some_line,
  dot, digits, no_newline, some_of, maybe, newline, anything, is_word, ◌⨟◌,
}
use mikmongo.Security.Injection.{any_word}

abbrev pub truthy_text : Option Text → Text
truthy_text none = []
truthy_text (some t) = t

abbrev pub mentions : Text → List Text → Bool
mentions text words = matches (any_word words) text

-- The category of an item that waits for something; `[]` stands for no text.
unfoldable pub blocked_category : Text → Text
unfolding matches
blocked_category [] = codes "blocked"
blocked_category (c ∷ by) =
    if mentions (c ∷ by) (codes "server" ∷ [])
    then codes "server_blocked"
    else if mentions (c ∷ by) (codes "device" ∷ codes "physical" ∷ [])
    then codes "device_needed"
    else if mentions (c ∷ by) (codes "build" ∷ codes "release" ∷ codes "preview" ∷ [])
    then codes "build_needed"
    else if matches
        (Regex.alt (word_ci "third" ⨟ dot ⨟ word_ci "party")
          (any_word (codes "twilio" ∷ codes "stripe" ∷ [])))
        (c ∷ by)
    then codes "third_party"
    else codes "blocked"

unfoldable pub skipped_category : Text → Text
unfolding matches
skipped_category [] = codes "skipped_unresolved"
skipped_category (c ∷ reason) =
    if mentions (c ∷ reason) (codes "server" ∷ codes "not running" ∷ codes "not available" ∷ [])
    then codes "server_blocked"
    else if mentions (c ∷ reason) (codes "simulator" ∷ codes "physical" ∷ codes "device" ∷ [])
    then codes "device_needed"
    else if mentions (c ∷ reason) (codes "build" ∷ codes "release" ∷ codes "preview" ∷ [])
    then codes "build_needed"
    else codes "skipped_unresolved"

-- `categorizeItem(result, reason, blockedBy)`
unfoldable pub categorize_item : Text → Option Text → Option Text → Text
unfolding equal blocked_category skipped_category
categorize_item result reason blocked_by =
    let by = truthy_text blocked_by in
    if equal result (codes "blocked") || not (is_empty by)
    then blocked_category by
    else if equal result (codes "skipped")
    then skipped_category (truthy_text reason)
    else if equal result (codes "pending")
    then codes "pending"
    else if equal result (codes "human_needed")
    then codes "human_uat"
    else codes "unknown"

-- An item, with `none` for a property that it has not.
pub record Item : Type 0 where
  pub test : Option ℕ
  pub name : Text
  pub expected : Option Text
  pub result : Text
  pub category : Text
  pub reason : Option Text
  pub blocked_by : Option Text

-- `/###\s*(\d+)\.\s*([^\n]+)\nexpected:\s*([^\n]+)\nresult:\s*(\w+)(?:\n(?:…):\s*[^\n]*)?/g`
abbrev pub test_pattern : Regex
test_pattern =
    word "###"
    ⨟ spaces
    ⨟ Regex.group 1 digits
    ⨟ word "."
    ⨟ spaces
    ⨟ Regex.group 2 no_newline
    ⨟ word "\nexpected:"
    ⨟ spaces
    ⨟ Regex.group 3 no_newline
    ⨟ word "\nresult:"
    ⨟ spaces
    ⨟ Regex.group 4 (some_of (Regex.test is_word))
    ⨟ maybe (
        newline
        ⨟ Regex.alt (word "reported") (Regex.alt (word "reason") (word "blocked_by"))
        ⨟ word ":"
        ⨟ spaces
        ⨟ Regex.many true (Regex.test (λ c. not (c == b'\n'))))

abbrev pub waits : Text → Bool
waits result = any (equal result) (codes "pending" ∷ codes "skipped" ∷ codes "blocked" ∷ [])

-- The text of a block, up to the next heading.
abbrev pub block_of : Text → Text
block_of s = elim (find (word "\n###") s) [ none ↦ s | some m ↦ m.before ]

-- `blockText.match(/name:\s*(.+)/)`, and its group.
abbrev pub named_line : Regex → Text → Option Text
named_line name block = elim (find (name ⨟ word ":" ⨟ spaces ⨟ Regex.group 1 some_line) block) [
  | none ↦ none
  | some m ↦ some (text_of 1 m)
]

abbrev trimmed : Option Text → Option Text
trimmed none = none
trimmed (some t) = some (trim t)

unfoldable pub uat_item : Found → Item
unfolding find text_of trim parse_int categorize_item
uat_item m =
    let block = block_of (m.matched ++ m.after) in
    let reason = named_line (word "reason") block in
    let blocked_by = named_line (word "blocked_by") block in
    record {
      test = some (parse_int (text_of 1 m));
      name = trim (text_of 2 m);
      expected = some (trim (text_of 3 m));
      result = text_of 4 m;
      category = categorize_item (text_of 4 m) reason blocked_by;
      reason = trimmed reason;
      blocked_by = trimmed blocked_by;
    }

-- `parseUatItems(content)`
unfoldable pub parse_uat_items : Text → List Item
unfolding uat_item find_all text_of equal
parse_uat_items content =
    map uat_item (keep (λ m. waits (text_of 4 m)) (find_all test_pattern content))

abbrev human_item : Option ℕ → Text → Item
human_item test name = record {
  test = test;
  name = name;
  expected = none;
  result = codes "human_needed";
  category = codes "human_uat";
  reason = none;
  blocked_by = none;
}

-- `/##\s*Human Verification.*?\n([\s\S]*?)(?=\n##\s|\n---\s|$)/i`
abbrev pub human_section : Regex
human_section =
    word "##"
    ⨟ spaces
    ⨟ word_ci "Human Verification"
    ⨟ Regex.many false dot
    ⨟ newline
    ⨟ Regex.group 1 anything
    ⨟ Regex.look (
        Regex.alt (word "\n##" ⨟ Regex.test is_space)
          (Regex.alt (word "\n---" ⨟ Regex.test is_space) (Regex.eol false)))

-- `/\|\s*(\d+)\s*\|\s*([^|]+)/`, `/^[-*]\s+(.+)/` and `/^(\d+)\.\s+(.+)/`.
abbrev pub table_item : Regex
table_item =
    word "|"
    ⨟ spaces
    ⨟ Regex.group 1 digits
    ⨟ spaces
    ⨟ word "|"
    ⨟ spaces
    ⨟ Regex.group 2 (some_of (Regex.test (λ c. not (c == b'|'))))

abbrev pub bullet_item : Regex
bullet_item =
    Regex.bol false
    ⨟ Regex.test (λ c. c == b'-' || c == b'*')
    ⨟ some_spaces
    ⨟ Regex.group 1 some_line

abbrev pub numbered_item : Regex
numbered_item =
    Regex.bol false ⨟ Regex.group 1 digits ⨟ word "." ⨟ some_spaces ⨟ Regex.group 2 some_line

abbrev bullet : Found → List Item
bullet m = if ltb 10 (length (text_of 1 m)) then human_item none (trim (text_of 1 m)) ∷ [] else []

abbrev numbered : Found → Item
numbered m = human_item (some (parse_int (text_of 1 m))) (trim (text_of 2 m))

unfoldable pub items_of_line : Text → List Item
unfolding find text_of trim parse_int
items_of_line l = elim (find table_item l) [
  | some m ↦ numbered m ∷ []
  | none ↦ elim (find numbered_item l) [
    | some m ↦ numbered m ∷ []
    | none ↦ elim (find bullet_item l) [ some m ↦ bullet m | none ↦ [] ]
  ]
]

unfoldable pub items_of_lines : List Text → List Item
unfolding items_of_line
items_of_lines [] = []
items_of_lines (l ∷ ls) = items_of_line l ++ items_of_lines ls

-- `parseVerificationItems(content, status)`
unfoldable pub parse_verification_items : Text → Text → List Item
unfolding items_of_lines find text_of equal split
parse_verification_items content status =
    if equal status (codes "human_needed")
    then elim (find human_section content) [
      | none ↦ []
      | some m ↦ items_of_lines (split b'\n' (text_of 1 m))
    ]
    else []
