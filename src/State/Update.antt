-- ===== src/State/Update.antt =====
-- .opencode/get-shit-done/bin/lib/state.cjs: `cmdStateUpdate`, `cmdStatePatch` and `cmdStateGet`, with
-- the reading of the patches in .opencode/get-shit-done/bin/gsd-tools.cjs.
pub mod Chain
use mikmongo.Base.{true, false, Option, none, some, List, [], ◌∷◌, ◌++◌, if◌then◌else◌, is_empty}
use mikmongo.Text.{Text, codes, equal, starts_with, trim}
use mikmongo.Json.{Json}
use mikmongo.Security.{validate_field_name}
use mikmongo.Regex.{Regex, find, text_of, lit_ci, word, spaces, line, anything, ◌⨟◌}
use mikmongo.State.{state_replace_field}
use mikmongo.State.Command.{ℤ, Reply, object, texts, printed, failed}
use mikmongo.Base.{drop}

-- What `validateFieldName` says of a name that it refuses.
abbrev pub field_error : Text → Text
field_error [] = codes "Field name is required"
field_error (c ∷ s) = codes "Invalid field name: \"" ++ ((c ∷ s) ++ codes "\"")

pub record Patched : Type 0 where
  pub content : Text
  pub updated : List Text
  pub failed_fields : List Text

abbrev pub patched : Text → Patched → Option Text → Patched
patched field p none = record p { failed_fields = p.failed_fields ++ field ∷ [] }
patched field p (some content) = record {
  content = content;
  updated = p.updated ++ field ∷ [];
  failed_fields = p.failed_fields;
}

-- The loop over the entries of `patches`.
unfoldable pub patch_fields : List (Text × Text) → Patched → Patched
patch_fields [] p = p
patch_fields ((field, value) ∷ patches) p =
    patch_fields patches (patched field p (state_replace_field p.content field value))

-- The first name that is refused.
unfoldable pub refused_field : List (Text × Text) → Option Text
refused_field [] = none
refused_field ((field, value) ∷ patches) =
    let rest = refused_field patches in if validate_field_name field then rest else some field

abbrev patch_result : Patched → Json ℤ
patch_result p =
    object ((codes "updated", texts p.updated) ∷ (codes "failed", texts p.failed_fields) ∷ [])

abbrev report_patch : Patched → Reply
report_patch p =
    if is_empty p.updated
    then printed (patch_result p) (some (codes "false")) none
    else printed (patch_result p) (some (codes "true")) (some p.content)

abbrev pub unpatched : Text → Patched
unpatched content = record { content = content; updated = []; failed_fields = [] }

-- `cmdStatePatch(cwd, patches, raw)` on the content of STATE.md, `none` when it cannot be read.
unfoldable pub cmd_state_patch : Option Text → List (Text × Text) → Reply
unfolding refused_field patch_fields
cmd_state_patch file patches = elim (refused_field patches) [
  | some field ↦ failed (codes "state patch: " ++ field_error field)
  | none ↦ elim file [
    | none ↦ failed (codes "STATE.md not found")
    | some content ↦ report_patch (patch_fields patches (unpatched content))
  ]
]

abbrev without_dashes : Text → Text
without_dashes arg = if starts_with arg (codes "--") then drop 2 arg else arg

-- `patches[key] = value`: a name that is there keeps its place.
unfoldable pub set_patch : Text → Text → List (Text × Text) → List (Text × Text)
set_patch key value [] = (key, value) ∷ []
set_patch key value ((k, v) ∷ ps) =
    let rest = set_patch key value ps in if equal k key then (k, value) ∷ ps else (k, v) ∷ rest

-- The loop of the router over `args` from the third on; a name without a value is passed over.
unfoldable pub read_patches : List Text → List (Text × Text) → List (Text × Text)
unfolding set_patch
read_patches (arg ∷ value ∷ args) ps =
    let key = without_dashes arg in
    read_patches args (if is_empty key then ps else set_patch key value ps)
read_patches _ ps = ps

abbrev not_updated : Text → Reply
not_updated reason =
    printed (object ((codes "updated", Json.bool false) ∷ (codes "reason", Json.str reason) ∷ []))
      none none

abbrev was_updated : Text → Option Text → Reply
was_updated field none =
    not_updated (codes "Field \"" ++ (field ++ codes "\" not found in STATE.md"))
was_updated field (some content) =
    printed (object ((codes "updated", Json.bool true) ∷ [])) none (some content)

-- `cmdStateUpdate(cwd, field, value)`
unfoldable pub cmd_state_update : Option Text → Option Text → Option Text → Reply
cmd_state_update file (some (c ∷ name)) (some value) =
    let field = c ∷ name in
    if validate_field_name field
    then elim file [
      | none ↦ not_updated (codes "STATE.md not found")
      | some content ↦ was_updated field (state_replace_field content field value)
    ]
    else failed (codes "state update: " ++ field_error field)
cmd_state_update file field value = failed (codes "field and value required for state update")

-- The three patterns of `cmdStateGet`.
abbrev pub bold_value : Text → Regex
bold_value field = word "**" ⨟ lit_ci field ⨟ word ":**" ⨟ spaces ⨟ Regex.group 1 line

abbrev pub plain_value : Text → Regex
plain_value field = Regex.bol true ⨟ lit_ci field ⨟ word ":" ⨟ spaces ⨟ Regex.group 1 line

abbrev pub section_body : Text → Regex
section_body name =
    word "##"
    ⨟ spaces
    ⨟ lit_ci name
    ⨟ spaces
    ⨟ word "\n"
    ⨟ Regex.group 1 anything
    ⨟ Regex.look (Regex.alt (word "\n##") (Regex.eol false))

unfoldable pub first_group : List Regex → Text → Option Text
unfolding find text_of
first_group [] content = none
first_group (r ∷ rs) content =
    let later = first_group rs content in
    elim (find r content) [ none ↦ later | some m ↦ some (trim (text_of 1 m)) ]

abbrev got : Text → Option Text → Reply
got section none =
    printed
      (object (
        (codes "error", Json.str (codes "Section or field \"" ++ (section ++ codes "\" not found")))
        ∷ []))
      (some []) none
got section (some v) = printed (object ((section, Json.str v) ∷ [])) (some v) none

-- `cmdStateGet(cwd, section, raw)`
unfoldable pub cmd_state_get : Option Text → Option Text → Reply
unfolding first_group
cmd_state_get none section = failed (codes "STATE.md not found")
cmd_state_get (some content) (some (c ∷ name)) =
    let section = c ∷ name in
    got section
      (first_group (bold_value section ∷ plain_value section ∷ section_body section ∷ []) content)
cmd_state_get (some content) section =
    printed (object ((codes "content", Json.str content) ∷ [])) (some content) none
