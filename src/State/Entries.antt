-- ===== src/State/Entries.antt =====
-- .opencode/get-shit-done/bin/lib/state.cjs: `readTextArgOrFile`, `cmdStateAddDecision`,
-- `cmdStateAddBlocker` and `cmdStateResolveBlocker`.
pub mod Edits
pub mod Heading
pub mod Lines
use mikmongo.Base.{
  Bool, true, false, not, ◌||◌, Option, none, some, [], ◌∷◌, ◌++◌, map, ◌==◌, if◌then◌else◌,
  is_empty, keep,
}
use mikmongo.Text.{Text, codes, starts_with, includes, trim, trim_end, to_lower, split, join}
use mikmongo.Json.{Json}
use mikmongo.Regex.{
  Regex, find, replace, replace_all, text_of, word, word_ci, spaces, line, anything, maybe, newline,
  ◌⨟◌,
}
use mikmongo.Security.Paths.{
  Segs, Validated, PathError, validate_path, render, resolve, real_target, real_base, safe, unsafe,
}
use mikmongo.State.Command.{Reply, object, printed, or_text, no_state, ℤ}

-- The messages of `validatePath`, for the target and the base that it resolved.
abbrev pub path_message : Segs → Segs → PathError → Text
path_message target base PathError.empty_path = codes "Empty or invalid file path"
path_message target base PathError.empty_base = codes "Empty or invalid base directory"
path_message target base PathError.null_bytes = codes "Path contains null bytes"
path_message target base PathError.absolute = codes "Absolute paths not allowed"
path_message target base PathError.escapes =
    codes "Path escapes allowed directory: "
    ++ (render target ++ (codes " is outside " ++ render base))

-- `(?=\n###?|\n##[^#]|$)`
abbrev pub section_end : Regex
section_end = Regex.look (
    Regex.alt (word "\n##" ⨟ maybe (word "#"))
      (Regex.alt (word "\n##" ⨟ Regex.test (λ c. not (c == b'#'))) (Regex.eol false)))

-- `(###?\s*(?:…)\s*\n)([\s\S]*?)` before such an end.
abbrev pub section_pattern : Regex → Regex
section_pattern name =
    Regex.group 1 (word "##" ⨟ maybe (word "#") ⨟ spaces ⨟ name ⨟ spaces ⨟ newline)
    ⨟ Regex.group 2 anything
    ⨟ section_end

abbrev pub decisions_name : Regex
decisions_name =
    Regex.alt (word_ci "Decisions")
      (Regex.alt (word_ci "Decisions Made") (word_ci "Accumulated" ⨟ line ⨟ word_ci "Decisions"))

abbrev pub decisions_pattern : Regex
decisions_pattern = section_pattern decisions_name

abbrev pub blockers_name : Regex
blockers_name =
    Regex.alt (word_ci "Blockers") (Regex.alt (word_ci "Blockers/Concerns") (word_ci "Concerns"))

abbrev pub blockers_pattern : Regex
blockers_pattern = section_pattern blockers_name

-- `content.replace(pattern, (_match, header) => …)` on a section with a new body.
unfoldable pub set_section : Regex → Text → Text → Text
unfolding replace text_of
set_section pattern body content = replace pattern (λ m. text_of 1 m ++ body) content

-- `…\.?\s*\n?` behind a placeholder.
abbrev pub placeholder : Regex → Regex
placeholder words = words ⨟ maybe (word ".") ⨟ spaces ⨟ maybe newline

unfoldable pub drop_all : Regex → Text → Text
unfolding replace_all
drop_all r s = replace_all r (λ m. []) s

-- `body.trimEnd() + '\n' + entry + '\n'`
abbrev pub append_entry : Text → Text → Text
append_entry body entry = trim_end body ++ (codes "\n" ++ (entry ++ codes "\n"))

unfoldable pub decisions_body : Text → Text → Text
unfolding drop_all
decisions_body body entry =
    append_entry
      (drop_all (placeholder (word_ci "No decisions yet"))
        (drop_all (placeholder (word_ci "None yet")) body))
      entry

unfoldable pub blockers_body : Text → Text → Text
unfolding drop_all
blockers_body body entry =
    append_entry
      (drop_all (placeholder (word_ci "None yet")) (drop_all (placeholder (word_ci "None")) body))
      entry

-- The text of an option, or why it cannot be read.
pub data Read : Type 0 where
  given : Option Text → Read
  throws : Text → Read

abbrev sorry_reply : Text → Text → Reply
sorry_reply key reason =
    printed (object ((key, Json.bool false) ∷ (codes "reason", Json.str reason) ∷ []))
      (some (codes "false")) none

abbrev required : Text → Reply
required message = printed (object ((codes "error", Json.str message) ∷ [])) none none

-- A section changed by `change`, or the answer when there is none.
abbrev pub in_section : Regex → Text → (Text → Text) → Text → Text → Text → Json ℤ → Reply
in_section pattern content change key done_key reason value = elim (find pattern content) [
  | none ↦ sorry_reply key reason
  | some m ↦
      printed (object ((key, Json.bool true) ∷ (done_key, value) ∷ [])) (some (codes "true"))
        (some (set_section pattern (change (text_of 2 m)) content))
]

abbrev phase_entry : Option Text → Text → Text → Text
phase_entry phase summary rationale =
    let reason = if is_empty rationale then [] else codes " — " ++ rationale in
    codes "- [Phase " ++ (or_text phase (codes "?") ++ (codes "]: " ++ (summary ++ reason)))

unfoldable pub add_decision : Text → Option Text → Text → Text → Reply
unfolding set_section find text_of decisions_body
add_decision content phase summary rationale =
    let entry = phase_entry phase summary rationale in
    in_section decisions_pattern content (λ body. decisions_body body entry) (codes "added")
      (codes "decision") (codes "Decisions section not found in STATE.md") (Json.str entry)

unfoldable pub add_blocker : Text → Text → Reply
unfolding set_section find text_of blockers_body
add_blocker content text =
    in_section blockers_pattern content (λ body. blockers_body body (codes "- " ++ text))
      (codes "added") (codes "blocker") (codes "Blockers section not found in STATE.md")
      (Json.str text)

-- The filter of the lines of the section.
unfoldable pub stays : Text → Text → Bool
stays text l =
    if starts_with l (codes "- ") then not (includes (map to_lower l) (map to_lower text)) else true

unfoldable pub resolved_body : Text → Text → Text
unfolding stays split join trim includes
resolved_body text body =
    let kept = join (codes "\n") (keep (stays text) (split b'\n' body)) in
    if is_empty (trim kept) || not (includes kept (codes "- ")) then codes "None\n" else kept

-- `cmdStateResolveBlocker(cwd, text, raw)`
unfoldable pub cmd_state_resolve_blocker : Option Text → Option Text → Reply
unfolding set_section find text_of resolved_body
cmd_state_resolve_blocker none text = no_state
cmd_state_resolve_blocker (some content) (some (c ∷ text)) =
    in_section blockers_pattern content (resolved_body (c ∷ text)) (codes "resolved")
      (codes "blocker") (codes "Blockers section not found in STATE.md") (Json.str (c ∷ text))
cmd_state_resolve_blocker (some content) text = required (codes "text required")

module _ (realpath : Segs → Option Segs) (read_file : Segs → Option Text) (cwd : Segs)
    (cwd_text : Text) where
  abbrev read_resolved : Text → Text → Validated → Read
  read_resolved path label (unsafe e) =
      let base = resolve cwd cwd_text in
      let message =
        path_message (real_target realpath (resolve base path)) (real_base realpath base) e in
      throws (label ++ (codes " path rejected: " ++ message))
  read_resolved path label (safe p) = elim (read_file p) [
    | none ↦ throws (label ++ (codes " file not found: " ++ path))
    | some t ↦ given (some (trim_end t))
  ]

  -- `readTextArgOrFile(cwd, value, filePath, label)`
  unfoldable pub read_text_arg_or_file : Option Text → Option Text → Text → Read
  unfolding validate_path
  read_text_arg_or_file value (some (c ∷ path)) label =
      read_resolved (c ∷ path) label (validate_path realpath cwd (c ∷ path) cwd_text true)
  read_text_arg_or_file value path label = given value

  pub record Decision : Type 0 where
    pub phase : Option Text
    pub summary : Option Text
    pub summary_file : Option Text
    pub rationale : Option Text
    pub rationale_file : Option Text

  -- `cmdStateAddDecision(cwd, options, raw)`
  unfoldable pub cmd_state_add_decision : Option Text → Decision → Reply
  unfolding read_text_arg_or_file add_decision
  cmd_state_add_decision none o = no_state
  cmd_state_add_decision (some content) o =
      elim (read_text_arg_or_file o.summary o.summary_file (codes "summary")) [
        | throws e ↦ sorry_reply (codes "added") e
        | given summary ↦
            elim (read_text_arg_or_file (some (or_text o.rationale [])) o.rationale_file
              (codes "rationale")) [
                | throws e ↦ sorry_reply (codes "added") e
                | given rationale ↦
                    if is_empty (or_text summary [])
                    then required (codes "summary required")
                    else add_decision content o.phase (or_text summary []) (or_text rationale [])
              ]
      ]

  -- `cmdStateAddBlocker(cwd, text, raw)` on the two options.
  unfoldable pub cmd_state_add_blocker : Option Text → Option Text → Option Text → Reply
  unfolding read_text_arg_or_file add_blocker
  cmd_state_add_blocker none value file = no_state
  cmd_state_add_blocker (some content) value file =
      elim (read_text_arg_or_file value file (codes "blocker")) [
        | throws e ↦ sorry_reply (codes "added") e
        | given t ↦
            if is_empty (or_text t [])
            then required (codes "text required")
            else add_blocker content (or_text t [])
      ]
