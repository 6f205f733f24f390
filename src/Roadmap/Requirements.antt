-- ===== src/Roadmap/Requirements.antt =====
-- .opencode/get-shit-done/bin/lib/milestone.cjs: `cmdRequirementsMarkComplete`.
pub mod Filed
use mikmongo.Base.{
  ℕ, Bool, true, false, not, ◌||◌, Option, none, some, List, [], ◌∷◌, ◌++◌, ◌==◌, if◌then◌else◌,
  length, is_empty,
}
use mikmongo.Text.{Text, codes, join}
use mikmongo.Json.{Json}
use mikmongo.Regex.{
  Regex, replace_all, matches, expand, lit_ci, word, word_ci, spaces, some_of, ◌⨟◌,
}
use mikmongo.Phase.Complete.{requirement_ids, requirement_checkbox}
use mikmongo.State.Command.{ℤ, pos, object, texts, string, show_nat}

-- `(\|\s*id\s*\|[^|]+\|)\s*Pending\s*(\|)`, with the flags `gi`.
abbrev pub pending_row : Text → Regex
pending_row id =
    Regex.group 1 (
      word "|"
      ⨟ spaces
      ⨟ lit_ci id
      ⨟ spaces
      ⨟ word "|"
      ⨟ some_of (Regex.test (λ u. not (u == b'|')))
      ⨟ word "|")
    ⨟ spaces
    ⨟ word_ci "Pending"
    ⨟ spaces
    ⨟ Regex.group 2 (word "|")

-- `-\s*\[x\]\s*\*\*id\*\*` and `\|\s*id\s*\|[^|]+\|\s*Complete\s*\|`, with the flags `gi`.
abbrev pub done_checkbox : Text → Regex
done_checkbox id = word "-" ⨟ spaces ⨟ word_ci "[x]" ⨟ spaces ⨟ word "**" ⨟ lit_ci id ⨟ word "**"

abbrev pub done_row : Text → Regex
done_row id =
    word "|"
    ⨟ spaces
    ⨟ lit_ci id
    ⨟ spaces
    ⨟ word "|"
    ⨟ some_of (Regex.test (λ u. not (u == b'|')))
    ⨟ word "|"
    ⨟ spaces
    ⨟ word_ci "Complete"
    ⨟ spaces
    ⨟ word "|"

pub record Marked : Type 0 where
  pub content : Text
  pub updated : List Text
  pub already_complete : List Text
  pub not_found : List Text

-- A replacement of all matches of a pattern, and whether there is one.
unfoldable pub mark : Regex → Text → Text → Text × Bool
unfolding matches replace_all expand
mark r template content =
    if matches r content
    then (replace_all r (expand 2 template) content, true)
    else (content, false)

-- Whether an identifier that has not been found is already complete.
abbrev unchanged : Text → Text → Bool → Marked → Marked
unchanged id content true s = record s {
  content = content;
  already_complete = s.already_complete ++ id ∷ [];
}
unchanged id content false s = record s { content = content; not_found = s.not_found ++ id ∷ [] }

abbrev filed : Text → Text → Bool → Marked → Marked
filed id content true s = record s { content = content; updated = s.updated ++ id ∷ [] }
filed id content false s =
    unchanged id content (matches (done_checkbox id) content || matches (done_row id) content) s

unfoldable pub mark_one : Text → Marked → Marked
unfolding mark matches
mark_one id s =
    let (content1, checked) = mark (requirement_checkbox id) (codes "$1x$2") s.content in
    let (content2, rowed) = mark (pending_row id) (codes "$1 Complete $2") content1 in
    filed id content2 (checked || rowed) s

-- The loop over the identifiers.
unfoldable pub mark_all : List Text → Marked → Marked
unfolding mark_one
mark_all [] s = s
mark_all (id ∷ ids) s = mark_all ids (mark_one id s)

-- `error(message)`, or the answer with what is written to REQUIREMENTS.md.
pub data MarkReply : Type 0 where
  failed : Text → MarkReply
  printed : (result : Json ℤ) → (raw_value : Text) → (written : Option Text) → MarkReply

abbrev report : ℕ → Marked → MarkReply
report total s =
    let some_updated = not (is_empty s.updated) in
    printed
      (object (
        (codes "updated", Json.bool some_updated)
        ∷ (codes "marked_complete", texts s.updated)
        ∷ (codes "already_complete", texts s.already_complete)
        ∷ (codes "not_found", texts s.not_found)
        ∷ (codes "total", Json.num (pos total))
        ∷ []))
      (show_nat (length s.updated)
        ++ (codes "/" ++ (show_nat total ++ codes " requirements marked complete")))
      (if some_updated then some s.content else none)

abbrev pub unmarked : Text → Marked
unmarked content = record { content = content; updated = []; already_complete = []; not_found = [] }

abbrev mark_ids : List Text → Option Text → MarkReply
mark_ids [] file = failed (codes "no valid requirement IDs found")
mark_ids (id ∷ ids) none =
    printed
      (object (
        (codes "updated", Json.bool false)
        ∷ (codes "reason", string "REQUIREMENTS.md not found")
        ∷ (codes "ids", texts (id ∷ ids))
        ∷ []))
      (codes "no requirements file") none
mark_ids (id ∷ ids) (some content) =
    report (length (id ∷ ids)) (mark_all (id ∷ ids) (unmarked content))

-- `cmdRequirementsMarkComplete(cwd, reqIdsRaw, raw)` on REQUIREMENTS.md.
unfoldable pub cmd_requirements_mark_complete : List Text → Option Text → MarkReply
unfolding requirement_ids join mark_all
cmd_requirements_mark_complete [] file = failed (
    codes
      "requirement IDs required. Usage: requirements mark-complete REQ-01,REQ-02 or REQ-01 REQ-02")
cmd_requirements_mark_complete (arg ∷ args) file =
    mark_ids (requirement_ids (join (codes " ") (arg ∷ args))) file
