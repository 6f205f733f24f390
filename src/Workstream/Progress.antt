-- ===== src/Workstream/Progress.antt =====
-- .opencode/get-shit-done/bin/lib/workstream.cjs: `cmdWorkstreamProgress` and
-- `getOtherActiveWorkstreams`.
pub mod Others
use mikmongo.Base.{
  ℕ, zero, suc, Bool, true, ◌||◌, Option, none, some, List, [], ◌∷◌, ◌++◌, map, ltb, if◌then◌else◌,
  length,
}
use mikmongo.Text.{Text, codes, equal, includes, to_lower, is_digit}
use mikmongo.Json.{Json}
use mikmongo.Regex.{Regex, find_all, word, some_spaces, maybe, ◌⨟◌}
use mikmongo.State.Command.{ℤ, pos, object, items, string, or_null, show_nat}
use mikmongo.Workstream.{Dir, Entry, plain, stream, Planning}
use mikmongo.Workstream.Complete.{entries, active_of, is_named}
use mikmongo.Workstream.Reports.{
  phase_counts, completed_count, total_plans, completed_plans, read_file, status_of,
  current_phase_of, rows, flat_mode,
}

-- `/^###?\s+Phase\s+\d/gm`
abbrev phase_heading : Regex
phase_heading =
    Regex.bol true
    ⨟ word "##"
    ⨟ maybe (word "#")
    ⨟ some_spaces
    ⨟ word "Phase"
    ⨟ some_spaces
    ⨟ Regex.test is_digit

abbrev heading_count : ℕ → Option Text → ℕ
heading_count directories none = directories
heading_count directories (some content) = elim (length (find_all phase_heading content)) [
  | zero ↦ directories
  | suc n ↦ suc n
]

-- The phases of the roadmap, or the directories when the roadmap has none.
unfoldable pub roadmap_phase_count : Dir → ℕ
unfolding phase_counts find_all
roadmap_phase_count dir = heading_count (length (phase_counts dir)) (read_file "ROADMAP.md" dir)

-- `round_percent` is the rounded percentage, which depends on the arithmetic of the runtime.
unfoldable pub progress_percent : (ℕ → ℕ → ℕ) → ℕ → ℕ → ℕ
progress_percent round_percent completed phases =
    if ltb 0 phases then round_percent completed phases else 0

abbrev out_of : ℕ → ℕ → Json ℤ
out_of a b = Json.str (show_nat a ++ (codes "/" ++ show_nat b))

abbrev progress_row : (ℕ → ℕ → ℕ) → Option Text → Text → Dir → Json ℤ
progress_row round_percent active name dir =
    let cs = phase_counts dir in
    let phases = roadmap_phase_count dir in
    object (
      (codes "name", Json.str name)
      ∷ (codes "active", Json.bool (is_named name active))
      ∷ (codes "status", Json.str (status_of dir))
      ∷ (codes "current_phase", or_null (current_phase_of dir))
      ∷ (codes "phases", out_of (completed_count cs) phases)
      ∷ (codes "plans", out_of (completed_plans cs) (total_plans cs))
      ∷ (
        codes "progress_percent",
        Json.num (pos (progress_percent round_percent (completed_count cs) phases)),
      )
      ∷ [])

abbrev progress_reply : Option Text → List (Json ℤ) → Json ℤ
progress_reply active found = object (
    (codes "mode", string "workstream")
    ∷ (codes "active", or_null active)
    ∷ (codes "workstreams", Json.arr (items found))
    ∷ (codes "count", Json.num (pos (length found)))
    ∷ [])

-- `cmdWorkstreamProgress(cwd, raw)`
unfoldable pub cmd_workstream_progress : (ℕ → ℕ → ℕ) → Planning → Json ℤ
unfolding active_of rows
cmd_workstream_progress round_percent p = elim p.streams [
  | none ↦ flat_mode
  | some es ↦ progress_reply (active_of p) (rows (progress_row round_percent (active_of p)) es)
]

-- A workstream that `getOtherActiveWorkstreams` returns; the two numbers are those of the text
-- `phases`.
pub record Other : Type 0 where
  pub name : Text
  pub status : Text
  pub current_phase : Option Text
  pub completed : ℕ
  pub phases : ℕ

unfoldable pub is_ended : Text → Bool
unfolding includes
is_ended status =
    includes (map to_lower status) (codes "milestone complete")
    || includes (map to_lower status) (codes "archived")

unfoldable pub other_of : Text → Dir → Other
unfolding status_of current_phase_of phase_counts completed_count
other_of name dir = record {
  name = name;
  status = status_of dir;
  current_phase = current_phase_of dir;
  completed = completed_count (phase_counts dir);
  phases = length (phase_counts dir);
}

abbrev is_left_out : Text → Text → Dir → Bool
is_left_out excluded name dir = equal name excluded || is_ended (status_of dir)

unfoldable pub other_streams : Text → List (Text × Entry) → List Other
unfolding is_ended other_of
other_streams excluded [] = []
other_streams excluded ((name, plain) ∷ es) = other_streams excluded es
other_streams excluded ((name, stream dir) ∷ es) =
    let rest = other_streams excluded es in
    if is_left_out excluded name dir then rest else other_of name dir ∷ rest

-- `getOtherActiveWorkstreams(cwd, excludeWs)`
unfoldable pub get_other_active_workstreams : Text → Planning → List Other
unfolding other_streams
get_other_active_workstreams excluded p = other_streams excluded (entries p)
