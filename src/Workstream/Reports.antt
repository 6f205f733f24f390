-- ===== src/Workstream/Reports.antt =====
-- .opencode/get-shit-done/bin/lib/workstream.cjs: `cmdWorkstreamList` and `cmdWorkstreamStatus`, with
-- the counts of the phases that the other reports share. The files that are there can be read.
use mikmongo.Base.{
  ℕ, ◌+◌, min, Bool, true, false, ◌&&◌, Option, none, some, List, [], ◌∷◌, ◌++◌, map, ltb, leb,
  if◌then◌else◌, length, is_empty, keep,
}
use mikmongo.Text.{Text, codes, compare_text}
use mikmongo.Json.{Json}
use mikmongo.Sort.{sort}
use Prim.Native.String.{String}
use mikmongo.PhaseDir.{filter_plan_files, filter_summary_files, planning_rel}
use mikmongo.State.{state_extract_field}
use mikmongo.State.Command.{ℤ, pos, object, items, string, or_text, or_null, Reply}
use mikmongo.Workstream.{Sub, Node, file, folder, Dir, Entry, plain, stream, Planning}
use mikmongo.Workstream.Entries.{lookup, has}
use mikmongo.Workstream.Migrate.{is_bad_name}
use mikmongo.Workstream.Complete.{entries}

-- The plans and summaries of a phase.
pub record PhaseCounts : Type 0 where
  pub directory : Text
  pub plans : ℕ
  pub summaries : ℕ

abbrev counts_of_sub : Sub → PhaseCounts
counts_of_sub s = record {
  directory = s.entry.name;
  plans = length (filter_plan_files s.files);
  summaries = length (filter_summary_files s.files);
}

abbrev phase_subs : Option Node → List Sub
phase_subs (some (folder subs)) = keep (λ s. s.entry.is_directory) subs
phase_subs _ = []

-- The counts of each directory of `readSubdirectories(phasesDir)`.
unfoldable pub phase_counts : Dir → List PhaseCounts
unfolding lookup filter_plan_files filter_summary_files
phase_counts dir = map counts_of_sub (phase_subs (lookup (codes "phases") dir))

abbrev pub is_done : PhaseCounts → Bool
is_done c = ltb 0 c.plans && leb c.plans c.summaries

unfoldable pub completed_count : List PhaseCounts → ℕ
completed_count cs = length (keep is_done cs)

unfoldable pub total_plans : List PhaseCounts → ℕ
total_plans [] = 0
total_plans (c ∷ cs) = c.plans + total_plans cs

unfoldable pub completed_plans : List PhaseCounts → ℕ
completed_plans [] = 0
completed_plans (c ∷ cs) = min c.summaries c.plans + completed_plans cs

-- The content of a file of a workstream, if it can be read.
abbrev text_of_node : Option Node → Option Text
text_of_node (some (file t)) = some t
text_of_node _ = none

abbrev pub read_file : String → Dir → Option Text
read_file name dir = text_of_node (lookup (codes name) dir)

abbrev field_of : String → Option Text → Option Text
field_of name none = none
field_of name (some content) = state_extract_field content (codes name)

unfoldable pub status_of : Dir → Text
unfolding state_extract_field lookup
status_of dir = or_text (field_of "Status" (read_file "STATE.md" dir)) (codes "unknown")

unfoldable pub current_phase_of : Dir → Option Text
unfolding state_extract_field lookup
current_phase_of dir = field_of "Current Phase" (read_file "STATE.md" dir)

abbrev path_of : Text → Json ℤ
path_of name = Json.str (planning_rel (some name))

abbrev count : ℕ → Json ℤ
count n = Json.num (pos n)

-- What a report says of each directory; a plain file is passed over.
unfoldable pub rows : (Text → Dir → Json ℤ) → List (Text × Entry) → List (Json ℤ)
rows row [] = []
rows row ((name, plain) ∷ es) = rows row es
rows row ((name, stream dir) ∷ es) = row name dir ∷ rows row es

abbrev pub flat_mode : Json ℤ
flat_mode = object (
    (codes "mode", string "flat")
    ∷ (codes "workstreams", Json.arr (items []))
    ∷ (codes "message", string "No workstreams — operating in flat mode")
    ∷ [])

unfoldable pub list_row : Text → Dir → Json ℤ
unfolding phase_counts completed_count status_of current_phase_of lookup
list_row name dir = object (
    (codes "name", Json.str name)
    ∷ (codes "path", path_of name)
    ∷ (codes "has_roadmap", Json.bool (has (codes "ROADMAP.md") dir))
    ∷ (codes "has_state", Json.bool (has (codes "STATE.md") dir))
    ∷ (codes "status", Json.str (status_of dir))
    ∷ (codes "current_phase", or_null (current_phase_of dir))
    ∷ (codes "phase_count", count (length (phase_counts dir)))
    ∷ (codes "completed_phases", count (completed_count (phase_counts dir)))
    ∷ [])

abbrev listed : List (Json ℤ) → Json ℤ
listed found = object (
    (codes "mode", string "workstream")
    ∷ (codes "workstreams", Json.arr (items found))
    ∷ (codes "count", count (length found))
    ∷ [])

-- `cmdWorkstreamList(cwd, raw)`
unfoldable pub cmd_workstream_list : Planning → Json ℤ
unfolding rows list_row
cmd_workstream_list p = elim p.streams [ none ↦ flat_mode | some es ↦ listed (rows list_row es) ]

abbrev phase_status : PhaseCounts → Text
phase_status c =
    if is_done c
    then codes "complete"
    else if ltb 0 c.plans
    then codes "in_progress"
    else codes "pending"

abbrev phase_row : PhaseCounts → Json ℤ
phase_row c = object (
    (codes "directory", Json.str c.directory)
    ∷ (codes "status", Json.str (phase_status c))
    ∷ (codes "plan_count", count c.plans)
    ∷ (codes "summary_count", count c.summaries)
    ∷ [])

-- `stateInfo`, which is empty when the state cannot be read.
abbrev state_info : Option Text → List (Text × Json ℤ)
state_info none = []
state_info (some content) =
    (codes "status", Json.str (or_text (field_of "Status" (some content)) (codes "unknown")))
    ∷ (codes "current_phase", or_null (field_of "Current Phase" (some content)))
    ∷ (codes "last_activity", or_null (field_of "Last Activity" (some content)))
    ∷ []

abbrev files_row : Dir → Json ℤ
files_row dir = object (
    (codes "roadmap", Json.bool (has (codes "ROADMAP.md") dir))
    ∷ (codes "state", Json.bool (has (codes "STATE.md") dir))
    ∷ (codes "requirements", Json.bool (has (codes "REQUIREMENTS.md") dir))
    ∷ [])

abbrev by_directory : List PhaseCounts → List PhaseCounts
by_directory = sort (λ a b. compare_text a.directory b.directory)

-- There is nothing below a plain file.
abbrev content_of : Entry → Dir
content_of plain = []
content_of (stream dir) = dir

abbrev status_reply : Text → Dir → Json ℤ
status_reply name dir =
    let phases = by_directory (phase_counts dir) in
    object (
      ((codes "found", Json.bool true)
        ∷ (codes "workstream", Json.str name)
        ∷ (codes "path", path_of name)
        ∷ (codes "files", files_row dir)
        ∷ (codes "phases", Json.arr (items (map phase_row phases)))
        ∷ (codes "phase_count", count (length phases))
        ∷ (codes "completed_phases", count (completed_count phases))
        ∷ [])
      ++ state_info (read_file "STATE.md" dir))

abbrev found_reply : Text → Option Entry → Json ℤ
found_reply name none =
    object ((codes "found", Json.bool false) ∷ (codes "workstream", Json.str name) ∷ [])
found_reply name (some e) = status_reply name (content_of e)

-- `cmdWorkstreamStatus(cwd, name, raw)`
unfoldable pub cmd_workstream_status : Text → Planning → Reply
unfolding is_bad_name lookup phase_counts completed_count state_extract_field sort planning_rel
cmd_workstream_status name p =
    if is_empty name
    then Reply.failed (codes "workstream name required. Usage: workstream status <name>")
    else if is_bad_name name
    then Reply.failed (codes "Invalid workstream name")
    else Reply.printed (found_reply name (lookup name (entries p))) none none
