-- ===== src/Phase.antt =====
-- .opencode/get-shit-done/bin/lib/phase.cjs: `cmdPhasesList`, `cmdPhaseNextDecimal` and `cmdFindPhase`, with
-- `getArchivedPhaseDirs` of .opencode/get-shit-done/bin/lib/core.cjs.
pub mod Decimals
pub mod Renumber
pub mod Remove
mod Tests
pub mod Add
pub mod Complete
pub mod Rename
use mikmongo.Base.{
  ℕ, ◌+◌, Bool, true, false, Option, none, some, List, [], ◌∷◌, ◌++◌, map, if◌then◌else◌, length,
  is_empty, any,
}
use Prim.Native.Nat.{Ordering}
use mikmongo.Text.{Text, codes, equal, starts_with, join, join_path, compare_text, is_letter}
use mikmongo.Json.{Json}
use mikmongo.Regex.{Regex, Found, find, replace, text_of, word, line, digits, maybe, ◌⨟◌}
use mikmongo.Sort.{sort}
use mikmongo.PhaseNum.{normalize_phase_name, compare_phase_num}
use mikmongo.PhaseDir.{
  Fs, Dirent, names, directories, filter_plan_files, filter_summary_files, archive_dirs,
  archive_version, read_subdirectories, planning_dir, planning_rel,
}
use mikmongo.State.Command.{
  ℤ, pos, Reply, object, texts, printed, failed, or_text, truthy, or_null, string,
}
use mikmongo.PhaseDir
use mikmongo.Phase.Decimals.{decimals_of, next_decimal, decimal_reply, is_base}

pub record ArchivedDir : Type 0 where
  pub name : Text
  pub milestone : Text
  pub base_path : Text
  pub full_path : Text

pub record ListOptions : Type 0 where
  pub kind : Option Text
  pub phase : Option Text
  pub include_archived : Bool

abbrev number_of : ℕ → Json ℤ
number_of n = Json.num (pos n)

-- What `filtered` is for a type of files.
abbrev pub files_of_kind : Text → List Text → List Text
files_of_kind kind files =
    if equal kind (codes "plans")
    then filter_plan_files files
    else if equal kind (codes "summaries")
    then filter_summary_files files
    else files

-- The files of the directories, sorted in each; or the first directory that cannot be read.
pub data Listed : Type 0 where
  files : List Text → Listed
  unreadable : Text → Listed

unfoldable pub list_files : Fs → Text → Text → List Text → Listed
unfolding filter_plan_files filter_summary_files
list_files fs phases kind [] = files []
list_files fs phases kind (dir ∷ dirs) =
    let rest = list_files fs phases kind dirs in
    elim (fs.read_dir (join_path phases dir)) [
      | none ↦ unreadable (join_path phases dir)
      | some es ↦ elim rest [
        | unreadable path ↦ unreadable path
        | files fs' ↦ files (sort compare_text (files_of_kind kind (names es)) ++ fs')
      ]
    ]

-- `dirs[0].replace(/^\d+(?:\.\d+)*-?/, '')`
unfoldable pub without_number : Text → Text
unfolding replace
without_number dir =
    replace (Regex.bol false ⨟ digits ⨟ Regex.many true (word "." ⨟ digits) ⨟ maybe (word "-"))
      (λ m. []) dir

abbrev phase_dir_of : Option Text → List Text → Json ℤ
phase_dir_of phase [] = Json.null
phase_dir_of phase (d ∷ ds) = if truthy phase then Json.str (without_number d) else Json.null

abbrev empty_listing : Option Text → Reply
empty_listing kind =
    let key = if truthy kind then codes "files" else codes "directories" in
    printed (object ((key, texts []) ∷ (codes "count", number_of 0) ∷ [])) (some []) none

abbrev not_listed : Reply
not_listed =
    printed
      (object (
        (codes "files", texts [])
        ∷ (codes "count", number_of 0)
        ∷ (codes "phase_dir", Json.null)
        ∷ (codes "error", string "Phase not found")
        ∷ []))
      (some []) none

-- The directories that are listed: all, or the first of the phase, if there is one.
unfoldable pub chosen_dirs : Option Text → List Text → Option (List Text)
unfolding PhaseDir.find
chosen_dirs (some (c ∷ phase)) dirs =
    elim (PhaseDir.find (λ d. starts_with d (normalize_phase_name (c ∷ phase))) dirs) [
      | none ↦ none
      | some d ↦ some (d ∷ [])
    ]
chosen_dirs phase dirs = some dirs

abbrev list_reply : (Text → Text) → Fs → Text → ListOptions → List Text → Reply
list_reply message fs phases o dirs =
    if truthy o.kind
    then elim (list_files fs phases (or_text o.kind []) dirs) [
      | unreadable path ↦ failed (codes "Failed to list phases: " ++ message path)
      | files fs' ↦
          printed
            (object (
              (codes "files", texts fs')
              ∷ (codes "count", number_of (length fs'))
              ∷ (codes "phase_dir", phase_dir_of o.phase dirs)
              ∷ []))
            (some (join (codes "\n") fs')) none
    ]
    else printed
        (object ((codes "directories", texts dirs) ∷ (codes "count", number_of (length dirs)) ∷ []))
        (some (join (codes "\n") dirs)) none

abbrev not_found : Reply
not_found =
    printed
      (object (
        (codes "found", Json.bool false)
        ∷ (codes "directory", Json.null)
        ∷ (codes "phase_number", Json.null)
        ∷ (codes "phase_name", Json.null)
        ∷ (codes "plans", texts [])
        ∷ (codes "summaries", texts [])
        ∷ []))
      (some []) none

-- `/^(\d+[A-Z]?(?:\.\d+)*)-?(.*)/i`
abbrev pub dir_pattern : Regex
dir_pattern =
    Regex.bol false
    ⨟ Regex.group 1 (digits ⨟ maybe (Regex.test is_letter) ⨟ Regex.many true (word "." ⨟ digits))
    ⨟ maybe (word "-")
    ⨟ Regex.group 2 line

abbrev named : Text → Option Found → Text × Option Text
named normalized none = (normalized, none)
named normalized (some m) =
    (text_of 1 m, if is_empty (text_of 2 m) then none else some (text_of 2 m))

unfoldable pub number_and_name : Text → Text → Text × Option Text
unfolding find text_of
number_and_name normalized dir = named normalized (find dir_pattern dir)

abbrev found_reply : Text → Text → Text × Option Text → List Text → Reply
found_reply rel dir (number, name) fs =
    let directory = join_path (join_path rel (codes "phases")) dir in
    printed
      (object (
        (codes "found", Json.bool true)
        ∷ (codes "directory", Json.str directory)
        ∷ (codes "phase_number", Json.str number)
        ∷ (codes "phase_name", or_null name)
        ∷ (codes "plans", texts (sort compare_text (filter_plan_files fs)))
        ∷ (codes "summaries", texts (sort compare_text (filter_summary_files fs)))
        ∷ []))
      (some directory) none

module _ (locale_compare : Text → Text → Ordering) (message : Text → Text) (fs : Fs) (cwd : Text)
    (ws : Option Text) where
  abbrev pub phases_dir : Text
  phases_dir = join_path (planning_dir cwd ws) (codes "phases")

  -- The loop over the archives.
  unfoldable pub archived_dirs : List Text → List ArchivedDir
  unfolding read_subdirectories
  archived_dirs [] = []
  archived_dirs (archive ∷ archives) =
      let path = join_path (join_path cwd (codes ".planning/milestones")) archive in
      map
        (λ d. record {
          name = d;
          milestone = or_text (archive_version archive) [];
          base_path = join_path (codes ".planning/milestones") archive;
          full_path = join_path path d;
        })
        (read_subdirectories locale_compare (fs.read_dir path))
      ++ archived_dirs archives

  -- `getArchivedPhaseDirs(cwd)`
  unfoldable pub get_archived_phase_dirs : List ArchivedDir
  unfolding archived_dirs archive_dirs
  get_archived_phase_dirs =
      let milestones = join_path cwd (codes ".planning/milestones") in
      if fs.exists milestones
      then elim (fs.read_dir milestones) [ none ↦ [] | some es ↦ archived_dirs (archive_dirs es) ]
      else []

  abbrev marked : ArchivedDir → Text
  marked a = a.name ++ (codes " [" ++ (a.milestone ++ codes "]"))

  abbrev all_dirs : Bool → List Dirent → List Text
  all_dirs include_archived es =
      sort (compare_phase_num locale_compare)
        (directories es ++ (if include_archived then map marked get_archived_phase_dirs else []))

  -- `cmdPhasesList(cwd, options, raw)`; `message` is the text of the exception for a path.
  unfoldable pub cmd_phases_list : ListOptions → Reply
  unfolding chosen_dirs get_archived_phase_dirs list_files
  cmd_phases_list o =
      if fs.exists phases_dir
      then elim (fs.read_dir phases_dir) [
        | none ↦ failed (codes "Failed to list phases: " ++ message phases_dir)
        | some es ↦ elim (chosen_dirs o.phase (all_dirs o.include_archived es)) [
          | none ↦ not_listed
          | some dirs ↦ list_reply message fs phases_dir o dirs
        ]
      ]
      else empty_listing o.kind

  -- `cmdPhaseNextDecimal(cwd, basePhase, raw)`
  unfoldable pub cmd_phase_next_decimal : Text → Reply
  unfolding decimals_of next_decimal
  cmd_phase_next_decimal base_phase =
      let base = normalize_phase_name base_phase in
      if fs.exists phases_dir
      then elim (fs.read_dir phases_dir) [
        | none ↦ failed (codes "Failed to calculate next decimal phase: " ++ message phases_dir)
        | some es ↦
            let dirs = directories es in
            let existing = sort (compare_phase_num locale_compare) (decimals_of base dirs) in
            decimal_reply (any (is_base base) dirs) base (next_decimal base existing) existing
      ]
      else decimal_reply false base (base ++ codes ".1") []

  -- `cmdFindPhase(cwd, phase, raw)`
  unfoldable pub cmd_find_phase : Text → Reply
  unfolding number_and_name filter_plan_files filter_summary_files PhaseDir.find
  cmd_find_phase [] = failed (codes "phase identifier required")
  cmd_find_phase (c ∷ phase) =
      let normalized = normalize_phase_name (c ∷ phase) in
      elim (fs.read_dir phases_dir) [
        | none ↦ not_found
        | some es ↦
            let dirs = sort (compare_phase_num locale_compare) (directories es) in
            elim (PhaseDir.find (λ d. starts_with d normalized) dirs) [
              | none ↦ not_found
              | some dir ↦ elim (fs.read_dir (join_path phases_dir dir)) [
                | none ↦ not_found
                | some files' ↦
                    found_reply (planning_rel ws) dir (number_and_name normalized dir)
                      (names files')
              ]
            ]
      ]
