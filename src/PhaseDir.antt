-- ===== src/PhaseDir.antt =====
-- The phase directories of .opencode/get-shit-done/bin/lib/core.cjs: `readSubdirectories`,
-- `getPhaseFileStats`, `searchPhaseInDir` and `findPhaseInternal`. The file system is what its calls
-- return; `none` stands for a call that throws. Paths are those of POSIX.
pub mod Search
pub mod Listing
mod Tests
use mikmongo.Base.{
  ℕ, Bool, true, false, not, ◌&&◌, ◌||◌, Option, none, some, List, [], ◌∷◌, ◌++◌, map, ◌==◌,
  if◌then◌else◌, length, drop, is_empty, any, keep,
}
use Prim.Native.Nat.{Ordering}
use mathlib.Core.List.{reverse}
use mikmongo.Text.{
  Text, codes, equal, starts_with, ends_with, replace_first, to_upper, is_alnum, is_letter,
  is_line_end, line_of, compare_text, join_path, is_digit, span,
}
use mikmongo.PhaseNum.{taken, Groups, match_phase, compare_phase_num, normalize_phase_name}
use mikmongo.Slug.{slug}
use mikmongo.Sort.{sort}

pub record Dirent : Type 0 where
  pub name : Text
  pub is_directory : Bool

pub record Fs : Type 0 where
  pub read_dir : Text → Option (List Dirent)
  pub exists : Text → Bool

abbrev pub names : List Dirent → List Text
names = map (λ e. e.name)

abbrev pub directories : List Dirent → List Text
directories es = names (keep (λ e. e.is_directory) es)

-- `f.endsWith('-X.md') || f === 'X.md'`
abbrev pub is_kind : Text → Text → Bool
is_kind kind f = ends_with f (b'-' ∷ kind) || equal f kind

unfoldable pub filter_plan_files : List Text → List Text
filter_plan_files = keep (is_kind (codes "PLAN.md"))

unfoldable pub filter_summary_files : List Text → List Text
filter_summary_files = keep (is_kind (codes "SUMMARY.md"))

pub record PhaseFileStats : Type 0 where
  pub plans : List Text
  pub summaries : List Text
  pub has_research : Bool
  pub has_context : Bool
  pub has_verification : Bool
  pub has_reviews : Bool

unfoldable pub file_stats : List Text → PhaseFileStats
unfolding filter_plan_files filter_summary_files
file_stats files = record {
  plans = filter_plan_files files;
  summaries = filter_summary_files files;
  has_research = any (is_kind (codes "RESEARCH.md")) files;
  has_context = any (is_kind (codes "CONTEXT.md")) files;
  has_verification = any (is_kind (codes "VERIFICATION.md")) files;
  has_reviews = any (is_kind (codes "REVIEWS.md")) files;
}

unfoldable pub get_phase_file_stats : Fs → Text → Option PhaseFileStats
get_phase_file_stats fs dir = elim (fs.read_dir dir) [
  | none ↦ none
  | some es ↦ some (file_stats (names es))
]

-- `s.replace('-X.md', '').replace('X.md', '')`
abbrev pub without_kind : Text → Text → Text
without_kind kind s = replace_first kind [] (replace_first (b'-' ∷ kind) [] s)

unfoldable pub plan_id : Text → Text
plan_id = without_kind (codes "PLAN.md")

unfoldable pub summary_id : Text → Text
summary_id = without_kind (codes "SUMMARY.md")

unfoldable pub incomplete_plans : List Text → List Text → List Text
unfolding plan_id summary_id
incomplete_plans plans summaries =
    let completed = map summary_id summaries in
    keep (λ p. not (any (equal (plan_id p)) completed)) plans

-- `d.startsWith(n) || d.toUpperCase().startsWith(n.toUpperCase())`
unfoldable pub names_phase : Text → Text → Bool
names_phase normalized d =
    starts_with d normalized || starts_with (map to_upper d) (map to_upper normalized)

-- `list.find(test)`
unfoldable pub find : (Text → Bool) → List Text → Option Text
find test [] = none
find test (x ∷ xs) = let rest = find test xs in if test x then some x else rest

abbrev skip_dash : Text → Text
skip_dash [] = []
skip_dash (c ∷ s) = if c == b'-' then s else c ∷ s

abbrev has_line : Text → Bool
has_line [] = false
has_line (c ∷ s) = not (is_line_end c)

abbrev or_else : Option (Text × Text) → Option (Text × Text) → Option (Text × Text)
or_else none d = d
or_else (some p) d = some p

-- The last way to go on after `read` with `-(.+)`; the flag says that a segment has begun.
unfoldable pub custom_groups : Text → Bool → Text → Option (Text × Text)
custom_groups read begun [] = none
custom_groups read begun (c ∷ s) =
    let further = custom_groups (read ++ c ∷ []) (is_alnum c) s in
    if is_alnum c
    then further
    else if c == b'-' && begun
    then or_else further (if has_line s then some (read, line_of s) else none)
    else none

-- `match.match(/^([A-Z][A-Z0-9]*(?:-[A-Z0-9]+)*)-(.+)/i)`
unfoldable pub match_custom : Text → Option (Text × Text)
unfolding custom_groups
match_custom [] = none
match_custom (c ∷ s) = if is_letter c then custom_groups (c ∷ []) true s else none

abbrev some_text : Text → Option Text
some_text [] = none
some_text (c ∷ s) = some (c ∷ s)

-- The phase number and name of a directory.
dir_groups : Text → Option Groups → Option (Text × Text) → Text × Option Text
dir_groups d (some g) _ = (taken g, some_text (line_of (skip_dash (drop (length (taken g)) d))))
dir_groups d none (some (number, name)) = (number, some name)
dir_groups d none none = (d, none)

unfoldable pub split_dir : Text → Text × Option Text
unfolding dir_groups
split_dir d = dir_groups d (match_phase d) (match_custom d)

pub record PhaseInfo : Type 0 where
  pub directory : Text
  pub phase_number : Text
  pub phase_name : Option Text
  pub phase_slug : Option Text
  pub plans : List Text
  pub summaries : List Text
  pub incomplete : List Text
  pub has_research : Bool
  pub has_context : Bool
  pub has_verification : Bool
  pub has_reviews : Bool
  pub archived : Option Text

unfoldable pub phase_info : Text → Text → PhaseFileStats → PhaseInfo
unfolding split_dir incomplete_plans
phase_info rel_base dir stats =
    let (number, name) = split_dir dir in
    let plans = sort compare_text stats.plans in
    let summaries = sort compare_text stats.summaries in
    record {
      directory = join_path rel_base dir;
      phase_number = number;
      phase_name = name;
      phase_slug = elim name [ none ↦ none | some n ↦ some (slug n) ];
      plans = plans;
      summaries = summaries;
      incomplete = incomplete_plans plans summaries;
      has_research = stats.has_research;
      has_context = stats.has_context;
      has_verification = stats.has_verification;
      has_reviews = stats.has_reviews;
      archived = none;
    }

abbrev version_unit : ℕ → Bool
version_unit c = is_digit c || c == b'.'

-- `name.match(/^(v[\d.]+)-phases$/)`
unfoldable pub archive_version : Text → Option Text
archive_version [] = none
archive_version (c ∷ s) =
    let (run, rest) = span version_unit s in
    if c == b'v' && (not (is_empty run) && equal rest (codes "-phases"))
    then some (c ∷ run)
    else none

abbrev is_archive : Text → Bool
is_archive name = elim (archive_version name) [ none ↦ false | some _ ↦ true ]

-- `archiveDirs`: the archives by name, the last of the code-unit order first.
unfoldable pub archive_dirs : List Dirent → List Text
archive_dirs es = reverse (sort compare_text (keep is_archive (directories es)))

-- The planning directory below the project, for the active workstream (`none`, or empty, for none).
unfoldable pub planning_rel : Option Text → Text
planning_rel (some (c ∷ ws)) = join_path (codes ".planning/workstreams") (c ∷ ws)
planning_rel _ = codes ".planning"

-- `planningDir(cwd, ws)`
unfoldable pub planning_dir : Text → Option Text → Text
unfolding planning_rel
planning_dir cwd ws = join_path cwd (planning_rel ws)

module _ (locale_compare : Text → Text → Ordering) where
  -- `readSubdirectories(dir, true)`, on what reading the directory returns.
  unfoldable pub read_subdirectories : Option (List Dirent) → List Text
  read_subdirectories none = []
  read_subdirectories (some es) = sort (compare_phase_num locale_compare) (directories es)

  unfoldable pub search_phase_in_dir : Fs → Text → Text → Text → Option PhaseInfo
  search_phase_in_dir fs base rel_base normalized =
      elim (find (names_phase normalized) (read_subdirectories (fs.read_dir base))) [
        | none ↦ none
        | some dir ↦ elim (get_phase_file_stats fs (join_path base dir)) [
          | none ↦ none
          | some stats ↦ some (phase_info rel_base dir stats)
        ]
      ]

  -- The loop over the archives.
  unfoldable pub search_archives : Fs → Text → Text → List Text → Option PhaseInfo
  search_archives fs milestones normalized [] = none
  search_archives fs milestones normalized (name ∷ rest) =
      let later = search_archives fs milestones normalized rest in
      elim (search_phase_in_dir fs (join_path milestones name)
        (join_path (codes ".planning/milestones") name) normalized) [
          | none ↦ later
          | some info ↦ some (record info { archived = archive_version name })
        ]

  abbrev search_milestones : Fs → Text → Text → Option PhaseInfo
  search_milestones fs milestones normalized =
      if not (fs.exists milestones) then none else elim (fs.read_dir milestones) [
        | none ↦ none
        | some es ↦ search_archives fs milestones normalized (archive_dirs es)
      ]

  -- `findPhaseInternal(cwd, phase)`, with the workstream of the environment.
  unfoldable pub find_phase : Fs → Text → Option Text → Text → Option PhaseInfo
  find_phase fs cwd ws [] = none
  find_phase fs cwd ws (c ∷ phase) =
      let normalized = normalize_phase_name (c ∷ phase) in
      elim (search_phase_in_dir fs (join_path (planning_dir cwd ws) (codes "phases"))
        (join_path (planning_rel ws) (codes "phases")) normalized) [
          | none ↦ search_milestones fs (join_path cwd (codes ".planning/milestones")) normalized
          | some info ↦ some info
        ]
