-- ===== src/PhaseDir/Tests.antt =====
-- Directories of phases, and the theorems at concrete inputs.
use mikmongo.Base.{
  ◌≡◌, refl, ◌⊎◌, true, false, Option, none, some, List, [], ◌∷◌, if◌then◌else◌, All,
}
use mathlib.Core.List.{Perm}
use mikmongo.Text.{
  Text, codes, compare_text, equal, join_path, line_of, is_line_end, is_alnum, is_letter, is_digit,
  span, split, parse_int, replace_first, is_lower_alnum, to_upper, to_lower, strip_start, strip_end,
  starts_with, pad_start, ends_with, digits_from,
}
use mikmongo.PhaseNum.{
  match_phase, compare_phase_num, normalize_phase_name, IsNumeric, letter_groups, dec_parts,
  compare_groups, decimals, compare_parts, compare_letters, compare_decimals,
}
use mikmongo.Sort.Laws.{IsSorted}
use mikmongo.PhaseDir.{
  Dirent, Fs, directories, read_subdirectories, search_phase_in_dir, find_phase, split_dir,
  incomplete_plans, archive_dirs, planning_dir, planning_rel, match_custom, PhaseInfo,
  archive_version, summary_id, plan_id, phase_info, names_phase, get_phase_file_stats,
  filter_plan_files, file_stats, custom_groups, find,
}
use mikmongo.PhaseDir.Listing.{read_subdirectories-IsSorted}
use mikmongo.PhaseDir.Search.{find_phase-sources, IsFoundIn, IsArchived}
use mikmongo.Sort.{sort}
use mikmongo.Slug.{slug}

abbrev folder : Text → Dirent
folder n = record { name = n; is_directory = true }

abbrev plain_file : Text → Dirent
plain_file n = record { name = n; is_directory = false }

abbrev listing : List Dirent
listing =
    folder (codes "10-billing")
    ∷ folder (codes "02-auth")
    ∷ plain_file (codes "README.md")
    ∷ folder (codes "02.1-fix")
    ∷ []

abbrev plan_files : List Dirent
plan_files =
    plain_file (codes "02-01-PLAN.md")
    ∷ plain_file (codes "02-02-PLAN.md")
    ∷ plain_file (codes "02-01-SUMMARY.md")
    ∷ []

abbrev read_dir : Text → Option (List Dirent)
read_dir dir = if equal dir (codes "/p/.planning/phases") then some listing else some plan_files

abbrev fs : Fs
fs = record { read_dir = read_dir; exists = λ _. true }

listed_in_order :
    read_subdirectories compare_text (some listing)
    ≡ codes "02-auth" ∷ codes "02.1-fix" ∷ codes "10-billing" ∷ []
unfolding read_subdirectories sort compare_phase_num match_phase span is_digit compare_groups
    parse_int letter_groups is_letter dec_parts split
listed_in_order = refl

-- The name of a custom phase keeps only its last word.
custom_dirs :
    (split_dir (codes "PROJ-42-login") ≡ (codes "PROJ-42", some (codes "login")))
    × (split_dir (codes "PROJ-42-login-page") ≡ (codes "PROJ-42-login", some (codes "page")))
    × (split_dir (codes "12A.1-set-up") ≡ (codes "12A.1", some (codes "set-up")))
unfolding split_dir match_phase span is_digit match_custom is_letter is_alnum is_line_end line_of
    letter_groups
custom_dirs = (refl, refl, refl)

one_open_plan :
    incomplete_plans (codes "02-01-PLAN.md" ∷ codes "PLAN.md" ∷ []) (codes "02-01-SUMMARY.md" ∷ [])
    ≡ codes "PLAN.md" ∷ []
unfolding incomplete_plans equal replace_first
one_open_plan = refl

-- The archive of v1.10 is searched after that of v1.9.
archives_by_name :
    archive_dirs
      (folder (codes "v1.10-phases") ∷ folder (codes "v1.9-phases") ∷ folder (codes "notes") ∷ [])
    ≡ codes "v1.9-phases" ∷ codes "v1.10-phases" ∷ []
unfolding archive_dirs sort archive_version span is_digit equal compare_text
archives_by_name = refl

listing-IsNumeric : All IsNumeric (directories listing)
unfolding match_phase span is_digit
listing-IsNumeric = ((_, refl), ((_, refl), ((_, refl), tt)))

read_subdirectories-IsSorted_example :
    IsSorted (compare_phase_num compare_text) (read_subdirectories compare_text (some listing))
    × Perm (read_subdirectories compare_text (some listing)) (directories listing)
read_subdirectories-IsSorted_example =
    read_subdirectories-IsSorted compare_text listing listing-IsNumeric

abbrev found_two : PhaseInfo
found_two = record {
  directory = codes ".planning/phases/02-auth";
  phase_number = codes "02";
  phase_name = some (codes "auth");
  phase_slug = some (codes "auth");
  plans = codes "02-01-PLAN.md" ∷ codes "02-02-PLAN.md" ∷ [];
  summaries = codes "02-01-SUMMARY.md" ∷ [];
  incomplete = codes "02-02-PLAN.md" ∷ [];
  has_research = false;
  has_context = false;
  has_verification = false;
  has_reviews = false;
  archived = none;
}

find_two : find_phase compare_text fs (codes "/p") none (codes "2") ≡ some found_two
unfolding find_phase search_phase_in_dir find read_subdirectories equal join_path planning_dir sort
    compare_phase_num match_phase span is_digit compare_groups parse_int letter_groups is_letter
    dec_parts split split_dir custom_groups file_stats filter_plan_files get_phase_file_stats
    names_phase phase_info plan_id planning_rel summary_id compare_decimals compare_letters
    compare_parts decimals normalize_phase_name digits_from ends_with is_alnum is_line_end line_of
    pad_start replace_first starts_with strip_end strip_start to_lower to_upper compare_text
    is_lower_alnum slug incomplete_plans
find_two = refl

find_phase-sources_example :
    IsFoundIn compare_text fs
      (join_path (planning_dir (codes "/p") none) (codes "phases"))
      (join_path (planning_rel none) (codes "phases"))
      (normalize_phase_name (codes "2"))
      found_two
    ⊎ ((search_phase_in_dir compare_text fs
            (join_path (planning_dir (codes "/p") none) (codes "phases"))
            (join_path (planning_rel none) (codes "phases"))
            (normalize_phase_name (codes "2"))
          ≡ none)
        × IsArchived compare_text fs (codes "/p") (normalize_phase_name (codes "2")) found_two)
find_phase-sources_example =
    find_phase-sources compare_text fs (codes "/p") none b'2' [] found_two find_two

search_two :
    search_phase_in_dir compare_text fs
      (codes "/p/.planning/phases")
      (codes ".planning/phases")
      (codes "02")
    ≡ some found_two
unfolding search_phase_in_dir find read_subdirectories equal join_path sort compare_phase_num
    match_phase span is_digit compare_groups parse_int letter_groups is_letter dec_parts split
    split_dir custom_groups file_stats filter_plan_files get_phase_file_stats names_phase phase_info
    plan_id summary_id compare_decimals compare_letters compare_parts decimals digits_from ends_with
    is_alnum is_line_end line_of replace_first starts_with strip_end strip_start to_lower to_upper
    compare_text is_lower_alnum slug incomplete_plans
search_two = refl
