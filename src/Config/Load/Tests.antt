-- ===== src/Config/Load/Tests.antt =====
-- Loads of small configurations.
use mikmongo.Base.{ℕ, ◌≡◌, refl, Bool, true, false, not, some, List, [], ◌∷◌, ◌==◌}
use mikmongo.Text.{Text, codes, compare_text, equal}
use mikmongo.Sort.{sort}
use mikmongo.Json.{Fields, holds, obj, bool, str, arr, nil, end, field, get}
use mikmongo.Config.Load.{Loaded, detect_sub_repos, load_config, repos_json}
use mikmongo.Config.Load.Twice.{file_after, load_config_twice}
use mikmongo.Config.NewProject.{granularity_of}

abbrev truthy_number : ℕ → Bool
truthy_number n = not (n == 0)

abbrev legacy_file : Fields ℕ
legacy_file =
    field (codes "multiRepo") (bool true) (field (codes "depth") (str (codes "quick")) end)

abbrev repos : List Text
repos = codes "api" ∷ codes "web" ∷ []

abbrev first_load : Loaded ℕ
first_load = load_config truthy_number 200000 repos false (holds (obj legacy_file))

-- The new name is written first, then the list of repositories.
first_writes :
    first_load.writes
    ≡ obj (
        field
          (codes "multiRepo")
          (bool true)
          (field (codes "granularity") (str (codes "coarse")) end))
      ∷ obj (
          field (codes "granularity") (str (codes "coarse")) (
            field
              (codes "sub_repos")
              (repos_json repos)
              (field (codes "planning") (obj (field (codes "commit_docs") (bool false) end)) end)))
      ∷ []
unfolding load_config granularity_of
first_writes = refl

detected_run :
    detect_sub_repos
      (some (
        record { name = codes "web"; is_directory = true }
        ∷ record { name = codes ".git"; is_directory = true }
        ∷ record { name = codes "api"; is_directory = true }
        ∷ []))
      (λ name. true)
    ≡ repos
unfolding detect_sub_repos
detected_run = refl

sorted_repos : sort compare_text repos ≡ repos
unfolding sort compare_text
sorted_repos = refl

load_config_twice_example :
    load_config truthy_number 200000 repos false
      (holds (file_after (obj legacy_file) first_load.writes))
    ≡ record { config = first_load.config; writes = [] }
unfolding get equal
load_config_twice_example =
    load_config_twice truthy_number 200000 repos false legacy_file sorted_repos refl

-- The array is written without its property, which the first load alone answers with.
abbrev array_file : Fields ℕ
array_file = field (codes "multiRepo") (bool true) (field (codes "planning") (arr nil) end)

abbrev array_load : Loaded ℕ
array_load = load_config truthy_number 200000 repos false (holds (obj array_file))

array_docs_lost :
    (get (codes "commit_docs") array_load.config ≡ some (bool false))
    × (get
          (codes "commit_docs")
          (load_config truthy_number 200000 repos false
            (holds (file_after (obj array_file) array_load.writes))).config
        ≡ some (bool true))
unfolding load_config get
array_docs_lost = (refl, refl)
