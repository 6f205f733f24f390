-- ===== src/Config/Load.antt =====
-- `loadConfig` and `detectSubRepos` of .opencode/get-shit-done/bin/lib/core.cjs. A file that cannot
-- be written is left as it is, which the code does not notice.
pub mod Stable
pub mod Twice
mod Tests
use mikmongo.Base.{
  ◌+◌, Bool, true, false, not, ◌&&◌, ◌||◌, Option, none, some, List, [], ◌∷◌, ◌++◌, if◌then◌else◌,
  is_empty, keep,
}
use Prim.Native.String.{String}
use mikmongo.Text.{Text, codes, equal, starts_with, compare_text}
use mikmongo.Sort.{sort}
use mikmongo.PhaseDir.{Dirent, directories}
use mikmongo.Json.{
  Json, Items, Fields, JsonFile, holds, null, bool, num, str, arr, obj, nil, cons, end, field, get,
  put, remove, member, is_bool,
}
use mikmongo.Config.NewProject.{migrate}

abbrev pub is_repo : (Text → Bool) → Text → Bool
is_repo has_git name =
    not (starts_with name (codes ".") || equal name (codes "node_modules")) && has_git name

-- `detectSubRepos(cwd)`: the directories with a `.git`, of a directory that can be read.
unfoldable pub detect_sub_repos : Option (List Dirent) → (Text → Bool) → List Text
unfolding sort starts_with equal compare_text
detect_sub_repos none has_git = []
detect_sub_repos (some es) has_git = sort compare_text (keep (is_repo has_git) (directories es))

unfoldable pub same_texts : List Text → List Text → Bool
unfolding equal
same_texts [] [] = true
same_texts (x ∷ xs) (y ∷ ys) = equal x y && same_texts xs ys
same_texts _ _ = false

-- The configuration, and what is written to config.json, the last content last.
pub record Loaded (N : Type 0) : Type 0 where
  pub config : Fields N
  pub writes : List (Json N)

module _ {N : Type 0} where
  unfoldable pub text_items : List Text → Items N
  text_items [] = nil
  text_items (t ∷ ts) = cons (str t) (text_items ts)

  -- The texts of an array that has nothing else.
  unfoldable pub texts_of : Items N → Option (List Text)
  texts_of nil = some []
  texts_of (cons (str t) xs) = elim (texts_of xs) [ none ↦ none | some ts ↦ some (t ∷ ts) ]
  texts_of (cons _ xs) = none

  abbrev pub repos_json : List Text → Json N
  repos_json ts = arr (text_items ts)

  abbrev or_default : Option (Json N) → Json N → Json N
  or_default none d = d
  or_default (some null) d = d
  or_default (some v) d = v

  -- `get(key, { section, field })`
  unfoldable pub nested : Fields N → String → String → String → Option (Json N)
  unfolding get member
  nested o key section name = elim (get (codes key) o) [
    | some v ↦ some v
    | none ↦ member (get (codes section) o) (codes name)
  ]

  unfoldable pub parallelization_of : Option (Json N) → Json N
  unfolding get
  parallelization_of (some (bool b)) = bool b
  parallelization_of (some (obj o)) = elim (get (codes "enabled") o) [
    | none ↦ bool true
    | some v ↦ v
  ]
  parallelization_of _ = bool true

  abbrev pub commit_docs_of : Bool → Option (Json N) → Json N
  commit_docs_of ignored (some v) = v
  commit_docs_of ignored none = bool (not ignored)

  abbrev pub is_array : Option (Json N) → Bool
  is_array (some (arr xs)) = true
  is_array _ = false

  -- What `get` finds for `commit_docs`, when it is an own property of an array as well.
  abbrev explicit_docs : Bool → Option (Json N) → Option (Json N)
  explicit_docs hidden (some v) = some v
  explicit_docs true none = some (bool false)
  explicit_docs false none = none

  -- `parsed.planning.commit_docs = false`, as it is written: an array loses the property there.
  abbrev private_planning : Json N → Json N
  private_planning (obj p) = obj (put (codes "commit_docs") (bool false) p)
  private_planning j = j

  abbrev pub write_if : Bool → Fields N → List (Json N)
  write_if true o = obj o ∷ []
  write_if false o = []

  abbrev pub is_renamed : Option (Json N) → Option (Json N) → Bool
  is_renamed none granularity = false
  is_renamed (some depth) none = true
  is_renamed (some depth) (some granularity) = false

  -- Whether the key `depth` of an earlier version gets its new name.
  abbrev pub is_old : Fields N → Bool
  is_old o = is_renamed (get (codes "depth") o) (get (codes "granularity") o)

  -- `truthy_number` tells whether a number is another than zero, `window` is 200000, `detected` are
  -- the repositories below the directory, and `ignored` is whether git ignores `.planning/`.
  module _ (truthy_number : N → Bool) (window : N) where
    unfoldable pub truthy : Option (Json N) → Bool
    truthy none = false
    truthy (some null) = false
    truthy (some (bool b)) = b
    truthy (some (num n)) = truthy_number n
    truthy (some (str t)) = not (is_empty t)
    truthy (some _) = true

    abbrev pub or_other : Option (Json N) → Json N → Json N
    or_other none d = d
    or_other (some v) d = if truthy (some v) then v else d

    -- `parsed.sub_repos || parsed.planning?.sub_repos || []`
    unfoldable pub current_repos : Fields N → Json N
    unfolding truthy get member
    current_repos o =
        or_other (get (codes "sub_repos") o)
          (or_other (member (get (codes "planning") o) (codes "sub_repos")) (arr nil))

    unfoldable pub is_legacy : Fields N → Bool
    unfolding truthy is_bool get member
    is_legacy o =
        is_bool true (get (codes "multiRepo") o)
        && not (truthy (get (codes "sub_repos") o))
        && not (truthy (member (get (codes "planning") o) (codes "sub_repos")))

    -- A legacy configuration that lists its repositories from now on.
    unfoldable pub adopt_repos : List Text → Fields N → Fields N
    unfolding put remove get truthy text_items
    adopt_repos detected o =
        let listed = put (codes "sub_repos") (repos_json detected) o in
        let planning = or_other (get (codes "planning") listed) (obj end) in
        remove (codes "multiRepo") (put (codes "planning") (private_planning planning) listed)

    -- Whether the migration gives an array `planning` the property, which this load alone sees.
    unfoldable pub hides_docs : List Text → Fields N → Bool
    unfolding is_legacy get
    hides_docs detected o =
        is_legacy o && not (is_empty detected) && is_array (get (codes "planning") o)

    abbrev pub migrate_repos : List Text → Fields N → Fields N × Bool
    migrate_repos detected o =
        if is_legacy o && not (is_empty detected)
        then (adopt_repos detected o, true)
        else (o, false)

    -- Whether the list differs from the repositories that are there.
    unfoldable pub is_stale : Json N → List Text → Bool
    unfolding texts_of same_texts sort compare_text
    is_stale (arr nil) detected = false
    is_stale (arr (cons x xs)) detected =
        not (is_empty detected)
        && not (elim (texts_of (cons x xs)) [
          | none ↦ false
          | some ts ↦ same_texts (sort compare_text ts) detected
        ])
    is_stale _ detected = false

    abbrev pub sync_repos : List Text → Fields N × Bool → Fields N × Bool
    sync_repos detected (o, dirty) =
        if is_stale (current_repos o) detected
        then (put (codes "sub_repos") (repos_json detected) o, true)
        else (o, dirty)

    abbrev if_null : Option (Json N) → Json N
    if_null v = or_other v null

    -- The settings that the code answers with, from the parsed file; `hidden` tells whether its
    -- `planning` is an array with `commit_docs` of its own.
    unfoldable pub settings : Bool → Bool → Fields N → Fields N
    unfolding nested get parallelization_of truthy
    settings hidden ignored o =
        let at : String → Option (Json N) = λ key. get (codes key) o in
        field (codes "model_profile") (or_default (at "model_profile") (str (codes "balanced"))) (
          field (codes "commit_docs")
            (commit_docs_of ignored
              (explicit_docs hidden (nested o "commit_docs" "planning" "commit_docs")))
            (field (codes "search_gitignored")
              (or_default (nested o "search_gitignored" "planning" "search_gitignored")
                (bool false))
              (field (codes "branching_strategy")
                (or_default (nested o "branching_strategy" "git" "branching_strategy")
                  (str (codes "none")))
                (field (codes "phase_branch_template")
                  (or_default (nested o "phase_branch_template" "git" "phase_branch_template")
                    (str (codes "gsd/phase-{phase}-{slug}")))
                  (field (codes "milestone_branch_template")
                    (or_default
                      (nested o "milestone_branch_template" "git" "milestone_branch_template")
                      (str (codes "gsd/{milestone}-{slug}")))
                    (field (codes "quick_branch_template")
                      (or_default (nested o "quick_branch_template" "git" "quick_branch_template")
                        null)
                      (field (codes "research")
                        (or_default (nested o "research" "workflow" "research") (bool true))
                        (field (codes "plan_checker")
                          (or_default (nested o "plan_checker" "workflow" "plan_check") (bool true))
                          (field (codes "verifier")
                            (or_default (nested o "verifier" "workflow" "verifier") (bool true))
                            (field (codes "nyquist_validation")
                              (or_default
                                (nested o "nyquist_validation" "workflow" "nyquist_validation")
                                (bool true))
                              (field (codes "parallelization")
                                (parallelization_of (at "parallelization"))
                                (field (codes "brave_search")
                                  (or_default (at "brave_search") (bool false))
                                  (field (codes "firecrawl")
                                    (or_default (at "firecrawl") (bool false))
                                    (field (codes "exa_search")
                                      (or_default (at "exa_search") (bool false))
                                      (field (codes "text_mode")
                                        (or_default (nested o "text_mode" "workflow" "text_mode")
                                          (bool false))
                                        (field (codes "sub_repos")
                                          (or_default (nested o "sub_repos" "planning" "sub_repos")
                                            (arr nil))
                                          (field (codes "resolve_model_ids")
                                            (or_default (at "resolve_model_ids") (bool false))
                                            (field (codes "context_window")
                                              (or_default (at "context_window") (num window))
                                              (field (codes "phase_naming")
                                                (or_default (at "phase_naming")
                                                  (str (codes "sequential")))
                                                (field (codes "model_overrides")
                                                  (or_other (at "model_overrides") null)
                                                  (field (codes "agent_skills")
                                                    (or_other (at "agent_skills") (obj end))
                                                    end)))))))))))))))))))))

    -- The settings without a file, which say nothing of overrides and skills.
    unfoldable pub default_settings : Fields N
    unfolding settings remove
    default_settings =
        remove (codes "model_overrides") (remove (codes "agent_skills") (settings false false end))

    -- The file as it is after the migrations, with what they write.
    unfoldable pub migrated : List Text → Fields N → Fields N × List (Json N)
    unfolding get migrate is_legacy adopt_repos is_stale current_repos text_items put
    migrated detected o =
        let renamed = migrate o in
        let (p, dirty) = sync_repos detected (migrate_repos detected renamed) in
        (p, write_if (is_old o) renamed ++ write_if dirty p)

    abbrev load_fields : List Text → Bool → Fields N → Loaded N
    load_fields detected ignored o =
        let (p, writes) = migrated detected o in
        record { config = settings (hides_docs detected (migrate o)) ignored p; writes = writes }

    -- `loadConfig(cwd)` on config.json: `in` throws on what is no object, and the defaults are taken.
    unfoldable pub load_config : List Text → Bool → JsonFile N → Loaded N
    unfolding migrated settings default_settings hides_docs migrate
    load_config detected ignored (holds (obj o)) = load_fields detected ignored o
    load_config detected ignored (holds (arr xs)) = load_fields detected ignored end
    load_config detected ignored _ = record { config = default_settings; writes = [] }
