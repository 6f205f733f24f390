-- ===== src/ProjectRoot.antt =====
-- `findProjectRoot` of .opencode/get-shit-done/bin/lib/core.cjs: the directory whose `.planning` a
-- command works on. A directory is the list of its names, the deepest first, so that its tail is its
-- parent; the file system's root is the empty list.
pub mod Owner
mod Tests
use mikmongo.Base.{
  Bool, true, false, not, ◌&&◌, ◌||◌, Option, none, some, List, [], ◌∷◌, if◌then◌else◌, is_empty,
}
use mikmongo.Text.{Text, codes, equal}
use mikmongo.Json.{
  Json, Items, JsonFile, absent, malformed, holds, null, bool, num, str, arr, obj, nil, cons,
  member, is_bool,
}

abbrev pub Dir : Type 0
Dir = List Text

unfoldable pub same_dir : Dir → Dir → Bool
same_dir [] [] = true
same_dir (s ∷ d) (t ∷ e) = equal s t && same_dir d e
same_dir _ _ = false

-- What is asked of the file system: whether `.planning` is a directory, whether `.git` is there, and
-- the content of `.planning/config.json`.
pub record Tree (N : Type 0) : Type 0 where
  pub planning : Dir → Bool
  pub git : Dir → Bool
  pub config : Dir → JsonFile N

-- `isInsideGitRepo(candidate)`, from the directory `d`.
unfoldable pub inside_git : (Dir → Bool) → Dir → Dir → Bool
inside_git git candidate [] = false
inside_git git candidate (s ∷ d) =
    let above = inside_git git candidate d in
    git (s ∷ d) || (not (same_dir (s ∷ d) candidate) && above)

-- `nonzero` is the truth value of a number.
module _ {N : Type 0} (nonzero : N → Bool) where
  abbrev truthy : Json N → Bool
  truthy null = false
  truthy (bool b) = b
  truthy (num n) = nonzero n
  truthy (str s) = not (is_empty s)
  truthy (arr xs) = true
  truthy (obj o) = true

  -- `v || other`
  abbrev or_value : Option (Json N) → Option (Json N) → Option (Json N)
  or_value none other = other
  or_value (some v) other = if truthy v then some v else other

  -- `config.sub_repos || config.planning?.sub_repos`
  unfoldable pub sub_repos : Json N → Option (Json N)
  sub_repos config =
      or_value (member (some config) (codes "sub_repos"))
        (member (member (some config) (codes "planning")) (codes "sub_repos"))

  -- `subRepos.includes(name)`
  unfoldable pub includes_name : Items N → Text → Bool
  includes_name nil name = false
  includes_name (cons (str s) xs) name = equal s name || includes_name xs name
  includes_name (cons _ xs) name = includes_name xs name

  abbrev is_listed_in : Option (Json N) → Text → Bool
  is_listed_in (some (arr xs)) name = includes_name xs name
  is_listed_in _ name = false

  -- Whether the configuration lists the directory `name` as a repository of its own.
  unfoldable pub is_listed : JsonFile N → Text → Bool
  is_listed absent name = false
  is_listed malformed name = false
  is_listed (holds config) name = is_listed_in (sub_repos config) name

  abbrev pub multi_repo : JsonFile N → Bool
  multi_repo (holds config) = is_bool true (member (some config) (codes "multiRepo"))
  multi_repo _ = false

  module _ (tree : Tree N) (home resolved : Dir) where
    -- Whether `parent`, in which `name` leads to the resolved directory, is its project.
    unfoldable pub owns : Dir → Text → Bool
    owns parent name =
        tree.planning parent
        && (is_listed (tree.config parent) name
            || ((multi_repo (tree.config parent) && inside_git tree.git parent resolved)
                || inside_git tree.git parent resolved))

    -- The loop over the parents.
    unfoldable pub walk : Dir → Option Dir
    walk [] = none
    walk (name ∷ parent) =
        let above = walk parent in
        if same_dir parent home then none else if owns parent name then some parent else above

    abbrev or_start : Option Dir → Dir
    or_start none = resolved
    or_start (some d) = d

    -- `findProjectRoot`, of the resolved directory.
    unfoldable pub find_project_root : Dir
    find_project_root = if tree.planning resolved then resolved else or_start (walk resolved)
