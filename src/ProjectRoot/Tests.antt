-- ===== src/ProjectRoot/Tests.antt =====
-- A workspace with repositories below it.
use mikmongo.Base.{
  ℕ, ◌≡◌, refl, sym, ap, ◌∙◌, ◌≢◌, ◌⊎◌, inl, inr, Bool, false, not, [], ◌∷◌, ◌==◌, length,
}
use mikmongo.Text.{codes, equal}
use mikmongo.Json.{absent, holds, str, arr, obj, end, field, nil, cons, member}
use mikmongo.ProjectRoot.{
  Dir, Tree, same_dir, inside_git, owns, find_project_root, is_listed, walk, includes_name,
  sub_repos,
}
use mikmongo.ProjectRoot.Owner.{IsOwner, find_project_root-IsOwner, find_project_root-owned}

abbrev workspace : Dir
workspace = codes "w" ∷ codes "home" ∷ []

abbrev api : Dir
api = codes "api" ∷ workspace

abbrev source : Dir
source = codes "src" ∷ api

abbrev home : Dir
home = codes "home" ∷ []

abbrev nonzero : ℕ → Bool
nonzero n = not (n == 0)

-- The workspace has planning files, the repository `api` in it is one of git.
abbrev tree : Tree ℕ
tree = record {
  planning = λ d. same_dir d workspace;
  git = λ d. same_dir d api;
  config = λ d. absent;
}

-- Without git, but listed in the configuration.
abbrev listed : Tree ℕ
listed = record {
  planning = λ d. same_dir d workspace;
  git = λ d. false;
  config = λ d. holds (obj (field (codes "sub_repos") (arr (cons (str (codes "api")) nil)) end));
}

workspace_found : find_project_root nonzero tree home source ≡ workspace
unfolding find_project_root same_dir equal walk owns is_listed inside_git
workspace_found = refl

listed_found : find_project_root nonzero listed home source ≡ workspace
unfolding find_project_root same_dir equal walk owns is_listed sub_repos member includes_name
listed_found = refl

-- The home directory is never the root of a directory below it.
home_excluded : find_project_root nonzero tree workspace source ≡ source
unfolding find_project_root same_dir equal walk owns
home_excluded = refl

find_project_root-IsOwner_example :
    (find_project_root nonzero tree home source ≡ source)
    ⊎ ((tree.planning source ≡ false)
        × IsOwner nonzero tree home source source (find_project_root nonzero tree home source))
find_project_root-IsOwner_example = find_project_root-IsOwner nonzero tree home source

api_above :
    (find_project_root nonzero tree home api ≡ api)
      ⊎ ((tree.planning api ≡ false)
          × IsOwner nonzero tree home api api (find_project_root nonzero tree home api))
    → find_project_root nonzero tree home api ≡ workspace
    → length api ≢ length workspace
    → IsOwner nonzero tree home api api workspace
api_above (inl e) f n = absurd (n (ap length (sym e ∙ f)))
api_above (inr (p, o)) f n = rw f at o

api_found : find_project_root nonzero tree home api ≡ workspace
unfolding find_project_root same_dir equal walk owns is_listed inside_git
api_found = refl

api-IsOwner : IsOwner nonzero tree home api api workspace
api-IsOwner = api_above (find_project_root-IsOwner nonzero tree home api) api_found (λ e. cc)

find_project_root-owned_example : find_project_root nonzero tree home api ≡ workspace
unfolding same_dir equal
find_project_root-owned_example =
    find_project_root-owned nonzero tree home api workspace refl api-IsOwner
