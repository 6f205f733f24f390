-- ===== src/PhaseDir/Search.antt =====
-- Searching the directory of a phase.
use mikmongo.Base.{
  ℕ, ◌≡◌, refl, ◌∙◌, ◌⊎◌, inl, inr, Bool, true, Option, none, some, List, [], ◌∷◌, arith,
  Bool-cases, Option-cases, In,
}
use Prim.Native.Nat.{Ordering}
use mikmongo.Text.{Text, join_path, codes}
use mikmongo.PhaseNum.{normalize_phase_name}
use mikmongo.PhaseDir.{
  Fs, Dirent, PhaseInfo, find, names_phase, read_subdirectories, search_phase_in_dir, planning_dir,
  planning_rel, find_phase, archive_version, search_archives, archive_dirs, phase_info,
  PhaseFileStats, get_phase_file_stats, search_milestones,
}

find-some :
    (test : Text → Bool) (xs : List Text) {x : Text}
    → find test xs ≡ some x
    → In x xs × (test x ≡ true)
unfolding find
find-some test [] h = cc
find-some test (y ∷ ys) h = elim (Bool-cases (test y)) [
  | inl e ↦ (inl (ground arith), ground arith)
  | inr e ↦ let (i, q) = find-some test ys (rw e at h) in (inr i, q)
]

module _ (lc : Text → Text → Ordering) where
  -- What a search returns describes a subdirectory that was listed and that starts with the name.
  pub record IsFoundIn (fs : Fs) (base rel_base normalized : Text) (info : PhaseInfo) : Type 0 where
    pub dir : Text
    pub stats : PhaseFileStats
    pub listed : In dir (read_subdirectories lc (fs.read_dir base))
    pub named : names_phase normalized dir ≡ true
    pub read : get_phase_file_stats fs (join_path base dir) ≡ some stats
    pub described : info ≡ phase_info rel_base dir stats

  -- A search that finds a phase describes a listed subdirectory whose name starts with the wanted
  -- one, by the files that reading this subdirectory gave.
  pub search_phase_in_dir-IsFoundIn :
      (fs : Fs) (base rel_base normalized : Text) (info : PhaseInfo)
      → search_phase_in_dir lc fs base rel_base normalized ≡ some info
      → IsFoundIn fs base rel_base normalized info
  unfolding search_phase_in_dir
  search_phase_in_dir-IsFoundIn fs base rel_base normalized info h =
      elim (Option-cases
        (find (names_phase normalized) (read_subdirectories lc (fs.read_dir base)))) [
          | inl e ↦ cc (rw (e, search_phase_in_dir) at h)
          | inr (dir, e) ↦ elim (Option-cases (get_phase_file_stats fs (join_path base dir))) [
            | inl f ↦ cc (rw (e, search_phase_in_dir, f) at h)
            | inr (stats, f) ↦
                let (listed, named) = find-some (names_phase normalized) _ e in
                record {
                  dir = dir;
                  stats = stats;
                  listed = listed;
                  named = named;
                  read = f;
                  described = ground arith;
                }
          ]
        ]

  -- Where `find_phase` has its answer from when the current phases have none.
  pub record IsArchived (fs : Fs) (cwd normalized : Text) (info : PhaseInfo) : Type 0 where
    pub entries : List Dirent
    pub name : Text
    pub found : PhaseInfo
    pub read : fs.read_dir (join_path cwd (codes ".planning/milestones")) ≡ some entries
    pub listed : In name (archive_dirs entries)
    pub search :
        search_phase_in_dir lc fs
          (join_path (join_path cwd (codes ".planning/milestones")) name)
          (join_path (codes ".planning/milestones") name)
          normalized
        ≡ some found
    pub marked : info ≡ record found { archived = archive_version name }

  search_archives-finds :
      (fs : Fs) (milestones normalized : Text) (archives : List Text) (info : PhaseInfo)
      → search_archives lc fs milestones normalized archives ≡ some info
      → (name : Text) × (found : PhaseInfo) × In name archives
        × (search_phase_in_dir lc fs
              (join_path milestones name)
              (join_path (codes ".planning/milestones") name)
              normalized
            ≡ some found)
        × (info ≡ record found { archived = archive_version name })
  unfolding search_archives
  search_archives-finds fs milestones normalized [] info h = cc
  search_archives-finds fs milestones normalized (name ∷ rest) info h =
      elim (Option-cases (
        search_phase_in_dir lc fs (join_path milestones name)
          (join_path (codes ".planning/milestones") name) normalized)) [
            | inl e ↦
                let (n, found, i, s, m) =
                  search_archives-finds fs milestones normalized rest info
                    (rw (e, search_archives) at h) in
                (n, found, inr i, s, m)
            | inr (found, e) ↦ (name, found, inl refl, e, cc (rw (e, search_archives) at h))
          ]

  search_milestones-IsArchived :
      (fs : Fs) (cwd normalized : Text) (info : PhaseInfo)
      → search_milestones lc fs (join_path cwd (codes ".planning/milestones")) normalized
        ≡ some info
      → IsArchived fs cwd normalized info
  search_milestones-IsArchived fs cwd normalized info h =
      elim (Bool-cases (fs.exists (join_path cwd (codes ".planning/milestones")))) [
        | inl e ↦ elim (Option-cases (fs.read_dir (join_path cwd (codes ".planning/milestones")))) [
          | inl f ↦ cc (rw (e, f) at h)
          | inr (entries, f) ↦
              let (name, found, listed, search, marked) =
                search_archives-finds fs _ normalized (archive_dirs entries) info
                  (rw (e, f) at h) in
              record {
                entries = entries;
                name = name;
                found = found;
                read = f;
                listed = listed;
                search = search;
                marked = marked;
              }
        ]
        | inr e ↦ cc (rw e at h)
      ]

  -- A phase that is found is one of the current phases, or, only when the search there finds none,
  -- one of an archived milestone, which the answer then names.
  pub find_phase-sources :
      (fs : Fs) (cwd : Text) (ws : Option Text) (c : ℕ) (phase : Text) (info : PhaseInfo)
      → find_phase lc fs cwd ws (c ∷ phase) ≡ some info
      → IsFoundIn fs
          (join_path (planning_dir cwd ws) (codes "phases"))
          (join_path (planning_rel ws) (codes "phases"))
          (normalize_phase_name (c ∷ phase))
          info
        ⊎ ((search_phase_in_dir lc fs
                (join_path (planning_dir cwd ws) (codes "phases"))
                (join_path (planning_rel ws) (codes "phases"))
                (normalize_phase_name (c ∷ phase))
              ≡ none)
            × IsArchived fs cwd (normalize_phase_name (c ∷ phase)) info)
  unfolding find_phase
  find_phase-sources fs cwd ws c phase info h =
      elim (Option-cases (
        search_phase_in_dir lc fs (join_path (planning_dir cwd ws) (codes "phases"))
          (join_path (planning_rel ws) (codes "phases")) (normalize_phase_name (c ∷ phase)))) [
            | inl e ↦ inr (e, search_milestones-IsArchived fs cwd _ info (rw (e, find_phase) at h))
            | inr (found, e) ↦
                inl (search_phase_in_dir-IsFoundIn fs _ _ _ info (e ∙ (rw (e, find_phase) at h)))
          ]
