-- ===== src/Phase/Complete/Next/Search.antt =====
-- The next phase is a later one, and none is found only where there is none.
use mikmongo.Base.{
  ◌≢◌, ap, ◌++◌, keep, ◌≡◌, refl, ◌⊎◌, inl, inr, true, false, Option, none, some, List, [], ◌∷◌,
  Option-cases, All, In,
}
use Prim.Native.Nat.{Ordering}
use mikmongo.Text.{Text}
use mikmongo.Regex.{Found, find, find_all, text_of}
use mikmongo.PhaseDir.{Dirent, directories}
use mikmongo.PhaseDir.Listing.{phases-IsPreorder}
use mikmongo.PhaseNum.{IsNumeric, compare_phase_num}
use mikmongo.Sort.{sort}
use mikmongo.Sort.Laws.{IsSorted, sort-IsSorted, All-sort, All-sort_inv}
use mikmongo.Milestone.{extract_current_milestone}
use mikmongo.Milestone.Info.{milestone_phases, milestone_filter}
use mikmongo.Phase.{dir_pattern}
use mikmongo.Phase.Complete.Next.{
  NextPhase, next_dir, next_listed, next_phase, named_phase, is_greater, dirs_in,
}

-- The number of a directory.
abbrev pub dir_number_of : Text → Option Text
dir_number_of dir = elim (find dir_pattern dir) [ none ↦ none | some m ↦ some (text_of 1 m) ]

abbrev pub listed_in : Option Text → Option Text → List Found
listed_in state none = []
listed_in state (some roadmap) = find_all named_phase (extract_current_milestone state roadmap)

All-map : (P Q : Text → Type 0) → ((x : Text) → P x → Q x) → (xs : List Text) → All P xs → All Q xs
All-map P Q f [] h = tt
All-map P Q f (x ∷ xs) h = (f x h.0, All-map P Q f xs h.1)

module _ (locale_compare : Text → Text → Ordering) (number : Text) where
  -- A phase comes behind the completed one.
  abbrev pub IsLater : Text → Type 0
  IsLater n = compare_phase_num locale_compare n number ≡ Ordering.gt

  abbrev pub NotLater : Text → Type 0
  NotLater n = compare_phase_num locale_compare n number ≢ Ordering.gt

  abbrev NoNumberLater : Option Text → Type 0
  NoNumberLater none = Unit {0}
  NoNumberLater (some n) = NotLater n

  abbrev pub NoDirLater : Text → Type 0
  NoDirLater dir = NoNumberLater (dir_number_of dir)

  -- The directory `d` is not behind `e`, or `e` is not that of a later phase.
  abbrev pub IsFirst : Text → Text → Type 0
  IsFirst d e = NoDirLater e ⊎ (e ≡ d) ⊎ (compare_phase_num locale_compare d e ≢ Ordering.gt)

  -- The first of the later phases of the directories.
  abbrev pub IsNextDir : List Text → Text → Type 0
  IsNextDir dirs n =
      (d : Text) × In d dirs × (dir_number_of d ≡ some n) × IsLater n × All (IsFirst d) dirs

  -- The first of the later phases of the roadmap, as it lists them.
  abbrev pub IsNextListed : List Found → Text → Type 0
  IsNextListed listed n =
      (before : List Found) × (m : Found) × (after : List Found) × (listed ≡ before ++ m ∷ after)
      × (text_of 1 m ≡ n)
      × IsLater n
      × All (λ m'. NotLater (text_of 1 m')) before

  -- What the next phase is to be, among the directories and the phases of the roadmap.
  abbrev pub IsNext : List Text → List Found → Option NextPhase → Type 0
  IsNext dirs listed none = All NoDirLater dirs × All (λ m. NotLater (text_of 1 m)) listed
  IsNext dirs listed (some p) =
      IsNextDir dirs p.number ⊎ (All NoDirLater dirs × IsNextListed listed p.number)

  greater_cases :
      (o : Ordering)
      → ((is_greater o ≡ true) × (o ≡ Ordering.gt)) ⊎ ((is_greater o ≡ false) × (o ≢ Ordering.gt))
  greater_cases Ordering.gt = inl (refl, refl)
  greater_cases Ordering.lt = inr (refl, λ e. cc)
  greater_cases Ordering.eq = inr (refl, λ e. cc)

  abbrev DirResult : List Text → Option NextPhase → Type 0
  DirResult dirs none = All NoDirLater dirs
  DirResult dirs (some p) = IsNextDir dirs p.number

  later-DirResult :
      (d : Text) (dirs : List Text) (o : Option NextPhase)
      → NoDirLater d
      → DirResult dirs o
      → DirResult (d ∷ dirs) o
  later-DirResult d dirs none n h = (n, h)
  later-DirResult d dirs (some p) n (e, i, q, l, f) = (e, inr i, q, l, (inl n, f))

  sorted-IsFirst :
      (d : Text) (dirs : List Text)
      → All (λ e. compare_phase_num locale_compare d e ≢ Ordering.gt) dirs
      → All (IsFirst d) dirs
  sorted-IsFirst d [] h = tt
  sorted-IsFirst d (e ∷ dirs) h = (inr (inr h.0), sorted-IsFirst d dirs h.1)

  next_dir-DirResult :
      (dirs : List Text)
      → IsSorted (compare_phase_num locale_compare) dirs
      → DirResult dirs (next_dir locale_compare number dirs)
  unfolding next_dir
  next_dir-DirResult [] h = tt
  next_dir-DirResult (d ∷ dirs) h = elim (Option-cases (find dir_pattern d)) [
    | inl e ↦
        rw (next_dir, e)
          (later-DirResult d dirs _ (rw (NoDirLater, dir_number_of, e) tt)
            (next_dir-DirResult dirs h.1))
    | inr (m, e) ↦ elim (greater_cases (compare_phase_num locale_compare (text_of 1 m) number)) [
      | inl (f, g) ↦
          rw (next_dir, e, f)
            (
              d,
              inl refl,
              rw (dir_number_of, e) refl,
              g,
              (inr (inl refl), sorted-IsFirst d dirs h.0),
            )
      | inr (f, g) ↦
          rw (next_dir, e, f)
            (later-DirResult d dirs _ (rw (NoDirLater, dir_number_of, e) g)
              (next_dir-DirResult dirs h.1))
    ]
  ]

  abbrev ListedResult : List Found → Option NextPhase → Type 0
  ListedResult listed none = All (λ m. NotLater (text_of 1 m)) listed
  ListedResult listed (some p) = IsNextListed listed p.number

  later-ListedResult :
      (m : Found) (ms : List Found) (o : Option NextPhase)
      → NotLater (text_of 1 m)
      → ListedResult ms o
      → ListedResult (m ∷ ms) o
  later-ListedResult m ms none n h = (n, h)
  later-ListedResult m ms (some p) n (before, e, after, s, t, l, f) =
      (m ∷ before, e, after, ap (λ x. m ∷ x) s, t, l, (n, f))

  next_listed-ListedResult :
      (ms : List Found) → ListedResult ms (next_listed locale_compare number ms)
  unfolding next_listed
  next_listed-ListedResult [] = tt
  next_listed-ListedResult (m ∷ ms) =
      elim (greater_cases (compare_phase_num locale_compare (text_of 1 m) number)) [
        | inl (f, g) ↦ rw f ([], m, ms, refl, refl, g, tt)
        | inr (f, g) ↦ rw f (later-ListedResult m ms _ g (next_listed-ListedResult ms))
      ]

  both :
      (dirs : List Text) (ms : List Found) (o : Option NextPhase)
      → All NoDirLater dirs
      → ListedResult ms o
      → IsNext dirs ms o
  both dirs ms none n h = (n, h)
  both dirs ms (some p) n h = inr (n, h)

  -- The directories of the milestone, in no order.
  abbrev pub milestone_dirs : List Text → Option (List Dirent) → List Text
  milestone_dirs phases none = []
  milestone_dirs phases (some es) = keep (milestone_filter phases) (directories es)

  In-self : (xs : List Text) → All (λ x. In x xs) xs
  In-self [] = tt
  In-self (x ∷ xs) =
      (inl refl, All-map (λ y. In y xs) (λ y. In y (x ∷ xs)) (λ y i. inr i) xs (In-self xs))

  In-All : (Q : Text → Type 0) (d : Text) (xs : List Text) → In d xs → All Q xs → Q d
  In-All Q d [] i h = elim i [ ]
  In-All Q d (x ∷ xs) (inl e) h = rw e h.0
  In-All Q d (x ∷ xs) (inr i) h = In-All Q d xs i h.1

  sort-NextDir :
      (xs : List Text) (n : Text)
      → IsNextDir (sort (compare_phase_num locale_compare) xs) n
      → IsNextDir xs n
  sort-NextDir xs n (d, i, q, l, f) =
      let cmp = compare_phase_num locale_compare in
      (
        d,
        In-All (λ x. In x xs) d (sort cmp xs) i (All-sort cmp (λ x. In x xs) xs (In-self xs)),
        q,
        l,
        All-sort_inv cmp (IsFirst d) xs f,
      )

  dirs-DirResult :
      (phases : List Text) (entries : Option (List Dirent))
      → All IsNumeric (milestone_dirs phases entries)
      → DirResult
          (milestone_dirs phases entries)
          (next_dir locale_compare number (dirs_in locale_compare phases entries))
  dirs-DirResult phases none h = unfold next_dir in tt
  dirs-DirResult phases (some es) h =
      let cmp = compare_phase_num locale_compare in
      let xs = keep (milestone_filter phases) (directories es) in
      let sorted = sort-IsSorted (phases-IsPreorder locale_compare) xs h in
      let found = next_dir-DirResult (sort cmp xs) sorted in
      elim (Option-cases (next_dir locale_compare number (sort cmp xs))) [
        | inl e ↦ rw e (All-sort_inv cmp NoDirLater xs (rw e at found))
        | inr (p, e) ↦ rw e (sort-NextDir xs p.number (rw e at found))
      ]

  -- Where the directories of the milestone have numeric names, the next phase is behind the completed one.
  -- It is that of a directory of the milestone, before which no directory of a later phase stands; or,
  -- when no directory is that of a later phase, the first later one in the order of the roadmap. If
  -- there is no next phase, neither a directory nor the roadmap has a later one.
  pub next_phase-IsNext :
      (entries : Option (List Dirent)) (state roadmap : Option Text)
      → All IsNumeric (milestone_dirs (milestone_phases state roadmap) entries)
      → IsNext
          (milestone_dirs (milestone_phases state roadmap) entries)
          (listed_in state roadmap)
          (next_phase locale_compare number entries state roadmap)
  unfolding next_phase
  next_phase-IsNext entries state none numeric =
      let phases = milestone_phases state none in
      let dirs = dirs_in locale_compare phases entries in
      let found = dirs-DirResult phases entries numeric in
      elim (Option-cases (next_dir locale_compare number dirs)) [
        | inl e ↦ rw (next_phase, e) (rw e at found, tt)
        | inr (p, e) ↦ rw (next_phase, e) (inl (rw e at found))
      ]
  next_phase-IsNext entries state (some roadmap) numeric =
      let phases = milestone_phases state (some roadmap) in
      let dirs = dirs_in locale_compare phases entries in
      let found = dirs-DirResult phases entries numeric in
      let ms = listed_in state (some roadmap) in
      elim (Option-cases (next_dir locale_compare number dirs)) [
        | inl e ↦
            rw (next_phase, e)
              (both (milestone_dirs phases entries) ms _ (rw e at found)
                (next_listed-ListedResult ms))
        | inr (p, e) ↦ rw (next_phase, e) (inl (rw e at found))
      ]
