-- ===== src/ProjectRoot/Owner.antt =====
-- Which directory is found.
use mikmongo.Base.{
  ◌≡◌, refl, sym, ap, ◌∙◌, ◌≢◌, ◌⊎◌, inl, inr, Bool, true, false, some, List, [], ◌∷◌, ◌++◌,
  append_assoc, arith, Bool-cases, Option-cases, length, drop, length-append,
}
use mathlib.Core.Path.{subst}
use mikmongo.Text.{Text}
use mikmongo.Text.Laws.{equal_iff, equal_refl}
use mikmongo.ProjectRoot.{Dir, same_dir, Tree, owns, walk, find_project_root}

same_dir_refl : (d : Dir) → same_dir d d ≡ true
unfolding same_dir
same_dir_refl [] = refl
same_dir_refl (s ∷ d) = ground (arith, equal_refl s, same_dir_refl d)

too_long : (root xs : Dir) (x : Text) (ys : Dir) → root ≡ xs ++ x ∷ (ys ++ root) → ⊥
too_long root xs x ys e =
    let l = ap length e in
    omega (arith, l, length-append xs (x ∷ (ys ++ root)), length-append ys root)

not_home : (d home : Dir) → same_dir d home ≡ false → d ≢ home
not_home d home n e = cc (rw e at n, same_dir_refl home)

same_dir-equal : (d e : Dir) → same_dir d e ≡ true → d ≡ e
unfolding same_dir
same_dir-equal [] [] h = refl
same_dir-equal [] (t ∷ e) h = cc
same_dir-equal (s ∷ d) [] h = cc
same_dir-equal (s ∷ d) (t ∷ e) h = ground (arith, equal_iff s t, same_dir-equal d e)

other_dir : (d home : Dir) → d ≢ home → same_dir d home ≡ false
other_dir d home n = elim (Bool-cases (same_dir d home)) [
  | inl e ↦ absurd (n (same_dir-equal d home e))
  | inr e ↦ e
]

-- What lies above a directory below `root`.
parent_form :
    (below : List Text) (name : Text) (root : Dir)
    → (y : Text) × (ys : List Text) × (below ++ name ∷ root ≡ y ∷ ys ++ root)
parent_form [] name root = (name, [], refl)
parent_form (b ∷ bs) name root =
    (b, bs ++ name ∷ [], ap (λ x. b ∷ x) (sym (append_assoc bs (name ∷ []) root)))

-- The only place between a directory and its parent is the parent.
no_home-here :
    (name : Text) (root home : Dir)
    → same_dir root home ≡ false
    → (xs : List Text) (x : Text) (ys : List Text) → name ∷ root ≡ xs ++ x ∷ (ys ++ root)
    → ys ++ root ≢ home
no_home-here name root home n [] x [] e h = not_home root home n h
no_home-here name root home n [] x (y ∷ ys) e h = too_long root [] y ys (ap (drop 1) e)
no_home-here name root home n (z ∷ xs) x ys e h = too_long root xs x ys (ap (drop 1) e)

nothing_between :
    (name : Text) (root xs : Dir) (x y : Text) (ys : Dir)
    → name ∷ root ≡ xs ++ x ∷ (y ∷ ys ++ root)
    → ⊥
nothing_between name root [] x y ys e = too_long root [] y ys (ap (drop 1) e)
nothing_between name root (z ∷ xs) x y ys e = too_long root xs x (y ∷ ys) (ap (drop 1) e)

module _ {N : Type 0} (nonzero : N → Bool) (tree : Tree N) (home resolved : Dir) where
  -- A directory above `from` that owns it, with neither the home directory nor another owner on the
  -- way up to it.
  pub record IsOwner (from root : Dir) : Type 0 where
    pub below : List Text
    pub name : Text
    pub splits : from ≡ below ++ name ∷ root
    pub owner : owns nonzero tree home resolved root name ≡ true
    pub no_home :
        (xs : List Text) (x : Text) (ys : List Text)
        → from ≡ xs ++ x ∷ (ys ++ root)
        → ys ++ root ≢ home
    pub nearest :
        (xs : List Text) (x y : Text) (ys : List Text)
        → from ≡ xs ++ x ∷ (y ∷ ys ++ root)
        → owns nonzero tree home resolved (y ∷ ys ++ root) x ≡ false

  here-IsOwner :
      (name : Text) (root : Dir)
      → same_dir root home ≡ false
      → owns nonzero tree home resolved root name ≡ true
      → IsOwner (name ∷ root) root
  here-IsOwner name root n o = record {
    below = [];
    name = name;
    splits = refl;
    owner = o;
    no_home = no_home-here name root home n;
    nearest = λ xs x y ys e. absurd (nothing_between name root xs x y ys e);
  }

  no_home-there :
      (name : Text) (parent root : Dir)
      → same_dir parent home ≡ false
      → IsOwner parent root
      → (xs : List Text) (x : Text) (ys : List Text) → name ∷ parent ≡ xs ++ x ∷ (ys ++ root)
      → ys ++ root ≢ home
  no_home-there name parent root n i [] x ys e h = not_home parent home n (ap (drop 1) e ∙ h)
  no_home-there name parent root n i (z ∷ xs) x ys e h = i.no_home xs x ys (ap (drop 1) e) h

  nearest-there :
      (name : Text) (parent root : Dir)
      → owns nonzero tree home resolved parent name ≡ false
      → IsOwner parent root
      → (xs : List Text) (x y : Text) (ys : List Text) → name ∷ parent ≡ xs ++ x ∷ (y ∷ ys ++ root)
      → owns nonzero tree home resolved (y ∷ ys ++ root) x ≡ false
  nearest-there name parent root o i [] x y ys e = cc
  nearest-there name parent root o i (z ∷ xs) x y ys e = i.nearest xs x y ys (ap (drop 1) e)

  there-IsOwner :
      (name : Text) (parent root : Dir)
      → same_dir parent home ≡ false
      → owns nonzero tree home resolved parent name ≡ false
      → IsOwner parent root
      → IsOwner (name ∷ parent) root
  there-IsOwner name parent root n o i = record {
    below = name ∷ i.below;
    name = i.name;
    splits = ap (λ x. name ∷ x) i.splits;
    owner = i.owner;
    no_home = no_home-there name parent root n i;
    nearest = nearest-there name parent root o i;
  }

  walk-IsOwner :
      (from root : Dir) → walk nonzero tree home resolved from ≡ some root → IsOwner from root
  unfolding walk
  walk-IsOwner [] root h = cc
  walk-IsOwner (name ∷ parent) root h = elim (Bool-cases (same_dir parent home)) [
    | inl e ↦ cc (rw e at h)
    | inr e ↦ elim (Bool-cases (owns nonzero tree home resolved parent name)) [
      | inl o ↦
          let same : parent ≡ root = cc (rw (e, o) at h) in
          rw (← same) (here-IsOwner name parent e o)
      | inr o ↦ there-IsOwner name parent root e o (walk-IsOwner parent root (rw (e, o) at h))
    ]
  ]

  walk-owned :
      (below : List Text) (name : Text) (root : Dir)
      → owns nonzero tree home resolved root name ≡ true
      → ((xs : List Text) (x : Text) (ys : List Text)
          → below ++ name ∷ root ≡ xs ++ x ∷ (ys ++ root)
          → ys ++ root ≢ home)
      → ((xs : List Text) (x y : Text) (ys : List Text)
          → below ++ name ∷ root ≡ xs ++ x ∷ (y ∷ ys ++ root)
          → owns nonzero tree home resolved (y ∷ ys ++ root) x ≡ false)
      → walk nonzero tree home resolved (below ++ name ∷ root) ≡ some root
  unfolding walk
  walk-owned [] name root o no_home nearest =
      rw (other_dir root home (no_home [] name [] refl), o) refl
  walk-owned (z ∷ below) name root o no_home nearest =
      let (y, ys, form) = parent_form below name root in
      let place = ap (λ x. z ∷ x) form in
      let free : owns nonzero tree home resolved (below ++ name ∷ root) z ≡ false =
        rw form (nearest [] z y ys place) in
      let away : same_dir (below ++ name ∷ root) home ≡ false =
        rw form (other_dir (y ∷ ys ++ root) home (no_home [] z (y ∷ ys) place)) in
      let later =
        walk-owned below name root o (λ xs x zs e. no_home (z ∷ xs) x zs (ap (λ l. z ∷ l) e))
          (λ xs x v zs e. nearest (z ∷ xs) x v zs (ap (λ l. z ∷ l) e)) in
      rw (away, free, later) refl

  -- Without planning files of its own, a directory is brought to the nearest one above that owns it,
  -- if there is one with the home directory not on the way.
  pub find_project_root-owned :
      (root : Dir)
      → tree.planning resolved ≡ false
      → IsOwner resolved root
      → find_project_root nonzero tree home resolved ≡ root
  unfolding find_project_root
  find_project_root-owned root p i =
      let found =
        subst (λ d. walk nonzero tree home resolved d ≡ some root) (sym i.splits)
          (walk-owned i.below i.name root i.owner (λ xs x ys e. i.no_home xs x ys (i.splits ∙ e))
            (λ xs x y ys e. i.nearest xs x y ys (i.splits ∙ e))) in
      rw (find_project_root, p, found) refl

  -- The project root is the directory itself, and surely so if it has planning files of its own, or
  -- the nearest directory above that owns it, with the home directory not on the way.
  pub find_project_root-IsOwner :
      (find_project_root nonzero tree home resolved ≡ resolved)
      ⊎ ((tree.planning resolved ≡ false)
          × IsOwner resolved (find_project_root nonzero tree home resolved))
  unfolding find_project_root
  find_project_root-IsOwner = elim (Bool-cases (tree.planning resolved)) [
    | inl e ↦ inl (rw (find_project_root, e) refl)
    | inr e ↦ elim (Option-cases (walk nonzero tree home resolved resolved)) [
      | inl f ↦ inl (rw (find_project_root, e, f) refl)
      | inr (root, f) ↦ inr (e, rw (find_project_root, e, f) (walk-IsOwner resolved root f))
    ]
  ]
