-- ===== src/Security/Paths/Containment.antt =====
-- The test on the texts of two paths decides containment of directories.
use mikmongo.Base.{
  ℕ, ◌≡◌, refl, ◌∙◌, ◌↔◌, inl, inr, Bool, true, false, not, ◌&&◌, Option, some, [], ◌∷◌, ◌++◌,
  append-nil, append_assoc, arith, ◌==◌, Bool-cases, Option-cases, any, All, All-append, ◌⊎◌, none,
}
use mikmongo.Text.{Text, codes, equal, starts_with}
use mikmongo.Text.Laws.{equal_iff, starts_with_append, starts_with_nil, starts_with_common}
use mikmongo.Security.Paths.{
  Segs, render, render_below, contained, validate_path, safe, real_base, real_target, resolve,
  drop_last, last_only, is_absolute,
}
use mikmongo.Security.Paths.Segments.{NoSlash, IsPlain, resolve-IsPlain, last_only-IsPlain}

-- Two texts with no slash that stand before a slash are equal if one text starts with the other.
starts_with-segment :
    (x y s t : Text)
    → NoSlash x
    → NoSlash y
    → starts_with (y ++ b'/' ∷ s) (x ++ b'/' ∷ t) ≡ true
    → (x ≡ y) × (starts_with s t ≡ true)
unfolding starts_with
starts_with-segment [] [] s t hx hy h = ground arith
starts_with-segment [] (d ∷ y) s t hx hy h = ground arith
starts_with-segment (c ∷ x) [] s t hx hy h = ground arith
starts_with-segment (c ∷ x) (d ∷ y) s t hx hy h =
    ground (arith, starts_with-segment x y s t hx.1 hy.1)

-- The text of a path and a slash, behind its first slash.
abbrev after : Segs → Text
after [] = []
after (z ∷ zs) = z ++ (render_below zs ++ codes "/")

render_below-after : (p : Segs) → render_below p ++ codes "/" ≡ b'/' ∷ after p
unfolding render_below
render_below-after [] = refl
render_below-after (z ∷ zs) = rw append_assoc

starts_with_slash : (s t : Text) → starts_with (b'/' ∷ s) (b'/' ∷ t) ≡ starts_with s t
unfolding starts_with
starts_with_slash s t = refl

below-prefix :
    (b p : Segs)
    → All IsPlain b
    → All IsPlain p
    → starts_with (after p) (after b) ≡ true
    → (more : Segs) × (p ≡ b ++ more)
below-prefix [] p hb hp h = (p, refl)
below-prefix ([] ∷ bs) p hb hp h = absurd (hb.0.1 refl)
below-prefix ((c ∷ x) ∷ bs) [] hb hp h = unfold starts_with in ([], cc)
below-prefix ((c ∷ x) ∷ bs) (y ∷ ps) hb hp h =
    let (same, rest) =
      starts_with-segment (c ∷ x) y (after ps) (after bs) hb.0.0 hp.0.0
        (rw (render_below-after ps, render_below-after bs) at h) in
    let (more, e) = below-prefix bs ps hb.1 hp.1 rest in (more, rw (same, e))

contained-starts :
    (b p : Segs)
    → contained b p ≡ true
    → starts_with (render p ++ codes "/") (render b ++ codes "/") ≡ true
unfolding contained
contained-starts b p h = elim (Bool-cases (equal (render p) (render b))) [
  | inl e ↦
      rw ((equal_iff _ _).0 e)
        (rw (append-nil (render b ++ codes "/")) at (starts_with_append (render b ++ codes "/") []))
  | inr e ↦ rw e at h
]

starts_with_slashes :
    (b p : Segs)
    → starts_with (render_below p ++ codes "/") (render_below b ++ codes "/") ≡ true
    → starts_with (after p) (after b) ≡ true
starts_with_slashes b p h =
    rw (← starts_with_slash (after p) (after b))
      (rw (render_below-after p, render_below-after b) at h)

-- A path that passes the test is the base or lies below it.
contained-prefix :
    (b p : Segs)
    → All IsPlain b
    → All IsPlain p
    → contained b p ≡ true
    → (more : Segs) × (p ≡ b ++ more)
contained-prefix [] [] hb hp h = ([], refl)
contained-prefix [] (y ∷ ps) hb hp h = (y ∷ ps, refl)
contained-prefix ([] ∷ bs) [] hb hp h = absurd (hb.0.1 refl)
contained-prefix ((c ∷ x) ∷ bs) [] hb hp h =
    let test = contained-starts ((c ∷ x) ∷ bs) [] h in
    let ne = hb.0.0.0 in ([], unfold render render_below starts_with in ground arith)
contained-prefix (x ∷ bs) (y ∷ ps) hb hp h =
    below-prefix (x ∷ bs) (y ∷ ps) hb hp (
      starts_with_slashes (x ∷ bs) (y ∷ ps) (unfold render in contained-starts (x ∷ bs) (y ∷ ps) h))

prefix-starts : (b more : Segs) → starts_with (after (b ++ more)) (after b) ≡ true
prefix-starts [] more = starts_with_nil (after more)
prefix-starts (x ∷ bs) more =
    starts_with_common x (render_below (bs ++ more) ++ codes "/") (render_below bs ++ codes "/")
    ∙ rw (render_below-after (bs ++ more), render_below-after bs)
        (starts_with_slash (after (bs ++ more)) (after bs) ∙ prefix-starts bs more)

prefix-contained : (x : Text) (bs more : Segs) → contained (x ∷ bs) ((x ∷ bs) ++ more) ≡ true
unfolding contained render
prefix-contained x bs more =
    let below : starts_with (render_below ((x ∷ bs) ++ more) ++ codes "/")
          (render_below (x ∷ bs) ++ codes "/")
        ≡ true =
      rw (render_below-after ((x ∷ bs) ++ more), render_below-after (x ∷ bs))
        (starts_with_slash (after ((x ∷ bs) ++ more)) (after (x ∷ bs))
          ∙ prefix-starts (x ∷ bs) more) in
    ground arith

-- The path `p` is `base` or lies below it, and each of its segments names an entry of a directory.
pub record IsInside (base p : Segs) : Type 0 where
  pub below : Segs
  pub splits : p ≡ base ++ below
  pub plain : All IsPlain p

-- For a base other than the root, the test on the texts accepts exactly the paths at or below it:
-- a directory whose name only begins like the base's is refused.
pub contained_iff :
    (x : Text) (bs p : Segs)
    → All IsPlain (x ∷ bs)
    → All IsPlain p
    → (contained (x ∷ bs) p ≡ true) ↔ IsInside (x ∷ bs) p
contained_iff x bs p hb hp = (
  λ h.
      let (below, splits) = contained-prefix (x ∷ bs) p hb hp h in
      record { below = below; splits = splits; plain = hp },
  λ i. rw i.splits (prefix-contained x bs i.below),
)

module _ (realpath : Segs → Option Segs) where
  -- Resolving symbolic links gives plain paths.
  abbrev pub IsReal : Type 0
  IsReal = (p q : Segs) → realpath p ≡ some q → All IsPlain q

  -- `p` is `q` with its symbolic links resolved; or, where that fails, the last segment of `q` below
  -- its parent with the links of that resolved; or `q` itself, where that fails as well.
  abbrev pub IsResolved : Segs → Segs → Type 0
  IsResolved q p =
      (realpath q ≡ some p)
      ⊎ ((realpath q ≡ none)
          × ((parent : Segs) × (realpath (drop_last q) ≡ some parent)
              × (p ≡ parent ++ last_only q)))
      ⊎ ((realpath q ≡ none) × (realpath (drop_last q) ≡ none) × (p ≡ q))

  real_target-IsResolved : (q : Segs) → IsResolved q (real_target realpath q)
  unfolding real_target
  real_target-IsResolved q = elim (Option-cases (realpath q)) [
    | inr (p, e) ↦ rw e (inl refl)
    | inl e ↦ elim (Option-cases (realpath (drop_last q))) [
      | inr (parent, f) ↦ rw (e, f) (inr (inl (refl, (parent, refl, refl))))
      | inl f ↦ rw (e, f) (inr (inr (refl, refl, refl)))
    ]
  ]

  real_target-IsPlain : IsReal → (p : Segs) → All IsPlain p → All IsPlain (real_target realpath p)
  unfolding real_target
  real_target-IsPlain real p h = elim (Option-cases (realpath p)) [
    | inl e ↦ elim (Option-cases (realpath (drop_last p))) [
      | inl f ↦ rw (e, f) h
      | inr (parent, f) ↦
          rw (e, f)
            (All-append IsPlain parent (last_only p) (real (drop_last p) parent f)
              (last_only-IsPlain p h))
    ]
    | inr (q, e) ↦ rw e (real p q e)
  ]

  real_base-IsPlain : IsReal → (p : Segs) → All IsPlain p → All IsPlain (real_base realpath p)
  real_base-IsPlain real p h = elim (Option-cases (realpath p)) [
    | inl e ↦ rw e h
    | inr (q, e) ↦ rw e (real p q e)
  ]

  validate_path-passes :
      (cwd : Segs) (c : ℕ) (file : Text) (d : ℕ) (dir : Text) (allow : Bool) (p : Segs)
      → validate_path realpath cwd (c ∷ file) (d ∷ dir) allow ≡ safe p
      → let base = resolve cwd (d ∷ dir) in
        (contained (real_base realpath base) p ≡ true)
        × (real_target realpath (resolve base (c ∷ file)) ≡ p)
        × (any (λ u. u == 0) (c ∷ file) ≡ false)
        × ((is_absolute (c ∷ file) && not allow) ≡ false)
  unfolding validate_path
  validate_path-passes cwd c file d dir allow p h = ground arith

  -- A path that is found safe is the given one, taken from the base directory, with its symbolic links
  -- resolved; or with those of its parent resolved, where it does not exist; or as it is, where the
  -- parent does not exist either. It is the base directory, with its own links resolved if it exists,
  -- or a path below it with no `.`, `..` or empty segment; and a text with a null byte is never found
  -- safe, nor an absolute one unless those are allowed.
  pub validate_path-IsInside :
      IsReal
      → (cwd : Segs) (file dir : Text) (allow : Bool) (p : Segs) → All IsPlain cwd
      → validate_path realpath cwd file dir allow ≡ safe p
      → IsInside (real_base realpath (resolve cwd dir)) p
        × IsResolved (resolve (resolve cwd dir) file) p
        × (any (λ u. u == 0) file ≡ false)
        × ((is_absolute file && not allow) ≡ false)
  validate_path-IsInside real cwd [] dir allow p hc h = unfold validate_path in cc
  validate_path-IsInside real cwd (c ∷ file) [] allow p hc h = unfold validate_path in cc
  validate_path-IsInside real cwd (c ∷ file) (d ∷ dir) allow p hc h =
      let base = resolve cwd (d ∷ dir) in
      let base_plain = resolve-IsPlain cwd (d ∷ dir) hc in
      let (inside, target, no_null, no_absolute) =
        validate_path-passes cwd c file d dir allow p h in
      let p_plain : All IsPlain p = rw target at (
        real_target-IsPlain real (resolve base (c ∷ file))
          (resolve-IsPlain base (c ∷ file) base_plain)) in
      let (below, splits) =
        contained-prefix (real_base realpath base) p (real_base-IsPlain real base base_plain)
          p_plain inside in
      (
        record { below = below; splits = splits; plain = p_plain },
        rw target at (real_target-IsResolved (resolve base (c ∷ file))),
        no_null,
        no_absolute,
      )
