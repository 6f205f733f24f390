-- ===== src/Security/Paths/Segments.antt =====
-- Resolving a path leaves plain segments, and a path's text determines its segments.
use mikmongo.Base.{
  ℕ, ◌≡◌, ◌≢◌, inl, inr, false, ◌||◌, List, [], ◌∷◌, arith, ◌==◌, Bool-cases, is_empty, All,
  All-append,
}
use mikmongo.Text.{Text, codes, equal, split, push_head}
use mikmongo.Text.Laws.{equal_iff}
use mikmongo.Security.Paths.{Segs, drop_last, last_only, enter, enter_all, resolve, is_absolute}

abbrev pub NoSlash : Text → Type 0
NoSlash = All (λ c. (c == b'/') ≡ false)

-- A segment that names an entry of its directory.
abbrev pub IsPlain : Text → Type 0
IsPlain s = NoSlash s × (s ≢ []) × (s ≢ codes ".") × (s ≢ codes "..")

push_head-NoSlash :
    (c : ℕ) (ps : List Text) → (c == b'/') ≡ false → All NoSlash ps → All NoSlash (push_head c ps)
unfolding push_head
push_head-NoSlash c [] e h = ((e, tt), tt)
push_head-NoSlash c (p ∷ ps) e (h, k) = ((e, h), k)

split-NoSlash : (s : Text) → All NoSlash (split b'/' s)
unfolding split
split-NoSlash [] = (tt, tt)
split-NoSlash (c ∷ s) = elim (Bool-cases (c == b'/')) [
  | inl e ↦ rw e (tt, split-NoSlash s)
  | inr e ↦ rw e (push_head-NoSlash c (split b'/' s) e (split-NoSlash s))
]

entry_name :
    (part : Text)
    → (is_empty part || equal part (codes ".")) ≡ false
    → equal part (codes "..") ≡ false
    → (part ≢ []) × (part ≢ codes ".") × (part ≢ codes "..")
entry_name part h k = ground (arith, equal_iff part (codes "."), equal_iff part (codes ".."))

pub drop_last-IsPlain : (p : Segs) → All IsPlain p → All IsPlain (drop_last p)
unfolding drop_last
drop_last-IsPlain [] h = tt
drop_last-IsPlain (s ∷ []) h = tt
drop_last-IsPlain (s ∷ t ∷ ss) (h, k) = (h, drop_last-IsPlain (t ∷ ss) k)

pub last_only-IsPlain : (p : Segs) → All IsPlain p → All IsPlain (last_only p)
unfolding last_only
last_only-IsPlain [] h = tt
last_only-IsPlain (s ∷ []) h = h
last_only-IsPlain (s ∷ t ∷ ss) (h, k) = last_only-IsPlain (t ∷ ss) k

enter-IsPlain : (p : Segs) (part : Text) → All IsPlain p → NoSlash part → All IsPlain (enter p part)
unfolding enter
enter-IsPlain p part h n = elim (Bool-cases (is_empty part || equal part (codes "."))) [
  | inl skip ↦ rw skip h
  | inr go ↦ elim (Bool-cases (equal part (codes ".."))) [
    | inl up ↦ rw (go, up) (drop_last-IsPlain p h)
    | inr down ↦
        let (some_unit, not_dot, not_up) = entry_name part go down in
        rw (go, down) (All-append IsPlain p (part ∷ []) h ((n, some_unit, not_dot, not_up), tt))
  ]
]

enter_all-IsPlain :
    (p : Segs) (parts : List Text)
    → All IsPlain p
    → All NoSlash parts
    → All IsPlain (enter_all p parts)
unfolding enter_all
enter_all-IsPlain p [] h n = h
enter_all-IsPlain p (part ∷ parts) h (n, ns) =
    enter_all-IsPlain (enter p part) parts (enter-IsPlain p part h n) ns

-- Whatever the text, resolving it from a plain path gives a plain path.
pub resolve-IsPlain : (from : Segs) (p : Text) → All IsPlain from → All IsPlain (resolve from p)
unfolding resolve
resolve-IsPlain from p h = elim (Bool-cases (is_absolute p)) [
  | inl e ↦ rw e (enter_all-IsPlain [] (split b'/' p) tt (split-NoSlash p))
  | inr e ↦ rw e (enter_all-IsPlain from (split b'/' p) h (split-NoSlash p))
]
