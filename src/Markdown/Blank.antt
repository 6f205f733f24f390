-- ===== src/Markdown/Blank.antt =====
-- Line ends in a normalised document.
use mikmongo.Base.{
  ℕ, ◌+◌, ◌≡◌, refl, inl, inr, Bool, true, false, not, ◌&&◌, [], ◌∷◌, ◌++◌, arith, ltb, leb, ◌==◌,
  if◌then◌else◌, Bool-cases, is_empty,
}
use mikmongo.Text.{Text, codes, strip_end}
use mikmongo.Markdown.{limit_runs, one_end, normalize_md}

-- Behind `run` line ends, no more than two stand together.
unfoldable pub at_most_two : ℕ → Text → Bool
at_most_two run [] = leb run 2
at_most_two run (c ∷ s) =
    let more = at_most_two (run + 1) s in
    let other = at_most_two 0 s in if c == b'\n' then ltb run 2 && more else other

-- The text is empty or its last unit is no line end.
unfoldable pub ends_solid : Text → Bool
ends_solid [] = true
ends_solid (c ∷ []) = not (c == b'\n')
ends_solid (c ∷ d ∷ s) = ends_solid (d ∷ s)

limit_runs-at_most_two :
    (run : ℕ) (s : Text) → leb run 2 ≡ true → at_most_two run (limit_runs run s) ≡ true
unfolding limit_runs at_most_two
limit_runs-at_most_two run [] h = h
limit_runs-at_most_two run (c ∷ s) h = elim (Bool-cases (c == b'\n')) [
  | inl e ↦ elim (Bool-cases (ltb run 2)) [
    | inl f ↦ rw (e, f) (rw (e, f) (limit_runs-at_most_two (run + 1) s (ground arith)))
    | inr f ↦ rw (e, f) (limit_runs-at_most_two run s h)
  ]
  | inr e ↦ rw e (rw e (limit_runs-at_most_two 0 s refl))
]

strip_end-at_most_two :
    (run : ℕ) (s : Text)
    → leb run 2 ≡ true
    → at_most_two run s ≡ true
    → at_most_two run (strip_end b'\n' s) ≡ true
unfolding at_most_two strip_end
strip_end-at_most_two run [] l h = l
strip_end-at_most_two run (c ∷ s) l h =
    ground (arith, strip_end-at_most_two (run + 1) s, strip_end-at_most_two 0 s)

ends_solid-push : (c : ℕ) (s : Text) → is_empty s ≡ false → ends_solid (c ∷ s) ≡ ends_solid s
unfolding ends_solid
ends_solid-push c [] n = cc
ends_solid-push c (d ∷ s) n = refl

strip_end-ends_solid : (s : Text) → ends_solid (strip_end b'\n' s) ≡ true
unfolding ends_solid strip_end
strip_end-ends_solid [] = refl
strip_end-ends_solid (c ∷ s) =
    ground (arith, strip_end-ends_solid s, ends_solid-push c (strip_end b'\n' s))

at_most_two-append :
    (run : ℕ) (s : Text)
    → at_most_two run s ≡ true
    → ends_solid s ≡ true
    → is_empty s ≡ false
    → at_most_two run (s ++ codes "\n") ≡ true
unfolding at_most_two ends_solid
at_most_two-append run [] h e n = cc
at_most_two-append run (c ∷ []) h e n = ground arith
at_most_two-append run (c ∷ d ∷ s) h e n =
    ground (arith, at_most_two-append (run + 1) (d ∷ s), at_most_two-append 0 (d ∷ s))

empty_of : (s : Text) → is_empty s ≡ true → s ≡ []
empty_of [] h = refl
empty_of (c ∷ s) h = cc

one_end-at_most_two : (s : Text) → at_most_two 0 s ≡ true → at_most_two 0 (one_end s) ≡ true
unfolding one_end at_most_two
one_end-at_most_two s h = elim (Bool-cases (is_empty (strip_end b'\n' s))) [
  | inl e ↦ rw (empty_of (strip_end b'\n' s) e) refl
  | inr e ↦
      at_most_two-append 0 (strip_end b'\n' s) (strip_end-at_most_two 0 s refl h)
        (strip_end-ends_solid s) e
]

-- A normalised document that is not empty ends in exactly one line end, and nowhere in it do more
-- than two line ends stand together.
pub normalize_md-ends :
    (c : ℕ) (s : Text)
    → (at_most_two 0 (normalize_md (c ∷ s)) ≡ true)
      × ((body : Text) × (normalize_md (c ∷ s) ≡ body ++ codes "\n") × (ends_solid body ≡ true))
unfolding normalize_md one_end
normalize_md-ends c s = (
  one_end-at_most_two _ (limit_runs-at_most_two 0 _ refl),
  (strip_end b'\n' _, refl, strip_end-ends_solid _),
)
