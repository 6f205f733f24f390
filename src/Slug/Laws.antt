-- ===== src/Slug/Laws.antt =====
-- The form of a slug.
use mikmongo.Base.{
  ℕ, ◌≡◌, refl, ◌⊎◌, inl, inr, Bool, true, false, [], ◌∷◌, map, arith, ◌==◌, Bool-cases, is_empty,
}
use mikmongo.Text.{Text, to_lower, is_lower_alnum, strip_start, strip_end}
use mikmongo.Slug.{collapse, slug}

-- Lower-case letters, digits and dashes, with no two dashes in a row; the flag says that a dash
-- stands in front.
abbrev Runs : Bool → Text → Type 0
Runs dash [] = Unit
Runs dash (c ∷ s) =
    ((is_lower_alnum c ≡ true) × Runs false s) ⊎ ((c ≡ b'-') × (dash ≡ false) × Runs true s)

-- The same, and the last is no dash.
abbrev pub Ends : Bool → Text → Type 0
Ends dash [] = dash ≡ false
Ends dash (c ∷ s) =
    ((is_lower_alnum c ≡ true) × Ends false s) ⊎ ((c ≡ b'-') × (dash ≡ false) × Ends true s)

-- Words of lower-case letters and digits with one dash between two of them, or nothing.
abbrev pub IsSlug : Text → Type 0
IsSlug s = (s ≡ []) ⊎ Ends true s

collapse-Runs : (inside : Bool) (s : Text) → Runs inside (collapse inside s)
unfolding collapse
collapse-Runs inside [] = tt
collapse-Runs true (c ∷ s) = elim (Bool-cases (is_lower_alnum c)) [
  | inl e ↦ rw e (inl (e, collapse-Runs false s))
  | inr e ↦ rw e (collapse-Runs true s)
]
collapse-Runs false (c ∷ s) = elim (Bool-cases (is_lower_alnum c)) [
  | inl e ↦ rw e (inl (e, collapse-Runs false s))
  | inr e ↦ rw e (inr (refl, refl, collapse-Runs true s))
]

dash_not_alnum : is_lower_alnum b'-' ≡ false
unfolding is_lower_alnum
dash_not_alnum = refl

ne_dash : (c : ℕ) → is_lower_alnum c ≡ true → (c == b'-') ≡ false
unfolding is_lower_alnum
ne_dash c h = ground arith

strip_start-Runs : (dash : Bool) (s : Text) → Runs dash s → Runs true (strip_start b'-' s)
unfolding strip_start
strip_start-Runs dash [] h = tt
strip_start-Runs dash (c ∷ s) (inl (a, r)) = rw (ne_dash c a) (inl (a, r))
strip_start-Runs dash (c ∷ s) (inr (e, d, r)) = rw e (strip_start-Runs true s r)

Ends-not_empty : (s : Text) → Ends true s → is_empty s ≡ false
Ends-not_empty [] h = cc
Ends-not_empty (c ∷ s) h = refl

Ends-false : (s : Text) → Ends true s → Ends false s
Ends-false [] h = refl
Ends-false (c ∷ s) (inl h) = inl h
Ends-false (c ∷ s) (inr (p, d, r)) = cc

strip_start_of_Ends : (s : Text) → Ends true s → strip_start b'-' s ≡ s
unfolding strip_start
strip_start_of_Ends [] h = refl
strip_start_of_Ends (c ∷ s) (inl (a, r)) = rw (ne_dash c a)
strip_start_of_Ends (c ∷ s) (inr (p, d, r)) = cc

strip_end-Ends :
    (dash : Bool) (s : Text) → Runs dash s → (strip_end b'-' s ≡ []) ⊎ Ends dash (strip_end b'-' s)
unfolding strip_end
strip_end-Ends dash [] h = inl refl
strip_end-Ends dash (c ∷ s) (inl (a, r)) = elim (strip_end-Ends false s r) [
  | inl e ↦ rw (ne_dash c a, e) (inr (inl (a, refl)))
  | inr e ↦ rw (ne_dash c a) (inr (inl (a, e)))
]
strip_end-Ends dash (c ∷ s) (inr (p, d, r)) = elim (strip_end-Ends true s r) [
  | inl e ↦ rw (p, e) (inl refl)
  | inr e ↦ rw (p, Ends-not_empty _ e) (inr (inr (refl, d, e)))
]

collapse_of_Ends : (dash : Bool) (s : Text) → Ends dash s → collapse dash s ≡ s
unfolding collapse
collapse_of_Ends dash [] h = refl
collapse_of_Ends dash (c ∷ s) (inl (a, r)) = rw (a, collapse_of_Ends false s r)
collapse_of_Ends dash (c ∷ s) (inr (p, d, r)) =
    ground (arith, collapse_of_Ends true s r, dash_not_alnum)

map-to_lower_of_Ends : (dash : Bool) (s : Text) → Ends dash s → map to_lower s ≡ s
unfolding to_lower is_lower_alnum
map-to_lower_of_Ends dash [] h = refl
map-to_lower_of_Ends dash (c ∷ s) (inl (a, r)) = ground (arith, map-to_lower_of_Ends false s r)
map-to_lower_of_Ends dash (c ∷ s) (inr (p, d, r)) = ground (arith, map-to_lower_of_Ends true s r)

strip_end_of_Ends : (dash : Bool) (s : Text) → Ends dash s → strip_end b'-' s ≡ s
unfolding strip_end
strip_end_of_Ends dash [] h = refl
strip_end_of_Ends dash (c ∷ s) (inl (a, r)) = rw (ne_dash c a, strip_end_of_Ends false s r)
strip_end_of_Ends dash (c ∷ s) (inr (p, d, r)) =
    rw (p, strip_end_of_Ends true s r, Ends-not_empty s r)

-- Every slug is well formed: words of `[a-z0-9]` joined by single dashes.
pub slug-IsSlug : (text : Text) → IsSlug (slug text)
unfolding slug
slug-IsSlug text =
    strip_end-Ends true _ (strip_start-Runs false _ (collapse-Runs false (map to_lower text)))

-- A text that is a slug already stays as it is.
pub slug_of_IsSlug : (s : Text) → IsSlug s → slug s ≡ s
unfolding slug strip_end strip_start
slug_of_IsSlug s (inl e) = rw e
slug_of_IsSlug s (inr h) =
    rw (map-to_lower_of_Ends true s h, collapse_of_Ends false s (Ends-false s h))
      (rw (strip_start_of_Ends s h, strip_end_of_Ends true s h))
