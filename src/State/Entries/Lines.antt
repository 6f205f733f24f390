-- ===== src/State/Entries/Lines.antt =====
-- What is left of the blockers when one is resolved.
use mikmongo.Base.{
  map, ◌&&◌, ◌≡◌, refl, ◌⊎◌, inl, inr, Bool, true, false, not, ◌||◌, List, [], ◌∷◌, ◌++◌, arith,
  Bool-cases, is_empty, any, keep,
}
use mikmongo.Text.{
  to_lower, Text, codes, split, join, starts_with, includes, trim, trim_start, trim_end, is_space,
}
use mikmongo.Markdown.Kept.{split-NoEnd, split-join, keep-NoEnd}
use mikmongo.State.Entries.{stays, resolved_body}

abbrev pub is_item : Text → Bool
is_item l = starts_with l (codes "- ")

includes-append :
    (s t : Text) → includes t (codes "- ") ≡ true → includes (s ++ t) (codes "- ") ≡ true
unfolding includes
includes-append [] t h = h
includes-append (c ∷ s) t h = ground (arith, includes-append s t h)

starts-includes : (s : Text) → is_item s ≡ true → includes s (codes "- ") ≡ true
unfolding includes
starts-includes [] h = unfold starts_with in cc
starts-includes (c ∷ s) h = rw h refl

starts-append : (s t : Text) → is_item s ≡ true → is_item (s ++ t) ≡ true
unfolding starts_with
starts-append [] t h = cc
starts-append (c ∷ []) t h = ground arith
starts-append (c ∷ d ∷ s) t h = ground arith

-- A text of lines without the marks of an item has no line that is one.
join-items :
    (ls : List Text) → includes (join (codes "\n") ls) (codes "- ") ≡ false → any is_item ls ≡ false
unfolding join
join-items [] h = refl
join-items (l ∷ []) h = elim (Bool-cases (is_item l)) [
  | inl e ↦ cc (starts-includes l e)
  | inr e ↦ rw e refl
]
join-items (l ∷ m ∷ ls) h =
    let rest = join (codes "\n") (m ∷ ls) in
    elim (Bool-cases (is_item l)) [
      | inl e ↦
          cc (starts-includes (l ++ (codes "\n" ++ rest)) (starts-append l (codes "\n" ++ rest) e))
      | inr e ↦ elim (Bool-cases (includes rest (codes "- "))) [
        | inl f ↦ cc (includes-append l (codes "\n" ++ rest) (includes-append (codes "\n") rest f))
        | inr f ↦ rw e (join-items (m ∷ ls) f)
      ]
    ]

abbrev visible : Text → Bool
visible s = any (λ c. not (is_space c)) s

includes-visible : (s : Text) → includes s (codes "- ") ≡ true → visible s ≡ true
unfolding includes starts_with is_space
includes-visible [] h = cc
includes-visible (c ∷ s) h = ground (arith, includes-visible s)

trim_start-visible : (s : Text) → visible s ≡ true → visible (trim_start s) ≡ true
unfolding trim_start
trim_start-visible [] h = h
trim_start-visible (c ∷ s) h = elim (Bool-cases (is_space c)) [
  | inl e ↦ rw e (trim_start-visible s (rw e at h))
  | inr e ↦ rw e (rw e refl)
]

trim_end-visible : (s : Text) → visible s ≡ true → is_empty (trim_end s) ≡ false
unfolding trim_end
trim_end-visible [] h = cc
trim_end-visible (c ∷ s) h = elim (Bool-cases (is_space c)) [
  | inl e ↦ rw (e, trim_end-visible s (rw e at h)) refl
  | inr e ↦ rw e refl
]

trim-blank : (s : Text) → is_empty (trim s) ≡ true → includes s (codes "- ") ≡ false
unfolding trim
trim-blank s h = elim (Bool-cases (includes s (codes "- "))) [
  | inl e ↦ cc (trim_end-visible (trim_start s) (trim_start-visible s (includes-visible s e)))
  | inr e ↦ e
]

abbrev pub kept_lines : Text → Text → List Text
kept_lines text body =
    keep (λ l. not (is_item l && includes (map to_lower l) (map to_lower text))) (split b'\n' body)

-- The filter of the code keeps just these lines.
stays-kept :
    (text : Text) (ls : List Text)
    → keep (stays text) ls
      ≡ keep (λ l. not (is_item l && includes (map to_lower l) (map to_lower text))) ls
unfolding stays
stays-kept text [] = refl
stays-kept text (l ∷ ls) = ground (arith, stays-kept text ls)

or_true : (b : Bool) → (b || true) ≡ true
or_true true = refl
or_true false = refl

joined-nonempty :
    (ls : List Text) → includes (join (codes "\n") ls) (codes "- ") ≡ true → is_empty ls ≡ false
unfolding join includes starts_with
joined-nonempty [] h = cc
joined-nonempty (l ∷ ls) h = refl

-- When a blocker is resolved, the new body of the section has those lines of the old one, in their order,
-- that are no item, or an item that does not include the text, case aside; or, when no item is among
-- those lines, it may be the placeholder `None` instead.
pub resolved_body-lines :
    (text body : Text)
    → (split b'\n' (resolved_body text body) ≡ kept_lines text body)
      ⊎ ((any is_item (kept_lines text body) ≡ false) × (resolved_body text body ≡ codes "None\n"))
unfolding resolved_body
resolved_body-lines text body =
    let kept = kept_lines text body in
    let joined = join (codes "\n") kept in
    let lines =
      keep-NoEnd (λ l. not (is_item l && includes (map to_lower l) (map to_lower text)))
        (split b'\n' body) (split-NoEnd body) in
    let same = stays-kept text (split b'\n' body) in
    elim (Bool-cases (includes joined (codes "- "))) [
      | inr e ↦ inr (join-items kept e, rw (same, e, or_true (is_empty (trim joined))) refl)
      | inl e ↦ elim (Bool-cases (is_empty (trim joined))) [
        | inl f ↦ cc (trim-blank joined f)
        | inr f ↦ inl (rw (same, f, e) (split-join kept (joined-nonempty kept e) lines))
      ]
    ]
