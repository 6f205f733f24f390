-- ===== src/State/Matching.antt =====
-- Finding the name of a field before and after a replacement.
use mikmongo.Base.{
  ℕ, ◌≤◌, ◌≡◌, refl, ap, ◌⊎◌, inl, inr, Bool, true, false, not, ◌&&◌, ◌||◌, some, [], ◌∷◌, ◌++◌,
  arith, ◌==◌, Bool-cases, Option-cases, length, drop, take, is_empty, all,
}
use mikmongo.Text.{Text, is_space, is_line_end, span, trim, to_upper}
use mikmongo.State.{starts_ci, after_spaces, first_line, captured, scan, with_value, replace_scan}

-- A value of one line that begins with no space.
abbrev pub IsValue : Text → Type 0
IsValue [] = ⊥
IsValue (c ∷ s) = (is_space c ≡ false) × (all (λ u. not (is_line_end u)) (c ∷ s) ≡ true)

pub starts_ci-take :
    (x lead y : Text) → starts_ci x lead ≡ true → starts_ci (take (length lead) x ++ y) lead ≡ true
unfolding starts_ci
starts_ci-take x [] y h = refl
starts_ci-take [] (d ∷ lead) y h = cc
starts_ci-take (c ∷ x) (d ∷ lead) y h = ground (arith, starts_ci-take x lead y)

drop-take :
    (x lead y : Text) → starts_ci x lead ≡ true → drop (length lead) (take (length lead) x ++ y) ≡ y
unfolding starts_ci
drop-take x [] y h = refl
drop-take [] (d ∷ lead) y h = cc
drop-take (c ∷ x) (d ∷ lead) y h = drop-take x lead y (ground arith)

-- The first units decide whether a text begins with a short one.
starts_ci-short :
    (x lead m y : Text)
    → starts_ci x lead ≡ true
    → length m ≤ length lead
    → starts_ci (take (length lead) x ++ y) m ≡ starts_ci x m
unfolding starts_ci
starts_ci-short x [] [] y h l = refl
starts_ci-short x [] (e ∷ m) y h l = absurd (omega arith)
starts_ci-short [] (d ∷ lead) m y h l = cc
starts_ci-short (c ∷ x) (d ∷ lead) [] y h l = refl
starts_ci-short (c ∷ x) (d ∷ lead) (e ∷ m) y h l = ground (arith, starts_ci-short x lead m y)

span-again :
    (p : ℕ → Bool) (s : Text) (c : ℕ) (r : Text)
    → p c ≡ false
    → span p ((span p s).0 ++ c ∷ r) ≡ ((span p s).0, c ∷ r)
unfolding span
span-again p [] c r h = rw h refl
span-again p (d ∷ s) c r h = elim (Bool-cases (p d)) [
  | inl e ↦ rw e (rw (e, span-again p s c r h) refl)
  | inr e ↦ rw e (rw h refl)
]

span-all : (p : ℕ → Bool) (v s : Text) → all p v ≡ true → (span p (v ++ (span p s).1)).0 ≡ v
unfolding span
span-all p [] [] h = refl
span-all p [] (c ∷ s) h = elim (Bool-cases (p c)) [
  | inl e ↦ rw e (span-all p [] s refl)
  | inr e ↦ rw e (rw e refl)
]
span-all p (c ∷ v) s h = ground (arith, span-all p v s)

pub captured-value :
    (x value : Text)
    → IsValue value
    → captured (after_spaces (with_value (after_spaces x) value)) ≡ some (trim value)
unfolding with_value captured
captured-value x [] v = absurd v
captured-value x (c ∷ s) v =
    rw (span-again is_space x c (s ++ (first_line (after_spaces x).1).1) v.0)
      (ap (λ l. some (trim l)) (span-all (λ u. not (is_line_end u)) (c ∷ s) (after_spaces x).1 v.1))

pub scan-head :
    (anchored : Bool) (lead : Text) (here : Bool) (x y value : Text)
    → (here || not anchored) ≡ true
    → starts_ci x lead ≡ true
    → is_empty lead ≡ false
    → captured (after_spaces y) ≡ some value
    → scan anchored lead here (take (length lead) x ++ y) ≡ some value
scan-head anchored [] here x y value a h n c = cc
scan-head anchored (d ∷ lead) here [] y value a h n c = unfold starts_ci in cc
scan-head anchored (d ∷ lead) here (u ∷ x) y value a h n c =
    let st : starts_ci (u ∷ (take (length lead) x ++ y)) (d ∷ lead) ≡ true =
      starts_ci-take (u ∷ x) (d ∷ lead) y h in
    let dr : drop (length lead) (take (length lead) x ++ y) ≡ y =
      drop-take (u ∷ x) (d ∷ lead) y h in
    unfold scan in rw (a, st, dr, c) refl

pub starts_ci-push :
    (c : ℕ) (s t m : Text)
    → ((n : Text) → length n ≤ length m → starts_ci t n ≡ starts_ci s n)
    → starts_ci (c ∷ t) m ≡ starts_ci (c ∷ s) m
unfolding starts_ci
starts_ci-push c s t [] h = refl
starts_ci-push c s t (d ∷ m) h = ap (λ b. to_upper c == to_upper d && b) (h m (omega arith))

-- Whether a step of the replacement is at the match.
pub replace_scan-cases :
    (anchored : Bool) (lead value : Text) (here : Bool) (c : ℕ) (s s' : Text)
    → replace_scan anchored lead value here (c ∷ s) ≡ some s'
    → (((here || not anchored) && starts_ci (c ∷ s) lead ≡ true)
        × (take (length lead) (c ∷ s)
              ++ with_value (after_spaces (drop (length lead) (c ∷ s))) value
            ≡ s'))
      ⊎ (((here || not anchored) && starts_ci (c ∷ s) lead ≡ false)
          × ((t : Text) × (replace_scan anchored lead value (is_line_end c) s ≡ some t)
              × (c ∷ t ≡ s')))
unfolding replace_scan
replace_scan-cases anchored lead value here c s s' h =
    elim (Bool-cases ((here || not anchored) && starts_ci (c ∷ s) lead)) [
      | inl e ↦ inl (e, cc (rw (replace_scan, e) at h))
      | inr e ↦ elim (Option-cases (replace_scan anchored lead value (is_line_end c) s)) [
        | inl f ↦ cc (rw (replace_scan, e, f) at h)
        | inr (t, f) ↦ inr (e, (t, f, cc (rw (replace_scan, e, f) at h)))
      ]
    ]

pub scan-later :
    (anchored : Bool) (lead : Text) (here : Bool) (c : ℕ) (s t : Text)
    → starts_ci (c ∷ t) lead ≡ starts_ci (c ∷ s) lead
    → (here || not anchored) && starts_ci (c ∷ s) lead ≡ false
    → scan anchored lead here (c ∷ t) ≡ scan anchored lead (is_line_end c) t
unfolding scan
scan-later anchored lead here c s t short e = rw (short, e) refl

-- Replacing changes nothing before the match, nor what a short text finds there.
pub replace_scan-starts :
    (anchored : Bool) (lead value : Text) (here : Bool) (s s' m : Text)
    → replace_scan anchored lead value here s ≡ some s'
    → length m ≤ length lead
    → starts_ci s' m ≡ starts_ci s m
unfolding replace_scan
replace_scan-starts anchored lead value here [] s' m h l = unfold replace_scan in cc
replace_scan-starts anchored lead value here (c ∷ s) s' m h l =
    elim (replace_scan-cases anchored lead value here c s s' h) [
      | inl (e, same) ↦ rw (← same) (starts_ci-short (c ∷ s) lead m _ (ground arith) l)
      | inr (e, (t, f, same)) ↦ rw (← same) (
          starts_ci-push c s t m
            (λ n k. replace_scan-starts anchored lead value (is_line_end c) s t n f (omega arith)))
    ]
