-- ===== src/State/Edits.antt =====
-- Nothing but the value of the field changes.
use mikmongo.Base.{
  map, ==_iff, ℕ, zero, suc, ◌≡◌, refl, sym, ap, ◌∙◌, ◌⊎◌, inl, inr, Bool, true, false, not, some,
  [], ◌∷◌, ◌++◌, append-nil, arith, Bool-cases, Option-cases, length, drop, take, all,
}
use mikmongo.Text.{to_upper, Text, is_space, is_line_end, span}
use mikmongo.Text.Laws.{span-append}
use mikmongo.State.{
  starts_ci, bold, plain, after_spaces, first_line, with_value, replace_scan, state_replace_field,
}
use mathlib.Core.Path.{subst}
use mikmongo.State.Matching.{starts_ci-take, replace_scan-cases}

-- The text ends, or its first unit is another.
abbrev pub stops : (ℕ → Bool) → Text → Bool
stops p [] = true
stops p (c ∷ s) = not (p c)

abbrev pub in_line : ℕ → Bool
in_line c = not (is_line_end c)

-- The two documents differ in the value of one line only, behind the name of the field, case aside,
-- and all spaces that follow it. The old value is the whole rest of its line.
pub record IsEdit (lead value content content' : Text) : Type 0 where
  pub before : Text
  pub name : Text
  pub spaces : Text
  pub line : Text
  pub after : Text
  pub old : content ≡ before ++ (name ++ (spaces ++ (line ++ after)))
  pub new : content' ≡ before ++ (name ++ (spaces ++ (value ++ after)))
  pub named : starts_ci name lead ≡ true
  pub whole_name : map to_upper name ≡ map to_upper lead
  pub spaced : all is_space spaces ≡ true
  pub all_spaces : stops is_space (line ++ after) ≡ true
  pub one_line : all in_line line ≡ true
  pub whole_line : stops in_line after ≡ true

IsEdit-push :
    (lead value s t : Text) (c : ℕ) → IsEdit lead value s t → IsEdit lead value (c ∷ s) (c ∷ t)
IsEdit-push lead value s t c i = record {
  before = c ∷ i.before;
  name = i.name;
  spaces = i.spaces;
  line = i.line;
  after = i.after;
  old = ap (λ x. c ∷ x) i.old;
  new = ap (λ x. c ∷ x) i.new;
  named = i.named;
  whole_name = i.whole_name;
  spaced = i.spaced;
  all_spaces = i.all_spaces;
  one_line = i.one_line;
  whole_line = i.whole_line;
}

take-drop : (n : ℕ) (s : Text) → take n s ++ drop n s ≡ s
take-drop zero s = refl
take-drop (suc n) [] = refl
take-drop (suc n) (c ∷ s) = ap (λ x. c ∷ x) (take-drop n s)

span-holds : (p : ℕ → Bool) (s : Text) → all p (span p s).0 ≡ true
unfolding span
span-holds p [] = refl
span-holds p (c ∷ s) = elim (Bool-cases (p c)) [
  | inl e ↦ rw e (rw e (span-holds p s))
  | inr e ↦ rw e refl
]

span-stops : (p : ℕ → Bool) (s : Text) → stops p (span p s).1 ≡ true
unfolding span
span-stops p [] = refl
span-stops p (c ∷ s) = elim (Bool-cases (p c)) [
  | inl e ↦ rw e (span-stops p s)
  | inr e ↦ rw e (rw e refl)
]

take-upper :
    (s lead : Text)
    → starts_ci s lead ≡ true
    → map to_upper (take (length lead) s) ≡ map to_upper lead
unfolding starts_ci
take-upper s [] h = refl
take-upper [] (d ∷ lead) h = cc
take-upper (c ∷ s) (d ∷ lead) h =
    let same : to_upper c ≡ to_upper d = (==_iff (to_upper c) (to_upper d)).0 (ground arith) in
    let later = take-upper s lead (ground arith) in cc

with_value-IsEdit :
    (lead value s : Text)
    → starts_ci s lead ≡ true
    → IsEdit lead value s
        (take (length lead) s ++ with_value (after_spaces (drop (length lead) s)) value)
unfolding with_value
with_value-IsEdit lead value s h =
    let rest = drop (length lead) s in
    record {
      before = [];
      name = take (length lead) s;
      spaces = (after_spaces rest).0;
      line = (first_line (after_spaces rest).1).0;
      after = (first_line (after_spaces rest).1).1;
      old =
          rw (span-append _ (after_spaces rest).1, span-append is_space rest)
            (sym (take-drop (length lead) s));
      new = refl;
      named = rw (append-nil (take (length lead) s)) at (starts_ci-take s lead [] h);
      whole_name = take-upper s lead h;
      spaced = span-holds is_space rest;
      all_spaces = rw (span-append in_line (after_spaces rest).1) (span-stops is_space rest);
      one_line = span-holds in_line (after_spaces rest).1;
      whole_line = span-stops in_line (after_spaces rest).1;
    }

replace_scan-IsEdit :
    (anchored : Bool) (lead value : Text) (here : Bool) (s s' : Text)
    → replace_scan anchored lead value here s ≡ some s'
    → IsEdit lead value s s'
replace_scan-IsEdit anchored lead value here [] s' h = unfold replace_scan in cc
replace_scan-IsEdit anchored lead value here (c ∷ s) s' h =
    elim (replace_scan-cases anchored lead value here c s s' h) [
      | inl (e, same) ↦
          subst (IsEdit lead value (c ∷ s)) same
            (with_value-IsEdit lead value (c ∷ s) (ground arith))
      | inr (e, (t, f, same)) ↦ subst (IsEdit lead value (c ∷ s)) same (
          IsEdit-push lead value s t c
            (replace_scan-IsEdit anchored lead value (is_line_end c) s t f))
    ]

-- A document changes, when a field is replaced, in its value only, which is the whole rest of a line
-- behind the name in one of its two forms, case aside, and all spaces that follow the name; these
-- stay, and all of the old value goes.
pub state_replace_field-IsEdit :
    (content content' field value : Text)
    → state_replace_field content field value ≡ some content'
    → IsEdit (bold field) value content content' ⊎ IsEdit (plain field) value content content'
unfolding state_replace_field
state_replace_field-IsEdit content content' field value h =
    elim (Option-cases (replace_scan false (bold field) value true content)) [
      | inl e ↦ inr (
          replace_scan-IsEdit true (plain field) value true content content'
            (rw (state_replace_field, e) at h))
      | inr (s, e) ↦ inl (
          replace_scan-IsEdit false (bold field) value true content content'
            (e ∙ (rw (state_replace_field, e) at h)))
    ]
