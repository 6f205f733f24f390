-- ===== src/State/Fields.antt =====
-- A field that is replaced holds the new value.
use mikmongo.Base.{
  ◌≡◌, refl, ap, ◌∙◌, inl, inr, Bool, true, false, none, some, [], ◌∷◌, arith, Option-cases, length,
  drop, is_empty,
}
use mikmongo.Text.{Text, is_line_end, trim}
use mikmongo.State.{bold, plain, scan, state_extract_field, replace_scan, state_replace_field}
use mikmongo.State.Matching.{
  IsValue, starts_ci-push, replace_scan-cases, scan-later, scan-head, replace_scan-starts,
  captured-value,
}

replace_scan-scan :
    (anchored : Bool) (lead value : Text) (here : Bool) (s s' : Text)
    → is_empty lead ≡ false
    → IsValue value
    → replace_scan anchored lead value here s ≡ some s'
    → scan anchored lead here s' ≡ some (trim value)
replace_scan-scan anchored lead value here [] s' n v h = unfold replace_scan in cc
replace_scan-scan anchored lead value here (c ∷ s) s' n v h =
    elim (replace_scan-cases anchored lead value here c s s' h) [
      | inl (e, same) ↦ rw (← same) (
          scan-head anchored lead here (c ∷ s) _ (trim value) (ground arith) (ground arith) n
            (captured-value (drop (length lead) (c ∷ s)) value v))
      | inr (e, (t, f, same)) ↦
          let short =
            starts_ci-push c s t lead
              (λ m k. replace_scan-starts anchored lead value (is_line_end c) s t m f k) in
          rw (← same) (
            scan-later anchored lead here c s t short e
            ∙ replace_scan-scan anchored lead value (is_line_end c) s t n v f)
    ]

-- The replacement makes no bold field of the name where there was none.
abbrev pub KeepsBold : Text → Text → Text → Text → Type 0
KeepsBold content content' field value =
    replace_scan false (bold field) value true content ≡ none
    → scan false (bold field) true content' ≡ none

plain-not_empty : (field : Text) → is_empty (plain field) ≡ false
plain-not_empty [] = refl
plain-not_empty (c ∷ field) = refl

-- A field that is replaced by a value of one line, which begins with no space, is read as the trimmed
-- value afterwards, unless the replacement in the plain form makes a bold field of that name appear.
pub state_replace_field-extract :
    (content content' field value : Text)
    → IsValue value
    → state_replace_field content field value ≡ some content'
    → KeepsBold content content' field value
    → state_extract_field content' field ≡ some (trim value)
unfolding state_extract_field state_replace_field
state_replace_field-extract content content' field value v h k =
    elim (Option-cases (replace_scan false (bold field) value true content)) [
      | inl e ↦
          let p : replace_scan true (plain field) value true content ≡ some content' =
            rw (state_replace_field, e) at h in
          rw
            (
              k e,
              replace_scan-scan true (plain field) value true content content'
                  (plain-not_empty field) v p,
            )
            refl
      | inr (s, e) ↦
          let same : s ≡ content' = cc (rw (state_replace_field, e) at h) in
          rw
            (replace_scan-scan false (bold field) value true content content' refl v
              (e ∙ ap some same))
            refl
    ]
