-- ===== src/Cli/Options/Taken.antt =====
-- An option is taken out of the arguments with its value, and nothing else is.
use mikmongo.Base.{
  length, length-append, ℕ, ◌≡◌, refl, sym, ap, ◌∙◌, inl, inr, true, false, ◌||◌, Option, none,
  some, List, [], ◌∷◌, ◌++◌, arith, Bool-cases, Option-cases, drop, is_empty, any,
}
use mikmongo.Text.{trim, Text, codes, equal, starts_with}
use mikmongo.Text.Laws.{equal_iff, equal_refl, differ}
use mikmongo.Cli.{dashed, is_flag, behind}
use mikmongo.Cli.Named.{behind-splits}
use mikmongo.Cli.Options.{ok, find_lead, splice, present, spaced, equal_value, take_option}

splice-splits :
    (arg : Text) (before after : List Text) (n : ℕ)
    → any (equal arg) before ≡ false
    → splice arg n (before ++ arg ∷ after) ≡ before ++ drop n (arg ∷ after)
unfolding splice
splice-splits arg [] after n h = rw (equal_refl arg) refl
splice-splits arg (a ∷ before) after n h =
    let e : equal a arg ≡ false = differ arg a (ground arith) in
    rw (e, splice-splits arg before after n (ground arith)) refl

find_lead-splits :
    (lead arg : Text) (args : List Text)
    → find_lead lead args ≡ some arg
    → (before after : List Text) × (args ≡ before ++ arg ∷ after)
      × (any (equal arg) before ≡ false)
      × (starts_with arg lead ≡ true)
unfolding find_lead
find_lead-splits lead arg [] h = cc
find_lead-splits lead arg (a ∷ args) h = elim (Bool-cases (starts_with a lead)) [
  | inl e ↦ let same : a ≡ arg = cc (rw e at h) in ([], args, rw same refl, refl, rw (← same) e)
  | inr e ↦
      let (before, after, splits, first, leads) = find_lead-splits lead arg args (rw e at h) in
      (a ∷ before, after, ap (λ x. a ∷ x) splits, ground (arith, equal_iff arg a), leads)
]

present-head :
    (m : Option (List Text)) (v : Text)
    → present m ≡ some v
    → (after : List Text) × (m ≡ some (v ∷ after)) × (is_flag v ≡ false) × (is_empty v ≡ false)
unfolding present
present-head none v h = cc
present-head (some []) v h = cc
present-head (some (w ∷ args)) v h = elim (Bool-cases (is_empty w || is_flag w)) [
  | inl e ↦ cc (rw e at h)
  | inr e ↦
      let same : w ≡ v = cc (rw e at h) in
      (args, rw same refl, rw (← same) (ground arith), rw (← same) (ground arith))
]

-- Where the value stands in the arguments, and what is left of them.
pub data IsTaken (flag v : Text) (args rest : List Text) : Type 0 where
  by_space :
      (before after : List Text)
      → args ≡ before ++ dashed flag ∷ v ∷ after
      → rest ≡ before ++ after
      → is_flag v ≡ false
      → is_empty v ≡ false
      → IsTaken flag v args rest
  by_equals :
      (before after : List Text) (arg : Text)
      → args ≡ before ++ arg ∷ after
      → rest ≡ before ++ after
      → starts_with arg (dashed flag ++ codes "=") ≡ true
      → v ≡ trim (drop (length (dashed flag ++ codes "=")) arg)
      → is_empty v ≡ false
      → IsTaken flag v args rest

equal_value-trim :
    (flag arg : Text) → equal_value flag arg ≡ trim (drop (length (dashed flag ++ codes "=")) arg)
unfolding equal_value
equal_value-trim flag arg =
    ap (λ n. trim (drop n arg)) (sym (length-append (dashed flag) (codes "=")))

spaced-IsTaken :
    (flag v : Text) (args rest : List Text)
    → spaced flag args ≡ ok (some v, rest)
    → IsTaken flag v args rest
unfolding spaced
spaced-IsTaken flag v args rest h = elim (Bool-cases (any (equal (dashed flag)) args)) [
  | inr e ↦ cc (rw (spaced, e) at h)
  | inl e ↦ elim (Option-cases (present (behind (dashed flag) args))) [
    | inl f ↦ cc (rw (spaced, e, f) at h)
    | inr (w, f) ↦
        let (after, b, n, m) = present-head (behind (dashed flag) args) w f in
        let (before, splits, first) = behind-splits (dashed flag) args (w ∷ after) b in
        let cut = splice-splits (dashed flag) before (w ∷ after) 2 first in
        let same : w ≡ v = cc (rw (spaced, e, f) at h) in
        let left : splice (dashed flag) 2 args ≡ rest = cc (rw (spaced, e, f) at h) in
        by_space before after (rw (← same) splits) (sym left ∙ rw splits cut) (rw (← same) n)
          (rw (← same) m)
  ]
]

-- An option that is found has its value in the next argument, which is no flag, or trimmed behind an
-- equals sign; its value is not empty, and the arguments that are left are the others in their order.
pub take_option-IsTaken :
    (flag v : Text) (args rest : List Text)
    → take_option flag args ≡ ok (some v, rest)
    → IsTaken flag v args rest
unfolding take_option
take_option-IsTaken flag v args rest h =
    elim (Option-cases (find_lead (dashed flag ++ codes "=") args)) [
      | inl e ↦ spaced-IsTaken flag v args rest (rw (take_option, e) at h)
      | inr (arg, e) ↦
          let (before, after, splits, first, leads) = find_lead-splits _ arg args e in
          elim (Bool-cases (is_empty (equal_value flag arg))) [
            | inl f ↦ cc (rw (take_option, e, f) at h)
            | inr f ↦
                let value : equal_value flag arg ≡ v = cc (rw (take_option, e, f) at h) in
                let left : splice arg 1 args ≡ rest = cc (rw (take_option, e, f) at h) in
                by_equals before after arg splits
                  (sym left ∙ rw splits (splice-splits arg before after 1 first)) leads
                  (sym value ∙ equal_value-trim flag arg) (rw (← value) f)
          ]
    ]
