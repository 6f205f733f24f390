-- ===== src/PromptGuard/Refined.antt =====
-- The hook warns of nothing that the scan of the library does not find.
use mikmongo.Base.{
  ◌≡◌, refl, sym, ap, ◌∙◌, ◌⊎◌, inl, inr, Bool, true, false, not, some, List, [], ◌∷◌, ◌++◌, map,
  if◌then◌else◌, Bool-cases, is_empty, any, keep,
}
use mikmongo.Text.{Text, codes}
use mikmongo.Regex.{matches}
use mikmongo.State.Command.{show_nat}
use mikmongo.Security.Injection.{
  Guard, injection_patterns, triggered, is_invisible, strict_findings, scan_for_injection,
}
use mikmongo.PromptGuard.{
  ToolCall, guard_patterns, guard_findings, written_text, is_watched, run_guard, warn, path_of,
}

module _ {ℓ} {A : Type ℓ} (p : A → Bool) where
  -- What one list finds, the other does.
  abbrev IsCovered : List A → List A → Type 0
  IsCovered xs ys = any p xs ≡ true → any p ys ≡ true

  skip : (x : A) (xs ys : List A) → IsCovered xs ys → IsCovered xs (x ∷ ys)
  skip x xs ys h e = elim (Bool-cases (p x)) [ inl t ↦ rw t refl | inr f ↦ rw (f, h e) refl ]

  both : (x : A) (xs ys : List A) → IsCovered xs ys → IsCovered (x ∷ xs) (x ∷ ys)
  both x xs ys h e = elim (Bool-cases (p x)) [ inl t ↦ rw t refl | inr f ↦ rw f (h (rw f at e)) ]

-- Some of the elements of a list, in their order.
data Among {ℓ} {A : Type ℓ} : List A → List A → Type ℓ where
  none_left : Among [] []
  skipped : (x : A) → {xs ys : List A} → Among xs ys → Among xs (x ∷ ys)
  kept : (x : A) → {xs ys : List A} → Among xs ys → Among (x ∷ xs) (x ∷ ys)

module _ {ℓ} {A : Type ℓ} (p : A → Bool) where
  Among-IsCovered : {xs ys : List A} → Among xs ys → IsCovered p xs ys
  Among-IsCovered none_left = λ e. e
  Among-IsCovered (skipped x {xs} {ys} a) = skip p x xs ys (Among-IsCovered a)
  Among-IsCovered (kept x {xs} {ys} a) = both p x xs ys (Among-IsCovered a)

  any-keep : (xs : List A) → is_empty (keep p xs) ≡ not (any p xs)
  any-keep [] = refl
  any-keep (x ∷ xs) = elim (Bool-cases (p x)) [ inl t ↦ rw t refl | inr f ↦ rw f (any-keep xs) ]

module _ {ℓ κ} {A : Type ℓ} {B : Type κ} where
  map-is_empty : (f : A → B) (xs : List A) → is_empty (map f xs) ≡ is_empty xs
  map-is_empty f [] = refl
  map-is_empty f (x ∷ xs) = refl

abbrev found_in : Text → Guard → Bool
found_in text g = matches g.pattern text

-- The patterns of the hook are among those of the library.
patterns-Among : Among guard_patterns injection_patterns
patterns-Among = kept _ (
    kept _ (
      kept _ (
        kept _ (
          kept _ (
            kept _ (
              skipped _ (
                kept _ (
                  kept _ (
                    kept _ (
                      skipped _ (
                        kept _ (
                          kept _ (
                            kept _
                              (kept _ (skipped _ (skipped _ (skipped _ none_left)))))))))))))))))

triggered-is_empty :
    (gs : List Guard) (text : Text) → is_empty (triggered gs text) ≡ not (any (found_in text) gs)
unfolding triggered
triggered-is_empty gs text =
    map-is_empty (λ g. g.source) (keep (found_in text) gs) ∙ any-keep (found_in text) gs

strict-invisible :
    (text : Text) → any is_invisible text ≡ true → is_empty (strict_findings text) ≡ false
unfolding show_nat
strict-invisible text e = rw e refl

full-left : (xs ys : List Text) → is_empty xs ≡ false → is_empty (xs ++ ys) ≡ false
full-left [] ys e = cc
full-left (x ∷ xs) ys e = refl

full-right : (xs ys : List Text) → is_empty ys ≡ false → is_empty (xs ++ ys) ≡ false
full-right [] ys e = e
full-right (x ∷ xs) ys e = refl

full-cases :
    (xs ys : List Text)
    → is_empty (xs ++ ys) ≡ false
    → (is_empty xs ≡ false) ⊎ (is_empty ys ≡ false)
full-cases [] ys e = inr e
full-cases (x ∷ xs) ys e = inl refl

guarded : (b : Bool) (x : Text) → is_empty (if b then x ∷ [] else []) ≡ false → b ≡ true
guarded true x e = refl
guarded false x e = cc

not-false : (b : Bool) → not b ≡ false → b ≡ true
not-false true e = refl
not-false false e = cc

triggered-covered :
    (text : Text)
    → is_empty (triggered guard_patterns text) ≡ false
    → is_empty (triggered injection_patterns text) ≡ false
triggered-covered text e =
    let hook =
      not-false (any (found_in text) guard_patterns)
        (sym (triggered-is_empty guard_patterns text) ∙ e) in
    triggered-is_empty injection_patterns text
    ∙ ap not (Among-IsCovered (found_in text) patterns-Among hook)

abbrev named : Text → Text
named s = codes "Matched injection pattern: " ++ s

findings-refined :
    (text : Text)
    → is_empty (guard_findings text) ≡ false
    → is_empty (scan_for_injection text true) ≡ false
unfolding guard_findings scan_for_injection
findings-refined [] e = cc
findings-refined (c ∷ text) e =
    let found = triggered injection_patterns (c ∷ text) in
    elim (full-cases (triggered guard_patterns (c ∷ text))
      (if any is_invisible (c ∷ text) then codes "invisible-unicode-characters" ∷ [] else []) e) [
        | inl hook ↦
            full-left (map named found) (strict_findings (c ∷ text))
              (map-is_empty named found ∙ triggered-covered (c ∷ text) hook)
        | inr unseen ↦ full-right (map named found) (strict_findings (c ∷ text)) (
            strict-invisible (c ∷ text)
              (guarded (any is_invisible (c ∷ text)) (codes "invisible-unicode-characters") unseen))
      ]

warn-full :
    (path : Text) (findings : List Text) (w : Text)
    → warn path findings ≡ some w
    → is_empty findings ≡ false
warn-full path [] w e = cc
warn-full path (f ∷ fs) w e = refl

-- The hook warns only of a call that it watches, and only of a text in which the strict scan of the
-- library finds something as well.
pub run_guard-refined :
    (call : ToolCall) (w : Text)
    → run_guard call ≡ some w
    → (is_watched call ≡ true) × (is_empty (scan_for_injection (written_text call) true) ≡ false)
unfolding run_guard
run_guard-refined call w e = elim (Bool-cases (is_watched call)) [
  | inl watched ↦ (
    watched,
    findings-refined (written_text call)
        (warn-full (path_of call) (guard_findings (written_text call)) w (rw watched at e)),
  )
  | inr other ↦ cc (rw other at e)
]
