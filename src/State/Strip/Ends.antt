-- ===== src/State/Strip/Ends.antt =====
-- The loop that strips the headers of STATE.md ends.
use mikmongo.Base.{
  ℕ, zero, suc, ◌<◌, ◌≡◌, refl, sym, ap, ◌∙◌, ◌⊎◌, inl, inr, false, none, [], ◌++◌, append_assoc,
  arith, Bool-cases, Option-cases, length,
}
use mikmongo.Text.{Text, equal}
use mikmongo.Text.Laws.{equal_iff, equal_refl}
use mikmongo.Regex.{find, replace, lit}
use mikmongo.Regex.Widths.{find_start}
use mikmongo.State.Strip.{block, block_body, strip_once, strip_rounds, strip_frontmatter}

strip_once-cases :
    (s : Text)
    → ((find block s ≡ none) × (strip_once s ≡ s))
      ⊎ ((u : Text) × (s ≡ u ++ strip_once s) × (length (strip_once s) < length s))
unfolding strip_once replace lit
strip_once-cases s = elim (Option-cases (find block s)) [
  | inl e ↦ inl (e, rw e refl)
  | inr (m, e) ↦
      let (start, split, shorter) = find_start block_body s m e refl in
      inr (m.matched, rw (e, start) split, rw (e, start) shorter)
]

equal-short : (s t : Text) → length t < length s → equal t s ≡ false
equal-short s t h = elim (Bool-cases (equal t s)) [
  | inl e ↦ absurd (omega (arith, ap length ((equal_iff t s).0 e)))
  | inr e ↦ e
]

strip_rounds-ends :
    (fuel : ℕ) (s : Text)
    → length s < fuel
    → (find block (strip_rounds fuel s) ≡ none) × ((u : Text) × (s ≡ u ++ strip_rounds fuel s))
unfolding strip_rounds
strip_rounds-ends zero s h = absurd (omega arith)
strip_rounds-ends (suc fuel) s h = elim (strip_once-cases s) [
  | inl (e, same) ↦ rw (same, equal_refl s) (e, ([], refl))
  | inr (u, split, shorter) ↦
      let (a, (v, b)) = strip_rounds-ends fuel (strip_once s) (omega arith) in
      rw (equal-short s (strip_once s) shorter)
        (a, (u ++ v, split ∙ (ap (λ x. u ++ x) b ∙ sym (append_assoc u v _))))
]

-- The loop ends: what is left of a document, when its headers are stripped, is an end of it and has no
-- header at its begin, however many stood there.
pub strip_frontmatter-ends :
    (content : Text)
    → (find block (strip_frontmatter content) ≡ none)
      × ((u : Text) × (content ≡ u ++ strip_frontmatter content))
unfolding strip_frontmatter
strip_frontmatter-ends content = strip_rounds-ends (suc (length content)) content (omega arith)
