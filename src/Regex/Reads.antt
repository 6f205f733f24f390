-- ===== src/Regex/Reads.antt =====
-- The text that literals and runs of one class take.
use mikmongo.Base.{
  ℕ, ◌≡◌, refl, sym, ap, ◌∙◌, Bool, true, [], ◌∷◌, ◌++◌, map, all, arith, ==_iff, take, length,
  length-append,
}
use mikmongo.Text.{Text, to_upper}
use mikmongo.Regex.{Spot, test, lit, lit_ci}
use mikmongo.Regex.Laws.{Matches, Star, stop, more}

pub lit-reads : (w : Text) (s e : Spot) → Matches (lit w) s e → s.rest ≡ w ++ e.rest
unfolding lit
lit-reads [] s e h = ap (λ x. x.rest) h
lit-reads (c ∷ []) s e (d, t, i, q, h) =
    let same : d ≡ c = (==_iff d c).0 q in
    let tail : t ≡ e.rest = ap (λ x. x.rest) (sym h) in i ∙ rw (same, tail) refl
lit-reads (c ∷ c' ∷ w) s e (m, (d, t, i, q, h), k) =
    let same : d ≡ c = (==_iff d c).0 q in
    let tail : t ≡ m.rest = ap (λ x. x.rest) (sym h) in
    i ∙ (rw (same, tail) (ap (λ x. c ∷ x) (lit-reads (c' ∷ w) m e k)))

-- A text that is the literal, case aside.
abbrev pub IsWritten : Text → Spot → Spot → Type 0
IsWritten w s e = (u : Text) × (s.rest ≡ u ++ e.rest) × (map to_upper u ≡ map to_upper w)

pub lit_ci-reads : (w : Text) (s e : Spot) → Matches (lit_ci w) s e → IsWritten w s e
unfolding lit_ci
lit_ci-reads [] s e h = ([], ap (λ x. x.rest) h, refl)
lit_ci-reads (c ∷ []) s e (d, t, i, q, h) =
    let same : to_upper d ≡ to_upper c = (==_iff (to_upper d) (to_upper c)).0 q in
    let tail : t ≡ e.rest = ap (λ x. x.rest) (sym h) in
    (d ∷ [], i ∙ ap (λ x. d ∷ x) tail, ap (λ x. x ∷ []) same)
lit_ci-reads (c ∷ c' ∷ w) s e (m, (d, t, i, q, h), k) =
    let same : to_upper d ≡ to_upper c = (==_iff (to_upper d) (to_upper c)).0 q in
    let tail : t ≡ m.rest = ap (λ x. x.rest) (sym h) in
    let (u, r, f) = lit_ci-reads (c' ∷ w) m e k in
    (d ∷ u, i ∙ ap (λ x. d ∷ x) (tail ∙ r), cc (same, f))

pub Star-reads :
    (p : ℕ → Bool) (s e : Spot)
    → Star (Matches (test p)) s e
    → (u : Text) × (s.rest ≡ u ++ e.rest) × (all p u ≡ true)
Star-reads p s e stop = ([], refl, refl)
Star-reads p s e (more {m} (c, t, i, q, h) k) =
    let tail : t ≡ m.rest = ap (λ x. x.rest) (sym h) in
    let (u, r, f) = Star-reads p m e k in (c ∷ u, i ∙ ap (λ x. c ∷ x) (tail ∙ r), rw (q, f) refl)

take-whole : (u v : Text) → take (length u) (u ++ v) ≡ u
take-whole [] v = refl
take-whole (c ∷ u) v = ap (λ x. c ∷ x) (take-whole u v)

-- Two begins of one text with the same rest are the same.
pub append_cancel : (a b c : Text) → a ++ c ≡ b ++ c → a ≡ b
append_cancel a b c h =
    let same : length a ≡ length b =
      omega (arith, ap length h, length-append a c, length-append b c) in
    sym (take-whole a c) ∙ (rw (h, same) (take-whole b c))
