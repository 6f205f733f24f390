-- ===== src/Regex/Widths.antt =====
-- Patterns that take a unit at least, and patterns that match at the begin only.
use mikmongo.Base.{
  ℕ, ◌≤◌, ◌<◌, ◌≡◌, refl, sym, ap, ◌∙◌, inl, inr, Bool, true, false, ◌&&◌, ◌||◌, Option, none, some,
  [], ◌∷◌, ◌++◌, arith, Bool-cases, length, length-append,
}
use mikmongo.Text.{Text}
use mikmongo.Regex.{
  Regex, Spot, Found, find, last_of, test, empty, seq, alt, many, group, bol, eol, look, boundary,
  at_bol,
}
use mikmongo.Regex.Laws.{Matches}
use mikmongo.Regex.Parts.{Matches-Takes, find-IsFound}

abbrev pub takes_some : Regex → Bool
takes_some empty = false
takes_some (test p) = true
takes_some (seq a b) = takes_some a || takes_some b
takes_some (alt a b) = takes_some a && takes_some b
takes_some (many greedy a) = false
takes_some (group n a) = takes_some a
takes_some (bol multi) = false
takes_some (eol multi) = false
takes_some (look a) = false
takes_some boundary = false

takes-le : (r : Regex) (s e : Spot) → Matches r s e → length e.rest ≤ length s.rest
takes-le r s e h =
    let (u, p) = Matches-Takes r s e h in rw p (rw (length-append u e.rest) (omega arith))

pub Matches-lt :
    (r : Regex) (s e : Spot) → takes_some r ≡ true → Matches r s e → length e.rest < length s.rest
Matches-lt empty s e t h = cc
Matches-lt (test p) s e t (c, u, i, q, h) = rw h (rw i (omega arith))
Matches-lt (seq a b) s e t (m, p, q) = elim (Bool-cases (takes_some a)) [
  | inl f ↦ omega (arith, Matches-lt a s m f p, takes-le b m e q)
  | inr f ↦ omega (arith, takes-le a s m p, Matches-lt b m e (rw f at t) q)
]
Matches-lt (alt a b) s e t (inl h) = Matches-lt a s e (ground arith) h
Matches-lt (alt a b) s e t (inr h) = Matches-lt b s e (ground arith) h
Matches-lt (many greedy a) s e t h = cc
Matches-lt (group n a) s e t (m, p, h) = rw h (Matches-lt a s m t p)
Matches-lt (bol multi) s e t h = cc
Matches-lt (eol multi) s e t h = cc
Matches-lt (look a) s e t h = cc
Matches-lt boundary s e t h = cc

last_of-some : (c : ℕ) (s : Text) → (d : ℕ) × (last_of (some c) s ≡ some d)
last_of-some c [] = (c, refl)
last_of-some c (d ∷ s) = last_of-some d s

before-nil :
    (before : Text) (prev : Option ℕ)
    → last_of none before ≡ prev
    → at_bol false prev ≡ true
    → before ≡ []
before-nil [] prev e h = refl
before-nil (c ∷ s) prev e h = let (d, f) = last_of-some c s in cc (rw (sym e ∙ f) at h)

-- A match of a pattern behind `^` is at the begin of the text, and takes a unit if the pattern does.
pub find_start :
    (r : Regex) (s : Text) (m : Found)
    → find (seq (bol false) r) s ≡ some m
    → takes_some r ≡ true
    → (m.before ≡ []) × (s ≡ m.matched ++ m.after) × (length m.after < length s)
find_start r s m h t =
    let i = find-IsFound (seq (bol false) r) s m h in
    let (s1, (b, e1), c) = i.here in
    let start : m.before ≡ [] = before-nil m.before i.prev i.before_it b in
    let split : s ≡ m.matched ++ m.after = rw start at i.split in
    let lt = Matches-lt r s1 i.last t c in
    let end : length i.last.rest ≡ length m.after = ap length i.rest in
    let here : length s1.rest ≡ length (m.matched ++ m.after) = ap (λ x. length x.rest) (sym e1) in
    let whole : length s ≡ length (m.matched ++ m.after) = ap length split in
    (start, split, omega arith)
