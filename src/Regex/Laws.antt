-- ===== src/Regex/Laws.antt =====
-- A match of the backtracking is a match of the pattern, as a relation between places of the text.
use mikmongo.Base.{
  ℕ, zero, suc, ◌≡◌, refl, ◌⊎◌, inl, inr, Bool, true, false, Option, none, some, [], ◌∷◌, ◌==◌,
  if◌then◌else◌, Bool-cases, Option-cases, length,
}
use mikmongo.Text.{Text}
use mathlib.Core.Path.{subst}
use mikmongo.Regex.{
  Regex, Spot, between, run, loop, step, at_bol, at_eol, at_boundary, boundary, or_else, test,
  empty, seq, alt, many, group, bol, eol, look,
}

-- Any number of iterations.
pub data Star (R : Spot → Spot → Type 0) : Spot → Spot → Type 0 where
  stop : {s : Spot} → Star R s s
  more : {s m e : Spot} → R s m → Star R m e → Star R s e

-- The pattern leads from one place to the other.
abbrev pub Matches : Regex → Spot → Spot → Type 0
Matches empty s e = s ≡ e
Matches (test p) s e =
    (c : ℕ) × (t : Text) × (s.rest ≡ c ∷ t)
    × (p c ≡ true)
    × (e ≡ record { prev = some c; rest = t; groups = s.groups })
Matches (seq a b) s e = (m : Spot) × Matches a s m × Matches b m e
Matches (alt a b) s e = Matches a s e ⊎ Matches b s e
Matches (many greedy a) s e = Star (Matches a) s e
Matches (group n a) s e =
    (m : Spot) × Matches a s m × (e ≡ record m { groups = (n, between s m) ∷ m.groups })
Matches (bol multi) s e = (at_bol multi s.prev ≡ true) × (s ≡ e)
Matches (eol multi) s e = (at_eol multi s.rest ≡ true) × (s ≡ e)
Matches boundary s e = (at_boundary s.prev s.rest ≡ true) × (s ≡ e)
Matches (look a) s e = (m : Spot) × Matches a s m × (e ≡ record s { groups = m.groups })

or_else-cases : (a b : Option Spot) (x : Spot) → or_else a b ≡ some x → (a ≡ some x) ⊎ (b ≡ some x)
or_else-cases none b x h = inr h
or_else-cases (some y) b x h = inl h

either :
    (a b : Option Spot) (greedy : Bool) (x : Spot)
    → (if greedy then or_else a b else or_else b a) ≡ some x
    → (a ≡ some x) ⊎ (b ≡ some x)
either a b true x h = or_else-cases a b x h
either a b false x h = elim (or_else-cases b a x h) [ inl e ↦ inr e | inr e ↦ inl e ]

-- What a search that succeeds has found: a place behind the pattern where the continuation succeeds.
abbrev IsSound : (Spot → Spot → Type 0) → (Spot → (Spot → Option Spot) → Option Spot) → Type 0
IsSound R f =
    (s : Spot) (k : Spot → Option Spot) (x : Spot)
    → f s k ≡ some x
    → (e : Spot) × R s e × (k e ≡ some x)

step_sound :
    (p : ℕ → Bool) (s : Spot) (rest : Text) (k : Spot → Option Spot) (x : Spot)
    → s.rest ≡ rest
    → step p s rest k ≡ some x
    → (e : Spot) × Matches (test p) s e × (k e ≡ some x)
step_sound p s [] k x i h = cc
step_sound p s (c ∷ t) k x i h = elim (Bool-cases (p c)) [
  | inl e ↦ (record { prev = some c; rest = t; groups = s.groups }, (c, t, i, e, refl), rw e at h)
  | inr e ↦ cc (rw e at h)
]

loop-IsSound :
    (greedy : Bool) (R : Spot → Spot → Type 0) (f : Spot → (Spot → Option Spot) → Option Spot)
    → IsSound R f
    → (fuel : ℕ) → IsSound (Star R) (λ s k. loop greedy f fuel s k)
unfolding loop
loop-IsSound greedy R f sound zero s k x h = (s, stop, h)
loop-IsSound greedy R f sound (suc fuel) s k x h =
    elim (either
      (f s (λ e. if length e.rest == length s.rest then none else loop greedy f fuel e k)) (k s)
      greedy x h) [
        | inl g ↦
            let (m, p, q) =
              sound s (λ e. if length e.rest == length s.rest then none else loop greedy f fuel e k)
                x g in
            elim (Bool-cases (length m.rest == length s.rest)) [
              | inl e ↦ cc (rw e at q)
              | inr e ↦
                  let (t, p', q') = loop-IsSound greedy R f sound fuel m k x (rw e at q) in
                  (t, more p p', q')
            ]
        | inr g ↦ (s, stop, g)
      ]

some_inj : {a b : Spot} → some a ≡ some b → a ≡ b
some_inj h = cc

pub run-IsSound : (r : Regex) → IsSound (Matches r) (run r)
unfolding run
run-IsSound empty s k x h = (s, refl, h)
run-IsSound (test p) s k x h = step_sound p s s.rest k x refl h
run-IsSound (seq a b) s k x h =
    let (m, p, h') = run-IsSound a s (λ e. run b e k) x h in
    let (e, q, h'') = run-IsSound b m k x h' in (e, (m, p, q), h'')
run-IsSound (alt a b) s k x h = elim (or_else-cases (run a s k) (run b s k) x h) [
  | inl g ↦ let (e, p, q) = run-IsSound a s k x g in (e, inl p, q)
  | inr g ↦ let (e, p, q) = run-IsSound b s k x g in (e, inr p, q)
]
run-IsSound (many greedy a) s k x h =
    loop-IsSound greedy (Matches a) (run a) (run-IsSound a) (suc (length s.rest)) s k x h
run-IsSound (group n a) s k x h =
    let (m, p, q) =
      run-IsSound a s (λ e. k (record e { groups = (n, between s e) ∷ e.groups })) x h in
    (record m { groups = (n, between s m) ∷ m.groups }, (m, p, refl), q)
run-IsSound (bol multi) s k x h = elim (Bool-cases (at_bol multi s.prev)) [
  | inl e ↦ (s, (e, refl), rw (run, e) at h)
  | inr e ↦ cc (rw (run, e) at h)
]
run-IsSound (eol multi) s k x h = elim (Bool-cases (at_eol multi s.rest)) [
  | inl e ↦ (s, (e, refl), rw (run, e) at h)
  | inr e ↦ cc (rw (run, e) at h)
]
run-IsSound boundary s k x h = elim (Bool-cases (at_boundary s.prev s.rest)) [
  | inl e ↦ (s, (e, refl), rw (run, e) at h)
  | inr e ↦ cc (rw (run, e) at h)
]
run-IsSound (look a) s k x h = elim (Option-cases (run a s some)) [
  | inl e ↦ cc (rw (run, e) at h)
  | inr (m, e) ↦
      let (m', p, q) = run-IsSound a s some m e in
      (
        record s { groups = m.groups },
        (m, subst (Matches a s) (some_inj q) p, refl),
        rw (run, e) at h,
      )
]
