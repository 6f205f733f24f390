-- ===== src/Regex/Parts.antt =====
-- Where a match stands in its text.
use mikmongo.Base.{
  ℕ, ◌+◌, ◌-◌, ◌≡◌, refl, sym, ap, ◌∙◌, ◌⊎◌, inl, inr, Option, none, some, [], ◌∷◌, ◌++◌,
  append_assoc, arith, Option-cases, length, take, length-append,
}
use mikmongo.Text.{Text}
use mathlib.Core.Path.{subst}
use mikmongo.Regex.{
  Regex, Spot, Found, spot, between, run, find, find_from, found_at, shift, test, empty, seq, alt,
  many, group, bol, eol, look, boundary, last_of,
}
use mikmongo.Regex.Laws.{Matches, Star, stop, more, run-IsSound}

-- The text that a match takes.
abbrev pub Takes : Spot → Spot → Type 0
Takes s e = (u : Text) × (s.rest ≡ u ++ e.rest)

Takes-then : (s m e : Spot) → Takes s m → Takes m e → Takes s e
Takes-then s m e (u, p) (v, q) = (u ++ v, p ∙ (ap (λ x. u ++ x) q ∙ sym (append_assoc u v e.rest)))

Star-Takes :
    (R : Spot → Spot → Type 0)
    → ((s e : Spot) → R s e → Takes s e)
    → (s e : Spot) → Star R s e
    → Takes s e
Star-Takes R h s e stop = ([], refl)
Star-Takes R h s e (more {m} p q) = Takes-then s m e (h s m p) (Star-Takes R h m e q)

pub Matches-Takes : (r : Regex) (s e : Spot) → Matches r s e → Takes s e
Matches-Takes empty s e h = ([], ap (λ x. x.rest) h)
Matches-Takes (test p) s e (c, t, i, _, h) = (c ∷ [], i ∙ ap (λ x. c ∷ x.rest) (sym h))
Matches-Takes (seq a b) s e (m, p, q) =
    Takes-then s m e (Matches-Takes a s m p) (Matches-Takes b m e q)
Matches-Takes (alt a b) s e (inl h) = Matches-Takes a s e h
Matches-Takes (alt a b) s e (inr h) = Matches-Takes b s e h
Matches-Takes (many greedy a) s e h = Star-Takes (Matches a) (Matches-Takes a) s e h
Matches-Takes (group n a) s e (m, p, h) =
    let (u, q) = Matches-Takes a s m p in (u, q ∙ ap (λ x. u ++ x.rest) (sym h))
Matches-Takes (bol multi) s e (_, h) = ([], ap (λ x. x.rest) h)
Matches-Takes (eol multi) s e (_, h) = ([], ap (λ x. x.rest) h)
Matches-Takes boundary s e (_, h) = ([], ap (λ x. x.rest) h)
Matches-Takes (look a) s e (m, p, h) = ([], ap (λ x. x.rest) (sym h))

take-append : (u v : Text) → take (length u) (u ++ v) ≡ u
take-append [] v = refl
take-append (c ∷ u) v = ap (λ x. c ∷ x) (take-append u v)

sub_end : (a b : ℕ) → (a + b) - b ≡ a
sub_end a b = omega arith

taken : (s u v : Text) → s ≡ u ++ v → take (length s - length v) s ≡ u
taken s u v h = rw h (
    rw (length-append u v)
      (ap (λ n. take n (u ++ v)) (sub_end (length u) (length v)) ∙ take-append u v))

-- The text between two places is what stands there.
pub between-Takes : (s e : Spot) → Takes s e → between s e ++ e.rest ≡ s.rest
between-Takes s e (u, p) = ap (λ x. x ++ e.rest) (taken s.rest u e.rest p) ∙ sym p

some_inj : {a b : Spot} → some a ≡ some b → a ≡ b
some_inj h = cc

found_inj : {a b : Found} → some a ≡ some b → a ≡ b
found_inj h = cc

-- A match that was found behind `start`: where it stands in the text, the unit before it, and how the
-- pattern matches there.
pub record IsFound (start : Option ℕ) (r : Regex) (s : Text) (m : Found) : Type 0 where
  pub prev : Option ℕ
  pub last : Spot
  pub before_it : last_of start m.before ≡ prev
  pub split : s ≡ m.before ++ (m.matched ++ m.after)
  pub here : Matches r (spot prev (m.matched ++ m.after)) last
  pub rest : last.rest ≡ m.after
  pub groups : last.groups ≡ m.groups

IsFound-shift :
    (start : Option ℕ) (r : Regex) (s : Text) (m : Found) (c : ℕ)
    → IsFound (some c) r s m
    → IsFound start r (c ∷ s) (record m { before = c ∷ m.before })
IsFound-shift start r s m c i = record {
  prev = i.prev;
  last = i.last;
  before_it = i.before_it;
  split = ap (λ x. c ∷ x) i.split;
  here = i.here;
  rest = i.rest;
  groups = i.groups;
}

IsFound-here :
    (r : Regex) (prev : Option ℕ) (s : Text) (e : Spot)
    → run r (spot prev s) some ≡ some e
    → IsFound prev r s (record {
      before = [];
      matched = take (length s - length e.rest) s;
      groups = e.groups;
      after = e.rest;
    })
IsFound-here r prev s e h =
    let (e', p, q) = run-IsSound r (spot prev s) some e h in
    let same : e' ≡ e = some_inj q in
    let p' : Matches r (spot prev s) e = subst (Matches r (spot prev s)) same p in
    let t = between-Takes (spot prev s) e (Matches-Takes r (spot prev s) e p') in
    record {
      prev = prev;
      last = e;
      before_it = refl;
      split = sym t;
      here = rw t p';
      rest = refl;
      groups = refl;
    }

find_from-cases :
    (r : Regex) (s : Text) (m : Found) (here : Option Spot) (later : Option Found) (prev : Option ℕ)
    → run r (spot prev s) some ≡ here
    → found_at s here later ≡ some m
    → IsFound prev r s m ⊎ (later ≡ some m)
find_from-cases r s m none later prev e h = inr h
find_from-cases r s m (some x) later prev e h =
    inl (subst (IsFound prev r s) (found_inj h) (IsFound-here r prev s x e))

find_from-IsFound :
    (r : Regex) (prev : Option ℕ) (s : Text) (m : Found)
    → find_from r prev s ≡ some m
    → IsFound prev r s m
unfolding find_from
find_from-IsFound r prev [] m h =
    elim (find_from-cases r [] m (run r (spot prev []) some) none prev refl h) [
      | inl i ↦ i
      | inr e ↦ cc
    ]
find_from-IsFound r prev (c ∷ s) m h =
    elim (find_from-cases r (c ∷ s) m (run r (spot prev (c ∷ s)) some)
      (shift c (find_from r (some c) s)) prev refl h) [
        | inl i ↦ i
        | inr e ↦ elim (Option-cases (find_from r (some c) s)) [
          | inl f ↦ cc (rw f at e)
          | inr (m', f) ↦
              subst (IsFound prev r (c ∷ s)) (found_inj (rw f at e))
                (IsFound-shift prev r s m' c (find_from-IsFound r (some c) s m' f))
        ]
      ]

-- What `find` returns is a match, with the text split at it.
pub find-IsFound : (r : Regex) (s : Text) (m : Found) → find r s ≡ some m → IsFound none r s m
unfolding find
find-IsFound r s m h = find_from-IsFound r none s m h
