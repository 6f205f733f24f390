-- ===== src/Regex/Sections.antt =====
-- Patterns of two groups, one behind the other, before something that is only looked at.
use mikmongo.Base.{
  ℕ, ◌≡◌, refl, sym, ap, ◌∙◌, inl, inr, Bool, true, false, ◌&&◌, Option, some, List, [], ◌∷◌, ◌++◌,
  arith,
}
use mikmongo.Text.{Text, starts_with}
use mikmongo.Text.Laws.{starts_with_nil}
use mathlib.Core.Path.{subst}
use mikmongo.Regex.{
  Regex, Spot, Found, spot, between, find, text_of, lit, test, empty, seq, alt, many, group, bol,
  eol, look, boundary,
}
use mikmongo.Regex.Laws.{Matches, Star, stop, more}
use mikmongo.Regex.Parts.{Matches-Takes, between-Takes, find-IsFound}

-- No group stands in the pattern.
abbrev pub is_plain : Regex → Bool
is_plain empty = true
is_plain (test p) = true
is_plain (seq a b) = is_plain a && is_plain b
is_plain (alt a b) = is_plain a && is_plain b
is_plain (many greedy a) = is_plain a
is_plain (group n a) = false
is_plain (bol multi) = true
is_plain (eol multi) = true
is_plain (look a) = is_plain a
is_plain boundary = true

Star-groups :
    (R : Spot → Spot → Type 0)
    → ((s e : Spot) → R s e → e.groups ≡ s.groups)
    → (s e : Spot) → Star R s e
    → e.groups ≡ s.groups
Star-groups R h s e stop = refl
Star-groups R h s e (more {m} p q) = Star-groups R h m e q ∙ h s m p

-- Such a pattern leaves the groups as they are.
Matches-groups : (r : Regex) (s e : Spot) → is_plain r ≡ true → Matches r s e → e.groups ≡ s.groups
Matches-groups empty s e p h = ap (λ x. x.groups) (sym h)
Matches-groups (test q) s e p (c, t, _, _, h) = ap (λ x. x.groups) h
Matches-groups (seq a b) s e p (m, h, k) =
    Matches-groups b m e (ground arith) k ∙ Matches-groups a s m (ground arith) h
Matches-groups (alt a b) s e p (inl h) = Matches-groups a s e (ground arith) h
Matches-groups (alt a b) s e p (inr h) = Matches-groups b s e (ground arith) h
Matches-groups (many greedy a) s e p h =
    Star-groups (Matches a) (λ x y q. Matches-groups a x y p q) s e h
Matches-groups (group n a) s e p h = cc
Matches-groups (bol multi) s e p (_, h) = ap (λ x. x.groups) (sym h)
Matches-groups (eol multi) s e p (_, h) = ap (λ x. x.groups) (sym h)
Matches-groups boundary s e p (_, h) = ap (λ x. x.groups) (sym h)
Matches-groups (look a) s e p (m, h, k) = ap (λ x. x.groups) k ∙ Matches-groups a s m p h

abbrev pub sectioned : Regex → Regex → Regex → Regex
sectioned head body end = seq (group 1 head) (seq (group 2 body) (look end))

-- A match of such a pattern: its head and its body stand in the text one behind the other, and what
-- follows was looked at from there.
pub record IsSection (head end : Regex) (s : Text) (m : Found) : Type 0 where
  pub first : Spot
  pub last : Spot
  pub heads : Matches head first last
  pub taken : text_of 1 m ++ last.rest ≡ first.rest
  pub prev : Option ℕ
  pub seen : List (ℕ × Text)
  pub split : s ≡ m.before ++ (text_of 1 m ++ (text_of 2 m ++ m.after))
  pub next : Spot
  pub ends : Matches end (record { prev = prev; rest = m.after; groups = seen }) next

pub find-IsSection :
    (head body end : Regex) (s : Text) (m : Found)
    → is_plain body ≡ true
    → is_plain end ≡ true
    → find (sectioned head body end) s ≡ some m
    → IsSection head end s m
unfolding text_of
find-IsSection head body end s m q r h =
    let i = find-IsFound (sectioned head body end) s m h in
    let start = spot i.prev (m.matched ++ m.after) in
    let (s1, (m1, a, e1), (s2, (m2, b, e2), (m3, c, e3))) = i.here in
    let g1 : s1.groups ≡ (1, between start m1) ∷ m1.groups = ap (λ x. x.groups) e1 in
    let g2 : s2.groups ≡ (2, between s1 m2) ∷ m2.groups = ap (λ x. x.groups) e2 in
    let kept : m2.groups ≡ s1.groups = Matches-groups body s1 m2 q b in
    let looked : m3.groups ≡ s2.groups = Matches-groups end s2 m3 r c in
    let end1 : i.last.rest ≡ s2.rest = ap (λ x. x.rest) e3 in
    let end2 : s2.rest ≡ m2.rest = ap (λ x. x.rest) e2 in
    let end3 : s1.rest ≡ m1.rest = ap (λ x. x.rest) e1 in
    let end4 : i.last.groups ≡ m3.groups = ap (λ x. x.groups) e3 in
    let all : m.groups ≡ (2, between s1 m2) ∷ (1, between start m1) ∷ m1.groups =
      cc (g1, g2, kept, looked, end4, i.groups) in
    let after : s2.rest ≡ m.after = cc (end1, i.rest) in
    let one : between start m1 ++ m1.rest ≡ m.matched ++ m.after =
      between-Takes start m1 (Matches-Takes head start m1 a) in
    let two : between s1 m2 ++ m2.rest ≡ s1.rest =
      between-Takes s1 m2 (Matches-Takes body s1 m2 b) in
    let tail : m1.rest ≡ between s1 m2 ++ m.after =
      sym end3 ∙ (sym two ∙ ap (λ x. between s1 m2 ++ x) (sym end2 ∙ after)) in
    let inner : m.matched ++ m.after ≡ between start m1 ++ (between s1 m2 ++ m.after) =
      sym one ∙ ap (λ x. between start m1 ++ x) tail in
    record {
      first = start;
      last = m1;
      heads = a;
      taken = rw all one;
      prev = s2.prev;
      seen = s2.groups;
      split = rw all (i.split ∙ ap (λ x. m.before ++ x) inner);
      next = m3;
      ends =
          subst (λ t. Matches end (record { prev = s2.prev; rest = t; groups = s2.groups }) m3)
            after c;
    }

-- A literal stands where it matches.
pub lit-starts_with :
    (c : ℕ) (w : Text) (s e : Spot) → Matches (lit (c ∷ w)) s e → starts_with s.rest (c ∷ w) ≡ true
unfolding lit starts_with
lit-starts_with c [] s e (d, t, i, q, k) = rw i (rw (q, starts_with_nil t) refl)
lit-starts_with c (c' ∷ w) s e (m, (d, t, i, q, k), h) =
    let same : m.rest ≡ t = ap (λ x. x.rest) k in
    let later = lit-starts_with c' w m e h in rw i (rw (q, rw same at later) refl)
