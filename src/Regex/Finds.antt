-- ===== src/Regex/Finds.antt =====
-- The backtracking finds a match where the pattern, as a relation between places, has one.
use mikmongo.Base.{
  ℕ, zero, suc, ◌≡◌, refl, sym, ap, ◌∙◌, ◌⊎◌, inl, inr, Bool, true, false, Option, none, some, [],
  ◌∷◌, ◌++◌, ◌==◌, if◌then◌else◌, length, map, all, arith, leb, ==_iff, append_assoc, append-nil,
}
use mikmongo.Text.{Text, to_upper}
use mathlib.Core.Path.{subst}
use mikmongo.Regex.{
  Regex, Spot, between, run, loop, step, boundary, or_else, test, empty, seq, alt, many, group, bol,
  eol, look, spot, find_from, find, matches, lit, lit_ci,
}
use mikmongo.Regex.Laws.{Matches, Star, stop, more}

-- A pattern without lookahead, whose loops take one unit in an iteration.
abbrev pub IsDirect : Regex → Type 0
IsDirect (seq a b) = IsDirect a × IsDirect b
IsDirect (alt a b) = IsDirect a × IsDirect b
IsDirect (group n a) = IsDirect a
IsDirect (many greedy (test p)) = Unit
IsDirect (many greedy a) = true ≡ false
IsDirect (look a) = true ≡ false
IsDirect _ = Unit

-- A search that has found something.
abbrev IsFound : Option Spot → Type 0
IsFound a = (x : Spot) × (a ≡ some x)

or_else-IsFound : (a b : Option Spot) → IsFound a ⊎ IsFound b → IsFound (or_else a b)
or_else-IsFound none b (inl (x, h)) = cc
or_else-IsFound none b (inr h) = h
or_else-IsFound (some a) b h = (a, refl)

either-IsFound :
    (a b : Option Spot) (greedy : Bool)
    → IsFound a ⊎ IsFound b
    → IsFound (if greedy then or_else a b else or_else b a)
either-IsFound a b true h = or_else-IsFound a b h
either-IsFound a b false (inl h) = or_else-IsFound b a (inr h)
either-IsFound a b false (inr h) = or_else-IsFound b a (inl h)

step-IsFound :
    (p : ℕ → Bool) (s e : Spot) (k : Spot → Option Spot)
    → Matches (test p) s e
    → IsFound (k e)
    → IsFound (step p s s.rest k)
step-IsFound p s e k (c, t, i, q, h) f = rw (i, q) (subst (λ x. IsFound (k x)) h f)

loop-IsFound :
    (greedy : Bool) (p : ℕ → Bool) (fuel : ℕ) (s e : Spot) (k : Spot → Option Spot)
    → leb (length s.rest) fuel ≡ true
    → Star (Matches (test p)) s e
    → IsFound (k e)
    → IsFound (loop greedy (λ s k. step p s s.rest k) fuel s k)
unfolding loop
loop-IsFound greedy p zero s e k n stop f = f
loop-IsFound greedy p zero s e k n (more {m} (c, t, i, q, h) l) f =
    let long : leb (suc (length t)) zero ≡ true = rw i at n in
    let none_left : zero ≡ suc zero = ground arith in (s, cc)
loop-IsFound greedy p (suc fuel) s e k n stop f = either-IsFound _ (k s) greedy (inr f)
loop-IsFound greedy p (suc fuel) s e k n (more {m} (c, t, i, q, h) l) f =
    let tail : m.rest ≡ t = ap (λ x. x.rest) h in
    let size : length s.rest ≡ suc (length m.rest) = rw (i, tail) refl in
    let shorter : (length m.rest == length s.rest) ≡ false = rw size (ground arith) in
    let small : leb (length m.rest) fuel ≡ true = ground arith in
    either-IsFound _ (k s) greedy (
      inl (
        step-IsFound p s m _ (c, t, i, q, h)
          (rw shorter (loop-IsFound greedy p fuel m e k small l f))))

pub run-IsFound :
    (r : Regex) (s e : Spot) (k : Spot → Option Spot)
    → IsDirect r
    → Matches r s e
    → IsFound (k e)
    → IsFound (run r s k)
unfolding run
run-IsFound empty s e k d m f = rw m f
run-IsFound (test p) s e k d m f = step-IsFound p s e k m f
run-IsFound (seq a b) s e k (d, d') (m, h, h') f =
    run-IsFound a s m (λ e. run b e k) d h (run-IsFound b m e k d' h' f)
run-IsFound (alt a b) s e k (d, d') (inl h) f =
    or_else-IsFound (run a s k) (run b s k) (inl (run-IsFound a s e k d h f))
run-IsFound (alt a b) s e k (d, d') (inr h) f =
    or_else-IsFound (run a s k) (run b s k) (inr (run-IsFound b s e k d' h f))
run-IsFound (many greedy (test p)) s e k d m f =
    loop-IsFound greedy p (suc (length s.rest)) s e k (ground arith) m f
run-IsFound (many greedy empty) s e k d m f = cc
run-IsFound (many greedy (seq a b)) s e k d m f = cc
run-IsFound (many greedy (alt a b)) s e k d m f = cc
run-IsFound (many greedy (many g a)) s e k d m f = cc
run-IsFound (many greedy (group n a)) s e k d m f = cc
run-IsFound (many greedy (bol b)) s e k d m f = cc
run-IsFound (many greedy (eol b)) s e k d m f = cc
run-IsFound (many greedy (look a)) s e k d m f = cc
run-IsFound (many greedy boundary) s e k d m f = cc
run-IsFound (group n a) s e k d (m, h, q) f =
    run-IsFound a s m (λ e. k (record e { groups = (n, between s e) ∷ e.groups })) d h (rw (← q) f)
run-IsFound (bol multi) s e k d (h, q) f = rw (h, q) f
run-IsFound (eol multi) s e k d (h, q) f = rw (h, q) f
run-IsFound boundary s e k d (h, q) f = rw (h, q) f
run-IsFound (look a) s e k d m f = cc

-- A match at the begin of a text is found.
pub begin-matches :
    (r : Regex) (l : Text) (e : Spot) → IsDirect r → Matches r (spot none l) e → matches r l ≡ true
unfolding matches find find_from
begin-matches r [] e d m =
    let (x, h) = run-IsFound r (spot none []) e some d m (e, refl) in rw (matches, h) refl
begin-matches r (c ∷ l) e d m =
    let (x, h) = run-IsFound r (spot none (c ∷ l)) e some d m (e, refl) in rw (matches, h) refl

-- A place from which the pattern leads over the text `u` to the rest `v`.
abbrev pub Takes : Regex → Text → Type 0
Takes r u = (s : Spot) (v : Text) → s.rest ≡ u ++ v → (e : Spot) × Matches r s e × (e.rest ≡ v)

pub seq-Takes : (a b : Regex) (u w : Text) → Takes a u → Takes b w → Takes (seq a b) (u ++ w)
seq-Takes a b u w f g s v h =
    let (m, p, i) = f s (w ++ v) (h ∙ append_assoc u w v) in
    let (e, q, j) = g m v i in (e, (m, p, q), j)

pub test-Takes : (p : ℕ → Bool) (c : ℕ) → p c ≡ true → Takes (test p) (c ∷ [])
test-Takes p c q s v h =
    (record { prev = some c; rest = v; groups = s.groups }, (c, v, h, q, refl), refl)

pub many-Takes :
    (greedy : Bool) (p : ℕ → Bool) (u : Text) → all p u ≡ true → Takes (many greedy (test p)) u
many-Takes greedy p [] q s v h = (s, stop, h)
many-Takes greedy p (c ∷ u) q s v h =
    let (m, a, i) = test-Takes p c (ground arith) s (u ++ v) h in
    let (e, b, j) = many-Takes greedy p u (ground arith) m v i in (e, more a b, j)

pub some_of-Takes :
    (p : ℕ → Bool) (c : ℕ) (u : Text)
    → all p (c ∷ u) ≡ true
    → Takes (seq (test p) (many true (test p))) (c ∷ u)
some_of-Takes p c u q =
    seq-Takes (test p) (many true (test p)) (c ∷ []) u (test-Takes p c (ground arith))
      (many-Takes true p u (ground arith))

pub lit-Takes : (w : Text) → Takes (lit w) w
unfolding lit
lit-Takes [] s v h = (s, refl, h)
lit-Takes (c ∷ []) s v h = test-Takes (λ d. d == c) c ((==_iff c c).1 refl) s v h
lit-Takes (c ∷ c' ∷ w) s v h =
    seq-Takes (test (λ d. d == c)) (lit (c' ∷ w)) (c ∷ []) (c' ∷ w)
      (test-Takes (λ d. d == c) c ((==_iff c c).1 refl)) (lit-Takes (c' ∷ w)) s v h

pub lit-IsDirect : (w : Text) → IsDirect (lit w)
unfolding lit
lit-IsDirect [] = tt
lit-IsDirect (c ∷ []) = tt
lit-IsDirect (c ∷ c' ∷ w) = (tt, lit-IsDirect (c' ∷ w))

pub lit_ci-IsDirect : (w : Text) → IsDirect (lit_ci w)
unfolding lit_ci
lit_ci-IsDirect [] = tt
lit_ci-IsDirect (c ∷ []) = tt
lit_ci-IsDirect (c ∷ c' ∷ w) = (tt, lit_ci-IsDirect (c' ∷ w))

same_head : (c d : ℕ) (u w : Text) → c ∷ u ≡ d ∷ w → (c ≡ d) × (u ≡ w)
same_head c d u w h = (cc, cc)

pub lit_ci-Takes : (w u : Text) → map to_upper u ≡ map to_upper w → Takes (lit_ci w) u
unfolding lit_ci
lit_ci-Takes [] [] q s v h = (s, refl, h)
lit_ci-Takes [] (d ∷ u) q s v h = cc
lit_ci-Takes (c ∷ w) [] q s v h = cc
lit_ci-Takes (c ∷ []) (d ∷ []) q s v h =
    let same : to_upper d ≡ to_upper c = (same_head _ _ _ _ q).0 in
    test-Takes (λ x. to_upper x == to_upper c) d ((==_iff _ _).1 same) s v h
lit_ci-Takes (c ∷ []) (d ∷ d' ∷ u) q s v h = cc
lit_ci-Takes (c ∷ c' ∷ w) (d ∷ u) q s v h =
    let (same, rest) = same_head _ _ _ _ q in
    seq-Takes (test (λ x. to_upper x == to_upper c)) (lit_ci (c' ∷ w)) (d ∷ []) u
      (test-Takes (λ x. to_upper x == to_upper c) d ((==_iff _ _).1 same))
      (lit_ci-Takes (c' ∷ w) u rest) s v h

-- A place from which the pattern leads over the text `u`, the last of all.
abbrev pub Ends : Regex → Text → Type 0
Ends r u = (s : Spot) → s.rest ≡ u → (e : Spot) × Matches r s e

pub seq-Ends : (a b : Regex) (u w : Text) → Takes a u → Ends b w → Ends (seq a b) (u ++ w)
seq-Ends a b u w f g s h = let (m, p, i) = f s w h in let (e, q) = g m i in (e, (m, p, q))

pub last-Ends : (a : Regex) (u : Text) → Takes a u → Ends (seq a (eol false)) u
last-Ends a u f s h =
    let (e, p, i) = f s [] (h ∙ sym (append-nil u)) in (e, (e, p, (rw i refl, refl)))

-- A pattern that takes the whole text.
pub whole-matches :
    (r : Regex) (l : Text) → IsDirect r → Ends r l → matches (seq (bol false) r) l ≡ true
whole-matches r l d f =
    let (e, m) = f (spot none l) refl in
    begin-matches (seq (bol false) r) l e (tt, d) (spot none l, (refl, refl), m)
