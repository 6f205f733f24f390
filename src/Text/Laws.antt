-- ===== src/Text/Laws.antt =====
-- Laws of the string methods.
use mikmongo.Base.{
  ℕ, ◌≡◌, refl, ◌↔◌, Bool, true, [], ◌∷◌, ◌++◌, arith, Bool-cases, inl, inr, ap, List, false, any,
  In,
}
use mikmongo.Text.{Text, equal, starts_with, includes, span}

pub equal_iff : (a b : Text) → (equal a b ≡ true) ↔ (a ≡ b)
unfolding equal
equal_iff (x ∷ a) (y ∷ b) = ground (arith, equal_iff a b)
equal_iff _ _ = ground arith

pub equal_refl : (a : Text) → equal a a ≡ true
equal_refl a = (equal_iff a a).1 refl

pub starts_with_append : (p s : Text) → starts_with (p ++ s) p ≡ true
unfolding starts_with
starts_with_append [] s = refl
starts_with_append (c ∷ p) s = ground (arith, starts_with_append p s)

-- A text that starts with `p` is `p` followed by a rest.
pub starts_with_split : (s p : Text) → starts_with s p ≡ true → (rest : Text) × (s ≡ p ++ rest)
unfolding starts_with
starts_with_split s [] h = (s, refl)
starts_with_split [] (p ∷ ps) h = ([], cc)
starts_with_split (c ∷ s) (p ∷ ps) h =
    let (rest, e) = starts_with_split s ps (ground arith) in (rest, ground arith)

pub includes_append : (a p b : Text) → includes (a ++ (p ++ b)) p ≡ true
unfolding includes
includes_append [] [] [] = refl
includes_append [] [] (c ∷ b) = refl
includes_append [] (c ∷ p) b = ground (arith, starts_with_append (c ∷ p) b)
includes_append (c ∷ a) p b = ground (arith, includes_append a p b)

pub span-append : (p : ℕ → Bool) (s : Text) → (span p s).0 ++ (span p s).1 ≡ s
unfolding span
span-append p [] = refl
span-append p (c ∷ s) = ground (arith, span-append p s)

pub starts_with_common : (x s t : Text) → starts_with (x ++ s) (x ++ t) ≡ starts_with s t
unfolding starts_with
starts_with_common [] s t = refl
starts_with_common (c ∷ x) s t = ground (arith, starts_with_common x s t)

pub starts_with_nil : (s : Text) → starts_with s [] ≡ true
unfolding starts_with
starts_with_nil s = refl

pub includes_split : (s p : Text) → includes s p ≡ true → (a b : Text) × (s ≡ a ++ (p ++ b))
unfolding includes
includes_split [] p h = let (rest, e) = starts_with_split [] p h in ([], rest, e)
includes_split (c ∷ s) p h = elim (Bool-cases (starts_with (c ∷ s) p)) [
  | inl e ↦ let (rest, f) = starts_with_split (c ∷ s) p e in ([], rest, f)
  | inr e ↦ let (a, b, f) = includes_split s p (rw e at h) in (c ∷ a, b, ap (◌∷◌ c) f)
]

-- A text includes `p` exactly if `p` stands somewhere in it.
pub includes_iff : (s p : Text) → (includes s p ≡ true) ↔ ((a b : Text) × (s ≡ a ++ (p ++ b)))
includes_iff s p = (includes_split s p, λ (a, b, e). rw e (includes_append a p b))

pub differ : (k j : Text) → equal k j ≡ false → equal j k ≡ false
differ k j h = ground (arith, equal_iff k j, equal_iff j k)

pub any-In : (k : Text) (xs : List Text) → any (equal k) xs ≡ true → In k xs
any-In k [] h = cc
any-In k (x ∷ xs) h = elim (Bool-cases (equal k x)) [
  | inl e ↦ inl ((equal_iff k x).0 e)
  | inr e ↦ inr (any-In k xs (rw e at h))
]

pub In-any : (k : Text) (xs : List Text) → In k xs → any (equal k) xs ≡ true
In-any k [] i = absurd i
In-any k (x ∷ xs) (inl e) = rw ((equal_iff k x).1 e) refl
In-any k (x ∷ xs) (inr i) = ground (arith, In-any k xs i)
