-- ===== src/State/Entries/Heading.antt =====
-- The heading of the section of the blockers.
use mikmongo.Base.{
  ==_iff, ◌≡◌, refl, sym, ap, ◌∙◌, ◌⊎◌, inl, inr, true, ◌∷◌, ◌++◌, map, all, append_assoc,
}
use mikmongo.Text.{Text, codes, to_upper, is_space}
use mikmongo.Regex.{Regex, Spot, spaces, newline, word}
use mikmongo.Regex.Laws.{Matches}
use mikmongo.Regex.Reads.{lit-reads, lit_ci-reads, Star-reads, append_cancel}
use mikmongo.State.Entries.{blockers_name}

-- Two or three marks, one of the three names of the section, case aside, with spaces around it, and
-- the end of the line.
abbrev pub IsBlockersHeading : Text → Type 0
IsBlockersHeading heading =
    (marks : Text) × (before : Text) × (name : Text) × (after : Text) × (heading
      ≡ marks ++ (before ++ (name ++ (after ++ codes "\n"))))
    × ((marks ≡ codes "##") ⊎ (marks ≡ codes "###"))
    × (all is_space before ≡ true)
    × (all is_space after ≡ true)
    × ((map to_upper name ≡ codes "BLOCKERS")
        ⊎ (map to_upper name ≡ codes "BLOCKERS/CONCERNS")
        ⊎ (map to_upper name ≡ codes "CONCERNS"))

marks-read :
    (s e : Spot)
    → Matches (Regex.seq (word "##") (Regex.alt (word "#") Regex.empty)) s e
    → (u : Text) × (s.rest ≡ u ++ e.rest) × ((u ≡ codes "##") ⊎ (u ≡ codes "###"))
marks-read s e (m, h, inl k) = (
  codes "###",
  lit-reads (codes "##") s m h ∙ ap (λ x. codes "##" ++ x) (lit-reads (codes "#") m e k),
  inr refl,
)
marks-read s e (m, h, inr k) =
    (codes "##", lit-reads (codes "##") s m h ∙ ap (λ x. codes "##" ++ x.rest) k, inl refl)

name-read :
    (s e : Spot)
    → Matches blockers_name s e
    → (u : Text) × (s.rest ≡ u ++ e.rest)
      × ((map to_upper u ≡ codes "BLOCKERS")
          ⊎ (map to_upper u ≡ codes "BLOCKERS/CONCERNS")
          ⊎ (map to_upper u ≡ codes "CONCERNS"))
unfolding to_upper
name-read s e (inl h) = let (u, r, f) = lit_ci-reads (codes "Blockers") s e h in (u, r, inl f)
name-read s e (inr (inl h)) =
    let (u, r, f) = lit_ci-reads (codes "Blockers/Concerns") s e h in (u, r, inr (inl f))
name-read s e (inr (inr h)) =
    let (u, r, f) = lit_ci-reads (codes "Concerns") s e h in (u, r, inr (inr f))

abbrev pub header_pattern : Regex → Regex
header_pattern name = Regex.seq (word "##") (
    Regex.seq (Regex.alt (word "#") Regex.empty)
      (Regex.seq spaces (Regex.seq name (Regex.seq spaces newline))))

regroup :
    (a b c d n r : Text) → (a ++ (b ++ (c ++ (d ++ n)))) ++ r ≡ a ++ (b ++ (c ++ (d ++ (n ++ r))))
regroup a b c d n r =
    append_assoc a (b ++ (c ++ (d ++ n))) r
    ∙ ap (λ x. a ++ x)
        (append_assoc b (c ++ (d ++ n)) r
          ∙ ap (λ x. b ++ x) (append_assoc c (d ++ n) r ∙ ap (λ x. c ++ x) (append_assoc d n r)))

pub header-IsBlockersHeading :
    (s e : Spot) (heading : Text)
    → Matches (header_pattern blockers_name) s e
    → heading ++ e.rest ≡ s.rest
    → IsBlockersHeading heading
header-IsBlockersHeading s e heading (a, h1, (b, h2, (c, h3, (d, h4, (f, h5, (x, t, i, q, h6))))))
      w =
    let (marks, r1, m) = marks-read s b (a, h1, h2) in
    let (before, r2, p) = Star-reads is_space b c h3 in
    let (name, r3, n) = name-read c d h4 in
    let (after, r4, g) = Star-reads is_space d f h5 in
    let r5 : f.rest ≡ codes "\n" ++ e.rest =
      i
      ∙ (ap (λ y. y ∷ t) ((==_iff x 10).0 q)
          ∙ ap (λ y. codes "\n" ++ y) (ap (λ y. y.rest) (sym h6))) in
    let chain : s.rest ≡ marks ++ (before ++ (name ++ (after ++ (codes "\n" ++ e.rest)))) =
      r1
      ∙ ap (λ y. marks ++ y)
          (r2 ∙ ap (λ y. before ++ y) (r3 ∙ ap (λ y. name ++ y) (r4 ∙ ap (λ y. after ++ y) r5))) in
    let whole = marks ++ (before ++ (name ++ (after ++ codes "\n"))) in
    (
      marks,
      before,
      name,
      after,
      append_cancel heading whole e.rest
          (w ∙ (chain ∙ sym (regroup marks before name after (codes "\n") e.rest))),
      m,
      p,
      g,
      n,
    )
