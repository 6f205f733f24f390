-- ===== src/State/Entries/Edits.antt =====
-- The commands on decisions and blockers change the body of their section only.
use mikmongo.Base.{
  ℕ, ◌≡◌, refl, ap, ◌⊎◌, inl, inr, true, false, not, Option, some, List, [], ◌∷◌, ◌++◌,
  append_assoc, ◌==◌, Option-cases,
}
use mikmongo.Text.{Text, codes, starts_with}
use mikmongo.Json.{Json}
use mathlib.Core.Path.{subst}
use mikmongo.Regex.{Regex, Found, Spot, find, text_of, replace, word, lit, anything}
use mikmongo.Regex.Laws.{Matches}
use mikmongo.Regex.Sections.{find-IsSection, lit-starts_with}
use mikmongo.State.Command.{ℤ, written}
use mikmongo.State.Entries.Heading.{header_pattern}
use mikmongo.State.Entries.{section_pattern, set_section, in_section}

-- What follows a section: nothing, or the marks of a heading on a line of its own.
abbrev pub IsEnd : Text → Type 0
IsEnd after = (after ≡ []) ⊎ (starts_with after (codes "\n##") ≡ true)

-- The two documents differ in the body of one section only, which `change` has changed; its heading
-- is one of the given kind.
pub record IsSectionEdit (IsHeading : Text → Type 0) (change : Text → Text)
    (content content' : Text) : Type 0 where
  pub before : Text
  pub header : Text
  pub body : Text
  pub after : Text
  pub old : content ≡ before ++ (header ++ (body ++ after))
  pub new : content' ≡ before ++ (header ++ (change body ++ after))
  pub named : IsHeading header
  pub ends : IsEnd after

text_inj : {a b : Text} → some a ≡ some b → a ≡ b
text_inj h = cc

at-IsEnd :
    (prev : Option ℕ) (after : Text) (gs : List (ℕ × Text)) (e : Spot)
    → Matches
        (Regex.alt (Regex.seq (word "\n##") (Regex.alt (word "#") Regex.empty)) (
          Regex.alt
            (Regex.seq (word "\n##") (Regex.test (λ c. not (c == b'#'))))
            (Regex.eol false)))
        (record { prev = prev; rest = after; groups = gs })
        e
    → IsEnd after
at-IsEnd prev after gs e (inl (m, h, k)) =
    inr (lit-starts_with b'\n' (codes "##") (record { prev = prev; rest = after; groups = gs }) m h)
at-IsEnd prev after gs e (inr (inl (m, h, k))) =
    inr (lit-starts_with b'\n' (codes "##") (record { prev = prev; rest = after; groups = gs }) m h)
at-IsEnd prev [] gs e (inr (inr h)) = inl refl
at-IsEnd prev (c ∷ after) gs e (inr (inr (h, k))) = cc

abbrev end_pattern : Regex
end_pattern =
    Regex.alt (Regex.seq (word "\n##") (Regex.alt (word "#") Regex.empty))
      (Regex.alt (Regex.seq (word "\n##") (Regex.test (λ c. not (c == b'#')))) (Regex.eol false))

-- What the heading of a pattern takes is of the given kind.
abbrev pub Heads : Regex → (Text → Type 0) → Type 0
Heads name IsHeading =
    (s e : Spot) (heading : Text)
    → Matches (header_pattern name) s e
    → heading ++ e.rest ≡ s.rest
    → IsHeading heading

pub set_section-IsSectionEdit :
    (IsHeading : Text → Type 0) (name : Regex) (heads : Heads name IsHeading) (change : Text → Text)
    (content : Text) (m : Found)
    → find (section_pattern name) content ≡ some m
    → IsSectionEdit IsHeading change content
        (set_section (section_pattern name) (change (text_of 2 m)) content)
unfolding set_section replace lit
set_section-IsSectionEdit IsHeading name heads change content m h =
    let i = find-IsSection (header_pattern name) anything end_pattern content m refl refl h in
    record {
      before = m.before;
      header = text_of 1 m;
      body = text_of 2 m;
      after = m.after;
      old = i.split;
      new =
          rw h
            (ap (λ x. m.before ++ x) (append_assoc (text_of 1 m) (change (text_of 2 m)) m.after));
      named = heads i.first i.last (text_of 1 m) i.heads i.taken;
      ends = at-IsEnd i.prev m.after i.seen i.next i.ends;
    }

pub in_section-IsSectionEdit :
    (IsHeading : Text → Type 0) (name : Regex) (heads : Heads name IsHeading) (change : Text → Text)
    (content content' key done_key reason : Text) (value : Json ℤ)
    → written (in_section (section_pattern name) content change key done_key reason value)
      ≡ some content'
    → IsSectionEdit IsHeading change content content'
in_section-IsSectionEdit IsHeading name heads change content content' key done_key reason value h =
    elim (Option-cases (find (section_pattern name) content)) [
      | inl e ↦ cc (rw (written, e) at h)
      | inr (m, e) ↦
          subst (IsSectionEdit IsHeading change content) (text_inj (rw (written, e) at h))
            (set_section-IsSectionEdit IsHeading name heads change content m e)
    ]
