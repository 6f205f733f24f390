-- ===== src/Markdown/Content.antt =====
-- The lines that are not empty stay, in their order.
use mikmongo.Base.{
  ℕ, ◌+◌, ◌≡◌, refl, sym, ap, ◌∙◌, inl, inr, false, not, List, [], ◌∷◌, ltb, ◌==◌, if◌then◌else◌,
  ==_iff, Bool-cases, is_empty, keep,
}
use mikmongo.Text.{Text, split, push_head}
use mikmongo.Markdown.{limit_runs}

abbrev pub solid : List Text → List Text
solid = keep (λ l. not (is_empty l))

-- The lines of a text that are not empty.
abbrev pub solid_lines : Text → List Text
solid_lines s = solid (split b'\n' s)

abbrev pub first_of : List Text → Text
first_of [] = []
first_of (l ∷ ls) = l

abbrev pub later_of : List Text → List Text
later_of [] = []
later_of (l ∷ ls) = ls

-- Two texts with the same first line and the same lines that are not empty behind it.
pub record SameLines (s t : Text) : Type 0 where
  pub first : first_of (split b'\n' s) ≡ first_of (split b'\n' t)
  pub later : solid (later_of (split b'\n' s)) ≡ solid (later_of (split b'\n' t))

pub push_head-form : (c : ℕ) (ls : List Text) → push_head c ls ≡ (c ∷ first_of ls) ∷ later_of ls
unfolding push_head
push_head-form c [] = refl
push_head-form c (l ∷ ls) = refl

pub split-end : (s : Text) → split b'\n' (b'\n' ∷ s) ≡ [] ∷ split b'\n' s
unfolding split
split-end s = refl

pub split-other :
    (c : ℕ) (s : Text)
    → (c == b'\n') ≡ false
    → split b'\n' (c ∷ s) ≡ (c ∷ first_of (split b'\n' s)) ∷ later_of (split b'\n' s)
unfolding split
split-other c s n = rw n (push_head-form c (split b'\n' s))

pub split-form : (s : Text) → split b'\n' s ≡ first_of (split b'\n' s) ∷ later_of (split b'\n' s)
unfolding split
split-form [] = refl
split-form (c ∷ s) = elim (Bool-cases (c == b'\n')) [
  | inl e ↦ rw e refl
  | inr e ↦ rw (e, push_head-form c (split b'\n' s)) refl
]

pub SameLines-solid : (s t : Text) → SameLines s t → solid_lines s ≡ solid_lines t
SameLines-solid s t i = rw (split-form s, split-form t) (rw (i.first, i.later) refl)

pub SameLines-push :
    (c : ℕ) (s t : Text) → (c == b'\n') ≡ false → SameLines s t → SameLines (c ∷ s) (c ∷ t)
SameLines-push c s t n i = record {
  first = rw (split-other c s n, split-other c t n) (ap (λ l. c ∷ l) i.first);
  later = rw (split-other c s n, split-other c t n) i.later;
}

pub SameLines-end : (s t : Text) → solid_lines s ≡ solid_lines t → SameLines (b'\n' ∷ s) (b'\n' ∷ t)
unfolding split
SameLines-end s t e = record { first = refl; later = e }

solid_lines-end : (s : Text) → solid_lines (b'\n' ∷ s) ≡ solid_lines s
unfolding split
solid_lines-end s = refl

pub SameLines-refl : (s : Text) → SameLines s s
SameLines-refl s = record { first = refl; later = refl }

limit_runs-other :
    (run c : ℕ) (s : Text) → (c == b'\n') ≡ false → limit_runs run (c ∷ s) ≡ c ∷ limit_runs 0 s
unfolding limit_runs
limit_runs-other run c s n = rw n refl

limit_runs-end :
    (run : ℕ) (s : Text)
    → limit_runs run (b'\n' ∷ s)
      ≡ (if ltb run 2 then b'\n' ∷ limit_runs (run + 1) s else limit_runs run s)
unfolding limit_runs
limit_runs-end run s = refl

limit_runs-solid_end :
    (run : ℕ) (s : Text)
    → ((n : ℕ) → solid_lines (limit_runs n s) ≡ solid_lines s)
    → solid_lines (limit_runs run (b'\n' ∷ s)) ≡ solid_lines (b'\n' ∷ s)
limit_runs-solid_end run s h = elim (Bool-cases (ltb run 2)) [
  | inl e ↦
      rw (limit_runs-end run s, e)
        (solid_lines-end (limit_runs (run + 1) s) ∙ h (run + 1) ∙ sym (solid_lines-end s))
  | inr e ↦ rw (limit_runs-end run s, e) (h run ∙ sym (solid_lines-end s))
]

pub limit_runs-lines :
    (s : Text)
    → ((run : ℕ) → solid_lines (limit_runs run s) ≡ solid_lines s) × SameLines (limit_runs 0 s) s
limit_runs-lines [] = unfold limit_runs in ((λ run. refl), SameLines-refl [])
limit_runs-lines (c ∷ s) =
    let (any_run, same) = limit_runs-lines s in
    elim (Bool-cases (c == b'\n')) [
      | inl e ↦
          let is : c ≡ b'\n' = (==_iff c b'\n').0 e in
          rw is (
            (λ run. limit_runs-solid_end run s any_run),
            rw (limit_runs-end 0 s) (SameLines-end (limit_runs 1 s) s (any_run 1)),
          )
      | inr e ↦
          let pushed = SameLines-push c (limit_runs 0 s) s e same in
          (
            (λ run. rw (limit_runs-other run c s e) (SameLines-solid _ _ pushed)),
            rw (limit_runs-other 0 c s e) pushed,
          )
    ]
