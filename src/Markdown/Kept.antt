-- ===== src/Markdown/Kept.antt =====
-- What normalisation keeps of a document.
use mikmongo.Base.{
  ℕ, ◌%◌, ◌≡◌, refl, ◌∙◌, inl, inr, Bool, true, false, List, [], ◌∷◌, ◌++◌, arith, ◌==◌,
  if◌then◌else◌, ==_iff, Bool-cases, is_empty, All, All-append, keep,
}
use mikmongo.Text.{push_head, Text, codes, split, join, strip_end}
use mikmongo.Markdown.{
  unix_lines, before_line, after_line, spread_lines, limit_runs, one_end, normalize_md, count_fence,
  blanks,
}
use mikmongo.Markdown.Content.{
  solid, solid_lines, SameLines, SameLines-solid, SameLines-push, SameLines-end, SameLines-refl,
  split-other, split-end, limit_runs-lines,
}

abbrev pub NoEnd : Text → Type 0
NoEnd = All (λ c. (c == b'\n') ≡ false)

solid-append : (xs ys : List Text) → solid (xs ++ ys) ≡ solid xs ++ solid ys
solid-append [] ys = refl
solid-append (x ∷ xs) ys = ground (arith, solid-append xs ys)

append_end-SameLines : (s : Text) → SameLines (s ++ codes "\n") s
unfolding split
append_end-SameLines [] = record { first = refl; later = refl }
append_end-SameLines (c ∷ s) = elim (Bool-cases (c == b'\n')) [
  | inl e ↦
      rw ((==_iff c b'\n').0 e)
        (SameLines-end (s ++ codes "\n") s (SameLines-solid _ _ (append_end-SameLines s)))
  | inr e ↦ SameLines-push c (s ++ codes "\n") s e (append_end-SameLines s)
]

empty_of : (s : Text) → is_empty s ≡ true → s ≡ []
empty_of [] h = refl
empty_of (c ∷ s) h = cc

strip_end-SameLines_end :
    (s t : Text)
    → solid_lines t ≡ solid_lines s
    → SameLines (if is_empty t then [] else b'\n' ∷ t) (b'\n' ∷ s)
unfolding split
strip_end-SameLines_end s [] h = record { first = refl; later = h }
strip_end-SameLines_end s (d ∷ t) h = SameLines-end (d ∷ t) s h

strip_end-SameLines : (s : Text) → SameLines (strip_end b'\n' s) s
unfolding strip_end
strip_end-SameLines [] = SameLines-refl []
strip_end-SameLines (c ∷ s) = elim (Bool-cases (c == b'\n')) [
  | inl e ↦
      rw ((==_iff c b'\n').0 e) (
        strip_end-SameLines_end s (strip_end b'\n' s) (SameLines-solid _ _ (strip_end-SameLines s)))
  | inr e ↦ rw e (SameLines-push c (strip_end b'\n' s) s e (strip_end-SameLines s))
]

pub split-joined : (l s : Text) → NoEnd l → split b'\n' (l ++ b'\n' ∷ s) ≡ l ∷ split b'\n' s
split-joined [] s h = split-end s
split-joined (c ∷ l) s h = rw (split-other c (l ++ b'\n' ∷ s) h.0, split-joined l s h.1) refl

pub split-one : (l : Text) → NoEnd l → split b'\n' l ≡ l ∷ []
unfolding split
split-one [] h = refl
split-one (c ∷ l) h = rw (split-other c l h.0, split-one l h.1) refl

pub split-join :
    (ls : List Text) → is_empty ls ≡ false → All NoEnd ls → split b'\n' (join (codes "\n") ls) ≡ ls
unfolding join
split-join [] n h = cc
split-join (l ∷ []) n h = split-one l h.0
split-join (l ∷ m ∷ ls) n h =
    rw (split-joined l (join (codes "\n") (m ∷ ls)) h.0, split-join (m ∷ ls) refl h.1) refl

pub keep-NoEnd : (p : Text → Bool) (ls : List Text) → All NoEnd ls → All NoEnd (keep p ls)
keep-NoEnd p [] h = tt
keep-NoEnd p (l ∷ ls) h = elim (Bool-cases (p l)) [
  | inl e ↦ rw e (h.0, keep-NoEnd p ls h.1)
  | inr e ↦ rw e (keep-NoEnd p ls h.1)
]

join-lines : (ls : List Text) → All NoEnd ls → solid_lines (join (codes "\n") ls) ≡ solid ls
unfolding join split
join-lines [] h = refl
join-lines (l ∷ []) h = rw (split-one l h.0) refl
join-lines (l ∷ m ∷ ls) h =
    rw (split-joined l (join (codes "\n") (m ∷ ls)) h.0) (rw (join-lines (m ∷ ls) h.1) refl)

three_blanks : (a b c : Bool) → solid (blanks a b c) ≡ []
unfolding blanks
three_blanks true true true = refl
three_blanks true true false = refl
three_blanks true false true = refl
three_blanks true false false = refl
three_blanks false true true = refl
three_blanks false true false = refl
three_blanks false false true = refl
three_blanks false false false = refl

blanks-NoEnd : (a b c : Bool) → All NoEnd (blanks a b c)
unfolding blanks
blanks-NoEnd true true true = (tt, (tt, (tt, tt)))
blanks-NoEnd true true false = (tt, (tt, tt))
blanks-NoEnd true false true = (tt, (tt, tt))
blanks-NoEnd true false false = (tt, tt)
blanks-NoEnd false true true = (tt, (tt, tt))
blanks-NoEnd false true false = (tt, tt)
blanks-NoEnd false false true = (tt, tt)
blanks-NoEnd false false false = tt

before_line-solid :
    (first : Bool) (prev : Text) (inside : Bool) (line : Text)
    → solid (before_line first prev inside line) ≡ []
unfolding before_line
before_line-solid first prev inside line = three_blanks _ _ _

before_line-NoEnd :
    (first : Bool) (prev : Text) (inside : Bool) (line : Text)
    → All NoEnd (before_line first prev inside line)
unfolding before_line
before_line-NoEnd first prev inside line = blanks-NoEnd _ _ _

after_line-solid :
    (closing : Bool) (line : Text) (rest : List Text) → solid (after_line closing line rest) ≡ []
unfolding after_line
after_line-solid closing line [] = refl
after_line-solid closing line (next ∷ rest) = three_blanks _ _ _

after_line-NoEnd :
    (closing : Bool) (line : Text) (rest : List Text) → All NoEnd (after_line closing line rest)
unfolding after_line
after_line-NoEnd closing line [] = tt
after_line-NoEnd closing line (next ∷ rest) = blanks-NoEnd _ _ _

around-solid :
    (line : Text) (before after more rest : List Text)
    → solid before ≡ []
    → solid after ≡ []
    → solid more ≡ solid rest
    → solid (before ++ line ∷ (after ++ more)) ≡ solid (line ∷ rest)
around-solid line before after more rest b a m =
    rw (solid-append before (line ∷ (after ++ more)), b) (rw (solid-append after more, a, m) refl)

push_head-NoEnd :
    (c : ℕ) (ls : List Text) → (c == b'\n') ≡ false → All NoEnd ls → All NoEnd (push_head c ls)
unfolding push_head
push_head-NoEnd c [] e h = ((e, tt), tt)
push_head-NoEnd c (l ∷ ls) e h = ((e, h.0), h.1)

spread_lines-solid :
    (first : Bool) (prev : Text) (fences : ℕ) (lines : List Text)
    → solid (spread_lines first prev fences lines) ≡ solid lines
unfolding spread_lines
spread_lines-solid first prev fences [] = refl
spread_lines-solid first prev fences (line ∷ rest) =
    let upto = count_fence line fences in
    let open_fence = fences % 2 == 1 in
    let closing = upto % 2 == 0 in
    around-solid line (before_line first prev open_fence line) (after_line closing line rest)
      (spread_lines false line upto rest) rest (before_line-solid first prev open_fence line)
      (after_line-solid closing line rest) (spread_lines-solid false line upto rest)

spread_lines-NoEnd :
    (first : Bool) (prev : Text) (fences : ℕ) (lines : List Text)
    → All NoEnd lines
    → All NoEnd (spread_lines first prev fences lines)
unfolding spread_lines
spread_lines-NoEnd first prev fences [] h = tt
spread_lines-NoEnd first prev fences (line ∷ rest) h =
    let upto = count_fence line fences in
    let open_fence = fences % 2 == 1 in
    let closing = upto % 2 == 0 in
    All-append NoEnd (before_line first prev open_fence line)
      (line ∷ (after_line closing line rest ++ spread_lines false line upto rest))
      (before_line-NoEnd first prev open_fence line)
      (
        h.0,
        All-append NoEnd (after_line closing line rest) (spread_lines false line upto rest)
            (after_line-NoEnd closing line rest) (spread_lines-NoEnd false line upto rest h.1),
      )

pub split-NoEnd : (s : Text) → All NoEnd (split b'\n' s)
unfolding split
split-NoEnd [] = (tt, tt)
split-NoEnd (c ∷ s) = elim (Bool-cases (c == b'\n')) [
  | inl e ↦ rw e (tt, split-NoEnd s)
  | inr e ↦ rw e (push_head-NoEnd c (split b'\n' s) e (split-NoEnd s))
]

one_end-SameLines : (s : Text) → SameLines (one_end s) s
unfolding one_end
one_end-SameLines s =
    let a = append_end-SameLines (strip_end b'\n' s) in
    let b = strip_end-SameLines s in record { first = a.first ∙ b.first; later = a.later ∙ b.later }

-- The lines that are not empty are the same before and after, in the same order, once the line ends
-- of the document are those of UNIX.
pub normalize_md-solid :
    (content : Text) → solid_lines (normalize_md content) ≡ solid_lines (unix_lines content)
unfolding normalize_md
normalize_md-solid [] = unfold unix_lines in refl
normalize_md-solid (c ∷ s) =
    let lines = split b'\n' (unix_lines (c ∷ s)) in
    let joined = join (codes "\n") (spread_lines true [] 0 lines) in
    SameLines-solid _ _ (one_end-SameLines (limit_runs 0 joined))
    ∙ (limit_runs-lines joined).0 0
    ∙ join-lines (spread_lines true [] 0 lines)
        (spread_lines-NoEnd true [] 0 lines (split-NoEnd (unix_lines (c ∷ s))))
    ∙ spread_lines-solid true [] 0 lines
