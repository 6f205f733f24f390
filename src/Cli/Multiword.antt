-- ===== src/Cli/Multiword.antt =====
-- A value of several words.
use mikmongo.Base.{
  ◌≡◌, refl, sym, ap, ◌∙◌, ◌↔◌, inl, inr, true, false, some, List, [], ◌∷◌, ◌++◌, Bool-cases,
  Option-cases, is_empty, any, All,
}
use mikmongo.Text.{Text, codes, equal, join}
use mikmongo.Cli.{dashed, is_flag, behind, tokens_of, joined, parse_multiword_arg}
use mikmongo.Cli.Named.{behind-splits, behind-first}

abbrev pub EndsWords : List Text → Type 0
EndsWords [] = Unit
EndsWords (a ∷ rest) = is_flag a ≡ true

-- The words behind the first occurrence of the flag, up to the next flag.
pub record IsPhrase (args : List Text) (flag : Text) (words : List Text) : Type 0 where
  pub before : List Text
  pub rest : List Text
  pub splits : args ≡ before ++ dashed flag ∷ (words ++ rest)
  pub first : any (equal (dashed flag)) before ≡ false
  pub no_flags : All (λ a. is_flag a ≡ false) words
  pub ends : EndsWords rest

tokens_of-splits :
    (args : List Text)
    → (rest : List Text) × (args ≡ tokens_of args ++ rest)
      × All (λ a. is_flag a ≡ false) (tokens_of args)
      × EndsWords rest
unfolding tokens_of
tokens_of-splits [] = ([], refl, tt, tt)
tokens_of-splits (a ∷ args) = elim (Bool-cases (is_flag a)) [
  | inl e ↦ rw e (a ∷ args, refl, tt, e)
  | inr e ↦ let (rest, s, n, m) = tokens_of-splits args in rw e (rest, ap (λ x. a ∷ x) s, (e, n), m)
]

tokens_of_append :
    (words rest : List Text)
    → All (λ a. is_flag a ≡ false) words
    → EndsWords rest
    → tokens_of (words ++ rest) ≡ words
unfolding tokens_of
tokens_of_append [] [] h e = refl
tokens_of_append [] (a ∷ rest) h e = rw e refl
tokens_of_append (w ∷ words) rest h e = rw (h.0, tokens_of_append words rest h.1 e) refl

joined-words :
    (ts : List Text) (t : Text)
    → joined ts ≡ some t
    → (is_empty ts ≡ false) × (t ≡ join (codes " ") ts)
unfolding joined
joined-words [] t h = cc
joined-words (w ∷ ts) t h = (refl, cc)

words-joined : (ts : List Text) → is_empty ts ≡ false → joined ts ≡ some (join (codes " ") ts)
unfolding joined
words-joined [] h = cc
words-joined (w ∷ ts) h = refl

-- The value is the words behind the first occurrence of the flag up to the next flag, if there are
-- any, with a space between two of them.
pub parse_multiword_arg_iff :
    (args : List Text) (flag t : Text)
    → (parse_multiword_arg args flag ≡ some t) ↔ (
        (words : List Text) × IsPhrase args flag words
        × (is_empty words ≡ false)
        × (t ≡ join (codes " ") words))
unfolding parse_multiword_arg
parse_multiword_arg_iff args flag t = (
  λ h. elim (Option-cases (behind (dashed flag) args)) [
    | inl e ↦ cc (rw (parse_multiword_arg, e) at h)
    | inr (found, e) ↦
        let (before, splits, first) = behind-splits (dashed flag) args found e in
        let (rest, s, n, m) = tokens_of-splits found in
        let (full, same) = joined-words (tokens_of found) t (rw (parse_multiword_arg, e) at h) in
        (
          tokens_of found,
          record {
            before = before;
            rest = rest;
            splits = splits ∙ ap (λ x. before ++ dashed flag ∷ x) s;
            first = first;
            no_flags = n;
            ends = m;
          },
          full,
          same,
        )
  ],
  λ (words, p, full, same).
      rw
        (
          p.splits,
          parse_multiword_arg,
          behind-first (dashed flag) p.before (words ++ p.rest) p.first,
          tokens_of_append words p.rest p.no_flags p.ends,
        )
        (words-joined words full ∙ ap some (sym same)),
)
