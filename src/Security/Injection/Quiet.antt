-- ===== src/Security/Injection/Quiet.antt =====
-- What is displayed has no line that a protocol has leaked.
use mikmongo.Base.{
  ℕ, ◌≡◌, refl, sym, ◌⊎◌, inl, inr, true, false, not, ◌||◌, List, [], ◌∷◌, ◌++◌, ◌==◌, Bool-cases,
  keep, All, all, map, ◌∙◌, arith,
}
use mathlib.Core.Bool.{true≢false}
use mikmongo.Text.{is_space, to_upper, Text, codes, join, split}
use mikmongo.Regex.{
  Regex, lit, lit_ci, matches, ◌⨟◌, spaces, some_spaces, word, word_ci, no_newline, some_of,
}
use mikmongo.Regex.Finds.{
  IsDirect, Takes, Ends, seq-Ends, last-Ends, whole-matches, many-Takes, some_of-Takes, lit-Takes,
  lit_ci-Takes, lit-IsDirect, lit_ci-IsDirect,
}
use mikmongo.Markdown.Kept.{NoEnd, split-NoEnd, keep-NoEnd, split-join}
use mikmongo.Security.Injection.Sanitize.{
  tool_call, role_mark, role, is_leak, sanitize_for_prompt, sanitize_for_display,
}

-- The name of a role, case aside.
abbrev pub IsRole : Text → Type 0
IsRole r =
    (map to_upper r ≡ codes "ASSISTANT")
    ⊎ (map to_upper r ≡ codes "USER")
    ⊎ (map to_upper r ≡ codes "SYSTEM")

-- A role behind white space, a gap, `to=` case aside, a name without a colon and without white space,
-- a colon, and something in the line.
pub record IsToolCall (l : Text) : Type 0 where
  lead : Text
  who : Text
  gap : ℕ
  gaps : Text
  to : Text
  head : ℕ
  name : Text
  first : ℕ
  call : Text
  line :
      l
      ≡ lead ++ (who ++ ((gap ∷ gaps) ++ (to ++ ((head ∷ name) ++ (codes ":" ++ (first ∷ call))))))
  led : all is_space lead ≡ true
  roled : IsRole who
  spaced : all is_space (gap ∷ gaps) ≡ true
  addressed : map to_upper to ≡ codes "TO="
  named : all (λ c. not (c == b':' || is_space c)) (head ∷ name) ≡ true
  called : all (λ c. not (c == b'\n')) (first ∷ call) ≡ true

-- A role between `<|` and `|>`, with text but no bar behind it, and with white space around.
pub record IsRoleMark (l : Text) : Type 0 where
  lead : Text
  who : Text
  name : Text
  tail : Text
  line : l ≡ lead ++ (codes "<|" ++ (who ++ (name ++ (codes "|>" ++ tail))))
  led : all is_space lead ≡ true
  roled : IsRole who
  barless : all (λ c. not (c == b'|')) name ≡ true
  trailed : all is_space tail ≡ true

role-Takes : (r : Text) → IsRole r → Takes role r
unfolding to_upper
role-Takes r (inl e) s v h =
    let (x, m, i) = lit_ci-Takes (codes "assistant") r e s v h in (x, inl m, i)
role-Takes r (inr (inl e)) s v h =
    let (x, m, i) = lit_ci-Takes (codes "user") r e s v h in (x, inr (inl m), i)
role-Takes r (inr (inr e)) s v h =
    let (x, m, i) = lit_ci-Takes (codes "system") r e s v h in (x, inr (inr m), i)

role-IsDirect : IsDirect role
role-IsDirect = (
  lit_ci-IsDirect (codes "assistant"),
  (lit_ci-IsDirect (codes "user"), lit_ci-IsDirect (codes "system")),
)

-- What stands in the pattern of a tool call behind the role's gap, and behind `to=`.
abbrev naming : Regex
naming = some_of (Regex.test (λ c. not (c == b':' || is_space c)))

abbrev behind_name : Regex
behind_name = word ":" ⨟ no_newline ⨟ Regex.eol false

abbrev behind_gap : Regex
behind_gap = word_ci "to=" ⨟ naming ⨟ behind_name

behind_name-Ends :
    (first : ℕ) (call : Text)
    → all (λ c. not (c == b'\n')) (first ∷ call) ≡ true
    → Ends behind_name (codes ":" ++ (first ∷ call))
behind_name-Ends first call h =
    seq-Ends (word ":") (no_newline ⨟ Regex.eol false) (codes ":") (first ∷ call)
      (lit-Takes (codes ":"))
      (last-Ends no_newline (first ∷ call) (some_of-Takes (λ c. not (c == b'\n')) first call h))

behind_gap-Ends :
    (to name rest : Text) (head : ℕ)
    → map to_upper to ≡ codes "TO="
    → all (λ c. not (c == b':' || is_space c)) (head ∷ name) ≡ true
    → Ends behind_name rest
    → Ends behind_gap (to ++ ((head ∷ name) ++ rest))
unfolding to_upper
behind_gap-Ends to name rest head h n f =
    seq-Ends (word_ci "to=") (naming ⨟ behind_name) to ((head ∷ name) ++ rest)
      (lit_ci-Takes (codes "to=") to h)
      (seq-Ends naming behind_name (head ∷ name) rest
        (some_of-Takes (λ c. not (c == b':' || is_space c)) head name n) f)

tool_call-Ends : (l : Text) (c : IsToolCall l) → Ends (spaces ⨟ role ⨟ some_spaces ⨟ behind_gap) l
tool_call-Ends l c = rw c.line (
    seq-Ends spaces (role ⨟ some_spaces ⨟ behind_gap) c.lead _
      (many-Takes true is_space c.lead c.led)
      (seq-Ends role (some_spaces ⨟ behind_gap) c.who _ (role-Takes c.who c.roled) (
        seq-Ends some_spaces behind_gap (c.gap ∷ c.gaps) _
          (some_of-Takes is_space c.gap c.gaps c.spaced)
          (behind_gap-Ends c.to c.name _ c.head c.addressed c.named
            (behind_name-Ends c.first c.call c.called)))))

behind_gap-IsDirect : IsDirect behind_gap
behind_gap-IsDirect =
    (lit_ci-IsDirect (codes "to="), ((tt, tt), (lit-IsDirect (codes ":"), ((tt, tt), tt))))

tool_call-matches : (l : Text) → IsToolCall l → matches tool_call l ≡ true
tool_call-matches l c =
    whole-matches (spaces ⨟ role ⨟ some_spaces ⨟ behind_gap) l
      (tt, (role-IsDirect, ((tt, tt), behind_gap-IsDirect))) (tool_call-Ends l c)

-- The pattern of a role's mark behind the role's name.
abbrev behind_role : Regex
behind_role =
    Regex.many true (Regex.test (λ c. not (c == b'|'))) ⨟ word "|>" ⨟ spaces ⨟ Regex.eol false

behind_role-Ends :
    (name tail : Text)
    → all (λ c. not (c == b'|')) name ≡ true
    → all is_space tail ≡ true
    → Ends behind_role (name ++ (codes "|>" ++ tail))
behind_role-Ends name tail n t =
    seq-Ends (Regex.many true (Regex.test (λ c. not (c == b'|'))))
      (word "|>" ⨟ spaces ⨟ Regex.eol false) name (codes "|>" ++ tail)
      (many-Takes true (λ c. not (c == b'|')) name n)
      (seq-Ends (word "|>") (spaces ⨟ Regex.eol false) (codes "|>") tail (lit-Takes (codes "|>"))
        (last-Ends spaces tail (many-Takes true is_space tail t)))

role_mark-Ends : (l : Text) → IsRoleMark l → Ends (spaces ⨟ word "<|" ⨟ role ⨟ behind_role) l
role_mark-Ends l c = rw c.line (
    seq-Ends spaces (word "<|" ⨟ role ⨟ behind_role) c.lead _
      (many-Takes true is_space c.lead c.led)
      (seq-Ends (word "<|") (role ⨟ behind_role) (codes "<|") _ (lit-Takes (codes "<|")) (
        seq-Ends role behind_role c.who _ (role-Takes c.who c.roled)
          (behind_role-Ends c.name c.tail c.barless c.trailed))))

role_mark-matches : (l : Text) → IsRoleMark l → matches role_mark l ≡ true
role_mark-matches l c =
    whole-matches (spaces ⨟ word "<|" ⨟ role ⨟ behind_role) l
      (
        tt,
        (lit-IsDirect (codes "<|"), (role-IsDirect, (tt, (lit-IsDirect (codes "|>"), (tt, tt))))),
      )
      (role_mark-Ends l c)

-- A line that a protocol has leaked.
abbrev pub IsLeaked : Text → Type 0
IsLeaked l = IsToolCall l ⊎ IsRoleMark l

abbrev IsKept : Text → Type 0
IsKept l = is_leak l ≡ false

kept-IsQuiet : (l : Text) → IsKept l → ¬ IsLeaked l
unfolding is_leak
kept-IsQuiet l h (inl c) =
    let m : is_leak l ≡ true = rw (tool_call-matches l c) refl in true≢false (sym m ∙ h)
kept-IsQuiet l h (inr c) =
    let m : is_leak l ≡ true = ground (arith, role_mark-matches l c) in true≢false (sym m ∙ h)

all-IsQuiet : (ls : List Text) → All IsKept ls → All (λ l. ¬ IsLeaked l) ls
all-IsQuiet [] h = tt
all-IsQuiet (l ∷ ls) (h, hs) = (kept-IsQuiet l h, all-IsQuiet ls hs)

keep-IsKept : (ls : List Text) → All IsKept (keep (λ l. not (is_leak l)) ls)
keep-IsKept [] = tt
keep-IsKept (l ∷ ls) = elim (Bool-cases (is_leak l)) [
  | inl e ↦ rw e (keep-IsKept ls)
  | inr e ↦ rw e (e, keep-IsKept ls)
]

empty-IsKept : IsKept []
unfolding is_leak lit lit_ci to_upper is_space
empty-IsKept = refl

join-IsKept :
    (ls : List Text)
    → All NoEnd ls
    → All IsKept ls
    → All IsKept (split b'\n' (join (codes "\n") ls))
unfolding join split
join-IsKept [] h q = (empty-IsKept, tt)
join-IsKept (l ∷ ls) h q = rw (split-join (l ∷ ls) refl h) q

-- No line of a text that has been made ready for display is, case aside, the name of a role behind
-- white space, followed by white space, `to=`, a name without colons and white space, a colon and
-- more text; or the name of a role behind `<|`, followed by text without a bar and `|>`, with white
-- space around.
pub sanitize_for_display-IsQuiet :
    (text : Text) → All (λ l. ¬ IsLeaked l) (split b'\n' (sanitize_for_display text))
unfolding sanitize_for_display
sanitize_for_display-IsQuiet text =
    let lines = split b'\n' (sanitize_for_prompt text) in
    all-IsQuiet _ (
      join-IsKept (keep (λ l. not (is_leak l)) lines)
        (keep-NoEnd (λ l. not (is_leak l)) lines (split-NoEnd (sanitize_for_prompt text)))
        (keep-IsKept lines))
