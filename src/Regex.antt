-- ===== src/Regex.antt =====
-- Regular expressions of the language, by the backtracking of its specification: the first way of
-- matching, in the order of the alternatives, with the rest of the pattern as a continuation.
pub mod Finds
pub mod Laws
pub mod Parts
pub mod Reads
pub mod Sections
pub mod Widths
use mikmongo.Base.{
  ℕ, zero, suc, ◌+◌, ◌-◌, Bool, true, false, not, ◌&&◌, ◌||◌, Option, none, some, List, [], ◌∷◌,
  ◌++◌, ltb, leb, ◌==◌, if◌then◌else◌, length, take,
}
use mikmongo.Text.{Text, codes, is_space, is_line_end, is_digit, is_alnum, to_upper}
use Prim.Native.String.{String}

-- A pattern. `many` is `*` if its flag is `true` and `*?` otherwise; `bol` and `eol` are `^` and `$`,
-- with the flag `m` if their flag is `true`; `look` is `(?=…)`;
-- `boundary` is `\b`.
pub data Regex : Type 0 where
  empty : Regex
  test : (ℕ → Bool) → Regex
  seq : Regex → Regex → Regex
  alt : Regex → Regex → Regex
  many : Bool → Regex → Regex
  group : ℕ → Regex → Regex
  bol : Bool → Regex
  eol : Bool → Regex
  look : Regex → Regex
  boundary : Regex

-- A place in the text: the unit before it, the text behind it, and the groups, the latest first.
pub record Spot : Type 0 where
  pub prev : Option ℕ
  pub rest : Text
  pub groups : List (ℕ × Text)

abbrev pub or_else : Option Spot → Option Spot → Option Spot
or_else none later = later
or_else (some s) later = some s

abbrev pub at_bol : Bool → Option ℕ → Bool
at_bol multi none = true
at_bol multi (some c) = multi && is_line_end c

abbrev pub at_eol : Bool → Text → Bool
at_eol multi [] = true
at_eol multi (c ∷ s) = multi && is_line_end c

-- `\w`
unfoldable pub is_word : ℕ → Bool
unfolding is_alnum
is_word c = is_alnum c || c == b'_'

abbrev word_after : Text → Bool
word_after [] = false
word_after (c ∷ s) = is_word c

abbrev word_before : Option ℕ → Bool
word_before none = false
word_before (some c) = is_word c

abbrev differ : Bool → Bool → Bool
differ true b = not b
differ false b = b

abbrev pub at_boundary : Option ℕ → Text → Bool
at_boundary prev s = differ (word_before prev) (word_after s)

-- The text between two places.
abbrev pub between : Spot → Spot → Text
between s e = take (length s.rest - length e.rest) s.rest

-- One unit that passes the test.
abbrev pub step : (ℕ → Bool) → Spot → Text → (Spot → Option Spot) → Option Spot
step p s [] k = none
step p s (c ∷ t) k = if p c then k (record { prev = some c; rest = t; groups = s.groups }) else none

-- The iterations of a loop: an iteration that takes nothing fails. Each takes a unit at least, so the
-- length of the text is fuel enough.
unfoldable pub loop :
    Bool
    → (Spot → (Spot → Option Spot) → Option Spot)
    → ℕ
    → Spot
    → (Spot → Option Spot)
    → Option Spot
loop greedy body zero s k = k s
loop greedy body (suc fuel) s k =
    let more =
      body s (λ e. if length e.rest == length s.rest then none else loop greedy body fuel e k) in
    if greedy then or_else more (k s) else or_else (k s) more

-- The first way to match the pattern here and then to go on with `k`.
unfoldable pub run : Regex → Spot → (Spot → Option Spot) → Option Spot
unfolding loop
run empty s k = k s
run (test p) s k = step p s s.rest k
run (seq a b) s k = run a s (λ e. run b e k)
run (alt a b) s k = or_else (run a s k) (run b s k)
run (many greedy a) s k = loop greedy (run a) (suc (length s.rest)) s k
run (group n a) s k = run a s (λ e. k (record e { groups = (n, between s e) ∷ e.groups }))
run (bol multi) s k = if at_bol multi s.prev then k s else none
run (eol multi) s k = if at_eol multi s.rest then k s else none
run boundary s k = if at_boundary s.prev s.rest then k s else none
run (look a) s k = elim (run a s some) [ none ↦ none | some e ↦ k (record s { groups = e.groups }) ]

-- A match: the text before it, its own, its groups, and the text behind it.
pub record Found : Type 0 where
  pub before : Text
  pub matched : Text
  pub groups : List (ℕ × Text)
  pub after : Text

abbrev pub spot : Option ℕ → Text → Spot
spot prev s = record { prev = prev; rest = s; groups = [] }

abbrev pub shift : ℕ → Option Found → Option Found
shift c none = none
shift c (some m) = some (record m { before = c ∷ m.before })

abbrev pub found_at : Text → Option Spot → Option Found → Option Found
found_at s none later = later
found_at s (some e) later = some (record {
  before = [];
  matched = take (length s - length e.rest) s;
  groups = e.groups;
  after = e.rest;
})

-- The first match at this place or later.
unfoldable pub find_from : Regex → Option ℕ → Text → Option Found
unfolding run
find_from r prev [] = found_at [] (run r (spot prev []) some) none
find_from r prev (c ∷ s) =
    let later = find_from r (some c) s in
    found_at (c ∷ s) (run r (spot prev (c ∷ s)) some) (shift c later)

-- `content.match(pattern)` without the flag `g`
unfoldable pub find : Regex → Text → Option Found
unfolding find_from
find r s = find_from r none s

-- `pattern.test(content)`
unfoldable pub matches : Regex → Text → Bool
unfolding find
matches r s = elim (find r s) [ none ↦ false | some m ↦ true ]

-- A group that took part in the match.
unfoldable pub group_of : ℕ → List (ℕ × Text) → Option Text
group_of n [] = none
group_of n ((i, t) ∷ gs) = if i == n then some t else group_of n gs

abbrev pub or_empty : Option Text → Text
or_empty none = []
or_empty (some t) = t

-- The text of a group, which reads as the empty text when it took no part.
unfoldable pub text_of : ℕ → Found → Text
unfolding group_of
text_of n m = or_empty (group_of n m.groups)

abbrev pub splice : Text → (Found → Text) → Option Found → Text
splice s f none = s
splice s f (some m) = m.before ++ (f m ++ m.after)

-- `content.replace(pattern, f)` without the flag `g`, for a replacement that is a function.
unfoldable pub replace : Regex → (Found → Text) → Text → Text
unfolding find
replace r f s = splice s f (find r s)

-- `$` and a group's number, for a pattern of `count` groups, at most nine.
abbrev pub is_group : ℕ → ℕ → Bool
is_group count d = ltb b'0' d && leb d (b'0' + count)

abbrev group_text : Found → ℕ → Text
group_text m d = text_of (d - b'0') m

-- What `$d` stands for, if it is no plain text.
abbrev reference : ℕ → Found → ℕ → Option Text
reference count m d =
    if d == b'$'
    then some (b'$' ∷ [])
    else if d == b'&'
    then some m.matched
    else if d == b'`'
    then some m.before
    else if d == 0x27
    then some m.after
    else if is_group count d
    then some (group_text m d)
    else none

-- The replacement that a template stands for: `GetSubstitution` of the language, for a pattern of at
-- most nine groups without names.
unfoldable pub expand : ℕ → Text → Found → Text
unfolding text_of
expand count [] m = []
expand count (c ∷ []) m = c ∷ []
expand count (c ∷ d ∷ []) m =
    if c == b'$' then elim (reference count m d) [ none ↦ c ∷ d ∷ [] | some t ↦ t ] else c ∷ d ∷ []
expand count (c ∷ d ∷ e ∷ t) m =
    let far = expand count t m in
    let near = expand count (e ∷ t) m in
    let next = expand count (d ∷ e ∷ t) m in
    if c == b'$'
    then if d == b'0' && is_group count e
      then group_text m e ++ far
      else elim (reference count m d) [ none ↦ c ∷ next | some u ↦ u ++ near ]
    else c ∷ next

abbrev pub last_of : Option ℕ → Text → Option ℕ
last_of p [] = p
last_of p (c ∷ s) = last_of (some c) s

-- The matches under the flag `g`: behind an empty match one unit is passed over. Each round but the
-- last takes a unit, so the length of the text and two is fuel enough.
unfoldable pub replace_rounds : ℕ → Regex → (Found → Text) → Option ℕ → Text → Text
unfolding find_from
replace_rounds zero r f prev s = s
replace_rounds (suc fuel) r f prev s = elim (find_from r prev s) [
  | none ↦ s
  | some m ↦
      m.before
      ++ (f m ++ elim m.matched [
        | [] ↦ elim m.after [ [] ↦ [] | c ∷ t ↦ c ∷ replace_rounds fuel r f (some c) t ]
        | c ∷ t ↦ replace_rounds fuel r f (last_of (some c) t) m.after
      ])
]

-- `content.match(pattern)` with the flag `g`: its matches, in rounds like those of a replacement.
unfoldable pub find_rounds : ℕ → Regex → Option ℕ → Text → List Found
unfolding find_from
find_rounds zero r prev s = []
find_rounds (suc fuel) r prev s = elim (find_from r prev s) [
  | none ↦ []
  | some m ↦ m ∷ elim m.matched [
    | [] ↦ elim m.after [ [] ↦ [] | c ∷ t ↦ find_rounds fuel r (some c) t ]
    | c ∷ t ↦ find_rounds fuel r (last_of (some c) t) m.after
  ]
]

unfoldable pub find_all : Regex → Text → List Found
unfolding find_rounds
find_all r s = find_rounds (suc (suc (length s))) r none s

-- `content.replace(pattern, f)` with the flag `g`
unfoldable pub replace_all : Regex → (Found → Text) → Text → Text
unfolding replace_rounds
replace_all r f s = replace_rounds (suc (suc (length s))) r f none s

-- A literal, and the same under the flag `i`; the fold is exact for literals of ASCII.
unfoldable pub lit : Text → Regex
lit [] = empty
lit (c ∷ []) = test (λ d. d == c)
lit (c ∷ s) = seq (test (λ d. d == c)) (lit s)

unfoldable pub lit_ci : Text → Regex
unfolding to_upper
lit_ci [] = empty
lit_ci (c ∷ []) = test (λ d. to_upper d == to_upper c)
lit_ci (c ∷ s) = seq (test (λ d. to_upper d == to_upper c)) (lit_ci s)

abbrev pub word : String → Regex
word s = lit (codes s)

abbrev pub word_ci : String → Regex
word_ci s = lit_ci (codes s)

infixr 66 ◌⨟◌
abbrev pub ◌⨟◌ : Regex → Regex → Regex
a ⨟ b = seq a b

-- `x+`, `x?`, and the classes `\s*`, `\s+`, `.*`, `.+`, `[\s\S]*?`, `\d+`.
abbrev pub some_of : Regex → Regex
some_of a = seq a (many true a)

abbrev pub maybe : Regex → Regex
maybe a = alt a empty

abbrev pub spaces : Regex
spaces = many true (test is_space)

abbrev pub some_spaces : Regex
some_spaces = some_of (test is_space)

abbrev pub dot : Regex
dot = test (λ c. not (is_line_end c))

abbrev pub line : Regex
line = many true dot

abbrev pub some_line : Regex
some_line = some_of dot

abbrev pub anything : Regex
anything = many false (test (λ c. true))

abbrev pub digits : Regex
digits = some_of (test is_digit)

-- `[^\n]+`
abbrev pub no_newline : Regex
no_newline = some_of (test (λ c. not (c == b'\n')))

abbrev pub newline : Regex
newline = test (λ c. c == b'\n')
