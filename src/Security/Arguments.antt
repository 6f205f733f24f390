-- ===== src/Security/Arguments.antt =====
-- What the checks of arguments let through.
use mikmongo.Base.{
  leb, leb→le, ℕ, ◌≤◌, ◌≡◌, refl, sym, ap, ◌∙◌, ◌≢◌, ◌↔◌, ◌⊎◌, inl, inr, Bool, true, false, not,
  ◌&&◌, ◌||◌, none, some, List, [], ◌∷◌, ◌++◌, append-nil, arith, ◌==◌, Bool-cases, Option-cases,
  length, is_empty, all, any, length-append, All,
}
use mikmongo.PhaseNum.Parts.{match_phase-prefix}
use mikmongo.Text.{
  Text, codes, includes, is_letter, is_alnum, is_digit, trim, split, is_upper, is_lower, span,
  push_head,
}
use mikmongo.Text.Laws.{includes_iff}
use mikmongo.PhaseNum.{taken, Groups, match_phase, normalize_phase_name}
use mikmongo.Security.{
  has_dollar_or_tick, validate_shell_arg, ok, validate_field_name, validate_phase_number,
  is_numeric_phase, is_custom_phase, field_unit,
}

-- A text that the shell does not expand between double quotes as a command, and that is no C string
-- cut short: it holds no null unit, no backtick, and no dollar before a parenthesis.
abbrev pub IsInert : Text → Type 0
IsInert v =
    (v ≢ [])
    × (any (λ u. u == 0) v ≡ false)
    × (any (λ u. u == b'`') v ≡ false)
    × (¬ ((a b : Text) × (v ≡ a ++ (codes "$(" ++ b))))

any_of_include :
    (p : ℕ → Bool) (a : Text) (c : ℕ) (b : Text) → p c ≡ true → any p (a ++ c ∷ b) ≡ true
any_of_include p [] c b h = rw h
any_of_include p (d ∷ a) c b h = ground (arith, any_of_include p a c b h)

any_tick : (v : Text) → any (λ u. u == b'`') v ≡ true → has_dollar_or_tick v ≡ true
any_tick [] h = cc
any_tick (c ∷ v) h = ground (arith, any_tick v)

includes-dollar : (v : Text) → includes v (codes "$(") ≡ true → has_dollar_or_tick v ≡ true
includes-dollar v h =
    let (a, b, e) = (includes_iff v (codes "$(")).0 h in
    rw e (any_of_include (λ c. c == b'$' || c == b'`') a b'$' (b'(' ∷ b) refl)

not_included :
    (v : Text)
    → (includes v (codes "$(") ≡ false) ↔ (¬ ((a b : Text) × (v ≡ a ++ (codes "$(" ++ b))))
not_included v = (
  λ h (a, b, e). cc (h, (includes_iff v (codes "$(")).1 (a, b, e)),
  λ n. elim (Bool-cases (includes v (codes "$("))) [
    | inl yes' ↦ absurd (n ((includes_iff v (codes "$(")).0 yes'))
    | inr no' ↦ no'
  ],
)

validate_shell_arg_tests :
    (c : ℕ) (v w : Text)
    → (validate_shell_arg (c ∷ v) ≡ ok w) ↔ (
        (any (λ u. u == 0) (c ∷ v) ≡ false)
        × (any (λ u. u == b'`') (c ∷ v) ≡ false)
        × (includes (c ∷ v) (codes "$(") ≡ false)
        × (w ≡ c ∷ v))
unfolding validate_shell_arg
validate_shell_arg_tests c v w = ground (arith, includes-dollar (c ∷ v), any_tick (c ∷ v))

-- A shell argument is accepted, unchanged, exactly if it is inert.
pub validate_shell_arg_iff : (v w : Text) → (validate_shell_arg v ≡ ok w) ↔ (IsInert v × (w ≡ v))
unfolding validate_shell_arg
validate_shell_arg_iff [] w = ((λ h. cc), λ i. absurd (i.0.0 refl))
validate_shell_arg_iff (c ∷ v) w =
    let (to, from) = validate_shell_arg_tests c v w in
    (
      λ h.
          let (no_null, no_tick, no_call, same) = to h in
          (((λ e. cc), no_null, no_tick, (not_included (c ∷ v)).0 no_call), same),
      λ i. from (i.0.1, i.0.2, (not_included (c ∷ v)).1 i.0.3, i.1),
    )

pub no_field_meta : ℕ → Bool
no_field_meta c =
    not (c == b'*')
    && not (c == b'+')
    && not (c == b'?')
    && not (c == b'^')
    && not (c == b'$')
    && not (c == b'(')
    && not (c == b')')
    && not (c == b'[')
    && not (c == b']')
    && not (c == b'{')
    && not (c == b'}')
    && not (c == b'|')
    && not (c == b'\\')
    && not (c == b':')
    && not (c == b'\n')

field_units : (s : Text) → all field_unit s ≡ true → All (λ c. no_field_meta c ≡ true) s
unfolding no_field_meta is_alnum is_letter is_upper is_lower is_digit
field_units [] h = tt
field_units (c ∷ s) h = (ground arith, field_units s (ground arith))

-- A field name that is accepted has between 1 and 61 units, begins with a letter, and holds no line
-- end by `\n`, no colon, and no metacharacter of regular expressions but `.`, `-` and `/`.
pub validate_field_name-safe :
    (s : Text)
    → validate_field_name s ≡ true
    → All (λ c. no_field_meta c ≡ true) s × (1 ≤ length s) × (length s ≤ 61)
unfolding validate_field_name no_field_meta is_letter is_upper is_lower
validate_field_name-safe [] h = cc
validate_field_name-safe (c ∷ s) h =
    ((ground arith, field_units s (ground arith)), ground arith, ground arith)

is_numeric_phase-whole :
    (t : Text) (g : Groups)
    → is_numeric_phase t (some g) ≡ true
    → (length (taken g) ≡ length t) × (length g.digits ≤ 4)
unfolding is_numeric_phase
is_numeric_phase-whole t g h = ground arith

-- A word of letters and digits.
abbrev pub IsWord : Text → Type 0
IsWord w = (is_empty w ≡ false) × All (λ c. is_alnum c ≡ true) w

abbrev begins_letter : Text → Bool
begins_letter [] = false
begins_letter (c ∷ w) = is_letter c

-- The words between the dashes of a custom identifier: two to five, the first unit a letter.
abbrev pub IsCustomWords : List Text → Type 0
IsCustomWords [] = ⊥
IsCustomWords (first ∷ more) =
    (begins_letter first ≡ true)
    × All (λ c. is_alnum c ≡ true) first
    × All IsWord more
    × (1 ≤ length more)
    × (length more ≤ 4)

abbrev pub IsCustom : Text → Type 0
IsCustom t = IsCustomWords (split b'-' t) × (length t ≤ 30)

units-alnum : (w : Text) → all is_alnum w ≡ true → All (λ c. is_alnum c ≡ true) w
units-alnum [] h = tt
units-alnum (c ∷ w) h = (ground arith, units-alnum w (ground arith))

words-IsWord :
    (ws : List Text) → all (λ w. not (is_empty w) && all is_alnum w) ws ≡ true → All IsWord ws
words-IsWord [] h = tt
words-IsWord (w ∷ ws) h =
    ((ground arith, units-alnum w (ground arith)), words-IsWord ws (ground arith))

-- What is known of a validated phase number `t`: it is a custom identifier, which normalisation
-- leaves alone, or its groups are the whole of it, with four digits at most.
abbrev pub IsPhaseArg : Text → Type 0
IsPhaseArg t =
    (IsCustom t × (match_phase t ≡ none) × (normalize_phase_name t ≡ t))
    ⊎ ((g : Groups) × (match_phase t ≡ some g) × (taken g ≡ t) × (length g.digits ≤ 4))

is_custom_phase-IsCustomWords : (ws : List Text) → is_custom_phase ws ≡ true → IsCustomWords ws
unfolding is_custom_phase
is_custom_phase-IsCustomWords [] h = cc
is_custom_phase-IsCustomWords ([] ∷ more) h = cc
is_custom_phase-IsCustomWords ((c ∷ first) ∷ more) h = (
  ground arith,
  units-alnum (c ∷ first) (ground arith),
  words-IsWord more (ground arith),
  ground arith,
  ground arith,
)

IsPhaseArg-none :
    (t : Text)
    → match_phase t ≡ none
    → is_custom_phase (split b'-' t) ≡ true
    → length t ≤ 30
    → IsPhaseArg t
unfolding normalize_phase_name
IsPhaseArg-none t e c l = inl ((is_custom_phase-IsCustomWords (split b'-' t) c, l), e, rw e)

append_same_length : (x rest : Text) → length x ≡ length (x ++ rest) → x ≡ x ++ rest
append_same_length x [] h = sym (append-nil x)
append_same_length x (c ∷ rest) h = absurd (omega (arith, length-append x (c ∷ rest)))

IsPhaseArg-some :
    (t : Text) (g : Groups)
    → match_phase t ≡ some g
    → is_numeric_phase t (some g) ≡ true
    → IsPhaseArg t
IsPhaseArg-some t g e h =
    let (same, short) = is_numeric_phase-whole t g h in
    let (rest, f) = match_phase-prefix t g e in
    inr (g, e, append_same_length (taken g) rest (same ∙ ap length f) ∙ sym f, short)

-- No custom identifier matches the phase pattern.
is_custom_phase-push_head :
    (c : ℕ) (ps : List Text) → is_letter c ≡ false → is_custom_phase (push_head c ps) ≡ false
unfolding is_custom_phase push_head
is_custom_phase-push_head c [] h = rw h
is_custom_phase-push_head c (p ∷ ps) h = rw h

match_phase-digit :
    (c : ℕ) (t : Text) (g : Groups) → match_phase (c ∷ t) ≡ some g → is_digit c ≡ true
unfolding match_phase span
match_phase-digit c t g h = ground arith

digit_alone : (c : ℕ) → is_digit c ≡ true → (is_letter c ≡ false) × ((c == b'-') ≡ false)
unfolding is_digit is_letter is_upper is_lower
digit_alone c h = ground arith

is_custom_phase-none :
    (t : Text) (g : Groups) → match_phase t ≡ some g → is_custom_phase (split b'-' t) ≡ false
unfolding split
is_custom_phase-none [] g h = unfold match_phase span in cc
is_custom_phase-none (c ∷ t) g h =
    let (no_letter, no_dash) = digit_alone c (match_phase-digit c t g h) in
    rw no_dash (is_custom_phase-push_head c (split b'-' t) no_letter)

validate_phase_number-cases :
    (s t : Text)
    → validate_phase_number s ≡ some t
    → (t ≡ trim s)
      × ((is_numeric_phase t (match_phase t) ≡ true)
          ⊎ ((is_custom_phase (split b'-' t) ≡ true) × (length t ≤ 30)))
unfolding validate_phase_number
validate_phase_number-cases s t h = elim (Bool-cases (is_empty s)) [
  | inl e ↦ cc (rw e at h)
  | inr e ↦ elim (Bool-cases (is_numeric_phase (trim s) (match_phase (trim s)))) [
    | inl n ↦ let same : trim s ≡ t = cc (rw (e, n) at h) in (sym same, inl (rw same at n))
    | inr n ↦ elim (Bool-cases (is_custom_phase (split b'-' (trim s)))) [
      | inl c ↦ elim (Bool-cases (leb (length (trim s)) 30)) [
        | inl l ↦
            let same : trim s ≡ t = cc (rw (e, n, c, l) at h) in
            (sym same, inr (rw same at c, rw same at (leb→le (length (trim s)) 30 l)))
        | inr l ↦ cc (rw (e, n, c, l) at h)
      ]
      | inr c ↦ cc (rw (e, n, c) at h)
    ]
  ]
]

is_numeric_phase-none : (t : Text) → is_numeric_phase t none ≡ false
unfolding is_numeric_phase
is_numeric_phase-none t = refl

-- A validated phase number is the trimmed argument. Either it is a custom identifier, two to five words
-- of letters and digits with a dash between two of them, the first unit a letter and 30 units at
-- most, which normalisation leaves alone; or the groups of the phase pattern make up the whole of it, so that
-- normalising it drops nothing, and its number has at most four digits.
pub validate_phase_number-IsPhaseArg :
    (s t : Text) → validate_phase_number s ≡ some t → (t ≡ trim s) × IsPhaseArg t
unfolding validate_phase_number
validate_phase_number-IsPhaseArg s t h =
    let (same, kind) = validate_phase_number-cases s t h in
    elim (Option-cases (match_phase t)) [
      | inl e ↦ elim kind [
        | inl n ↦ cc (rw e at n, is_numeric_phase-none t)
        | inr (c, l) ↦ (same, IsPhaseArg-none t e c l)
      ]
      | inr (g, e) ↦ elim kind [
        | inl n ↦ (same, IsPhaseArg-some t g e (rw e at n))
        | inr (c, l) ↦ cc (c, is_custom_phase-none t g e)
      ]
    ]
