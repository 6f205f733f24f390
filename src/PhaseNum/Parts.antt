-- ===== src/PhaseNum/Parts.antt =====
-- What the pattern of a phase number takes, and that it takes it again.
use mikmongo.Base.{
  ℕ, zero, suc, ◌-◌, ◌≡◌, refl, sym, ap, ◌∙◌, ◌≢◌, inl, inr, Bool, true, false, ◌&&◌, Option, none,
  some, [], ◌∷◌, ◌++◌, append-nil, append_assoc, arith, ◌==◌, Bool-cases, length, replicate, All,
}
use mikmongo.Text.Laws.{span-append}
use mikmongo.Text.{Text, is_digit, is_letter, to_upper, span, pad_start}
use mikmongo.PhaseNum.{
  Groups, decimals, letter_groups, match_phase, starts_digit, upper_letter, normalized, taken,
}

abbrev pub IsDigits : Text → Type 0
IsDigits = All (λ c. is_digit c ≡ true)

span-IsDigits : (s : Text) → IsDigits (span is_digit s).0
unfolding span
span-IsDigits [] = tt
span-IsDigits (c ∷ s) = elim (Bool-cases (is_digit c)) [
  | inl e ↦ rw e (e, span-IsDigits s)
  | inr e ↦ rw e tt
]

span-is_digit :
    (xs ys : Text) → IsDigits xs → starts_digit ys ≡ false → span is_digit (xs ++ ys) ≡ (xs, ys)
unfolding span
span-is_digit [] [] h k = refl
span-is_digit [] (y ∷ ys) h k = rw k
span-is_digit (x ∷ xs) ys (e, h) k = rw e (rw (span-is_digit xs ys h k))

starts_digit-decimals-true :
    (s : Text) → starts_digit s ≡ true → starts_digit (decimals true s) ≡ true
unfolding decimals
starts_digit-decimals-true [] h = h
starts_digit-decimals-true (c ∷ s) h = ground arith

decimals-decimals : (b : Bool) (s : Text) → decimals b (decimals b s) ≡ decimals b s
unfolding decimals
decimals-decimals b [] = refl
decimals-decimals b (c ∷ s) = ground (arith, decimals-decimals true s, starts_digit-decimals-true s)

abbrev starts_letter : Text → Bool
starts_letter [] = false
starts_letter (c ∷ s) = is_letter c

decimals-starts :
    (s : Text)
    → (starts_digit (decimals false s) ≡ false) × (starts_letter (decimals false s) ≡ false)
unfolding decimals is_digit is_letter
decimals-starts [] = (refl, refl)
decimals-starts (c ∷ s) = ground arith

-- What holds of the groups of every match.
pub record IsMatch (g : Groups) : Type 0 where
  pub all_digits : IsDigits g.digits
  pub some_digit : g.digits ≢ []
  pub a_letter : (c : ℕ) → g.letter ≡ some c → is_letter c ≡ true
  pub decimal_again : decimals false g.decimal ≡ g.decimal

letter_groups-IsMatch :
    (digits s : Text) → IsDigits digits → digits ≢ [] → IsMatch (letter_groups digits s)
unfolding letter_groups
letter_groups-IsMatch digits [] d n = record {
  all_digits = d;
  some_digit = n;
  a_letter = λ c e. cc;
  decimal_again = refl;
}
letter_groups-IsMatch digits (x ∷ s) d n = elim (Bool-cases (is_letter x)) [
  | inl e ↦ rw e (record {
    all_digits = d;
    some_digit = n;
    a_letter = λ c p. ground arith;
    decimal_again = decimals-decimals false s;
  })
  | inr e ↦ rw e (record {
    all_digits = d;
    some_digit = n;
    a_letter = λ c p. cc;
    decimal_again = decimals-decimals false (x ∷ s);
  })
]

pub match_phase-IsMatch : (s : Text) {g : Groups} → match_phase s ≡ some g → IsMatch g
unfolding match_phase
match_phase-IsMatch s {g} h =
    let same : letter_groups (span is_digit s).0 (span is_digit s).1 ≡ g = ground arith in
    rw same at (letter_groups-IsMatch _ (span is_digit s).1 (span-IsDigits s) (ground arith))

letter_groups-none :
    (digits d : Text)
    → starts_letter d ≡ false
    → letter_groups digits d ≡ record { digits = digits; letter = none; decimal = decimals false d }
unfolding letter_groups
letter_groups-none digits [] h = refl
letter_groups-none digits (c ∷ d) h = rw h

match_phase-append :
    (ds s : Text)
    → IsDigits ds
    → ds ≢ []
    → starts_digit s ≡ false
    → match_phase (ds ++ s) ≡ some (letter_groups ds s)
unfolding match_phase
match_phase-append [] s d n h = absurd (n refl)
match_phase-append (c ∷ ds) s d n h = rw (span-is_digit (c ∷ ds) s d h)

replicate-IsDigits : (n : ℕ) (s : Text) → IsDigits s → IsDigits (replicate n b'0' ++ s)
unfolding is_digit
replicate-IsDigits zero s h = h
replicate-IsDigits (suc n) s h = (refl, replicate-IsDigits n s h)

append-ne-nil : (xs ys : Text) → ys ≢ [] → xs ++ ys ≢ []
append-ne-nil [] ys h e = h e
append-ne-nil (x ∷ xs) ys h e = cc

pad_start-IsDigits : (s : Text) (n : ℕ) → IsDigits s → IsDigits (pad_start s n b'0')
unfolding pad_start
pad_start-IsDigits s n = replicate-IsDigits (n - length s) s

pad_start-ne-nil : (s : Text) (n : ℕ) → s ≢ [] → pad_start s n b'0' ≢ []
unfolding pad_start
pad_start-ne-nil s n = append-ne-nil (replicate (n - length s) b'0') s

pub is_letter-to_upper :
    (c : ℕ)
    → is_letter c ≡ true
    → (is_letter (to_upper c) ≡ true)
      × (is_digit (to_upper c) ≡ false)
      × (to_upper (to_upper c) ≡ to_upper c)
unfolding is_letter to_upper is_digit
is_letter-to_upper c h = ground arith

-- The groups that a text of these three pieces has.
match_phase-pieces :
    (ds : Text) (l : Option ℕ) (d : Text)
    → IsDigits ds
    → ds ≢ []
    → ((c : ℕ) → l ≡ some c → (is_letter c ≡ true) × (is_digit c ≡ false) × (to_upper c ≡ c))
    → decimals false d ≡ d
    → match_phase (ds ++ (upper_letter l ++ d))
      ≡ some (record { digits = ds; letter = l; decimal = d })
match_phase-pieces ds none d h n a again =
    let starts = rw again at (decimals-starts d) in
    match_phase-append ds d h n starts.0
    ∙ ap some (
        letter_groups-none ds d starts.1
        ∙ ap (λ x. record { digits = ds; letter = none; decimal = x }) again)
match_phase-pieces ds (some c) d h n a again =
    let (letter, digit, up) = a c refl in
    rw up (match_phase-append ds (c ∷ d) h n digit ∙ unfold letter_groups in rw (letter, again))

abbrev pub map_upper : Option ℕ → Option ℕ
map_upper none = none
map_upper (some c) = some (to_upper c)

-- The groups of a normalised name.
abbrev pub padded : Groups → Groups
padded g = record {
  digits = pad_start g.digits 2 b'0';
  letter = map_upper g.letter;
  decimal = g.decimal;
}

pub upper_letter-map_upper :
    (l : Option ℕ)
    → ((c : ℕ) → l ≡ some c → is_letter c ≡ true)
    → upper_letter (map_upper l) ≡ upper_letter l
upper_letter-map_upper none a = refl
upper_letter-map_upper (some c) a = rw (is_letter-to_upper c (a c refl)).2

map_upper-letter :
    (l : Option ℕ)
    → ((c : ℕ) → l ≡ some c → is_letter c ≡ true)
    → (c : ℕ) → map_upper l ≡ some c
    → (is_letter c ≡ true) × (is_digit c ≡ false) × (to_upper c ≡ c)
map_upper-letter none a c e = cc
map_upper-letter (some d) a c e =
    let same : to_upper d ≡ c = cc in rw same at (is_letter-to_upper d (a d refl))

-- A normalised name matches again, with its own groups.
pub match_phase-normalized : (g : Groups) → IsMatch g → match_phase (normalized g) ≡ some (padded g)
match_phase-normalized g m = rw (← upper_letter-map_upper g.letter m.a_letter) (
    match_phase-pieces (pad_start g.digits 2 b'0') (map_upper g.letter) g.decimal
      (pad_start-IsDigits g.digits 2 m.all_digits) (pad_start-ne-nil g.digits 2 m.some_digit)
      (map_upper-letter g.letter m.a_letter) m.decimal_again)

decimals-prefix : (b : Bool) (s : Text) → (rest : Text) × (s ≡ decimals b s ++ rest)
unfolding decimals
decimals-prefix b [] = ([], refl)
decimals-prefix b (c ∷ s) =
    let (rest, e) = decimals-prefix true s in
    elim (Bool-cases (b && is_digit c)) [
      | inl p ↦ (rest, rw p (ap (◌∷◌ c) e))
      | inr p ↦ elim (Bool-cases (c == b'.' && starts_digit s)) [
        | inl q ↦ (rest, rw (p, q) (ap (◌∷◌ c) e))
        | inr q ↦ (c ∷ s, rw (p, q))
      ]
    ]

letter_groups-prefix :
    (ds s : Text) → (rest : Text) × (ds ++ s ≡ taken (letter_groups ds s) ++ rest)
unfolding letter_groups
letter_groups-prefix ds [] = ([], sym (append-nil (ds ++ [])))
letter_groups-prefix ds (c ∷ s) = elim (Bool-cases (is_letter c)) [
  | inl p ↦
      let (rest, e) = decimals-prefix false s in
      (rest, rw p (rw append_assoc (ap (λ x. ds ++ c ∷ x) e)))
  | inr p ↦
      let (rest, e) = decimals-prefix false (c ∷ s) in
      (rest, rw p (rw append_assoc (ap (λ x. ds ++ x) e)))
]

-- The groups of a match are a prefix of the text.
pub match_phase-prefix :
    (s : Text) (g : Groups) → match_phase s ≡ some g → (rest : Text) × (s ≡ taken g ++ rest)
unfolding match_phase
match_phase-prefix s g h =
    let same : letter_groups (span is_digit s).0 (span is_digit s).1 ≡ g = ground arith in
    let (rest, e) = letter_groups-prefix (span is_digit s).0 (span is_digit s).1 in
    (rest, sym (span-append is_digit s) ∙ (rw same at e))
