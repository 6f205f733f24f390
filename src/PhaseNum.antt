-- ===== src/PhaseNum.antt =====
-- The phase numbers of .opencode/get-shit-done/bin/lib/core.cjs: `normalizePhaseName` and
-- `comparePhaseNum`. Numbers are exact here, as they are in JavaScript up to 2^53. A comparison is
-- modelled by the sign of the number that it returns, which is all that `sort` looks at.
pub mod Parts
pub mod Normalize
pub mod Order
mod Tests
use Prim.Native.Nat.{compare, Ordering}
use mikmongo.Base.{
  ℕ, Bool, true, false, ◌&&◌, List, [], ◌∷◌, ◌++◌, map, Option, none, some, ◌==◌, if◌then◌else◌,
  is_empty, ◌≡◌,
}
use mikmongo.Text.{Text, is_digit, is_letter, to_upper, span, split, parse_int, pad_start}

-- The groups of `/^(\d+)([A-Z])?((?:\.\d+)*)/i`.
pub record Groups : Type 0 where
  pub digits : Text
  pub letter : Option ℕ
  pub decimal : Text

abbrev pub starts_digit : Text → Bool
starts_digit [] = false
starts_digit (c ∷ s) = is_digit c

-- The longest prefix that `(?:\.\d+)*` takes; the flag says that a digit was read last.
unfoldable pub decimals : Bool → Text → Text
decimals inside [] = []
decimals inside (c ∷ s) =
    let more = c ∷ decimals true s in
    if inside && is_digit c then more else if c == b'.' && starts_digit s then more else []

unfoldable pub letter_groups : Text → Text → Groups
unfolding decimals
letter_groups digits [] = record { digits = digits; letter = none; decimal = [] }
letter_groups digits (c ∷ s) =
    if is_letter c
    then record { digits = digits; letter = some c; decimal = decimals false s }
    else record { digits = digits; letter = none; decimal = decimals false (c ∷ s) }

-- `str.match(/^(\d+)([A-Z])?((?:\.\d+)*)/i)`
unfoldable pub match_phase : Text → Option Groups
match_phase s =
    let (digits, rest) = span is_digit s in
    if is_empty digits then none else some (letter_groups digits rest)

abbrev pub letters_of : Option ℕ → Text
letters_of none = []
letters_of (some c) = c ∷ []

-- The text that `(\d+[A-Z]?(?:\.\d+)*)` takes.
abbrev pub taken : Groups → Text
taken g = g.digits ++ (letters_of g.letter ++ g.decimal)

-- A text that the pattern matches, and so no custom identifier.
abbrev pub IsNumeric : Text → Type 0
IsNumeric s = (g : Groups) × (match_phase s ≡ some g)

abbrev pub upper_letter : Option ℕ → Text
upper_letter none = []
upper_letter (some c) = to_upper c ∷ []

abbrev pub normalized : Groups → Text
normalized g = pad_start g.digits 2 b'0' ++ (upper_letter g.letter ++ g.decimal)

normalize_groups : Text → Option Groups → Text
normalize_groups str none = str
normalize_groups str (some g) = normalized g

unfoldable pub normalize_phase_name : Text → Text
unfolding normalize_groups
normalize_phase_name str = normalize_groups str (match_phase str)

-- `pa[3] ? pa[3].slice(1).split('.').map(p => parseInt(p, 10)) : []`
unfoldable pub dec_parts : Text → List ℕ
dec_parts [] = []
dec_parts (c ∷ s) = map parse_int (split b'.' s)

then_by : Ordering → Ordering → Ordering
then_by Ordering.eq o = o
then_by o _ = o

-- The loop over the segments; a missing one counts as 0.
unfoldable pub compare_parts : List ℕ → List ℕ → Ordering
unfolding then_by
compare_parts [] [] = Ordering.eq
compare_parts [] (b ∷ bs) = then_by (compare 0 b) (compare_parts [] bs)
compare_parts (a ∷ as') [] = then_by (compare a 0) (compare_parts as' [])
compare_parts (a ∷ as') (b ∷ bs) = then_by (compare a b) (compare_parts as' bs)

-- An empty list of segments comes before every other.
unfoldable pub compare_decimals : List ℕ → List ℕ → Ordering
unfolding compare_parts
compare_decimals [] [] = Ordering.eq
compare_decimals [] (b ∷ bs) = Ordering.lt
compare_decimals (a ∷ as') [] = Ordering.gt
compare_decimals (a ∷ as') (b ∷ bs) = compare_parts (a ∷ as') (b ∷ bs)

-- No letter comes before every letter.
unfoldable pub compare_letters : Option ℕ → Option ℕ → Ordering
compare_letters none none = Ordering.eq
compare_letters none (some d) = Ordering.lt
compare_letters (some c) none = Ordering.gt
compare_letters (some c) (some d) = compare (to_upper c) (to_upper d)

unfoldable pub compare_groups : Groups → Groups → Ordering
unfolding then_by compare_letters compare_decimals
compare_groups a b = then_by (compare (parse_int a.digits) (parse_int b.digits)) (
    then_by (compare_letters a.letter b.letter)
      (compare_decimals (dec_parts a.decimal) (dec_parts b.decimal)))

-- `String(a).localeCompare(String(b))` depends on the locale data of the runtime.
module _ (locale_compare : Text → Text → Ordering) where
  compare_matches : Text → Text → Option Groups → Option Groups → Ordering
  compare_matches a b (some p) (some q) = compare_groups p q
  compare_matches a b _ _ = locale_compare a b

  unfoldable pub compare_phase_num : Text → Text → Ordering
  unfolding compare_matches
  compare_phase_num a b = compare_matches a b (match_phase a) (match_phase b)
