-- ===== src/Phase/Decimals.antt =====
-- .opencode/get-shit-done/bin/lib/phase.cjs: the decimal phases of `cmdPhaseNextDecimal`.
use mikmongo.Base.{ℕ, ◌+◌, Bool, false, ◌||◌, none, some, List, [], ◌∷◌, ◌++◌, ◌==◌, if◌then◌else◌}
use mikmongo.Text.{Text, codes, equal, starts_with, split, parse_int}
use mikmongo.Json.{Json}
use mikmongo.Regex.{Regex, find, text_of, word, digits, dot, ◌⨟◌}
use mikmongo.State.Command.{Reply, object, texts, printed, show_nat}

-- `normalized` in a regular expression as it stands, where its dots are read as `.`; the numbers of
-- phases have no other special character.
abbrev pub unescaped : Text → Regex
unescaped [] = Regex.empty
unescaped (c ∷ s) = (if c == b'.' then dot else Regex.test (λ d. d == c)) ⨟ unescaped s

-- The decimals of a base phase.
unfoldable pub decimals_of : Text → List Text → List Text
unfolding find text_of
decimals_of base [] = []
decimals_of base (dir ∷ dirs) =
    let rest = decimals_of base dirs in
    elim (find (Regex.bol false ⨟ unescaped base ⨟ word "." ⨟ Regex.group 1 digits) dir) [
      | none ↦ rest
      | some m ↦ (base ++ (codes "." ++ text_of 1 m)) ∷ rest
    ]

abbrev last : Text → List Text → Text
last x [] = x
last x (y ∷ ys) = last y ys

abbrev second : List Text → Text
second (x ∷ y ∷ ys) = y
second _ = []

-- `parseInt(decimal.split('.')[1], 10)`, where a dot stands before the digits.
unfoldable pub second_number : Text → ℕ
unfolding split parse_int
second_number decimal = parse_int (second (split b'.' decimal))

unfoldable pub next_decimal : Text → List Text → Text
unfolding second_number show_nat
next_decimal base [] = base ++ codes ".1"
next_decimal base (d ∷ ds) = base ++ (codes "." ++ show_nat (second_number (last d ds) + 1))

abbrev pub decimal_reply : Bool → Text → Text → List Text → Reply
decimal_reply found base next existing =
    printed
      (object (
        (codes "found", Json.bool found)
        ∷ (codes "base_phase", Json.str base)
        ∷ (codes "next", Json.str next)
        ∷ (codes "existing", texts existing)
        ∷ []))
      (some next) none

abbrev pub is_base : Text → Text → Bool
is_base normalized d = starts_with d (normalized ++ codes "-") || equal d normalized
