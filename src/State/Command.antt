-- ===== src/State/Command.antt =====
-- The results of the commands of .opencode/get-shit-done/bin/lib/state.cjs, and reading of options.
-- What a command hands to `writeStateMd` is its new content of STATE.md. The synchronised header and
-- the normalised lines that `writeStateMd` gives the content are not part of the command.
pub mod Decimal
use mikmongo.Base.{
  ℕ, zero, suc, ◌+◌, ◌/◌, ◌%◌, Bool, true, false, Option, none, some, List, [], ◌∷◌, map, ltb, leb,
  ◌==◌, if◌then◌else◌,
}
use mikmongo.Text.{Text, codes, is_digit, span, trim_start, parse_int}
use mikmongo.Json.{Json, Items, Fields}
use Prim.Native.String.{String}

-- The whole numbers that the commands compute with.
pub data ℤ : Type 0 where
  pos : ℕ → ℤ
  negsuc : ℕ → ℤ

-- `error(message)`, or `output(result, raw, raw_value)` behind the write, if there was one.
pub data Reply : Type 0 where
  failed : Text → Reply
  printed : (result : Json ℤ) → (raw_value : Option Text) → (written : Option Text) → Reply

-- An object of the source, its properties in their order.
abbrev pub object_fields : List (Text × Json ℤ) → Fields ℤ
object_fields [] = Fields.end
object_fields ((k, v) ∷ ps) = Fields.field k v (object_fields ps)

abbrev pub object : List (Text × Json ℤ) → Json ℤ
object ps = Json.obj (object_fields ps)

abbrev pub items : List (Json ℤ) → Items ℤ
items [] = Items.nil
items (v ∷ vs) = Items.cons v (items vs)

abbrev pub texts : List Text → Json ℤ
texts ts = Json.arr (items (map Json.str ts))

abbrev pub string : String → Json ℤ
string s = Json.str (codes s)

-- The content that the command writes, if any.
abbrev pub written : Reply → Option Text
written (Reply.failed message) = none
written (Reply.printed result raw content) = content

abbrev pub no_state : Reply
no_state = Reply.printed (object ((codes "error", string "STATE.md not found") ∷ [])) none none

-- A JavaScript string is false when it is empty, and so are `undefined` and `null`.
abbrev pub truthy : Option Text → Bool
truthy none = false
truthy (some []) = false
truthy (some (c ∷ s)) = true

-- `value || other`
abbrev pub or_text : Option Text → Text → Text
or_text none other = other
or_text (some []) other = other
or_text (some (c ∷ s)) other = c ∷ s

abbrev pub or_null : Option Text → Json ℤ
or_null none = Json.null
or_null (some s) = Json.str s

abbrev opposite : ℕ → ℤ
opposite zero = pos zero
opposite (suc n) = negsuc n

-- The digits at the begin.
abbrev leading : Bool → Text × Text → Option ℤ
leading minus ([], rest) = none
leading minus (c ∷ run, rest) =
    let n = parse_int (c ∷ run) in some (if minus then opposite n else pos n)

abbrev signed : Text → Option ℤ
signed [] = none
signed (c ∷ s) =
    if c == b'-'
    then leading true (span is_digit s)
    else leading false (span is_digit (if c == b'+' then s else c ∷ s))

-- `parseInt(s, 10)`; `none` is `NaN`.
unfoldable pub parse_number : Text → Option ℤ
unfolding trim_start span is_digit parse_int
parse_number s = signed (trim_start s)

-- The decimal digits of a number, put before those read. A round divides by ten, so the number and
-- one is fuel enough.
unfoldable pub decimal_digits : ℕ → ℕ → Text → Text
decimal_digits zero n read = read
decimal_digits (suc fuel) n read =
    let more = decimal_digits fuel (n / 10) ((b'0' + n % 10) ∷ read) in
    if ltb n 10 then (b'0' + n) ∷ read else more

unfoldable pub show_nat : ℕ → Text
unfolding decimal_digits
show_nat n = decimal_digits (suc n) n []

-- `String(n)`
unfoldable pub show : ℤ → Text
unfolding show_nat
show (pos n) = show_nat n
show (negsuc n) = b'-' ∷ show_nat (suc n)

-- `a >= b` and `n + 1`
abbrev pub reaches : ℤ → ℤ → Bool
reaches (pos a) (pos b) = leb b a
reaches (pos a) (negsuc b) = true
reaches (negsuc a) (pos b) = false
reaches (negsuc a) (negsuc b) = leb a b

abbrev pub next : ℤ → ℤ
next (pos n) = pos (suc n)
next (negsuc zero) = pos zero
next (negsuc (suc n)) = negsuc n
