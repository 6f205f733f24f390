-- ===== src/Text.antt =====
-- JavaScript strings as lists of code units, with the methods of `String.prototype` that the
-- sources call.
pub mod Laws
use Prim.Native.Nat.{compare, Ordering}
use Prim.Native.Char.{code}
use Prim.Native.String.{String}
use mikmongo.Base.{
  ℕ, ◌+◌, ◌-◌, ◌*◌, Bool, true, false, ◌&&◌, ◌||◌, not, List, [], ◌∷◌, ◌++◌, ◌==◌, if◌then◌else◌,
  within, is_empty, length, replicate, drop,
}

abbrev pub Text : Type 0
Text = List ℕ

-- The code units of a literal of the source (its code points: no literal leaves the first plane).
abbrev pub codes : String → Text
codes String.[] = []
codes (String.◌∷◌ c s) = code c ∷ codes s

-- `a === b`
unfoldable pub equal : Text → Text → Bool
equal [] [] = true
equal (x ∷ xs) (y ∷ ys) = x == y && equal xs ys
equal _ _ = false

-- `s.startsWith(p)`
unfoldable pub starts_with : Text → Text → Bool
starts_with s [] = true
starts_with [] (p ∷ ps) = false
starts_with (c ∷ s) (p ∷ ps) = c == p && starts_with s ps

-- `s.includes(p)`
unfoldable pub includes : Text → Text → Bool
unfolding starts_with
includes [] p = starts_with [] p
includes (c ∷ s) p = starts_with (c ∷ s) p || includes s p

-- `s.endsWith(p)`
unfoldable pub ends_with : Text → Text → Bool
unfolding equal
ends_with [] p = equal [] p
ends_with (c ∷ s) p = equal (c ∷ s) p || ends_with s p

-- The class `\s`, which is also what `trim` removes.
unfoldable pub is_space : ℕ → Bool
is_space c =
    within 9 13 c
    || c == 32
    || c == 0xa0
    || c == 0x1680
    || within 0x2000 0x200a c
    || within 0x2028 0x2029 c
    || c == 0x202f
    || c == 0x205f
    || c == 0x3000
    || c == 0xfeff

-- `s.trimStart()`
unfoldable pub trim_start : Text → Text
unfolding is_space
trim_start [] = []
trim_start (c ∷ s) = let rest = trim_start s in if is_space c then rest else c ∷ s

-- `s.trimEnd()`
unfoldable pub trim_end : Text → Text
unfolding is_space
trim_end [] = []
trim_end (c ∷ s) = let rest = trim_end s in if is_space c && is_empty rest then [] else c ∷ rest

-- `s.trim()`
unfoldable pub trim : Text → Text
unfolding trim_start trim_end
trim s = trim_end (trim_start s)

unfoldable pub is_digit : ℕ → Bool
is_digit = within b'0' b'9'

unfoldable pub is_upper : ℕ → Bool
is_upper = within b'A' b'Z'

unfoldable pub is_lower : ℕ → Bool
is_lower = within b'a' b'z'

-- `[A-Za-z]`, or `[A-Z]` under the flag `i`.
unfoldable pub is_letter : ℕ → Bool
unfolding is_upper is_lower
is_letter c = is_upper c || is_lower c

-- `toUpperCase` and `toLowerCase`, on ASCII.
unfoldable pub to_upper : ℕ → ℕ
unfolding is_lower
to_upper c = if is_lower c then c - 32 else c

unfoldable pub to_lower : ℕ → ℕ
unfolding is_upper
to_lower c = if is_upper c then c + 32 else c

unfoldable pub push_head : ℕ → List Text → List Text
push_head c [] = (c ∷ []) ∷ []
push_head c (p ∷ ps) = (c ∷ p) ∷ ps

-- `s.split(sep)` at a separator of one code unit.
unfoldable pub split : ℕ → Text → List Text
unfolding push_head
split sep [] = [] ∷ []
split sep (c ∷ s) = let rest = split sep s in if c == sep then [] ∷ rest else push_head c rest

-- `parts.join(sep)`
unfoldable pub join : Text → List Text → Text
join sep [] = []
join sep (p ∷ []) = p
join sep (p ∷ q ∷ ps) = p ++ (sep ++ join sep (q ∷ ps))

-- The longest prefix whose units pass the test, and what follows it.
unfoldable pub span : (ℕ → Bool) → Text → Text × Text
span p [] = ([], [])
span p (c ∷ s) = let (run, rest) = span p s in if p c then (c ∷ run, rest) else ([], c ∷ s)

unfoldable pub digits_from : ℕ → Text → ℕ
digits_from n [] = n
digits_from n (c ∷ s) = digits_from (n * 10 + (c - b'0')) s

-- `parseInt(s, 10)` of a text of digits.
unfoldable pub parse_int : Text → ℕ
unfolding digits_from
parse_int s = digits_from 0 s

-- `s.padStart(width, fill)` for a fill of one unit.
unfoldable pub pad_start : Text → ℕ → ℕ → Text
pad_start s width fill = replicate (width - length s) fill ++ s

-- `s.padEnd(width)`
unfoldable pub pad_end : Text → ℕ → Text
pad_end s width = s ++ replicate (width - length s) b' '

-- `[a-z0-9]`
unfoldable pub is_lower_alnum : ℕ → Bool
unfolding is_lower is_digit
is_lower_alnum c = is_lower c || is_digit c

-- `[A-Za-z0-9]`
unfoldable pub is_alnum : ℕ → Bool
unfolding is_letter is_digit
is_alnum c = is_letter c || is_digit c

-- `s.replace(pattern, replacement)` for a plain pattern: the first occurrence only.
unfoldable pub replace_first : Text → Text → Text → Text
unfolding starts_with
replace_first pattern replacement [] = if is_empty pattern then replacement else []
replace_first pattern replacement (c ∷ s) =
    let rest = replace_first pattern replacement s in
    if starts_with (c ∷ s) pattern then replacement ++ drop (length pattern) (c ∷ s) else c ∷ rest

-- `s.replace(/^c+/, '')`
unfoldable pub strip_start : ℕ → Text → Text
strip_start d [] = []
strip_start d (c ∷ s) = let rest = strip_start d s in if c == d then rest else c ∷ s

-- `s.replace(/c+$/, '')`
unfoldable pub strip_end : ℕ → Text → Text
strip_end d [] = []
strip_end d (c ∷ s) = let rest = strip_end d s in if c == d && is_empty rest then [] else c ∷ rest

-- What `.` does not match, and where `^` and `$` stand under the flag `m`.
unfoldable pub is_line_end : ℕ → Bool
is_line_end c = c == b'\n' || c == b'\r' || within 0x2028 0x2029 c

-- What `.*` takes.
unfoldable pub line_of : Text → Text
unfolding span is_line_end
line_of s = (span (λ c. not (is_line_end c)) s).0

-- The order of code units, by which `sort()` compares.
unfoldable pub compare_text : Text → Text → Ordering
compare_text [] [] = Ordering.eq
compare_text [] (d ∷ t) = Ordering.lt
compare_text (c ∷ s) [] = Ordering.gt
compare_text (c ∷ s) (d ∷ t) =
    let later = compare_text s t in
    elim (compare c d) [
      | Ordering.eq ↦ later
      | Ordering.lt ↦ Ordering.lt
      | Ordering.gt ↦ Ordering.gt
    ]

-- `path.join(base, name)` on POSIX, for a normalised `base` and the name of an entry.
unfoldable pub join_path : Text → Text → Text
join_path base name = base ++ b'/' ∷ name
