-- ===== src/Markdown.antt =====
-- `normalizeMd` of .opencode/get-shit-done/bin/lib/core.cjs: blank lines around headings, fences and
-- lists, and at the end of a document.
pub mod Blank
pub mod Content
pub mod Kept
mod Tests
use mikmongo.Base.{
  ℕ, ◌+◌, ◌%◌, Bool, true, false, not, ◌&&◌, ◌||◌, List, [], ◌∷◌, ◌++◌, ltb, ◌==◌, if◌then◌else◌,
  within, length, drop, is_empty, all,
}
use mikmongo.Text.{
  Text, codes, equal, starts_with, span, split, join, trim_end, is_space, is_digit, strip_end,
}

-- `content.replace(/\r\n/g, '\n')`
unfoldable pub unix_lines : Text → Text
unix_lines [] = []
unix_lines (c ∷ s) =
    let rest = unix_lines s in if c == b'\r' && starts_with s (codes "\n") then rest else c ∷ rest

abbrev starts_space : Text → Bool
starts_space [] = false
starts_space (c ∷ s) = is_space c

-- `/^#{1,6}\s/`
unfoldable pub is_heading : Text → Bool
is_heading t =
    let (marks, rest) = span (λ c. c == b'#') t in within 1 6 (length marks) && starts_space rest

-- `/^```/`
abbrev pub is_fence : Text → Bool
is_fence t = starts_with t (codes "```")

-- `/^```\s*$/`
abbrev is_bare_fence : Text → Bool
is_bare_fence t = is_fence t && all is_space (drop 3 t)

-- `[-*+]\s` or `\d+\.\s`
abbrev is_item : Text → Bool
is_item [] = false
is_item (c ∷ s) =
    let (digits, rest) = span is_digit (c ∷ s) in
    ((c == b'-' || c == b'*' || c == b'+') && starts_space s)
    || (not (is_empty digits) && (starts_with rest (codes ".") && starts_space (drop 1 rest)))

-- `/^(\s*[-*+]\s|\s*\d+\.\s)/`
unfoldable pub is_list : Text → Bool
is_list line = is_item (span is_space line).1

abbrev blank_if : Bool → List Text
blank_if b = if b then [] ∷ [] else []

abbrev is_blank : Text → Bool
is_blank line = is_empty (trim_end line)

-- Three tests, each of which pushes a blank line.
unfoldable pub blanks : Bool → Bool → Bool → List Text
blanks a b c = blank_if a ++ (blank_if b ++ blank_if c)

-- The blank lines before a line, by the line before it; `inside` says whether a fence is open.
unfoldable pub before_line : Bool → Text → Bool → Text → List Text
before_line first prev inside line =
    let trimmed = trim_end line in
    let above = not first && not (is_blank prev) in
    let delimiter = equal (trim_end prev) (codes "---") in
    blanks (is_heading trimmed && (above && not delimiter))
      (is_fence trimmed && (above && not inside))
      (is_list line && (above && (not (is_list prev) && not delimiter)))

-- The blank lines after a line, by the line after it; `closing` says whether a fence is closed here.
unfoldable pub after_line : Bool → Text → List Text → List Text
after_line closing line [] = []
after_line closing line (next ∷ rest) =
    let trimmed = trim_end line in
    let below = not (is_blank next) in
    blanks (is_heading trimmed && below) (is_bare_fence trimmed && (closing && below))
      (is_list line && (below && (not (is_list next) && not (starts_space next))))

-- The number of fences up to and including a line.
abbrev count_fence : Text → ℕ → ℕ
count_fence line fences = if is_fence (trim_end line) then fences + 1 else fences

-- The loop over the lines, `fences` of them fences before.
unfoldable pub spread_lines : Bool → Text → ℕ → List Text → List Text
spread_lines first prev fences [] = []
spread_lines first prev fences (line ∷ rest) =
    let upto = count_fence line fences in
    before_line first prev (fences % 2 == 1) line
    ++ (line ∷ (after_line (upto % 2 == 0) line rest ++ spread_lines false line upto rest))

-- `text.replace(/\n{3,}/g, '\n\n')`, behind `run` line ends, at most 2 of them kept.
unfoldable pub limit_runs : ℕ → Text → Text
limit_runs run [] = []
limit_runs run (c ∷ s) =
    let other = limit_runs 0 s in
    let more = limit_runs (run + 1) s in
    let full = limit_runs run s in
    if c == b'\n' then if ltb run 2 then c ∷ more else full else c ∷ other

-- `text.replace(/\n*$/, '\n')`
unfoldable pub one_end : Text → Text
one_end text = strip_end b'\n' text ++ codes "\n"

-- `normalizeMd(content)`
unfoldable pub normalize_md : Text → Text
normalize_md [] = []
normalize_md (c ∷ s) =
    one_end
      (limit_runs 0 (join (codes "\n") (spread_lines true [] 0 (split b'\n' (unix_lines (c ∷ s))))))
