-- ===== src/Phase/Renumber.antt =====
-- .opencode/get-shit-done/bin/lib/phase.cjs: `updateRoadmapAfterPhaseRemoval`.
use mikmongo.Base.{
  ℕ, zero, suc, ◌+◌, ◌-◌, Bool, true, false, not, ◌||◌, Option, none, some, [], ◌++◌, ◌==◌,
}
use mikmongo.Text.{Text, codes, is_space, is_digit}
use mikmongo.Regex.{
  Regex, replace, replace_all, expand, lit, lit_ci, word, word_ci, spaces, some_spaces, line,
  anything, maybe, newline, ◌⨟◌,
}
use mikmongo.Milestone.{hashes}
use mikmongo.State.Command.{show_nat}
use mikmongo.Phase.Rename.{padded}

-- `[^c]*`
abbrev until : ℕ → Regex
until c = Regex.many true (Regex.test (λ u. not (u == c)))

abbrev colon_or_space : Regex
colon_or_space = Regex.test (λ c. c == b':' || is_space c)

-- `\n?#{2,4}\s*Phase\s+target\s*:[\s\S]*?(?=\n#{2,4}\s+Phase\s+\d|$)`, with the flag `i`.
abbrev pub section_of_phase : Text → Regex
section_of_phase target =
    maybe newline
    ⨟ hashes 2 2
    ⨟ spaces
    ⨟ word_ci "Phase"
    ⨟ some_spaces
    ⨟ lit_ci target
    ⨟ spaces
    ⨟ word ":"
    ⨟ anything
    ⨟ Regex.look (
        Regex.alt
          (newline ⨟ hashes 2 2 ⨟ some_spaces ⨟ word_ci "Phase" ⨟ some_spaces ⨟ Regex.test is_digit)
          (Regex.eol false))

-- `\n?-\s*\[[ x]\]\s*.*Phase\s+target[:\s][^\n]*`, with the flag `i`.
abbrev pub checkbox_of_phase : Text → Regex
checkbox_of_phase target =
    maybe newline
    ⨟ word "-"
    ⨟ spaces
    ⨟ word "["
    ⨟ Regex.test (λ c. c == b' ' || c == b'x' || c == b'X')
    ⨟ word "]"
    ⨟ spaces
    ⨟ line
    ⨟ word_ci "Phase"
    ⨟ some_spaces
    ⨟ lit_ci target
    ⨟ colon_or_space
    ⨟ until b'\n'

-- `\n?\|\s*target\.?\s[^|]*\|[^\n]*`, with the flag `i`.
abbrev pub row_of_phase : Text → Regex
row_of_phase target =
    maybe newline
    ⨟ word "|"
    ⨟ spaces
    ⨟ lit_ci target
    ⨟ maybe (word ".")
    ⨟ Regex.test is_space
    ⨟ until b'|'
    ⨟ word "|"
    ⨟ until b'\n'

unfoldable pub drop_phase : Text → Text → Text
unfolding replace replace_all
drop_phase target content =
    let content1 = replace (section_of_phase target) (λ m. []) content in
    let content2 = replace_all (checkbox_of_phase target) (λ m. []) content1 in
    replace_all (row_of_phase target) (λ m. []) content2

-- The five patterns of a number in the roadmap, with their groups.
abbrev heading_number : Text → Regex
heading_number n =
    Regex.group 1 (hashes 2 2 ⨟ spaces ⨟ word_ci "Phase" ⨟ some_spaces)
    ⨟ lit n
    ⨟ Regex.group 2 (spaces ⨟ word ":")

abbrev mention_number : Text → Regex
mention_number n = Regex.group 1 (word "Phase" ⨟ some_spaces) ⨟ lit n ⨟ Regex.group 2 colon_or_space

abbrev plan_number : Text → Regex
plan_number pad = lit pad ⨟ word "-" ⨟ Regex.group 1 (Regex.test is_digit ⨟ Regex.test is_digit)

abbrev row_number : Text → Regex
row_number n = Regex.group 1 (word "|" ⨟ spaces) ⨟ lit n ⨟ word "." ⨟ Regex.test is_space

abbrev depends_number : Text → Regex
depends_number n =
    Regex.group 1 (word_ci "Depends on:**" ⨟ spaces ⨟ word_ci "Phase" ⨟ some_spaces)
    ⨟ lit n
    ⨟ Regex.boundary

-- One round: `old` is replaced by `old - 1`.
unfoldable pub renumber_one : ℕ → Text → Text
unfolding replace_all expand show_nat
renumber_one old content =
    let o = show_nat old in
    let n = show_nat (old - 1) in
    let content1 =
      replace_all (heading_number o) (expand 2 (codes "$1" ++ (n ++ codes "$2"))) content in
    let content2 =
      replace_all (mention_number o) (expand 2 (codes "$1" ++ (n ++ codes "$2"))) content1 in
    let content3 =
      replace_all (plan_number (padded old)) (expand 1 (padded (old - 1) ++ codes "-$1"))
        content2 in
    let content4 =
      replace_all (row_number o) (expand 1 (codes "$1" ++ (n ++ codes ". "))) content3 in
    replace_all (depends_number o) (expand 1 (codes "$1" ++ n)) content4

-- The loop from `removed + rounds` down to `removed + 1`.
unfoldable pub renumber_down : ℕ → ℕ → Text → Text
unfolding renumber_one
renumber_down removed zero content = content
renumber_down removed (suc rounds) content =
    renumber_down removed rounds (renumber_one (removed + suc rounds) content)

abbrev pub max_phase : ℕ
max_phase = 99

-- `updateRoadmapAfterPhaseRemoval`; a number that is none (`NaN`) ends the loop at once.
unfoldable pub update_roadmap : Text → Bool → Option ℕ → Text → Text
unfolding drop_phase renumber_down
update_roadmap target true removed content = drop_phase target content
update_roadmap target false none content = drop_phase target content
update_roadmap target false (some n) content =
    renumber_down n (max_phase - n) (drop_phase target content)
