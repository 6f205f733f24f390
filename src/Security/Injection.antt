-- ===== src/Security/Injection.antt =====
-- The prompt injection guards: `scanForInjection` of .opencode/get-shit-done/bin/lib/security.cjs
-- and the hook .opencode/hooks/gsd-prompt-guard.js. Nothing reads the groups of these patterns, so
-- they have none here.
pub mod Quiet
pub mod Sanitize
use mikmongo.Base.{
  ℕ, ◌+◌, Bool, false, not, ◌||◌, List, [], ◌∷◌, ◌++◌, map, ltb, ◌==◌, if◌then◌else◌, within,
  length, any, keep,
}
use mikmongo.Text.{Text, codes, to_upper}
use mikmongo.Regex.{Regex, matches, lit_ci, word, word_ci, some_spaces, spaces, maybe, ◌⨟◌}
use mikmongo.State.Command.{show_nat}

-- Alternatives that are literals, under the flag `i`.
abbrev pub any_word : List Text → Regex
any_word [] = Regex.test (λ c. false)
any_word (w ∷ []) = lit_ci w
any_word (w ∷ v ∷ ws) = Regex.alt (lit_ci w) (any_word (v ∷ ws))

-- Such a literal and then `\s+`, or nothing.
abbrev pub opt_word : Regex → Regex
opt_word r = maybe (r ⨟ some_spaces)

-- `(?!word)`: the text ends within the word or has another unit in its place.
abbrev other_than : Text → Regex
other_than [] = Regex.test (λ c. false)
other_than (c ∷ w) = Regex.alt (Regex.eol false) (
    Regex.alt (Regex.test (λ d. not (to_upper d == to_upper c)))
      (Regex.test (λ d. to_upper d == to_upper c) ⨟ other_than w))

abbrev pub not_ahead : Text → Regex
not_ahead w = Regex.look (other_than w)

-- A pattern and its `source`.
pub record Guard : Type 0 where
  pub source : Text
  pub pattern : Regex

abbrev pub article : Regex
article = any_word (codes "a" ∷ codes "an" ∷ codes "the" ∷ [])

abbrev pub target_word : Regex
target_word = any_word (codes "prompt" ∷ codes "instructions" ∷ [])

abbrev pub system_tag : Regex
system_tag =
    word "<"
    ⨟ maybe (word "/")
    ⨟ any_word (codes "system" ∷ codes "assistant" ∷ codes "human" ∷ [])
    ⨟ word ">"

abbrev guard : Text → Regex → Guard
guard source pattern = record { source = source; pattern = pattern }

abbrev pub ignore_previous : Guard
ignore_previous = guard (codes "ignore\\s+(all\\s+)?previous\\s+instructions") (
    word_ci "ignore"
    ⨟ some_spaces
    ⨟ opt_word (word_ci "all")
    ⨟ word_ci "previous"
    ⨟ some_spaces
    ⨟ word_ci "instructions")

abbrev pub ignore_above : Guard
ignore_above = guard (codes "ignore\\s+(all\\s+)?above\\s+instructions") (
    word_ci "ignore"
    ⨟ some_spaces
    ⨟ opt_word (word_ci "all")
    ⨟ word_ci "above"
    ⨟ some_spaces
    ⨟ word_ci "instructions")

abbrev pub disregard : Guard
disregard =
    guard (codes "disregard\\s+(all\\s+)?previous")
      (word_ci "disregard" ⨟ some_spaces ⨟ opt_word (word_ci "all") ⨟ word_ci "previous")

abbrev pub forget : Guard
forget = guard (codes "forget\\s+(all\\s+)?(your\\s+)?instructions") (
    word_ci "forget"
    ⨟ some_spaces
    ⨟ opt_word (word_ci "all")
    ⨟ opt_word (word_ci "your")
    ⨟ word_ci "instructions")

abbrev pub override_prompt : Guard
override_prompt = guard (codes "override\\s+(system|previous)\\s+(prompt|instructions)") (
    word_ci "override"
    ⨟ some_spaces
    ⨟ any_word (codes "system" ∷ codes "previous" ∷ [])
    ⨟ some_spaces
    ⨟ target_word)

abbrev pub you_are_now : Guard
you_are_now = guard (codes "you\\s+are\\s+now\\s+(?:a|an|the)\\s+") (
    word_ci "you"
    ⨟ some_spaces
    ⨟ word_ci "are"
    ⨟ some_spaces
    ⨟ word_ci "now"
    ⨟ some_spaces
    ⨟ article
    ⨟ some_spaces)

abbrev pub act_as : Guard
act_as = guard (codes "act\\s+as\\s+(?:a|an|the)\\s+(?!plan|phase|wave)") (
    word_ci "act"
    ⨟ some_spaces
    ⨟ word_ci "as"
    ⨟ some_spaces
    ⨟ article
    ⨟ some_spaces
    ⨟ not_ahead (codes "plan")
    ⨟ not_ahead (codes "phase")
    ⨟ not_ahead (codes "wave"))

abbrev pub pretend : Guard
pretend = guard (codes "pretend\\s+(?:you(?:'re| are)\\s+|to\\s+be\\s+)") (
    word_ci "pretend"
    ⨟ some_spaces
    ⨟ Regex.alt (word_ci "you" ⨟ any_word (codes "'re" ∷ codes " are" ∷ []) ⨟ some_spaces)
        (word_ci "to" ⨟ some_spaces ⨟ word_ci "be" ⨟ some_spaces))

abbrev pub from_now_on : Guard
from_now_on = guard (codes "from\\s+now\\s+on,?\\s+you\\s+(?:are|will|should|must)") (
    word_ci "from"
    ⨟ some_spaces
    ⨟ word_ci "now"
    ⨟ some_spaces
    ⨟ word_ci "on"
    ⨟ maybe (word ",")
    ⨟ some_spaces
    ⨟ word_ci "you"
    ⨟ some_spaces
    ⨟ any_word (codes "are" ∷ codes "will" ∷ codes "should" ∷ codes "must" ∷ []))

abbrev pub print_prompt : Guard
print_prompt =
    guard
      (codes
        "(?:print|output|reveal|show|display|repeat)\\s+(?:your\\s+)?(?:system\\s+)?(?:prompt|instructions)")
      (any_word (
          codes "print"
          ∷ codes "output"
          ∷ codes "reveal"
          ∷ codes "show"
          ∷ codes "display"
          ∷ codes "repeat"
          ∷ [])
        ⨟ some_spaces
        ⨟ opt_word (word_ci "your")
        ⨟ opt_word (word_ci "system")
        ⨟ target_word)

abbrev pub what_prompt : Guard
what_prompt = guard (codes "what\\s+(?:are|is)\\s+your\\s+(?:system\\s+)?(?:prompt|instructions)") (
    word_ci "what"
    ⨟ some_spaces
    ⨟ any_word (codes "are" ∷ codes "is" ∷ [])
    ⨟ some_spaces
    ⨟ word_ci "your"
    ⨟ some_spaces
    ⨟ opt_word (word_ci "system")
    ⨟ target_word)

abbrev pub tags : Guard
tags = guard (codes "<\\/?(?:system|assistant|human)>") system_tag

abbrev pub system_mark : Guard
system_mark = guard (codes "\\[SYSTEM\\]") (word_ci "[SYSTEM]")

abbrev pub inst_mark : Guard
inst_mark = guard (codes "\\[INST\\]") (word_ci "[INST]")

abbrev pub sys_mark : Guard
sys_mark = guard (codes "<<\\s*SYS\\s*>>") (word "<<" ⨟ spaces ⨟ word_ci "SYS" ⨟ spaces ⨟ word ">>")

abbrev pub send_to : Guard
send_to = guard (codes "(?:send|post|fetch|curl|wget)\\s+(?:to|from)\\s+https?:\\/\\/") (
    any_word (codes "send" ∷ codes "post" ∷ codes "fetch" ∷ codes "curl" ∷ codes "wget" ∷ [])
    ⨟ some_spaces
    ⨟ any_word (codes "to" ∷ codes "from" ∷ [])
    ⨟ some_spaces
    ⨟ word_ci "http"
    ⨟ maybe (word_ci "s")
    ⨟ word "://")

abbrev pub encode_and : Guard
encode_and = guard (codes "(?:base64|btoa|encode)\\s+(?:and\\s+)?(?:send|exfiltrate|output)") (
    any_word (codes "base64" ∷ codes "btoa" ∷ codes "encode" ∷ [])
    ⨟ some_spaces
    ⨟ opt_word (word_ci "and")
    ⨟ any_word (codes "send" ∷ codes "exfiltrate" ∷ codes "output" ∷ []))

abbrev pub run_tool : Guard
run_tool =
    guard
      (codes
        "(?:run|execute|call|invoke)\\s+(?:the\\s+)?(?:bash|shell|exec|spawn)\\s+(?:tool|command)")
      (any_word (codes "run" ∷ codes "execute" ∷ codes "call" ∷ codes "invoke" ∷ [])
        ⨟ some_spaces
        ⨟ opt_word (word_ci "the")
        ⨟ any_word (codes "bash" ∷ codes "shell" ∷ codes "exec" ∷ codes "spawn" ∷ [])
        ⨟ some_spaces
        ⨟ any_word (codes "tool" ∷ codes "command" ∷ []))

-- `INJECTION_PATTERNS`
abbrev pub injection_patterns : List Guard
injection_patterns =
    ignore_previous ∷ ignore_above ∷ disregard ∷ forget ∷ override_prompt ∷ you_are_now ∷ act_as
    ∷ pretend ∷ from_now_on ∷ print_prompt ∷ what_prompt ∷ tags ∷ system_mark ∷ inst_mark ∷ sys_mark
    ∷ send_to ∷ encode_and ∷ run_tool ∷ []

-- `[\u200B-\u200F\u2028-\u202F\uFEFF\u00AD]`
unfoldable pub is_invisible : ℕ → Bool
is_invisible c = within 0x200b 0x200f c || within 0x2028 0x202f c || c == 0xfeff || c == 0xad

-- The sources of the patterns that match.
unfoldable pub triggered : List Guard → Text → List Text
unfolding matches
triggered gs text = map (λ g. g.source) (keep (λ g. matches g.pattern text) gs)

abbrev pub strict_findings : Text → List Text
strict_findings text =
    (if any is_invisible text
      then codes "Contains suspicious zero-width or invisible Unicode characters" ∷ []
      else [])
    ++ (if ltb 50000 (length text)
        then (codes "Suspicious text length: "
            ++ (show_nat (length text) ++ codes " chars (potential prompt stuffing)"))
          ∷ []
        else [])

-- The findings of `scanForInjection(text, { strict })`; the text is clean when there are none.
unfoldable pub scan_for_injection : Text → Bool → List Text
unfolding triggered is_invisible show_nat
scan_for_injection [] strict = []
scan_for_injection (c ∷ text) strict =
    map (λ s. codes "Matched injection pattern: " ++ s) (triggered injection_patterns (c ∷ text))
    ++ (if strict then strict_findings (c ∷ text) else [])
