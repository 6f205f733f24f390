-- ===== src/Security/Injection/Sanitize.antt =====
-- `sanitizeForPrompt` and `sanitizeForDisplay` of .opencode/get-shit-done/bin/lib/security.cjs.
use mikmongo.Base.{Bool, true, false, not, ◌||◌, [], ◌∷◌, ◌++◌, ◌==◌, keep}
use mikmongo.Text.{Text, codes, join, split, is_space}
use mikmongo.Regex.{
  Regex, matches, replace_all, expand, text_of, word, word_ci, some_of, some_spaces, spaces, maybe,
  no_newline, ◌⨟◌,
}
use mikmongo.Security.Injection.{any_word, is_invisible}

abbrev role_tag : Regex
role_tag =
    word "<"
    ⨟ Regex.group 1 (maybe (word "/"))
    ⨟ any_word (codes "system" ∷ codes "assistant" ∷ codes "human" ∷ [])
    ⨟ word ">"

abbrev marker : Regex
marker = word "[" ⨟ Regex.group 1 (any_word (codes "SYSTEM" ∷ codes "INST" ∷ [])) ⨟ word "]"

abbrev sys_marker : Regex
sys_marker = word "<<" ⨟ spaces ⨟ word_ci "SYS" ⨟ spaces ⨟ word ">>"

-- `sanitizeForPrompt(text)`
unfoldable pub sanitize_for_prompt : Text → Text
unfolding replace_all expand text_of is_invisible
sanitize_for_prompt text =
    let visible = replace_all (Regex.test is_invisible) (λ m. []) text in
    let untagged =
      replace_all role_tag (λ m. codes "＜" ++ (text_of 1 m ++ codes "system-text＞")) visible in
    let unmarked = replace_all marker (expand 1 (codes "[$1-TEXT]")) untagged in
    replace_all sys_marker (λ m. codes "«SYS-TEXT»") unmarked

abbrev pub role : Regex
role = any_word (codes "assistant" ∷ codes "user" ∷ codes "system" ∷ [])

-- `/^\s*(?:assistant|user|system)\s+to=[^:\s]+:[^\n]+$/i`
abbrev pub tool_call : Regex
tool_call =
    Regex.bol false
    ⨟ spaces
    ⨟ role
    ⨟ some_spaces
    ⨟ word_ci "to="
    ⨟ some_of (Regex.test (λ c. not (c == b':' || is_space c)))
    ⨟ word ":"
    ⨟ no_newline
    ⨟ Regex.eol false

-- `/^\s*<\|(?:assistant|user|system)[^|]*\|>\s*$/i`
abbrev pub role_mark : Regex
role_mark =
    Regex.bol false
    ⨟ spaces
    ⨟ word "<|"
    ⨟ role
    ⨟ Regex.many true (Regex.test (λ c. not (c == b'|')))
    ⨟ word "|>"
    ⨟ spaces
    ⨟ Regex.eol false

-- A line that a protocol has leaked.
unfoldable pub is_leak : Text → Bool
unfolding matches
is_leak l = matches tool_call l || matches role_mark l

-- `sanitizeForDisplay(text)`
unfoldable pub sanitize_for_display : Text → Text
unfolding sanitize_for_prompt is_leak split join
sanitize_for_display text =
    join (codes "\n") (keep (λ l. not (is_leak l)) (split b'\n' (sanitize_for_prompt text)))
