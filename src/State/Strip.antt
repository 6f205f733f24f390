-- ===== src/State/Strip.antt =====
-- .opencode/get-shit-done/bin/lib/state.cjs: `stripFrontmatter`.
pub mod Ends
use mikmongo.Base.{ℕ, zero, suc, false, [], if◌then◌else◌, length}
use mikmongo.Text.{Text, equal}
use mikmongo.Regex.{Regex, replace, word, spaces, anything, maybe, newline, ◌⨟◌}

-- `/^\s*---\r?\n[\s\S]*?\r?\n---\s*/`, and the same without its begin.
abbrev pub block_body : Regex
block_body =
    spaces
    ⨟ word "---"
    ⨟ maybe (word "\r")
    ⨟ newline
    ⨟ anything
    ⨟ maybe (word "\r")
    ⨟ newline
    ⨟ word "---"
    ⨟ spaces

abbrev pub block : Regex
block = Regex.bol false ⨟ block_body

unfoldable pub strip_once : Text → Text
unfolding replace
strip_once s = replace block (λ m. []) s

-- The loop. A round that changes the text makes it shorter, so its length and one is fuel enough.
unfoldable pub strip_rounds : ℕ → Text → Text
unfolding strip_once equal
strip_rounds zero s = s
strip_rounds (suc fuel) s =
    let stripped = strip_once s in
    let more = strip_rounds fuel stripped in if equal stripped s then s else more

-- `stripFrontmatter(content)`
unfoldable pub strip_frontmatter : Text → Text
unfolding strip_rounds
strip_frontmatter content = strip_rounds (suc (length content)) content
