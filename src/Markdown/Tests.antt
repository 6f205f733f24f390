-- ===== src/Markdown/Tests.antt =====
-- Small documents.
use mikmongo.Base.{◌≡◌, refl, true, ◌++◌}
use mikmongo.Text.{
  Text, codes, equal, starts_with, span, split, join, push_head, trim_end, is_space, is_digit,
  strip_end,
}
use mikmongo.Markdown.{
  unix_lines, normalize_md, one_end, limit_runs, spread_lines, before_line, blanks, is_heading,
  is_list, after_line,
}
use mikmongo.Markdown.Blank.{at_most_two, ends_solid, normalize_md-ends}
use mikmongo.Markdown.Content.{solid_lines}
use mikmongo.Markdown.Kept.{normalize_md-solid}

abbrev document : Text
document = codes "# A\ntext\n- x\n- y\n\n\n\nend"

document_normal : normalize_md document ≡ codes "# A\n\ntext\n\n- x\n- y\n\nend\n"
unfolding normalize_md one_end strip_end limit_runs join spread_lines split unix_lines before_line
    blanks is_heading span trim_end starts_with is_list is_digit after_line equal is_space push_head
document_normal = refl

fence_normal : normalize_md (codes "a\r\n```\nb\n```\nc\n\n") ≡ codes "a\n\n```\nb\n```\n\nc\n"
unfolding normalize_md one_end strip_end limit_runs join spread_lines split unix_lines before_line
    blanks is_heading span trim_end starts_with is_list is_digit after_line equal is_space push_head
fence_normal = refl

-- A heading mark inside a fence gets blank lines all the same.
fenced_comment : normalize_md (codes "```\nb\n# c\nd\n```\n") ≡ codes "```\nb\n\n# c\n\nd\n```\n"
unfolding normalize_md one_end strip_end limit_runs join spread_lines split unix_lines before_line
    blanks is_heading span trim_end starts_with is_list is_digit after_line equal is_space push_head
fenced_comment = refl

normalize_md-ends_example :
    (at_most_two 0 (normalize_md (codes "# A\ntext")) ≡ true)
    × ((body : Text) × (normalize_md (codes "# A\ntext") ≡ body ++ codes "\n")
        × (ends_solid body ≡ true))
normalize_md-ends_example = normalize_md-ends b'#' (codes " A\ntext")

normalize_md-solid_example : solid_lines (normalize_md document) ≡ solid_lines (unix_lines document)
normalize_md-solid_example = normalize_md-solid document
