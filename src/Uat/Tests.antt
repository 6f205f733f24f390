-- ===== src/Uat/Tests.antt =====
-- Runs of the commands on UAT documents.
use mikmongo.Base.{◌≡◌, refl, none, some, [], ◌∷◌, map}
use mikmongo.Text.{is_space, is_digit, to_upper, codes, is_line_end}
use mikmongo.Regex.{lit, lit_ci, is_word}
use mikmongo.Uat.{categorize_item, parse_uat_items, parse_verification_items}
use mikmongo.Uat.Current.{CurrentTest, parse_current_test, relative_steps}

-- A test that has passed is no item.
uat_run :
    map
      (λ i. i.category)
      (parse_uat_items (
        codes
          "###1.A\nexpected:a\nresult:pass\n###2.B\nexpected:b\nresult:skipped\nreason:no server\n"))
    ≡ codes "server_blocked" ∷ []
unfolding parse_uat_items lit lit_ci is_digit is_word is_space to_upper is_line_end
uat_run = refl

category_run :
    categorize_item (codes "pending") none (some (codes "Third-party")) ≡ codes "third_party"
unfolding categorize_item lit_ci to_upper is_line_end
category_run = refl

human_results :
    map
      (λ i. i.name)
      (parse_verification_items
        (codes
          "## Human Verification Required\n| 1 | Log in | x |\n2. Log out\n- short\n- A longer bullet\n---\n- Not an item here\n")
        (codes "human_needed"))
    ≡ codes "Log in" ∷ codes "Log out" ∷ codes "A longer bullet" ∷ []
unfolding parse_verification_items lit lit_ci is_line_end is_digit
human_results = refl

current_run :
    parse_current_test (
      codes
        "## Current Test\n<!-- c -->\nnumber: 3\nname: Login\nexpected: |\n  One\n  Two\nawaiting: user\n\n## Tests\n")
    ≡ CurrentTest.waiting 3 (codes "Login") (codes "One\nTwo")
unfolding parse_current_test lit lit_ci is_digit is_line_end is_word
current_run = refl

relative_run :
    relative_steps (codes "a" ∷ codes "b" ∷ []) (codes "a" ∷ codes "c" ∷ codes "d" ∷ [])
    ≡ codes ".." ∷ codes "c" ∷ codes "d" ∷ []
unfolding relative_steps
relative_run = refl
