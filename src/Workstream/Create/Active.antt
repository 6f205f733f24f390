-- ===== src/Workstream/Create/Active.antt =====
-- A workstream that is made is the active one.
use mikmongo.Base.{
  ◌≡◌, refl, ap, ◌∙◌, inl, inr, ℕ, Bool, true, false, some, [], ◌∷◌, ◌++◌, is_empty, all, arith,
}
use mikmongo.Text.{Text, codes, is_lower_alnum, is_alnum, is_letter}
use mikmongo.Slug.{slug}
use mikmongo.Slug.Laws.{IsSlug, Ends, slug-IsSlug}
use mikmongo.ActiveWorkstream.{is_name, name_unit, get_active_workstream}
use mikmongo.ActiveWorkstream.Names.{set-name, name-full, set_active_workstream-get}
use mikmongo.Workstream.{Planning}
use mikmongo.Workstream.Entries.{has}
use mikmongo.Workstream.Complete.{entries, active_of}
use mikmongo.Workstream.Create.{set_active}

lower-unit : (c : ℕ) → is_lower_alnum c ≡ true → name_unit c ≡ true
unfolding is_lower_alnum is_alnum is_letter
lower-unit c h = ground arith

dash-unit : (c : ℕ) → c ≡ b'-' → name_unit c ≡ true
unfolding is_alnum is_letter
dash-unit c h = ground arith

Ends-units : (dash : Bool) (s : Text) → Ends dash s → all name_unit s ≡ true
Ends-units dash [] h = refl
Ends-units dash (c ∷ s) (inl (a, r)) = rw (lower-unit c a) (Ends-units false s r)
Ends-units dash (c ∷ s) (inr (p, d, r)) = rw (dash-unit c p) (Ends-units true s r)

slug-name_cases : (s : Text) → IsSlug s → is_empty s ≡ false → is_name s ≡ true
unfolding is_name
slug-name_cases [] h e = cc
slug-name_cases (c ∷ s) (inl same) e = cc
slug-name_cases (c ∷ s) (inr h) e = Ends-units true (c ∷ s) h

-- A slug that is not empty is the name of a workstream.
pub slug-is_name : (name : Text) → is_empty (slug name) ≡ false → is_name (slug name) ≡ true
slug-is_name name e = slug-name_cases (slug name) (slug-IsSlug name) e

pub set_active-name :
    (s : Text) (p : Planning)
    → is_name s ≡ true
    → set_active s p ≡ record p { active = some (s ++ codes "\n") }
set_active-name s p h = rw (set_active, set-name s h) refl

-- The workstream that is named and there is the active one.
pub named-active :
    (s : Text) (q : Planning)
    → is_name s ≡ true
    → q.active ≡ some (s ++ codes "\n")
    → has s (entries q) ≡ true
    → active_of q ≡ some s
unfolding active_of
named-active s q n a h =
    ap (λ f. get_active_workstream f (λ j. has j (entries q))) a
    ∙ set_active_workstream-get s (some (s ++ codes "\n")) (λ j. has j (entries q)) (set-name s n)
    ∙ rw (name-full s n, h) refl
