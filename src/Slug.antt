-- ===== src/Slug.antt =====
-- `generateSlugInternal` of .opencode/get-shit-done/bin/lib/core.cjs, and the slug of a phase name.
-- Lower case is that of ASCII.
pub mod Laws
mod Tests
use mikmongo.Base.{Bool, false, not, Option, none, some, [], ◌∷◌, map, if◌then◌else◌}
use mikmongo.Text.{Text, to_lower, is_lower_alnum, strip_start, strip_end}

-- `s.replace(/[^a-z0-9]+/g, '-')`; the flag says that the unit before is in a replaced run.
unfoldable pub collapse : Bool → Text → Text
collapse inside [] = []
collapse inside (c ∷ s) =
    let rest = collapse (not (is_lower_alnum c)) s in
    if is_lower_alnum c then c ∷ rest else if inside then rest else b'-' ∷ rest

unfoldable pub slug : Text → Text
unfolding collapse
slug text = strip_end b'-' (strip_start b'-' (collapse false (map to_lower text)))

-- `null` for an empty text.
unfoldable pub generate_slug : Text → Option Text
generate_slug [] = none
generate_slug (c ∷ s) = some (slug (c ∷ s))
