-- ===== src/Slug/Tests.antt =====
-- Runs of the slugs of phase names.
use mikmongo.Base.{◌≡◌, refl, some}
use mikmongo.Text.{codes, to_lower, is_lower_alnum, strip_start, strip_end}
use mikmongo.Slug.{slug, generate_slug}

slug_run : generate_slug (codes "  Set-up & Auth (v2)!") ≡ some (codes "set-up-auth-v2")
unfolding generate_slug slug strip_end strip_start is_lower_alnum to_lower
slug_run = refl
