-- ===== src/ActiveWorkstream/Tests.antt =====
-- A workstream is set.
use mikmongo.Base.{◌≡◌, refl, some}
use mikmongo.Text.{codes, is_alnum}
use mikmongo.ActiveWorkstream.{written, invalid_name, set_active_workstream, is_name}

traversal_invalid : set_active_workstream (codes "../x") ≡ invalid_name
unfolding set_active_workstream is_name is_alnum
traversal_invalid = refl

api_set : set_active_workstream (codes "api-2") ≡ written (some (codes "api-2\n"))
unfolding set_active_workstream is_name is_alnum
api_set = refl
