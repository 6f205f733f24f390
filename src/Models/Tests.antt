-- ===== src/Models/Tests.antt =====
-- Models of some agents.
use mikmongo.Base.{◌≡◌, refl, false, none, some}
use mikmongo.Text.{codes, equal, to_lower}
use mikmongo.Models.{
  Row, model_profiles, find_row, full, ModelConfig, profile_of, resolve_model, model_of, full_id,
  in_mode, by_profile, unless_omitted,
}

abbrev config : ModelConfig
config = record {
  model_override = none;
  resolve_model_ids = full;
  model_profile = some (codes "Quality");
}

abbrev planner : Row
planner = record {
  agent = codes "gsd-planner";
  quality = codes "opus";
  balanced = codes "opus";
  budget = codes "sonnet";
}

planner_found : find_row (codes "gsd-planner") model_profiles ≡ some planner
unfolding find_row equal
planner_found = refl

planner_model : resolve_model config (codes "gsd-planner") ≡ codes "claude-opus-4-0"
unfolding resolve_model unless_omitted by_profile find_row equal profile_of to_lower in_mode full_id
    model_of
planner_model = refl

-- An agent that is not in the table gets an alias though full IDs are asked for.
unknown_model : resolve_model config (codes "my-agent") ≡ codes "sonnet"
unfolding resolve_model unless_omitted by_profile find_row equal
unknown_model = refl

no_inherit : equal (profile_of config.model_profile) (codes "inherit") ≡ false
unfolding equal profile_of to_lower
no_inherit = refl
