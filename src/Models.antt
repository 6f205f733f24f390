-- ===== src/Models.antt =====
-- `MODEL_PROFILES` of .opencode/get-shit-done/bin/lib/model-profiles.cjs, and `resolveModelInternal` of
-- core.cjs on the values of the loaded configuration. The profile is a text that names no member of
-- `Object.prototype`; an override is a text.
pub mod Resolved
mod Tests
use mikmongo.Base.{Option, none, some, List, [], ◌∷◌, map, if◌then◌else◌, is_empty}
use Prim.Native.String.{String}
use mikmongo.Text.{Text, codes, equal, to_lower}

-- A row of the table.
pub record Row : Type 0 where
  pub agent : Text
  pub quality : Text
  pub balanced : Text
  pub budget : Text

abbrev row : String → String → String → String → Row
row agent quality balanced budget = record {
  agent = codes agent;
  quality = codes quality;
  balanced = codes balanced;
  budget = codes budget;
}

-- `MODEL_PROFILES`
abbrev pub model_profiles : List Row
model_profiles =
    row "gsd-planner" "opus" "opus" "sonnet"
    ∷ row "gsd-roadmapper" "opus" "sonnet" "sonnet"
    ∷ row "gsd-executor" "opus" "sonnet" "sonnet"
    ∷ row "gsd-phase-researcher" "opus" "sonnet" "haiku"
    ∷ row "gsd-project-researcher" "opus" "sonnet" "haiku"
    ∷ row "gsd-research-synthesizer" "sonnet" "sonnet" "haiku"
    ∷ row "gsd-debugger" "opus" "sonnet" "sonnet"
    ∷ row "gsd-codebase-mapper" "sonnet" "haiku" "haiku"
    ∷ row "gsd-verifier" "sonnet" "sonnet" "haiku"
    ∷ row "gsd-plan-checker" "sonnet" "sonnet" "haiku"
    ∷ row "gsd-integration-checker" "sonnet" "sonnet" "haiku"
    ∷ row "gsd-nyquist-auditor" "sonnet" "sonnet" "haiku"
    ∷ row "gsd-ui-researcher" "opus" "sonnet" "haiku"
    ∷ row "gsd-ui-checker" "sonnet" "sonnet" "haiku"
    ∷ row "gsd-ui-auditor" "sonnet" "sonnet" "haiku"
    ∷ []

-- `MODEL_PROFILES[agentType]`
unfoldable pub find_row : Text → List Row → Option Row
find_row agent [] = none
find_row agent (r ∷ rows) = if equal agent r.agent then some r else find_row agent rows

-- `agentModels[profile] || agentModels['balanced']`
unfoldable pub model_of : Row → Text → Text
model_of r profile =
    if equal profile (codes "quality")
    then r.quality
    else if equal profile (codes "budget")
    then r.budget
    else r.balanced

-- `MODEL_ALIAS_MAP[alias] || alias`
unfoldable pub full_id : Text → Text
full_id alias =
    if equal alias (codes "opus")
    then codes "claude-opus-4-0"
    else if equal alias (codes "sonnet")
    then codes "claude-sonnet-4-5"
    else if equal alias (codes "haiku")
    then codes "claude-haiku-3-5"
    else alias

-- The setting `resolve_model_ids`: `"omit"`, another true value, or none.
pub data IdMode : Type 0 where
  omit full alias : IdMode

pub record ModelConfig : Type 0 where
  pub model_override : Option Text
  pub resolve_model_ids : IdMode
  pub model_profile : Option Text

-- `String(config.model_profile || 'balanced').toLowerCase()`
unfoldable pub profile_of : Option Text → Text
profile_of none = codes "balanced"
profile_of (some []) = codes "balanced"
profile_of (some (c ∷ s)) = map to_lower (c ∷ s)

unfoldable pub in_mode : IdMode → Text → Text
in_mode full a = full_id a
in_mode _ a = a

-- From the lookup of the profile on.
unfoldable pub by_profile : IdMode → Text → Option Row → Text
by_profile mode profile none = codes "sonnet"
by_profile mode profile (some r) =
    if equal profile (codes "inherit") then codes "inherit" else in_mode mode (model_of r profile)

unfoldable pub unless_omitted : IdMode → Text → Text
unless_omitted omit model = []
unless_omitted _ model = model

-- `resolveModelInternal`
unfoldable pub resolve_model : ModelConfig → Text → Text
resolve_model config agent =
    let found = unless_omitted config.resolve_model_ids (
      by_profile config.resolve_model_ids (profile_of config.model_profile)
        (find_row agent model_profiles)) in
    elim config.model_override [ none ↦ found | some o ↦ if is_empty o then found else o ]
