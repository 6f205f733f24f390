-- ===== src/Config/NewProject.antt =====
-- `buildNewProjectConfig` of .opencode/get-shit-done/bin/lib/config.cjs: the defaults of the
-- program, of the user and the choices made, merged with their sections.
use mikmongo.Base.{Bool, true, false, Option, none, some, List, [], ◌∷◌, if◌then◌else◌}
use Prim.Native.String.{String}
use mikmongo.Text.{Text, codes, equal}
use mikmongo.Json.{
  Json, Fields, null, bool, num, str, obj, end, field, get, put, remove, spread, fields_of,
}

-- Which API keys there are.
pub record ApiKeys : Type 0 where
  pub brave : Bool
  pub firecrawl : Bool
  pub exa : Bool

abbrev pub sections : List Text
sections = codes "git" ∷ codes "workflow" ∷ codes "hooks" ∷ codes "agent_skills" ∷ []

module _ {N : Type 0} where
  abbrev flag : String → Bool → Fields N → Fields N
  flag key b o = field (codes key) (bool b) o

  abbrev text : String → String → Fields N → Fields N
  text key s o = field (codes key) (str (codes s)) o

  abbrev hard_git : Fields N
  hard_git = text "branching_strategy" "none" (
      text "phase_branch_template" "gsd/phase-{phase}-{slug}" (
        text "milestone_branch_template" "gsd/{milestone}-{slug}"
          (field (codes "quick_branch_template") null end)))

  -- `budget` is the number 2.
  abbrev hard_workflow : N → Fields N
  hard_workflow budget = flag "research" true (
      flag "plan_check" true (
        flag "verifier" true (
          flag "nyquist_validation" true (
            flag "auto_advance" false (
              flag "node_repair" true (
                field (codes "node_repair_budget") (num budget) (
                  flag "ui_phase" true (
                    flag "ui_safety_gate" true (
                      flag "text_mode" false (
                        flag "research_before_questions" false
                          (text "discuss_mode" "discuss" (flag "skip_discuss" false end))))))))))))

  -- `hardcoded`
  unfoldable pub hardcoded : N → ApiKeys → Fields N
  hardcoded budget keys = text "model_profile" "balanced" (
      flag "commit_docs" true (
        flag "parallelization" true (
          flag "search_gitignored" false (
            flag "brave_search" keys.brave (
              flag "firecrawl" keys.firecrawl (
                flag "exa_search" keys.exa (
                  field (codes "git") (obj hard_git) (
                    field (codes "workflow") (obj (hard_workflow budget)) (
                      field (codes "hooks") (obj (flag "context_warnings" true end))
                        (field (codes "agent_skills") (obj end) end))))))))))

  -- `depthToGranularity[depth] || depth`
  unfoldable pub granularity_of : Json N → Json N
  granularity_of (str s) =
      if equal s (codes "quick")
      then str (codes "coarse")
      else if equal s (codes "comprehensive")
      then str (codes "fine")
      else str s
  granularity_of depth = depth

  -- The user's defaults with the key `depth` of an earlier version renamed.
  unfoldable pub migrate : Fields N → Fields N
  migrate defaults = elim (get (codes "depth") defaults) [
    | none ↦ defaults
    | some depth ↦ elim (get (codes "granularity") defaults) [
      | none ↦ remove (codes "depth") (put (codes "granularity") (granularity_of depth) defaults)
      | some g ↦ defaults
    ]
  ]

  -- What is spread for the defaults file.
  unfoldable pub user_part : Option (Fields N) → Fields N
  user_part none = end
  user_part (some o) = migrate o

  abbrev value_or_null : Option (Json N) → Json N
  value_or_null none = null
  value_or_null (some v) = v

  -- `o.key || {}`, as the properties that spreading it gives.
  unfoldable pub section_of : Text → Fields N → Fields N
  section_of key o = fields_of (value_or_null (get key o))

  -- One of the nested objects of the result.
  unfoldable pub merged_section : Text → Fields N → Fields N → Fields N → Json N
  merged_section key hard user choices =
      obj (spread (spread (section_of key hard) (section_of key user)) (section_of key choices))

  -- The sections written over the merged properties, in their order.
  unfoldable pub put_sections : List Text → Fields N → Fields N → Fields N → Fields N → Fields N
  put_sections [] hard user choices o = o
  put_sections (key ∷ keys) hard user choices o =
      put_sections keys hard user choices (put key (merged_section key hard user choices) o)

  -- `buildNewProjectConfig`, on the object of the defaults file if it can be read, and the choices.
  unfoldable pub build_new_project_config : N → ApiKeys → Option (Fields N) → Fields N → Fields N
  build_new_project_config budget keys defaults choices =
      let hard = hardcoded budget keys in
      let user = user_part defaults in
      put_sections sections hard user choices (spread (spread hard user) choices)
