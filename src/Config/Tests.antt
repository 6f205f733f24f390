-- ===== src/Config/Tests.antt =====
-- Configurations that are set, read and made.
use mikmongo.Base.{ℕ, ◌≡◌, refl, inl, true, false, Option, none, some, if◌then◌else◌, all, ◌==◌}
use mikmongo.Text.{Text, codes, equal, starts_with, is_alnum, split, is_digit, parse_int}
use mikmongo.Json.{
  Json, Fields, holds, null, nil, bool, str, arr, obj, end, field, get, fields_of, put, remove,
  spread, cons, num,
}
use mikmongo.Config.{
  is_valid_config_key, ok, failed, type_error, renamed, config_get, config_set, parse_value,
  set_path, set_config_value, child, written_value, written_items, cons, num,
}
use mikmongo.Config.Commands.{config_set-config_get, IsRead, config_set-frame}
use mikmongo.Config.NewProject.{
  ApiKeys, hardcoded, section_of, user_part, build_new_project_config, merged_section, migrate,
  put_sections,
}

abbrev number : Text → Option ℕ
number s = if all is_digit s then some (parse_int s) else none

abbrev parse_json : Text → Option (Json ℕ)
parse_json s = none

abbrev plain : Fields ℕ
plain = field (codes "mode") (str (codes "yolo")) end

abbrev with_workflow : Json ℕ → Json ℕ
with_workflow w = obj (field (codes "mode") (str (codes "yolo")) (field (codes "workflow") w end))

-- A missing section is made.
research_set :
    config_set number parse_json some
      (holds (obj plain))
      (codes "workflow.research")
      (codes "false")
    ≡ ok (with_workflow (obj (field (codes "research") (bool false) end)))
unfolding config_set equal is_valid_config_key set_config_value set_path split get put parse_value
research_set = refl

-- A section that is an array is kept, and what is set in it is not written.
array_drops :
    config_set number parse_json some
      (holds (with_workflow (arr nil)))
      (codes "workflow.research")
      (codes "false")
    ≡ ok (with_workflow (arr nil))
unfolding config_set equal is_valid_config_key set_config_value set_path split get put
array_drops = refl

null_fails :
    config_set number parse_json some
      (holds (with_workflow null))
      (codes "workflow.research")
      (codes "false")
    ≡ failed type_error
unfolding config_set equal is_valid_config_key set_config_value set_path split get
null_fails = refl

old_key :
    config_set number parse_json some
      (holds (obj plain))
      (codes "hooks.research_questions")
      (codes "true")
    ≡ failed renamed
unfolding config_set equal
old_key = refl

agent_key : is_valid_config_key (codes "agent_skills.gsd-planner") ≡ true
unfolding is_valid_config_key equal starts_with is_alnum
agent_key = refl

no_agent_key : is_valid_config_key (codes "agent_skills.") ≡ false
unfolding is_valid_config_key equal starts_with
no_agent_key = refl

config_set-config_get_example :
    (j' w : Json ℕ) × (config_set number parse_json some
        (holds (obj plain))
        (codes "workflow.node_repair_budget")
        (codes "3")
      ≡ ok j')
    × (config_get (holds j') (codes "workflow.node_repair_budget") ≡ ok w)
    × IsRead some (parse_value number parse_json (codes "3")) w
unfolding is_valid_config_key equal split child get parse_value is_digit
config_set-config_get_example =
    config_set-config_get number parse_json some (obj plain) b'w'
      (codes "orkflow.node_repair_budget") (codes "3") refl (plain, refl, (end, refl))

config_set-frame_example :
    config_get
      (holds (with_workflow (obj (field (codes "research") (bool false) end))))
      (codes "mode")
    ≡ config_get (holds (obj plain)) (codes "mode")
unfolding split equal
config_set-frame_example =
    config_set-frame number parse_json some (obj plain)
      (with_workflow (obj (field (codes "research") (bool false) end))) (codes "workflow.research")
      (codes "false") (codes "mode") research_set (inl refl)

abbrev keys : ApiKeys
keys = record { brave = true; firecrawl = false; exa = false }

abbrev user : Fields ℕ
user =
    field (codes "depth") (str (codes "quick"))
      (field (codes "git") (obj (field (codes "branching_strategy") (str (codes "phase")) end)) end)

-- The choice is missing, so the user's default is taken.
branching :
    get
      (codes "branching_strategy")
      (section_of (codes "git") (build_new_project_config 2 keys (some user) plain))
    ≡ some (str (codes "phase"))
unfolding get section_of fields_of build_new_project_config put_sections put spread user_part
    migrate equal remove hardcoded merged_section
branching = refl

-- With no text for the number 7, it is written as null wherever it stands.
infinite_written :
    written_value (λ n. if n == 7 then none else some n) (arr (cons (num 7) (cons (num 3) nil)))
    ≡ arr (cons null (cons (num 3) nil))
unfolding written_value written_items
infinite_written = refl
