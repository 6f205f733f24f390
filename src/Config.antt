-- ===== src/Config.antt =====
-- .opencode/get-shit-done/bin/lib/config.cjs: which keys there are, and how a value is set and read
-- by its dotted path. Objects hold own properties only: no key is the name of a member of
-- `Object.prototype`, an index or `length`. Errors that end the process are values.
pub mod Access
pub mod Commands
pub mod NewProject
pub mod Defaults
pub mod Load
mod Tests
use mikmongo.Base.{
  ℕ, Bool, true, false, not, ◌&&◌, ◌||◌, Option, none, some, List, [], ◌∷◌, ◌==◌, if◌then◌else◌,
  drop, is_empty, all, any,
}
use mikmongo.Text.{Text, codes, equal, starts_with, is_alnum, split}
use mikmongo.Json.{
  Json, Fields, JsonFile, absent, malformed, holds, null, bool, num, str, arr, obj, end, get, put,
  fields_of, Items, nil, cons, field,
}

-- `VALID_CONFIG_KEYS`
abbrev pub valid_keys : List Text
valid_keys =
    codes "mode"
    ∷ codes "granularity"
    ∷ codes "parallelization"
    ∷ codes "commit_docs"
    ∷ codes "model_profile"
    ∷ codes "search_gitignored"
    ∷ codes "brave_search"
    ∷ codes "firecrawl"
    ∷ codes "exa_search"
    ∷ codes "workflow.research"
    ∷ codes "workflow.plan_check"
    ∷ codes "workflow.verifier"
    ∷ codes "workflow.nyquist_validation"
    ∷ codes "workflow.ui_phase"
    ∷ codes "workflow.ui_safety_gate"
    ∷ codes "workflow.auto_advance"
    ∷ codes "workflow.node_repair"
    ∷ codes "workflow.node_repair_budget"
    ∷ codes "workflow.text_mode"
    ∷ codes "workflow.research_before_questions"
    ∷ codes "workflow.discuss_mode"
    ∷ codes "workflow.skip_discuss"
    ∷ codes "workflow._auto_chain_active"
    ∷ codes "git.branching_strategy"
    ∷ codes "git.phase_branch_template"
    ∷ codes "git.milestone_branch_template"
    ∷ codes "git.quick_branch_template"
    ∷ codes "planning.commit_docs"
    ∷ codes "planning.search_gitignored"
    ∷ codes "hooks.context_warnings"
    ∷ []

abbrev agent_unit : ℕ → Bool
agent_unit c = is_alnum c || c == b'_' || c == b'-'

abbrev agent_name : Text → Bool
agent_name s = not (is_empty s) && all agent_unit s

-- `isValidConfigKey`, with `/^agent_skills\.[a-zA-Z0-9_-]+$/`.
unfoldable pub is_valid_config_key : Text → Bool
is_valid_config_key key =
    any (equal key) valid_keys
    || (starts_with key (codes "agent_skills.") && agent_name (drop 13 key))

-- The keys of `CONFIG_KEY_SUGGESTIONS`.
abbrev pub renamed_keys : List Text
renamed_keys =
    codes "workflow.nyquist_validation_enabled"
    ∷ codes "agents.nyquist_validation_enabled"
    ∷ codes "nyquist.validation_enabled"
    ∷ codes "hooks.research_questions"
    ∷ codes "workflow.research_questions"
    ∷ []

pub data ConfigError : Type 0 where
  usage renamed unknown_key unreadable type_error no_file not_found : ConfigError

pub data Result (A : Type 0) : Type 0 where
  ok : A → Result A
  failed : ConfigError → Result A

module _ {N : Type 0} where
  -- `current[key] === undefined || typeof current[key] !== 'object'` makes a new object.
  unfoldable pub child : Option (Json N) → Json N
  child (some (obj o)) = obj o
  child (some (arr xs)) = arr xs
  child (some null) = null
  child _ = obj end

  -- Setting a property of a value, as the JSON text of the value shows it: `none` is a `TypeError`.
  -- An array takes the property and its text drops it; other values ignore it.
  unfoldable pub set_member : Text → Json N → Json N → Option (Json N)
  set_member key v (obj o) = some (obj (put key v o))
  set_member key v null = none
  set_member key v j = some j

  unfoldable pub put_back : Text → Fields N → Option (Json N) → Option (Json N)
  put_back key o none = none
  put_back key o (some w) = some (obj (put key w o))

  -- The loop of `setConfigValue` over the keys. A value that is no object has no property for the
  -- next round, but an array gets one.
  unfoldable pub set_path : List Text → Json N → Json N → Option (Json N)
  unfolding set_member put_back child
  set_path [] v j = some v
  set_path (key ∷ []) v j = set_member key v j
  set_path (key ∷ next ∷ keys) v (obj o) =
      put_back key o (set_path (next ∷ keys) v (child (get key o)))
  set_path (key ∷ next ∷ keys) v (arr xs) = some (arr xs)
  set_path (key ∷ next ∷ keys) v _ = none

  -- The loop of `cmdConfigGet`; `none` is "Key not found".
  unfoldable pub read_path : List Text → Json N → Option (Json N)
  read_path [] j = some j
  read_path (key ∷ keys) j = elim (get key (fields_of j)) [
    | none ↦ none
    | some w ↦ read_path keys w
  ]

  -- What is read from the text of a value; `write_number` says what is read from that of a number, and
  -- has no answer for an infinite one, whose text is `null`.
  unfoldable mutual
    pub written_value : (N → Option N) → Json N → Json N
    written_value write_number (num n) = elim (write_number n) [ none ↦ null | some m ↦ num m ]
    written_value write_number (arr xs) = arr (written_items write_number xs)
    written_value write_number (obj o) = obj (written_fields write_number o)
    written_value write_number v = v

    pub written_items : (N → Option N) → Items N → Items N
    written_items write_number nil = nil
    written_items write_number (cons v xs) =
        cons (written_value write_number v) (written_items write_number xs)

    pub written_fields : (N → Option N) → Fields N → Fields N
    written_fields write_number end = end
    written_fields write_number (field key v o) =
        field key (written_value write_number v) (written_fields write_number o)

  set_found : Option (Json N) → Result (Json N)
  set_found none = failed type_error
  set_found (some j) = ok j

  get_found : Option (Json N) → Result (Json N)
  get_found none = failed not_found
  get_found (some j) = ok j

  -- `setConfigValue`: the new content of the file. Only the new value may have infinite numbers.
  unfoldable pub set_config_value : (N → Option N) → JsonFile N → Text → Json N → Result (Json N)
  unfolding set_found written_value
  set_config_value write_number absent key v =
      set_found (set_path (split b'.' key) (written_value write_number v) (obj end))
  set_config_value write_number malformed key v = failed unreadable
  set_config_value write_number (holds j) key v =
      set_found (set_path (split b'.' key) (written_value write_number v) j)

  -- `cmdConfigGet`
  unfoldable pub config_get : JsonFile N → Text → Result (Json N)
  unfolding get_found
  config_get file [] = failed usage
  config_get absent (c ∷ key) = failed no_file
  config_get malformed (c ∷ key) = failed unreadable
  config_get (holds j) (c ∷ key) = get_found (read_path (split b'.' (c ∷ key)) j)

  -- `Number(value)`, with `none` for `NaN`, and `JSON.parse(value)`, with `none` for an error.
  module _ (number : Text → Option N) (parse_json : Text → Option (Json N)) where
    -- The value of `config-set`.
    unfoldable pub parse_value : Text → Json N
    parse_value value =
        let as_json : Json N =
          if starts_with value (codes "[") || starts_with value (codes "{")
          then elim (parse_json value) [ none ↦ str value | some j ↦ j ]
          else str value in
        if equal value (codes "true")
        then bool true
        else if equal value (codes "false")
        then bool false
        else if is_empty value
        then str value
        else elim (number value) [ some n ↦ num n | none ↦ as_json ]

    module _ (write_number : N → Option N) where
      -- `cmdConfigSet`
      unfoldable pub config_set : JsonFile N → Text → Text → Result (Json N)
      config_set file key value =
          if is_empty key
          then failed usage
          else if any (equal key) renamed_keys
          then failed renamed
          else if not (is_valid_config_key key)
          then failed unknown_key
          else set_config_value write_number file key (parse_value value)
