-- ===== src/State/Load.antt =====
-- .opencode/get-shit-done/bin/lib/state.cjs: `cmdStateLoad`, and the signals `cmdSignalWaiting` and
-- `cmdSignalResume`.
use mikmongo.Base.{
  Bool, not, ◌&&◌, Option, none, some, List, [], ◌∷◌, ◌++◌, map, if◌then◌else◌, is_empty,
}
use mikmongo.Text.{Text, codes, split, join, trim, join_path}
use mikmongo.Json.{Json, Items, Fields, null, bool, num, str, arr, obj, nil, cons, end, field, get}
use mikmongo.State.Command.{or_text}
use mikmongo.Config.Load.{text_items}

-- What `cmdStateLoad` prints: the condensed lines, or the result.
pub data Shown (N : Type 0) : Type 0 where
  lines : Text → Shown N
  value : Json N → Shown N

-- A signal as the file system takes it: the path that is written, or that nothing can be written.
pub data Signal (N : Type 0) : Type 0 where
  signaled : (path : Text) → (content : Json N) → Signal N
  not_signaled : (reason : Text) → Signal N

abbrev flag_text : Bool → Text
flag_text b = if b then codes "true" else codes "false"

abbrev yes_no : Text → Bool → Text
yes_no key b = key ++ (codes "=" ++ flag_text b)

module _ {N : Type 0} (number_text : N → Text) where
  -- A value within a template literal; within an array, `null` is the empty text.
  unfoldable mutual
    pub value_text : Json N → Text
    value_text null = codes "null"
    value_text (bool b) = flag_text b
    value_text (num n) = number_text n
    value_text (str t) = t
    value_text (arr xs) = array_text xs
    value_text (obj o) = codes "[object Object]"

    array_text : Items N → Text
    array_text nil = []
    array_text (cons x nil) = element_text x
    array_text (cons x (cons y ys)) = element_text x ++ b',' ∷ array_text (cons y ys)

    element_text : Json N → Text
    element_text null = []
    element_text (bool b) = flag_text b
    element_text (num n) = number_text n
    element_text (str t) = t
    element_text (arr xs) = array_text xs
    element_text (obj o) = codes "[object Object]"

  unfoldable pub setting_text : Fields N → Text → Text
  unfolding value_text get
  setting_text config key =
      key
      ++ (codes "=" ++ elim (get key config) [ none ↦ codes "undefined" | some v ↦ value_text v ])

  abbrev pub shown_keys : List Text
  shown_keys =
      codes "model_profile"
      ∷ codes "commit_docs"
      ∷ codes "branching_strategy"
      ∷ codes "phase_branch_template"
      ∷ codes "milestone_branch_template"
      ∷ codes "parallelization"
      ∷ codes "research"
      ∷ codes "plan_checker"
      ∷ codes "verifier"
      ∷ []

  -- `cmdStateLoad(cwd, raw)` on what `loadConfig` gives and the text of STATE.md.
  unfoldable pub cmd_state_load : Fields N → Option Text → Bool → Bool → Bool → Shown N
  unfolding setting_text join
  cmd_state_load config state config_exists roadmap_exists raw =
      let state_raw = or_text state [] in
      let state_exists = not (is_empty state_raw) in
      if raw
      then lines (
          join (codes "\n") (
            map (setting_text config) shown_keys
            ++ yes_no (codes "config_exists") config_exists
              ∷ yes_no (codes "roadmap_exists") roadmap_exists
              ∷ yes_no (codes "state_exists") state_exists
              ∷ []))
      else value (
          obj (
            field (codes "config") (obj config) (
              field (codes "state_raw") (str state_raw) (
                field (codes "state_exists") (bool state_exists) (
                  field (codes "roadmap_exists") (bool roadmap_exists)
                    (field (codes "config_exists") (bool config_exists) end))))))

unfoldable pub options_of : Option Text → List Text
unfolding split trim
options_of none = []
options_of (some []) = []
options_of (some (c ∷ t)) = map trim (split b'|' (c ∷ t))

-- The file of the signal: in `.gsd` of the project where that is, else in the planning directory.
abbrev pub signal_path : Text → Text → Bool → Text
signal_path cwd planning has_gsd =
    join_path (if has_gsd then join_path cwd (codes ".gsd") else planning) (codes "WAITING.json")

module _ {N : Type 0} where
  abbrev text_or_null : Option Text → Json N
  text_or_null none = null
  text_or_null (some []) = null
  text_or_null (some (c ∷ t)) = str (c ∷ t)

  abbrev pub waiting_signal : Option Text → Option Text → Option Text → Option Text → Text → Json N
  waiting_signal kind question options phase now = obj (
      field (codes "status") (str (codes "waiting")) (
        field (codes "type") (str (or_text kind (codes "decision_point"))) (
          field (codes "question") (text_or_null question) (
            field (codes "options") (arr (text_items (options_of options)))
              (field (codes "since") (str now) (field (codes "phase") (text_or_null phase) end))))))

  -- `cmdSignalWaiting(cwd, type, question, options, phase, raw)` at the time `now`; `failure` is the
  -- message of the exception when the file cannot be written.
  unfoldable pub cmd_signal_waiting :
      Text
      → Text
      → Bool
      → Option Text
      → Option Text
      → Option Text
      → Option Text
      → Text
      → Option Text
      → Signal N
  unfolding options_of text_items join_path
  cmd_signal_waiting cwd planning has_gsd kind question options phase now none =
      signaled (signal_path cwd planning has_gsd) (waiting_signal kind question options phase now)
  cmd_signal_waiting cwd planning has_gsd kind question options phase now (some failure) =
      not_signaled failure

-- `cmdSignalResume(cwd, raw)`: which of the two files are removed, where `exists` and `unlinks` tell
-- whether a path is there and whether removing it succeeds; `removed` is whether there is one.
unfoldable pub removed_signals : (Text → Bool) → (Text → Bool) → List Text → List Text
removed_signals exists unlinks [] = []
removed_signals exists unlinks (p ∷ ps) =
    let rest = removed_signals exists unlinks ps in if exists p && unlinks p then p ∷ rest else rest

unfoldable pub cmd_signal_resume : (Text → Bool) → (Text → Bool) → Text → Text → List Text × Bool
unfolding removed_signals join_path
cmd_signal_resume exists unlinks cwd planning =
    let removed = removed_signals exists unlinks (
      join_path (join_path cwd (codes ".gsd")) (codes "WAITING.json")
      ∷ join_path planning (codes "WAITING.json")
      ∷ []) in
    (removed, not (is_empty removed))
