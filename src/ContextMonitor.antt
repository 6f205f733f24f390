-- ===== src/ContextMonitor.antt =====
-- .opencode/hooks/gsd-context-monitor.js: the hook that runs after each tool call and warns the
-- agent when little context is left. A percentage is a ratio; `none` is `undefined`,
-- against which every comparison is false.
pub mod Debounce
pub mod Decision
mod Tests
use mikmongo.Base.{
  suc, ◌*◌, ℕ, ◌+◌, Bool, true, false, ◌&&◌, ◌||◌, not, Option, none, some, ltb, leb, ◌==◌,
  if◌then◌else◌, is_empty,
}
use mikmongo.Text.{Text, codes}
use mikmongo.Json.{JsonFile, absent, malformed, holds, member, is_bool}

abbrev pub warning_threshold : ℕ
warning_threshold = 35

abbrev pub critical_threshold : ℕ
critical_threshold = 25

abbrev pub stale_seconds : ℕ
stale_seconds = 60

abbrev pub debounce_calls : ℕ
debounce_calls = 5

pub data Level : Type 0 where
  warning critical : Level

-- A number of per cents, not always a whole one: `parts / (below + 1)`.
pub record Percent : Type 0 where
  pub parts : ℕ
  pub below : ℕ

-- The bridge file that the status line writes; the used part is rounded there.
pub record Metrics : Type 0 where
  pub remaining_percentage : Option Percent
  pub used_pct : Option ℕ
  pub timestamp : Option ℕ

-- The content of the `-warned.json` file; a missing counter reads as 0.
pub record WarnData : Type 0 where
  pub calls_since_warn : ℕ
  pub last_level : Option Level

-- A file of the temporary directory, or of the project.
pub data Stored (A : Type 0) : Type 0 where
  missing : Stored A
  corrupt : Stored A
  saved : A → Stored A

pub data Message : Type 0 where
  silent : Message
  warn :
      (level : Level)
      → (gsd_active : Bool) → (used : Option ℕ) → (remaining : Option Percent) → Message

-- What one run reads. `now` is `Math.floor(Date.now() / 1000)`.
pub record Input (N : Type 0) : Type 0 where
  pub session_id : Option Text
  pub config : JsonFile N
  pub metrics : Stored Metrics
  pub now : ℕ
  pub gsd_active : Bool

abbrev gt : Option Percent → ℕ → Bool
gt none n = false
gt (some m) n = ltb (n * suc m.below) m.parts

abbrev le : Option Percent → ℕ → Bool
le none n = false
le (some m) n = leb m.parts (n * suc m.below)

abbrev pub is_critical_level : Level → Bool
is_critical_level warning = false
is_critical_level critical = true

abbrev is_warning : Option Level → Bool
is_warning (some warning) = true
is_warning _ = false

-- `metrics.timestamp && (now - metrics.timestamp) > STALE_SECONDS`
pub is_stale : Option ℕ → ℕ → Bool
is_stale none now = false
is_stale (some t) now = not (t == 0) && ltb (t + stale_seconds) now

-- `config.hooks?.context_warnings === false`, with a file that cannot be read ignored.
pub warnings_disabled : {N : Type 0} → JsonFile N → Bool
warnings_disabled absent = false
warnings_disabled malformed = false
warnings_disabled (holds config) =
    is_bool false (member (member (some config) (codes "hooks")) (codes "context_warnings"))

abbrev pub current_level : Option Percent → Level
current_level remaining = if le remaining critical_threshold then critical else warning

-- The data read from the warn file, and whether this is the first warning.
abbrev pub read_warn : Stored WarnData → WarnData × Bool
read_warn (saved w) = (w, false)
read_warn _ = (record { calls_since_warn = 0; last_level = none }, true)

-- From the debounce test to the end: the new warn file, and what is printed.
pub debounce : WarnData → Bool → Metrics → Bool → WarnData × Message
debounce w first m active =
    let calls = w.calls_since_warn + 1 in
    let level = current_level m.remaining_percentage in
    let escalated = is_critical_level level && is_warning w.last_level in
    if not first && (ltb calls debounce_calls && not escalated)
    then (record w { calls_since_warn = calls }, silent)
    else (
      record { calls_since_warn = 0; last_level = some level },
      warn level active m.used_pct m.remaining_percentage,
    )

-- The hook below the session and configuration checks.
pub on_metrics : Stored Metrics → ℕ → Bool → Stored WarnData → Stored WarnData × Message
unfolding is_stale debounce
on_metrics (saved m) now active file =
    if is_stale m.timestamp now || gt m.remaining_percentage warning_threshold
    then (file, silent)
    else let (w, first) = read_warn file in
      let (w', message) = debounce w first m active in (saved w', message)
on_metrics _ now active file = (file, silent)

abbrev pub has_session : Option Text → Bool
has_session none = false
has_session (some id) = not (is_empty id)

-- One run of the hook on the warn file of the session.
pub run_hook : {N : Type 0} → Input N → Stored WarnData → Stored WarnData × Message
run_hook i file =
    if not (has_session i.session_id) || warnings_disabled i.config
    then (file, silent)
    else on_metrics i.metrics i.now i.gsd_active file
