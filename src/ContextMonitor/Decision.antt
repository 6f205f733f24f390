-- ===== src/ContextMonitor/Decision.antt =====
-- When the hook speaks, and with which level.
use mikmongo.Base.{
  none, true, suc, ◌*◌, ◌⊎◌, refl, ℕ, ◌≤◌, ◌≡◌, ◌↔◌, Bool, false, Option, some, arith,
}
use mikmongo.ContextMonitor.{
  Percent, has_session, Level, critical, Metrics, WarnData, Stored, missing, corrupt, saved, warn,
  Input, run_hook, on_metrics, is_stale, warnings_disabled,
}

-- The number of per cents is at most `n`.
abbrev pub AtMost : Percent → ℕ → Type 0
AtMost r n = r.parts ≤ n * suc r.below

-- A number of per cents is given and at most `n`.
abbrev pub IsBelow : ℕ → Option Percent → Type 0
IsBelow n none = ⊥
IsBelow n (some r) = AtMost r n

-- What is known of the metrics behind a warning.
abbrev IsShown : Metrics → ℕ → Bool → Level → Bool → Option ℕ → Option Percent → Type 0
IsShown m now gsd level active used remaining =
    (m.remaining_percentage ≡ remaining)
    × (m.used_pct ≡ used)
    × (is_stale m.timestamp now ≡ false)
    × ((remaining ≡ none) ⊎ IsBelow 35 remaining)
    × ((level ≡ critical) ↔ IsBelow 25 remaining)
    × (active ≡ gsd)

on_metrics-warn :
    (m : Metrics) (now : ℕ) (gsd : Bool) (file : Stored WarnData) (level : Level) (active : Bool)
    (used : Option ℕ) (r : Percent)
    → (on_metrics (saved m) now gsd file).1 ≡ warn level active used (some r)
    → IsShown m now gsd level active used (some r)
unfolding on_metrics
on_metrics-warn m now gsd missing level active used r h = ground arith
on_metrics-warn m now gsd corrupt level active used r h = ground arith
on_metrics-warn m now gsd (saved w) level active used r h = ground arith

on_metrics-unknown :
    (m : Metrics) (now : ℕ) (gsd : Bool) (file : Stored WarnData) (level : Level) (active : Bool)
    (used : Option ℕ)
    → (on_metrics (saved m) now gsd file).1 ≡ warn level active used none
    → IsShown m now gsd level active used none
unfolding on_metrics
on_metrics-unknown m now gsd missing level active used h = ground arith
on_metrics-unknown m now gsd corrupt level active used h = ground arith
on_metrics-unknown m now gsd (saved w) level active used h = ground arith

on_metrics-IsShown :
    (m : Metrics) (now : ℕ) (gsd : Bool) (file : Stored WarnData) (level : Level) (active : Bool)
    (used : Option ℕ) (remaining : Option Percent)
    → (on_metrics (saved m) now gsd file).1 ≡ warn level active used remaining
    → IsShown m now gsd level active used remaining
on_metrics-IsShown m now gsd file level active used none h =
    on_metrics-unknown m now gsd file level active used h
on_metrics-IsShown m now gsd file level active used (some r) h =
    on_metrics-warn m now gsd file level active used r h

on_metrics-reads :
    (s : Stored Metrics) (now : ℕ) (gsd : Bool) (file : Stored WarnData) {level : Level}
    {active : Bool} {used : Option ℕ} {remaining : Option Percent}
    → (on_metrics s now gsd file).1 ≡ warn level active used remaining
    → (m : Metrics) × (s ≡ saved m)
unfolding on_metrics
on_metrics-reads missing now gsd file h = cc
on_metrics-reads corrupt now gsd file h = cc
on_metrics-reads (saved m) now gsd file h = (m, refl)

run_hook-passes :
    {N : Type 0} (i : Input N) (file : Stored WarnData) {level : Level} {active : Bool}
    {used : Option ℕ} {remaining : Option Percent}
    → (run_hook i file).1 ≡ warn level active used remaining
    → (has_session i.session_id ≡ true)
      × (warnings_disabled i.config ≡ false)
      × ((on_metrics i.metrics i.now i.gsd_active file).1 ≡ warn level active used remaining)
unfolding run_hook
run_hook-passes i file h = ground arith

-- What stands behind a warning.
pub record IsJustified {N : Type 0} (i : Input N) (level : Level) (active : Bool) (used : Option ℕ)
    (remaining : Option Percent) : Type 0 where
  pub metrics : Metrics
  pub read : i.metrics ≡ saved metrics
  pub remaining_same : metrics.remaining_percentage ≡ remaining
  pub used_same : metrics.used_pct ≡ used
  pub fresh : is_stale metrics.timestamp i.now ≡ false
  pub low : (remaining ≡ none) ⊎ IsBelow 35 remaining
  pub critical_iff : (level ≡ critical) ↔ IsBelow 25 remaining
  pub session : has_session i.session_id ≡ true
  pub enabled : warnings_disabled i.config ≡ false
  pub active_same : active ≡ i.gsd_active

-- A warning is printed only in a session, from fresh metrics, with warnings not disabled in the
-- configuration; the metrics show at most 35% left, or they do not say how much. It is critical
-- exactly if they show at most 25%, and it repeats their numbers and whether a plan is active.
pub run_hook-IsJustified :
    {N : Type 0} (i : Input N) (file : Stored WarnData) (level : Level) (active : Bool)
    (used : Option ℕ) (remaining : Option Percent)
    → (run_hook i file).1 ≡ warn level active used remaining
    → IsJustified i level active used remaining
run_hook-IsJustified i file level active used remaining h =
    let (session, enabled, spoke) = run_hook-passes i file h in
    let (m, read) = on_metrics-reads i.metrics i.now i.gsd_active file spoke in
    let (at, same, fresh, low, critical_iff, gsd) =
      on_metrics-IsShown m i.now i.gsd_active file level active used remaining (rw read at spoke) in
    record {
      metrics = m;
      read = read;
      remaining_same = at;
      used_same = same;
      fresh = fresh;
      low = low;
      critical_iff = critical_iff;
      session = session;
      enabled = enabled;
      active_same = gsd;
    }
