-- ===== src/ContextMonitor/Debounce.antt =====
-- How often the hook speaks.
use mikmongo.Base.{
  length, replicate, ◌++◌, ℕ, ◌+◌, ◌≤◌, ◌<◌, ◌≡◌, refl, Bool, false, Option, none, some, arith,
  List, [], ◌∷◌, All, ◌⊎◌,
}
use mikmongo.ContextMonitor.Decision.{AtMost}
use mikmongo.ContextMonitor.{
  Percent, warn, is_stale, corrupt, missing, Level, warning, critical, Metrics, WarnData, Stored,
  saved, Message, silent, on_metrics, current_level,
}

-- One call: the metrics at its time, the time, and whether a plan is active.
pub record Call : Type 0 where
  pub metrics : Metrics
  pub now : ℕ
  pub active : Bool

-- Calls of the hook one after the other, on one warn file.
abbrev pub run_calls : List Call → Stored WarnData → Stored WarnData × List Message
run_calls [] file = (file, [])
run_calls (c ∷ cs) file =
    let (file', message) = on_metrics (saved c.metrics) c.now c.active file in
    let (file'', messages) = run_calls cs file' in (file'', message ∷ messages)

-- Fresh metrics that show at most 35% left.
abbrev pub IsLow : Call → Type 0
IsLow c =
    (is_stale c.metrics.timestamp c.now ≡ false)
    × ((r : Percent) × (c.metrics.remaining_percentage ≡ some r) × AtMost r 35)

-- No step from `warning` to `critical`.
abbrev pub IsCalm : Option Level → Call → Type 0
IsCalm last c = (last ≡ some warning) → current_level c.metrics.remaining_percentage ≡ warning

on_metrics-quiet :
    (c : Call) (n : ℕ) (last : Option Level)
    → IsLow c
    → IsCalm last c
    → n + 1 < 5
    → on_metrics
        (saved c.metrics)
        c.now
        c.active
        (saved (record { calls_since_warn = n; last_level = last }))
      ≡ (saved (record { calls_since_warn = n + 1; last_level = last }), silent)
unfolding on_metrics
on_metrics-quiet c n none low calm h = ground arith
on_metrics-quiet c n (some critical) low calm h = ground arith
on_metrics-quiet c n (some warning) low calm h = ground (arith, calm refl)

run_calls-quiet :
    (cs : List Call) (n : ℕ) (last : Option Level)
    → All IsLow cs
    → All (IsCalm last) cs
    → n + length cs < 5
    → run_calls cs (saved (record { calls_since_warn = n; last_level = last })) ≡ (
      saved (record { calls_since_warn = n + length cs; last_level = last }),
      replicate (length cs) silent,
    )
run_calls-quiet [] n last low calm h = ground arith
run_calls-quiet (c ∷ cs) n last (l, low) (k, calm) h =
    rw (on_metrics-quiet c n last l k (omega arith))
      (rw (run_calls-quiet cs (n + 1) last low calm (omega arith)) (ground arith))

run_calls-append :
    (cs ds : List Call) (file : Stored WarnData)
    → (run_calls (cs ++ ds) file).1
      ≡ (run_calls cs file).1 ++ (run_calls ds (run_calls cs file).0).1
run_calls-append [] ds file = refl
run_calls-append (c ∷ cs) ds file =
    ground (arith, run_calls-append cs ds (on_metrics (saved c.metrics) c.now c.active file).0)

-- The warning that a call prints when it is not held back.
abbrev pub spoken : Call → Message
spoken c =
    warn (current_level c.metrics.remaining_percentage) c.active c.metrics.used_pct
      c.metrics.remaining_percentage

on_metrics-speaks :
    (c : Call) (n : ℕ) (last : Option Level)
    → IsLow c
    → 5 ≤ n + 1
    → (on_metrics
        (saved c.metrics)
        c.now
        c.active
        (saved (record { calls_since_warn = n; last_level = last }))).1
      ≡ spoken c
unfolding on_metrics
on_metrics-speaks c n last low h = ground arith

-- After a warning at some level, four calls that see low and fresh metrics and no step from the
-- level `warning` to `critical` are silent, and the fifth speaks.
pub run_calls-debounce :
    (cs : List Call) (c : Call) (last : Option Level)
    → All IsLow cs
    → All (IsCalm last) cs
    → length cs ≡ 4
    → IsLow c
    → (run_calls (cs ++ c ∷ []) (saved (record { calls_since_warn = 0; last_level = last }))).1
      ≡ silent ∷ silent ∷ silent ∷ silent ∷ spoken c ∷ []
run_calls-debounce cs c last low calm four l = rw (run_calls-append cs (c ∷ []) _) (
    rw (run_calls-quiet cs 0 last low calm (omega arith))
      (rw (four, on_metrics-speaks c 4 last l (omega arith))))

-- The first low call of a session speaks, whether there is no warn file or an unreadable one, and
-- so does a call that sees at most 25% after a warning of the lower level, at any counter.
pub on_metrics-immediate :
    (c : Call) (file : Stored WarnData) (n : ℕ) (r : Percent)
    → is_stale c.metrics.timestamp c.now ≡ false
    → c.metrics.remaining_percentage ≡ some r
    → ((file ≡ missing) ⊎ (file ≡ corrupt)) × AtMost r 35
      ⊎ (file ≡ saved (record { calls_since_warn = n; last_level = some warning })) × AtMost r 25
    → on_metrics (saved c.metrics) c.now c.active file ≡ (
      saved (record {
        calls_since_warn = 0;
        last_level = some (current_level c.metrics.remaining_percentage);
      }),
      spoken c,
    )
unfolding on_metrics
on_metrics-immediate c file n r fresh e h = ground arith
