-- ===== src/ContextMonitor/Tests.antt =====
-- Runs of the hook, and the theorems at concrete inputs.
use mikmongo.Base.{replicate, ap, ◌++◌, ℕ, ◌≡◌, refl, true, false, some, arith, inr, [], ◌∷◌}
use mikmongo.Text.{codes, equal}
use mikmongo.Json.{absent, holds, obj, field, end, bool, member, is_bool, Json}
use mikmongo.ContextMonitor.{
  Percent, warning, critical, Metrics, missing, saved, silent, warn, Input, run_hook, on_metrics,
  is_stale, debounce, warnings_disabled,
}
use mikmongo.ContextMonitor.Decision.{run_hook-IsJustified, IsJustified}
use mikmongo.ContextMonitor.Debounce.{
  Call, IsLow, spoken, run_calls, run_calls-debounce, on_metrics-immediate,
}

abbrev whole : ℕ → Percent
whole r = record { parts = r; below = 0 }

abbrev metrics_at : ℕ → Metrics
metrics_at r = record {
  remaining_percentage = some (whole r);
  used_pct = some 80;
  timestamp = some 1000;
}

abbrev input_at : ℕ → Input ℕ
input_at r = record {
  session_id = some (codes "s1");
  config = absent;
  metrics = saved (metrics_at r);
  now = 1030;
  gsd_active = true;
}

first_run : run_hook (input_at 20) missing ≡ (
  saved (record { calls_since_warn = 0; last_level = some critical }),
  warn critical true (some 80) (some (whole 20)),
)
unfolding run_hook on_metrics is_stale debounce warnings_disabled
first_run = refl

-- 35.25% are more than 35%.
above :
    on_metrics
      (saved (record {
        remaining_percentage = some (record { parts = 141; below = 3 });
        used_pct = some 80;
        timestamp = some 1000;
      }))
      1030
      true
      missing
    ≡ (missing, silent)
unfolding on_metrics is_stale debounce
above = refl

plenty : run_hook (input_at 36) missing ≡ (missing, silent)
unfolding run_hook on_metrics is_stale debounce warnings_disabled
plenty = refl

abbrev muted : Json ℕ
muted = obj (field (codes "hooks") (obj (field (codes "context_warnings") (bool false) end)) end)

switched_off : warnings_disabled (holds muted) ≡ true
unfolding warnings_disabled member is_bool equal
switched_off = refl

first_run_warns :
    (run_hook (input_at 20) missing).1 ≡ warn critical true (some 80) (some (whole 20))
first_run_warns = ap (λ r. r.1) first_run

run_hook-IsJustified_example : IsJustified (input_at 20) critical true (some 80) (some (whole 20))
run_hook-IsJustified_example =
    run_hook-IsJustified (input_at 20) missing critical true (some 80) (some (whole 20))
      first_run_warns

abbrev call_at : ℕ → Call
call_at r = record { metrics = metrics_at r; now = 1030; active = false }

call_at-IsLow : IsLow (call_at 30)
unfolding is_stale
call_at-IsLow = (refl, (whole 30, refl, omega arith))

run_calls-debounce_example :
    (run_calls
      (replicate 4 (call_at 30) ++ call_at 30 ∷ [])
      (saved (record { calls_since_warn = 0; last_level = some warning }))).1
    ≡ silent ∷ silent ∷ silent ∷ silent ∷ spoken (call_at 30) ∷ []
run_calls-debounce_example =
    run_calls-debounce (replicate 4 (call_at 30)) (call_at 30) (some warning)
      (let l = call_at-IsLow in (l, (l, (l, (l, tt)))))
      ((λ _. refl), ((λ _. refl), ((λ _. refl), ((λ _. refl), tt)))) refl call_at-IsLow

on_metrics-immediate_example :
    on_metrics
      (saved (metrics_at 20))
      1030
      false
      (saved (record { calls_since_warn = 2; last_level = some warning }))
    ≡ (saved (record { calls_since_warn = 0; last_level = some critical }), spoken (call_at 20))
on_metrics-immediate_example =
    on_metrics-immediate (call_at 20)
      (saved (record { calls_since_warn = 2; last_level = some warning })) 2 (whole 20)
      call_at-IsLow.0 refl (inr (refl, omega arith))
