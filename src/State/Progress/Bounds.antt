-- ===== src/State/Progress/Bounds.antt =====
-- The percentage and the bar stay in their bounds.
use mikmongo.Base.{
  ℕ, ◌-◌, ◌≤◌, ◌≡◌, refl, ap, ◌∙◌, inl, inr, Bool, some, arith, Option-cases, length, replicate,
  length-append, length-replicate,
}
use mikmongo.Text.{Text}
use mikmongo.PhaseDir.{Fs}
use mikmongo.State.Command.{Reply, written}
use mikmongo.State.Progress.{
  percent_of, filled_of, bar_of, bar_width, progress_text, milestone_counts, set_progress,
  cmd_state_update_progress,
}

pub percent_bound : (f : ℕ → ℕ → ℕ) (s p : ℕ) → percent_of f s p ≤ 100
unfolding percent_of
percent_bound f s p = ground arith

filled_bound : (percent : ℕ) → percent ≤ 100 → filled_of percent ≤ bar_width
unfolding filled_of
filled_bound percent h = omega arith

pub bar_of-length : (percent : ℕ) → percent ≤ 100 → length (bar_of percent) ≡ bar_width
unfolding bar_of
bar_of-length percent h = omega (
  arith,
  filled_bound percent h,
  length-append {A = ℕ} (replicate (filled_of percent) 0x2588)
      (replicate (bar_width - filled_of percent) 0x2591),
  length-replicate {A = ℕ} (filled_of percent) 0x2588,
  length-replicate {A = ℕ} (bar_width - filled_of percent) 0x2591,
)

reply_inj : {a b : Reply} → some a ≡ some b → a ≡ b
reply_inj h = cc

-- When the progress is written, the field is set to the text of the percentage that the counts of the
-- plans and summaries give; it is at most 100, and its bar has exactly ten units.
pub cmd_state_update_progress-bounds :
    (round_percent : ℕ → ℕ → ℕ) (fs : Fs) (phases : Text) (in_milestone : Text → Bool)
    (content : Text) (reply : Reply) (content' : Text)
    → cmd_state_update_progress round_percent fs phases in_milestone (some content) ≡ some reply
    → written reply ≡ some content'
    → (plans summaries percent : ℕ) × (milestone_counts fs phases in_milestone
        ≡ some (plans, summaries))
      × (percent ≡ percent_of round_percent summaries plans)
      × (percent ≤ 100)
      × (length (bar_of percent) ≡ 10)
      × (set_progress content (progress_text percent) ≡ some content')
unfolding cmd_state_update_progress
cmd_state_update_progress-bounds round_percent fs phases in_milestone content reply content' h w =
    elim (Option-cases (milestone_counts fs phases in_milestone)) [
      | inl e ↦ cc (rw (cmd_state_update_progress, e) at h)
      | inr ((plans, summaries), e) ↦
          let percent = percent_of round_percent summaries plans in
          let bound = percent_bound round_percent summaries plans in
          elim (Option-cases (set_progress content (progress_text percent))) [
            | inl f ↦ cc (rw (cmd_state_update_progress, e, f) at h)
            | inr (c, f) ↦ (
              plans,
              summaries,
              percent,
              e,
              refl,
              bound,
              bar_of-length percent bound,
              f ∙ (ap written (reply_inj (rw (cmd_state_update_progress, e, f) at h)) ∙ w),
            )
          ]
    ]
