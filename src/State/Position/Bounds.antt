-- ===== src/State/Position/Bounds.antt =====
-- The plan does not go past the last one.
use mikmongo.Base.{
  Option, none, ◌++◌, sym, ◌∙◌, zero, suc, ◌≡◌, refl, ◌⊎◌, inl, inr, true, false, some, arith,
  Bool-cases, Option-cases,
}
use mikmongo.Text.{Text, codes}
use mikmongo.Regex.{Regex, replace, digits, ◌⨟◌}
use mikmongo.State.{state_replace_field}
use mikmongo.State.Command.{show, ℤ, pos, negsuc, reaches, next, written}
use mikmongo.State.Position.{
  or_same, set_status, set_plan, plan_text, update_current_position_fields, Plans, read_plans,
  last_plan, next_plan, cmd_state_advance_plan,
}

next-reaches : (a b : ℤ) → reaches a b ≡ false → reaches b (next a) ≡ true
next-reaches (pos a) (pos b) h = ground arith
next-reaches (pos a) (negsuc b) h = cc
next-reaches (negsuc zero) (pos b) h = ground arith
next-reaches (negsuc (suc a)) (pos b) h = refl
next-reaches (negsuc zero) (negsuc b) h = ground arith
next-reaches (negsuc (suc a)) (negsuc b) h = ground arith

-- The one number is the next behind the other.
abbrev pub IsAfter : ℤ → ℤ → Type 0
IsAfter (pos a) (pos b) = b ≡ suc a
IsAfter (negsuc a) (pos b) = (a ≡ 0) × (b ≡ 0)
IsAfter (negsuc a) (negsuc b) = a ≡ suc b
IsAfter (pos a) (negsuc b) = ⊥

next-IsAfter : (a : ℤ) → IsAfter a (next a)
next-IsAfter (pos a) = refl
next-IsAfter (negsuc zero) = (refl, refl)
next-IsAfter (negsuc (suc a)) = refl

-- The text of the plan `n`, and the document with it: of a compound field the number at the begin.
abbrev pub said_plan : ℤ → ℤ → Option Text → Text
said_plan n total none = show n ++ (codes " of " ++ show total)
said_plan n total (some plan) = replace (Regex.bol false ⨟ digits) (λ m. show n) plan

abbrev pub with_plan : ℤ → Option Text → Text → Text
with_plan n none content =
    or_same (state_replace_field content (codes "Current Plan") (show n)) content
with_plan n (some plan) content =
    or_same
      (state_replace_field content (codes "Plan")
        (replace (Regex.bol false ⨟ digits) (λ m. show n) plan))
      content

-- The document of the plan `n`, to be executed.
abbrev pub ready : ℤ → ℤ → Option Text → Text → Text → Text
ready n total compound content today =
    update_current_position_fields
      (set_status (with_plan n compound content) (codes "Ready to execute") today)
      (record {
        status = some (codes "Ready to execute");
        last_activity = some today;
        plan = some (said_plan n total compound);
      })

-- The document of a phase whose plans are done.
abbrev pub finished : Text → Text → Text
finished content today =
    update_current_position_fields
      (set_status content (codes "Phase complete — ready for verification") today)
      (record {
        status = some (codes "Phase complete — ready for verification");
        last_activity = some today;
        plan = none;
      })

last_plan-finished : (content today : Text) → last_plan content today ≡ finished content today
unfolding last_plan
last_plan-finished content today = refl

next_plan-ready :
    (content today : Text) (p : Plans)
    → next_plan content p today ≡ ready (next p.current) p.total p.compound content today
unfolding next_plan plan_text set_plan
next_plan-ready content today p = elim (Option-cases p.compound) [
  | inl e ↦ rw e refl
  | inr (plan, e) ↦ rw e refl
]

-- When the plan is advanced, either the last plan is already reached, and the document gets the status
-- of a complete phase and the date; or the number that is written for the plan, in its field and in
-- the section of the position, is the one next behind the number that was read, and at most the
-- number of plans.
pub cmd_state_advance_plan-bounds :
    (content content' today : Text)
    → written (cmd_state_advance_plan (some content) today) ≡ some content'
    → (p : Plans) × (read_plans content ≡ some p)
      × (((reaches p.current p.total ≡ true) × (content' ≡ finished content today))
          ⊎ ((n : ℤ) × IsAfter p.current n
              × (reaches p.total n ≡ true)
              × (content' ≡ ready n p.total p.compound content today)))
unfolding cmd_state_advance_plan
cmd_state_advance_plan-bounds content content' today h = elim (Option-cases (read_plans content)) [
  | inl e ↦ cc (rw (cmd_state_advance_plan, written, e) at h)
  | inr (p, e) ↦ elim (Bool-cases (reaches p.current p.total)) [
    | inl f ↦
        let same : last_plan content today ≡ content' =
          cc (rw (cmd_state_advance_plan, written, e, f) at h) in
        (p, e, inl (f, sym same ∙ last_plan-finished content today))
    | inr f ↦
        let same : next_plan content p today ≡ content' =
          cc (rw (cmd_state_advance_plan, written, e, f) at h) in
        (
          p,
          e,
          inr (
            next p.current,
            next-IsAfter p.current,
            next-reaches p.current p.total f,
            sym same ∙ next_plan-ready content today p,
          ),
        )
  ]
]
