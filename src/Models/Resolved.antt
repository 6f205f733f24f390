-- ===== src/Models/Resolved.antt =====
-- Which models are resolved.
use mikmongo.Base.{
  ◌≡◌, refl, ◌⊎◌, inl, inr, Bool, true, false, ◌&&◌, none, some, List, [], ◌∷◌, arith, Bool-cases,
  all, any,
}
use mikmongo.Text.{Text, codes, equal}
use mikmongo.Models.{
  Row, model_profiles, find_row, model_of, full_id, IdMode, omit, full, alias, ModelConfig,
  profile_of, in_mode, by_profile, unless_omitted, resolve_model,
}

abbrev pub aliases : List Text
aliases = codes "opus" ∷ codes "sonnet" ∷ codes "haiku" ∷ []

abbrev pub ids : List Text
ids = codes "claude-opus-4-0" ∷ codes "claude-sonnet-4-5" ∷ codes "claude-haiku-3-5" ∷ []

abbrev pub is_one_of : List Text → Text → Bool
is_one_of ts t = any (equal t) ts

abbrev has_aliases : Row → Bool
has_aliases r =
    is_one_of aliases r.quality && (is_one_of aliases r.balanced && is_one_of aliases r.budget)

table-aliases : all has_aliases model_profiles ≡ true
unfolding equal
table-aliases = refl

find_row-all :
    (p : Row → Bool) (agent : Text) (rows : List Row) (r : Row)
    → all p rows ≡ true
    → find_row agent rows ≡ some r
    → p r ≡ true
unfolding find_row
find_row-all p agent [] r h f = cc
find_row-all p agent (q ∷ rows) r h f = elim (Bool-cases (equal agent q.agent)) [
  | inl e ↦ let same : q ≡ r = cc (rw e at f) in rw (← same) (ground arith)
  | inr e ↦ find_row-all p agent rows r (ground arith) (rw e at f)
]

model_of-alias :
    (r : Row) (profile : Text)
    → has_aliases r ≡ true
    → is_one_of aliases (model_of r profile) ≡ true
unfolding model_of
model_of-alias r profile h = ground arith

full_id-ids : (a : Text) → is_one_of aliases a ≡ true → is_one_of ids (full_id a) ≡ true
unfolding full_id equal
full_id-ids a h = elim (Bool-cases (equal a (codes "opus"))) [
  | inl e ↦ rw (full_id, e) refl
  | inr e ↦ elim (Bool-cases (equal a (codes "sonnet"))) [
    | inl f ↦ rw (full_id, e, f) refl
    | inr f ↦ let g : equal a (codes "haiku") ≡ true = ground arith in rw (full_id, e, f, g) refl
  ]
]

by_mode :
    (mode : IdMode) (profile : Text) (r : Row)
    → has_aliases r ≡ true
    → equal profile (codes "inherit") ≡ false
    → ((mode ≡ full)
        × (is_one_of ids (unless_omitted mode (by_profile mode profile (some r))) ≡ true))
      ⊎ (((mode ≡ alias)
            × (is_one_of aliases (unless_omitted mode (by_profile mode profile (some r))) ≡ true))
          ⊎ ((mode ≡ omit) × (unless_omitted mode (by_profile mode profile (some r)) ≡ [])))
unfolding unless_omitted by_profile in_mode
by_mode omit profile r h n = inr (inr (refl, refl))
by_mode full profile r h n =
    inl (refl, rw n (full_id-ids (model_of r profile) (model_of-alias r profile h)))
by_mode alias profile r h n = inr (inl (refl, rw n (model_of-alias r profile h)))

-- For an agent of the table, without an override and without the profile `inherit`, full IDs are
-- resolved exactly where they are asked for, and aliases otherwise.
pub resolve_model-known :
    (config : ModelConfig) (agent : Text) (r : Row)
    → find_row agent model_profiles ≡ some r
    → config.model_override ≡ none
    → equal (profile_of config.model_profile) (codes "inherit") ≡ false
    → ((config.resolve_model_ids ≡ full) × (is_one_of ids (resolve_model config agent) ≡ true))
      ⊎ (((config.resolve_model_ids ≡ alias)
            × (is_one_of aliases (resolve_model config agent) ≡ true))
          ⊎ ((config.resolve_model_ids ≡ omit) × (resolve_model config agent ≡ [])))
unfolding resolve_model unless_omitted by_profile in_mode
resolve_model-known config agent r f o n =
    let known =
      by_mode config.resolve_model_ids (profile_of config.model_profile) r
        (find_row-all has_aliases agent model_profiles r table-aliases f) n in
    rw (resolve_model, o, f) known
