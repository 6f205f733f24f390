-- ===== src/State/Update/Chain.antt =====
-- What a patch does to STATE.md.
use mikmongo.Base.{
  ◌≡◌, refl, ◌⊎◌, inl, inr, true, Option, none, some, List, [], ◌∷◌, Bool-cases, Option-cases,
  is_empty, All,
}
use mathlib.Core.Path.{subst}
use mikmongo.Text.{Text}
use mikmongo.Security.{validate_field_name}
use mikmongo.State.{bold, plain, state_replace_field}
use mikmongo.State.Edits.{IsEdit, state_replace_field-IsEdit}
use mikmongo.State.Command.{written}
use mikmongo.State.Update.{
  Patched, patched, patch_fields, refused_field, cmd_state_patch, unpatched,
}

-- The documents of a patch, one for each name and value in their order: a field that is not there is
-- passed over, and of another the value is replaced.
pub data Edits : List (Text × Text) → Text → Text → Type 0 where
  done : {content : Text} → Edits [] content content
  pass :
      {content last : Text} {rest : List (Text × Text)} (field value : Text)
      → state_replace_field content field value ≡ none
      → Edits rest content last
      → Edits ((field, value) ∷ rest) content last
  edit :
      {content next last : Text} {rest : List (Text × Text)} (field value : Text)
      → IsEdit (bold field) value content next ⊎ IsEdit (plain field) value content next
      → Edits rest next last
      → Edits ((field, value) ∷ rest) content last

patch_one :
    (rest : List (Text × Text)) (field value : Text) (p : Patched) (last : Text) (o : Option Text)
    → state_replace_field p.content field value ≡ o
    → Edits rest (patched field p o).content last
    → Edits ((field, value) ∷ rest) p.content last
patch_one rest field value p last none e h = pass field value e h
patch_one rest field value p last (some next) e h =
    edit field value (state_replace_field-IsEdit p.content next field value e) h

patch_fields-Edits :
    (rest : List (Text × Text)) (p : Patched) → Edits rest p.content (patch_fields rest p).content
unfolding patch_fields
patch_fields-Edits [] p = done
patch_fields-Edits ((field, value) ∷ rest) p =
    patch_one rest field value p _ (state_replace_field p.content field value) refl
      (patch_fields-Edits rest (patched field p (state_replace_field p.content field value)))

refused_field-none :
    (patches : List (Text × Text))
    → refused_field patches ≡ none
    → All (λ x. validate_field_name x.0 ≡ true) patches
unfolding refused_field
refused_field-none [] h = tt
refused_field-none ((field, value) ∷ rest) h = elim (Bool-cases (validate_field_name field)) [
  | inl e ↦ (e, refused_field-none rest (rw (refused_field, e) at h))
  | inr e ↦ cc (rw (refused_field, e) at h)
]

text_inj : {a b : Text} → some a ≡ some b → a ≡ b
text_inj h = cc

-- When a patch writes STATE.md, every name in it has passed validation, and the new document comes from
-- the old one by one step for each name, in their order: a field that is not there is passed over, and
-- of another the whole value, to the end of its line, is replaced by the given one and nothing else is.
pub cmd_state_patch-Edits :
    (file : Option Text) (patches : List (Text × Text)) (content' : Text)
    → written (cmd_state_patch file patches) ≡ some content'
    → All (λ x. validate_field_name x.0 ≡ true) patches
      × ((content : Text) × (file ≡ some content) × Edits patches content content')
unfolding cmd_state_patch
cmd_state_patch-Edits file patches content' h = elim (Option-cases (refused_field patches)) [
  | inr (field, e) ↦ cc (rw (cmd_state_patch, written, e) at h)
  | inl e ↦ elim (Option-cases file) [
    | inl f ↦ cc (rw (cmd_state_patch, written, e, f) at h)
    | inr (content, f) ↦
        let p = patch_fields patches (unpatched content) in
        let chain = patch_fields-Edits patches (unpatched content) in
        elim (Bool-cases (is_empty p.updated)) [
          | inl g ↦ cc (rw (cmd_state_patch, written, e, f, g) at h)
          | inr g ↦ (
            refused_field-none patches e,
            (
              content,
              f,
              subst (Edits patches content) (text_inj (rw (cmd_state_patch, written, e, f, g) at h))
                  chain,
            ),
          )
        ]
  ]
]
