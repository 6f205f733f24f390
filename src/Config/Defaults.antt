-- ===== src/Config/Defaults.antt =====
-- Which of the three sources a value of a new configuration comes from.
use mikmongo.Base.{
  ◌≡◌, refl, ap, ◌∙◌, inl, inr, false, Option, some, List, [], ◌∷◌, arith, Bool-cases, Option-cases,
  any, In,
}
use mikmongo.Text.{Text, equal}
use mikmongo.Text.Laws.{any-In, differ}
use mikmongo.Json.{Json, Fields, obj, get, spread, fields_of}
use mikmongo.Json.Laws.{get-put, get-put_self, IsObject, get-spread, or_else}
use mikmongo.Config.{read_path}
use mikmongo.Config.NewProject.{
  ApiKeys, sections, hardcoded, section_of, merged_section, user_part, put_sections,
  build_new_project_config,
}

module _ {N : Type 0} where
  -- The object and the objects of its sections have each key once.
  pub record IsWhole (o : Fields N) : Type 0 where
    pub top : IsObject o
    pub below : (key : Text) → In key sections → IsObject (section_of key o)

  merged_section-get :
      (key j : Text) (hard user choices : Fields N)
      → In key sections
      → IsWhole user
      → IsWhole choices
      → get j (fields_of (merged_section key hard user choices))
        ≡ or_else
            (get j (section_of key choices))
            (or_else (get j (section_of key user)) (get j (section_of key hard)))
  unfolding merged_section fields_of
  merged_section-get key j hard user choices i u c =
      get-spread j (spread (section_of key hard) (section_of key user)) (section_of key choices)
        (c.below key i)
      ∙ ap (or_else (get j (section_of key choices)))
          (get-spread j (section_of key hard) (section_of key user) (u.below key i))

  put_sections-other :
      (keys : List Text) (hard user choices o : Fields N) (k : Text)
      → any (equal k) keys ≡ false
      → get k (put_sections keys hard user choices o) ≡ get k o
  unfolding put_sections
  put_sections-other [] hard user choices o k h = refl
  put_sections-other (key ∷ keys) hard user choices o k h =
      put_sections-other keys hard user choices _ k (ground arith)
      ∙ rw (get-put key k (merged_section key hard user choices) o, differ k key (ground arith))
          refl

  put_sections-own :
      (keys : List Text) (hard user choices o : Fields N) (k : Text)
      → In k keys
      → get k (put_sections keys hard user choices o) ≡ some (merged_section k hard user choices)
  unfolding put_sections
  put_sections-own [] hard user choices o k i = absurd i
  put_sections-own (key ∷ keys) hard user choices o k (inr i) =
      put_sections-own keys hard user choices _ k i
  put_sections-own (key ∷ keys) hard user choices o k (inl e) =
      elim (Bool-cases (any (equal k) keys)) [
        | inl f ↦ put_sections-own keys hard user choices _ k (any-In k keys f)
        | inr f ↦
            put_sections-other keys hard user choices _ k f
            ∙ rw e (get-put_self key (merged_section key hard user choices) o)
      ]

  read_path_one : (j : Text) (v : Json N) → read_path (j ∷ []) v ≡ get j (fields_of v)
  unfolding read_path
  read_path_one j v = elim (Option-cases (get j (fields_of v))) [
    | inl e ↦ rw (read_path, e) refl
    | inr (w, e) ↦ rw (read_path, e) refl
  ]

  read_path_two :
      (k j : Text) (o : Fields N) (w : Json N)
      → get k o ≡ some w
      → read_path (k ∷ j ∷ []) (obj o) ≡ get j (fields_of w)
  unfolding read_path fields_of
  read_path_two k j o w e = rw (read_path, e) (read_path_one j w)

  -- A value outside the sections is the one chosen, or else the user's default, or else the program's.
  pub build_new_project_config-top :
      (budget : N) (keys : ApiKeys) (defaults : Option (Fields N)) (choices : Fields N) (k : Text)
      → any (equal k) sections ≡ false
      → IsWhole (user_part defaults)
      → IsWhole choices
      → get k (build_new_project_config budget keys defaults choices)
        ≡ or_else
            (get k choices)
            (or_else (get k (user_part defaults)) (get k (hardcoded budget keys)))
  unfolding build_new_project_config put_sections
  build_new_project_config-top budget keys defaults choices k n u c =
      put_sections-other sections (hardcoded budget keys) (user_part defaults) choices _ k n
      ∙ get-spread k (spread (hardcoded budget keys) (user_part defaults)) choices c.top
      ∙ ap (or_else (get k choices))
          (get-spread k (hardcoded budget keys) (user_part defaults) u.top)

  -- A value of a section is the one chosen, or else the user's default, or else the program's.
  pub build_new_project_config-section :
      (budget : N) (keys : ApiKeys) (defaults : Option (Fields N)) (choices : Fields N) (k j : Text)
      → In k sections
      → IsWhole (user_part defaults)
      → IsWhole choices
      → read_path (k ∷ j ∷ []) (obj (build_new_project_config budget keys defaults choices))
        ≡ or_else (get j (section_of k choices)) (
            or_else
              (get j (section_of k (user_part defaults)))
              (get j (section_of k (hardcoded budget keys))))
  unfolding build_new_project_config put_sections
  build_new_project_config-section budget keys defaults choices k j i u c =
      let own =
        put_sections-own sections (hardcoded budget keys) (user_part defaults) choices
          (spread (spread (hardcoded budget keys) (user_part defaults)) choices) k i in
      read_path_two k j _ _ own
      ∙ merged_section-get k j (hardcoded budget keys) (user_part defaults) choices i u c
