-- ===== src/Config/Load/Stable.antt =====
-- A configuration that has been loaded once is not changed by the next load.
use mikmongo.Base.{
  ◌≡◌, refl, ap, ◌∙◌, inl, inr, Bool, true, false, not, ◌&&◌, some, List, [], ◌∷◌, Bool-cases,
  Option-cases, is_empty,
}
use mikmongo.Text.{Text, codes, equal, compare_text}
use mikmongo.Text.Laws.{equal_refl}
use mikmongo.Sort.{sort}
use mikmongo.Json.{Json, Fields, get, put, is_bool}
use mikmongo.Json.Laws.{get-put_self, get-put_other, get-remove_self, get-remove_other}
use mikmongo.Config.NewProject.{migrate}
use mikmongo.Config.Load.{
  same_texts, text_items, texts_of, repos_json, truthy, current_repos, is_legacy, adopt_repos,
  migrate_repos, is_stale, sync_repos, is_old, migrated,
}

same_texts_refl : (ts : List Text) → same_texts ts ts ≡ true
unfolding same_texts
same_texts_refl [] = refl
same_texts_refl (t ∷ ts) = rw (equal_refl t, same_texts_refl ts) refl

texts_of-text_items : (N : Type 0) (ts : List Text) → texts_of (text_items {N = N} ts) ≡ some ts
unfolding texts_of text_items
texts_of-text_items N [] = refl
texts_of-text_items N (t ∷ ts) = rw (texts_of-text_items N ts) refl

and_false : (b : Bool) → b && false ≡ false
and_false true = refl
and_false false = refl

module _ {N : Type 0} where
  migrate-Fresh : (o : Fields N) → is_old (migrate o) ≡ false
  unfolding get migrate
  migrate-Fresh o = elim (Option-cases (get (codes "depth") o)) [
    | inl e ↦ rw (migrate, e) (rw e refl)
    | inr (d, e) ↦ elim (Option-cases (get (codes "granularity") o)) [
      | inl g ↦ rw (migrate, e, g) (rw (get-remove_self (codes "depth") _) refl)
      | inr (v, g) ↦ rw (migrate, e, g) (rw (e, g) refl)
    ]
  ]

  pub Fresh-migrate : (o : Fields N) → is_old o ≡ false → migrate o ≡ o
  unfolding migrate
  Fresh-migrate o h = elim (Option-cases (get (codes "depth") o)) [
    | inl e ↦ rw (migrate, e) refl
    | inr (d, e) ↦ elim (Option-cases (get (codes "granularity") o)) [
      | inl g ↦ cc (rw (e, g) at h)
      | inr (v, g) ↦ rw (migrate, e, g) refl
    ]
  ]

  module _ (truthy_number : N → Bool) (window : N) where
    abbrev adopt : List Text → Fields N → Fields N
    adopt = adopt_repos truthy_number window

    -- Adopting the repositories leaves the properties of other keys alone.
    get-adopt_repos :
        (detected : List Text) (o : Fields N) (j : Text)
        → equal (codes "multiRepo") j ≡ false
        → equal (codes "planning") j ≡ false
        → equal (codes "sub_repos") j ≡ false
        → get j (adopt detected o) ≡ get j o
    unfolding adopt_repos
    get-adopt_repos detected o j m p r =
        get-remove_other (codes "multiRepo") j _ m
        ∙ get-put_other (codes "planning") j _ _ p
        ∙ get-put_other (codes "sub_repos") j _ o r

    adopt_repos-Fresh :
        (detected : List Text) (o : Fields N) → is_old o ≡ false → is_old (adopt detected o) ≡ false
    unfolding equal
    adopt_repos-Fresh detected o h =
        rw
          (
            get-adopt_repos detected o (codes "depth") refl refl refl,
            get-adopt_repos detected o (codes "granularity") refl refl refl,
          )
          h

    abbrev pub legacy : Fields N → Bool
    legacy = is_legacy truthy_number window

    adopt_repos-IsSettled :
        (detected : List Text) (o : Fields N) → legacy (adopt detected o) ≡ false
    unfolding is_legacy adopt_repos is_bool
    adopt_repos-IsSettled detected o = rw (get-remove_self (codes "multiRepo") _) refl

    abbrev IsSettled : List Text → Fields N → Type 0
    IsSettled detected o = legacy o && not (is_empty detected) ≡ false

    migrate_repos-Fresh :
        (detected : List Text) (o : Fields N)
        → is_old o ≡ false
        → is_old (migrate_repos truthy_number window detected o).0 ≡ false
    migrate_repos-Fresh detected o h = elim (Bool-cases (legacy o && not (is_empty detected))) [
      | inl e ↦ rw e (adopt_repos-Fresh detected o h)
      | inr e ↦ rw e h
    ]

    migrate_repos-IsSettled :
        (detected : List Text) (o : Fields N)
        → IsSettled detected (migrate_repos truthy_number window detected o).0
    migrate_repos-IsSettled detected o = elim (Bool-cases (legacy o && not (is_empty detected))) [
      | inl e ↦ rw e (rw (adopt_repos-IsSettled detected o) refl)
      | inr e ↦ rw e e
    ]

    abbrev listing : List Text → Fields N → Fields N
    listing detected o = put (codes "sub_repos") (repos_json detected) o

    listing-Fresh :
        (detected : List Text) (o : Fields N)
        → is_old o ≡ false
        → is_old (listing detected o) ≡ false
    unfolding equal
    listing-Fresh detected o h =
        rw
          (
            get-put_other (codes "sub_repos") (codes "depth") (repos_json detected) o refl,
            get-put_other (codes "sub_repos") (codes "granularity") (repos_json detected) o refl,
          )
          h

    listing-IsSettled :
        (detected : List Text) (o : Fields N) → IsSettled detected (listing detected o)
    unfolding is_legacy truthy
    listing-IsSettled detected o =
        rw (get-put_self (codes "sub_repos") (repos_json detected) o)
          (rw (and_false (is_bool true (get (codes "multiRepo") (listing detected o)))) refl)

    abbrev pub stale : Json N → List Text → Bool
    stale = is_stale truthy_number window

    abbrev pub current : Fields N → Json N
    current = current_repos truthy_number window

    listing-current :
        (detected : List Text) (o : Fields N) → current (listing detected o) ≡ repos_json detected
    unfolding current_repos truthy
    listing-current detected o = rw (get-put_self (codes "sub_repos") (repos_json detected) o) refl

    detected-Synced :
        (detected : List Text)
        → sort compare_text detected ≡ detected
        → stale (repos_json detected) detected ≡ false
    unfolding is_stale text_items
    detected-Synced [] h = refl
    detected-Synced (t ∷ ts) h =
        rw (texts_of-text_items N (t ∷ ts)) (rw h (rw (same_texts_refl (t ∷ ts)) refl))

    -- What the next load leaves alone.
    pub record IsStable (detected : List Text) (o : Fields N) : Type 0 where
      pub fresh : is_old o ≡ false
      pub settled : IsSettled detected o
      synced : stale (current o) detected ≡ false

    sync_repos-IsStable :
        (detected : List Text) (o : Fields N) (dirty : Bool)
        → sort compare_text detected ≡ detected
        → is_old o ≡ false
        → IsSettled detected o
        → IsStable detected (sync_repos truthy_number window detected (o, dirty)).0
    sync_repos-IsStable detected o dirty sorted f s =
        elim (Bool-cases (stale (current o) detected)) [
          | inl e ↦ rw e (record {
            fresh = listing-Fresh detected o f;
            settled = listing-IsSettled detected o;
            synced =
                ap (λ j. stale j detected) (listing-current detected o)
                ∙ detected-Synced detected sorted;
          })
          | inr e ↦ rw e (record { fresh = f; settled = s; synced = e })
        ]

    abbrev after : List Text → Fields N → Fields N × List (Json N)
    after = migrated truthy_number window

    pub migrated-IsStable :
        (detected : List Text) (o : Fields N)
        → sort compare_text detected ≡ detected
        → IsStable detected (after detected o).0
    unfolding migrated
    migrated-IsStable detected o sorted =
        let p = migrate_repos truthy_number window detected (migrate o) in
        sync_repos-IsStable detected p.0 p.1 sorted
          (migrate_repos-Fresh detected (migrate o) (migrate-Fresh o))
          (migrate_repos-IsSettled detected (migrate o))

    pub IsStable-migrated :
        (detected : List Text) (o : Fields N) → IsStable detected o → after detected o ≡ (o, [])
    unfolding migrated
    IsStable-migrated detected o h =
        rw (Fresh-migrate o h.fresh) (rw h.settled (rw (h.synced, h.fresh) refl))
