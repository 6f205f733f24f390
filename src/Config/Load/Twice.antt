-- ===== src/Config/Load/Twice.antt =====
-- The second load of a configuration.
use mikmongo.Base.{
  ◌≡◌, refl, sym, ap, ◌∙◌, ◌⊎◌, inl, inr, Bool, true, false, not, ◌&&◌, List, [], ◌∷◌, ◌++◌,
  Bool-cases, Option-cases, is_empty, arith,
}
use mikmongo.Text.{equal, Text, codes, compare_text}
use mikmongo.Sort.{sort}
use mikmongo.Json.{Json, Fields, holds, obj, get}
use mikmongo.Json.Laws.{get-put_other, get-remove_other}
use mikmongo.Config.NewProject.{migrate}
use mikmongo.Config.Load.{
  is_array, hides_docs, Loaded, is_legacy, is_stale, current_repos, migrate_repos, sync_repos,
  is_old, write_if, migrated, settings, load_config,
}
use mikmongo.Config.Load.Stable.{Fresh-migrate, migrated-IsStable, IsStable-migrated, IsStable}

module _ {N : Type 0} where
  -- What the file holds after the writes.
  abbrev pub file_after : Json N → List (Json N) → Json N
  file_after j [] = j
  file_after j (w ∷ ws) = file_after w ws

  file_after-append :
      (j : Json N) (vs ws : List (Json N))
      → file_after j (vs ++ ws) ≡ file_after (file_after j vs) ws
  file_after-append j [] ws = refl
  file_after-append j (v ∷ vs) ws = file_after-append v vs ws

  renamed-kept :
      (o : Fields N) → file_after (obj o) (write_if (is_old o) (migrate o)) ≡ obj (migrate o)
  renamed-kept o = elim (Bool-cases (is_old o)) [
    | inl e ↦ rw e refl
    | inr e ↦ rw e (ap obj (sym (Fresh-migrate o e)))
  ]

  module _ (truthy_number : N → Bool) (window : N) where
    abbrev synced : List Text → Fields N → Fields N × Bool
    synced detected r =
        sync_repos truthy_number window detected (migrate_repos truthy_number window detected r)

    sync-kept :
        (detected : List Text) (q : Fields N × Bool) (r : Fields N)
        → (q.1 ≡ true) ⊎ (q.0 ≡ r)
        → ((sync_repos truthy_number window detected q).1 ≡ true)
          ⊎ ((sync_repos truthy_number window detected q).0 ≡ r)
    sync-kept detected (o, dirty) r h =
        elim (Bool-cases
          (is_stale truthy_number window (current_repos truthy_number window o) detected)) [
            | inl e ↦ rw e (inl refl)
            | inr e ↦ rw e h
          ]

    -- Without a write nothing has changed.
    synced-kept :
        (detected : List Text) (r : Fields N)
        → ((synced detected r).1 ≡ true) ⊎ ((synced detected r).0 ≡ r)
    synced-kept detected r =
        sync-kept detected (migrate_repos truthy_number window detected r) r
          (elim (Bool-cases (is_legacy truthy_number window r && not (is_empty detected))) [
            | inl e ↦ rw e (inl refl)
            | inr e ↦ rw e (inr refl)
          ])

    written-kept :
        (q : Fields N × Bool) (r : Fields N)
        → (q.1 ≡ true) ⊎ (q.0 ≡ r)
        → file_after (obj r) (write_if q.1 q.0) ≡ obj q.0
    written-kept (p, true) r h = refl
    written-kept (p, false) r (inl e) = cc
    written-kept (p, false) r (inr e) = ap obj (sym e)

    abbrev after : List Text → Fields N → Fields N × List (Json N)
    after = migrated truthy_number window

    abbrev loaded_of : Bool → Bool → Fields N × List (Json N) → Loaded N
    loaded_of hidden ignored q = record {
      config = settings truthy_number window hidden ignored q.0;
      writes = q.1;
    }

    file_after-migrated :
        (detected : List Text) (o : Fields N)
        → file_after (obj o) (after detected o).1 ≡ obj (after detected o).0
    unfolding migrated
    file_after-migrated detected o =
        let q = synced detected (migrate o) in
        file_after-append (obj o) (write_if (is_old o) (migrate o)) (write_if q.1 q.0)
        ∙ ap (λ j. file_after j (write_if q.1 q.0)) (renamed-kept o)
        ∙ written-kept q (migrate o) (synced-kept detected (migrate o))

  -- The new name of `depth` does not touch `planning`.
  get-migrate_planning :
      (o : Fields N) → get (codes "planning") (migrate o) ≡ get (codes "planning") o
  unfolding get migrate equal
  get-migrate_planning o = elim (Option-cases (get (codes "depth") o)) [
    | inl e ↦ rw (migrate, e) refl
    | inr (depth, e) ↦ elim (Option-cases (get (codes "granularity") o)) [
      | inr (v, g) ↦ rw (migrate, e, g) refl
      | inl g ↦
          rw (migrate, e, g)
            (get-remove_other (codes "depth") (codes "planning") _ refl
              ∙ get-put_other (codes "granularity") (codes "planning") _ o refl)
    ]
  ]

  module _ (truthy_number : N → Bool) (window : N) where
    abbrev hides : List Text → Fields N → Bool
    hides = hides_docs truthy_number window

    migrate-Shown :
        (detected : List Text) (o : Fields N)
        → is_array (get (codes "planning") o) ≡ false
        → hides detected (migrate o) ≡ false
    unfolding hides_docs
    migrate-Shown detected o h = rw (get-migrate_planning o, h) (ground arith)

    IsStable-Shown :
        (detected : List Text) (o : Fields N)
        → IsStable truthy_number window detected o
        → hides detected (migrate o) ≡ false
    unfolding hides_docs
    IsStable-Shown detected o h = rw (Fresh-migrate o h.fresh) (rw h.settled refl)

-- When the repositories below are found in their order, and `planning` is no array, a configuration
-- that has been loaded is loaded from the file that was left with the same settings, and nothing is
-- written again.
pub load_config_twice :
    {N : Type 0} (truthy_number : N → Bool) (window : N) (detected : List Text) (ignored : Bool)
    (o : Fields N)
    → sort compare_text detected ≡ detected
    → is_array (get (codes "planning") o) ≡ false
    → load_config truthy_number window detected ignored (
        holds (
          file_after
            (obj o)
            (load_config truthy_number window detected ignored (holds (obj o))).writes))
      ≡ record {
        config = (load_config truthy_number window detected ignored (holds (obj o))).config;
        writes = [];
      }
unfolding load_config
load_config_twice truthy_number window detected ignored o sorted shown =
    let p = (after truthy_number window detected o).0 in
    let stable = migrated-IsStable truthy_number window detected o sorted in
    rw (file_after-migrated truthy_number window detected o) (
      ap (λ h. loaded_of truthy_number window h ignored (after truthy_number window detected p))
        (IsStable-Shown truthy_number window detected p stable
          ∙ sym (migrate-Shown truthy_number window detected o shown))
      ∙ ap
          (loaded_of truthy_number window (hides truthy_number window detected (migrate o)) ignored)
          (IsStable-migrated truthy_number window detected p stable))
