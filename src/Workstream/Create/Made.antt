-- ===== src/Workstream/Create/Made.antt =====
-- A command that makes a workstream makes it in full, or keeps what was there.
use mikmongo.Base.{
  ◌≡◌, refl, ap, ◌∙◌, sym, ◌⊎◌, inl, inr, Bool, true, false, Bool-cases, Option, none, some, List,
  [], ◌∷◌, is_empty, any,
}
use mikmongo.Text.{Text, strip_end, strip_start, equal}
use mikmongo.Slug.{slug, collapse}
use mikmongo.ActiveWorkstream.{is_name}
use mikmongo.Workstream.{Entry, Planning}
use mikmongo.Workstream.Entries.{lookup}
use mikmongo.Workstream.Migrate.{
  Migration, refused, migrated, rolled_back, migrate_to_workstreams, to_move,
}
use mikmongo.Workstream.Migrate.Atomic.{IsAtomic, migrate_to_workstreams-IsAtomic}
use mikmongo.Workstream.Complete.{entries_of, entries}
use mikmongo.Workstream.Create.{
  Creation, failed, thrown, already_exists, migration_failed, created, CreateOptions, has_work,
  existing_name, dir_of, fill_in, after_migration, is_created, in_flat_mode, in_mode, create_in,
  create_slug, cmd_workstream_create,
}
use mikmongo.Workstream.Create.Active.{slug-is_name}
use mikmongo.Workstream.Create.Filled.{IsFilled, IsMade, fill-IsMade}

-- The work of `p` has gone to the workstream `old` before `s` is made.
abbrev pub IsMigrated : Text → Planning → List Text → Planning → Type 0
IsMigrated s p files q =
    (r : Planning) × (old : Text) × IsAtomic old p (migrated r files) × IsFilled s (entries r) r q

-- The entries of `.planning` that no migration moves are the same.
abbrev pub IsShared : Planning → Planning → Type 0
IsShared p q = (j : Text) → (any (equal j) to_move ≡ true) ⊎ (lookup j q.base ≡ lookup j p.base)

-- What may come of making the workstream `s` in `p`.
abbrev pub IsCreated : Text → Planning → Creation → Type 0
IsCreated s p (failed message) = is_empty s ≡ true
IsCreated s p (thrown q) = (q.archive ≡ p.archive) × (q.active ≡ p.active) × IsShared p q
IsCreated s p (already_exists t) = (t ≡ s) × (is_created (lookup s (entries p)) ≡ true)
IsCreated s p (migration_failed q) =
    (q.streams ≡ none)
    × (q.archive ≡ p.archive)
    × (q.active ≡ p.active)
    × ((j : Text) → lookup j q.base ≡ lookup j p.base)
IsCreated s p (created q t none) = (t ≡ s) × IsFilled s (entries p) p q
IsCreated s p (created q t (some files)) = (t ≡ s) × IsMigrated s p files q

pub atomic-IsShared :
    (old : Text) (p r : Planning) (files : List Text)
    → IsAtomic old p (migrated r files)
    → IsShared p r
atomic-IsShared old p r files (dir, e, h) j = elim (h j) [
  | inl (i, f, t) ↦ inl i
  | inr (o, f, t) ↦ inr f
]

pub same-IsShared : (p q r : Planning) → q.base ≡ r.base → IsShared p r → IsShared p q
same-IsShared p q r e h j = elim (h j) [ inl i ↦ inl i | inr f ↦ inr (ap (lookup j) e ∙ f) ]

module _ (s : Text) (p : Planning) where
  unmoved-IsCreated :
      (c : Creation) (r : Planning)
      → r.archive ≡ p.archive
      → r.active ≡ p.active
      → r.base ≡ p.base
      → IsMade s none (entries p) r c
      → IsCreated s p c
  unmoved-IsCreated (created q t none) r a b d (e, f, (dir, full, i, g, h, l, x, y, z)) =
      (e, (dir, full, i, g, h, l, x, y ∙ d, z ∙ a))
  unmoved-IsCreated (created q t (some files)) r a b d (e, f, m) = cc
  unmoved-IsCreated (thrown q) r a b d (x, y, z) = (x ∙ a, y ∙ b, λ j. inr (ap (lookup j) (z ∙ d)))
  unmoved-IsCreated (failed m) r a b d h = elim h [ ]
  unmoved-IsCreated (already_exists t) r a b d h = elim h [ ]
  unmoved-IsCreated (migration_failed q) r a b d h = elim h [ ]

  moved-IsCreated :
      (c : Creation) (r : Planning) (old : Text) (files : List Text)
      → IsAtomic old p (migrated r files)
      → r.archive ≡ p.archive
      → r.active ≡ p.active
      → IsMade s (some files) (entries r) r c
      → IsCreated s p c
  moved-IsCreated (created q t none) r old files m a b (e, f, d) = cc
  moved-IsCreated (created q t (some moved)) r old files m a b (e, f, d) = (e, (r, old, m, d))
  moved-IsCreated (thrown q) r old files m a b (x, y, z) =
      (x ∙ a, y ∙ b, same-IsShared p q r z (atomic-IsShared old p r files m))
  moved-IsCreated (failed e) r old files m a b h = elim h [ ]
  moved-IsCreated (already_exists t) r old files m a b h = elim h [ ]
  moved-IsCreated (migration_failed q) r old files m a b h = elim h [ ]

module _ (today : Text) (s : Text) (n : is_name s ≡ true) (p : Planning) where
  filled-IsCreated :
      (r : Planning)
      → entries r ≡ entries p
      → r.archive ≡ p.archive
      → r.active ≡ p.active
      → r.base ≡ p.base
      → IsCreated s p (fill_in s today none r)
  filled-IsCreated r e a b d =
      let made : IsMade s none (entries r) r (fill_in s today none r) =
        fill-IsMade s today none r n (dir_of (lookup s (entries r))) refl in
      unmoved-IsCreated s p (fill_in s today none r) r a b d (rw (← e) made)

  after_migration-IsCreated :
      (old : Text) (m : Migration)
      → p.streams ≡ none
      → IsAtomic old p m
      → IsCreated s p (after_migration s today p m)
  after_migration-IsCreated old (refused message) flat h = (flat, refl, refl, λ j. refl)
  after_migration-IsCreated old (rolled_back q) flat (e, h) =
      (ap (λ x. x.streams) e, ap (λ x. x.archive) e, ap (λ x. x.active) e, h)
  after_migration-IsCreated old (migrated r files) flat (dir, e, h) =
      moved-IsCreated s p (fill_in s today (some files) r) r old files (dir, e, h)
        (ap (λ x. x.archive) e) (ap (λ x. x.active) e)
        (fill-IsMade s today (some files) r n (dir_of (lookup s (entries r))) refl)

  module _ (throws : Text → Bool) (options : CreateOptions) (milestone : Option Text) where
    flat-IsCreated :
        p.streams ≡ none
        → IsCreated s p (in_flat_mode throws (λ j. false) true s today options milestone p)
    flat-IsCreated flat = elim (Bool-cases options.migrate) [
      | inr stay ↦ rw stay (filled-IsCreated p refl refl refl refl)
      | inl go ↦ elim (Bool-cases (has_work p.base)) [
        | inl work ↦
            let old = existing_name options.migrate_name milestone in
            rw (go, work)
              (after_migration-IsCreated old (migrate_to_workstreams throws (λ j. false) true old p)
                flat (migrate_to_workstreams-IsAtomic throws old p))
        | inr new ↦
            rw (go, new)
              (filled-IsCreated (record p { streams = some [] }) (ap entries_of (sym flat)) refl
                refl refl)
      ]
    ]

    in_mode-IsCreated :
        (o : Option (List (Text × Entry)))
        → p.streams ≡ o
        → IsCreated s p (in_mode throws (λ j. false) true o s today options milestone p)
    in_mode-IsCreated none e = flat-IsCreated e
    in_mode-IsCreated (some es) e = filled-IsCreated p refl refl refl refl

    create_in-IsCreated :
        IsCreated s p (create_in throws (λ j. false) true s today options milestone p)
    create_in-IsCreated = elim (Bool-cases (is_created (lookup s (entries p)))) [
      | inl old ↦ rw old (refl, old)
      | inr new ↦ rw new (in_mode-IsCreated p.streams refl)
    ]

create_slug-IsCreated :
    (throws : Text → Bool) (s today : Text) (options : CreateOptions) (milestone : Option Text)
    (p : Planning)
    → (is_empty s ≡ true) ⊎ (is_name s ≡ true)
    → IsCreated s p (create_slug throws (λ j. false) true s today options milestone (some p))
create_slug-IsCreated throws [] today options milestone p h = refl
create_slug-IsCreated throws (c ∷ s) today options milestone p (inl h) = cc
create_slug-IsCreated throws (c ∷ s) today options milestone p (inr n) =
    create_in-IsCreated today (c ∷ s) n p throws options milestone

slug_empty : is_empty (slug []) ≡ true
unfolding slug strip_end strip_start collapse
slug_empty = refl

slug-named : (name : Text) → (is_empty (slug name) ≡ true) ⊎ (is_name (slug name) ≡ true)
slug-named name = elim (Bool-cases (is_empty (slug name))) [
  | inl e ↦ inl e
  | inr e ↦ inr (slug-is_name name e)
]

-- In a planning directory, whichever renames of a migration throw, as long as the moved files can be
-- moved back and the new directories removed, the command ends in one of these ways: the name has no
-- letter or digit; the workstream has a state already; the migration fails and everything is as
-- before; an exception leaves the archives, the active workstream and the files that are not moved
-- as before; or the workstream of the slug is there with a state, keeps every entry that it had, and
-- is the active one, the other workstreams, the archives and the files of `.planning` being as
-- before or as the migration leaves them.
pub cmd_workstream_create-IsCreated :
    (throws : Text → Bool) (name today : Text) (options : CreateOptions) (milestone : Option Text)
    (p : Planning)
    → IsCreated
        (slug name)
        p
        (cmd_workstream_create throws (λ j. false) true name today options milestone (some p))
unfolding cmd_workstream_create
cmd_workstream_create-IsCreated throws [] today options milestone p = slug_empty
cmd_workstream_create-IsCreated throws (c ∷ name) today options milestone p =
    create_slug-IsCreated throws (slug (c ∷ name)) today options milestone p (slug-named (c ∷ name))
