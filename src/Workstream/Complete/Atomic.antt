-- ===== src/Workstream/Complete/Atomic.antt =====
-- A workstream goes to a new archive as a whole, or stays as it was.
use mikmongo.Base.{
  ◌≡◌, refl, sym, ap, ◌∙◌, inl, inr, Bool, true, false, ◌&&◌, ◌||◌, Option, none, some, List, [],
  ◌∷◌, ◌++◌, arith, Bool-cases, is_empty, any,
}
use mikmongo.Text.{Text, codes, equal, trim}
use mikmongo.Text.Laws.{equal_iff, equal_refl}
use mikmongo.ActiveWorkstream.{get_active_workstream, is_name}
use mikmongo.ActiveWorkstream.Names.{set_active_workstream-get, set-name, name-full}
use mikmongo.Workstream.{Dir, Entry, plain, stream, Planning}
use mikmongo.Workstream.Entries.{lookup, put, remove, has, names_of, lookup-put, lookup-remove}
use mikmongo.Workstream.Move.{move_all, restore}
use mikmongo.Workstream.Move.Fresh.{IsMoved, fresh, outcome-IsMoved, outcome-restored}
use mikmongo.Workstream.Archive.{archive_name}
use mikmongo.Workstream.Archive.Free.{archive_name-IsFree}
use mikmongo.Workstream.Migrate.{is_bad_name}
use mikmongo.Workstream.Complete.{
  Completion, refused, not_found, archive_failed, completed, entries_of, entries, active_of,
  is_named, is_active, left_streams, active_again, give_back, archive_entry,
  cmd_workstream_complete,
}

abbrev pub IsSameDir : Dir → Dir → Type 0
IsSameDir a b = (j : Text) → lookup j a ≡ lookup j b

abbrev pub IsSameEntry : Option Entry → Option Entry → Type 0
IsSameEntry none none = Unit
IsSameEntry (some plain) (some plain) = Unit
IsSameEntry (some (stream a)) (some (stream b)) = IsSameDir a b
IsSameEntry _ _ = ⊥

IsSameEntry-refl : (e : Option Entry) → IsSameEntry e e
IsSameEntry-refl none = tt
IsSameEntry-refl (some plain) = tt
IsSameEntry-refl (some (stream a)) = λ j. refl

-- What the command may leave of the planning directory `p`.
abbrev pub IsArchived : Text → Planning → Completion → Type 0
IsArchived name p (refused message) = is_empty name || is_bad_name name ≡ true
IsArchived name p not_found = lookup name (entries p) ≡ none
IsArchived name p (archive_failed q) =
    (q.base ≡ p.base)
    × (q.archive ≡ p.archive)
    × (active_of q ≡ active_of p)
    × ((j : Text) → IsSameEntry (lookup j (entries q)) (lookup j (entries p)))
IsArchived name p (completed q at remaining) =
    (old : Dir) × (new : Dir) × (lookup name (entries p) ≡ some (stream old))
    × (q.archive ≡ p.archive ++ (at, new) ∷ [])
    × (any (equal at) (names_of p.archive) ≡ false)
    × IsSameDir new old
    × (lookup name (entries q) ≡ none)
    × (q.base ≡ p.base)

lookup-unnamed :
    {V : Type 0} (j : Text) (es : List (Text × V))
    → any (equal j) (names_of es) ≡ false
    → lookup j es ≡ none
unfolding lookup
lookup-unnamed j [] h = refl
lookup-unnamed j ((k, v) ∷ es) h = ground (arith, lookup-unnamed j es, equal_iff k j, equal_iff j k)

whole-IsSameDir : (old from new : Dir) → IsMoved (names_of old) old from new → IsSameDir new old
whole-IsSameDir old from new h j = elim (h j) [
  | inl (i, f, t) ↦ t
  | inr (o, f, t) ↦ t ∙ sym (lookup-unnamed j old o)
]

has-put :
    {V : Type 0} (k j : Text) (v w : V) (es : List (Text × V))
    → lookup k es ≡ some w
    → has j (put k v es) ≡ has j es
has-put k j v w es h = elim (Bool-cases (equal k j)) [
  | inl e ↦ rw (lookup-put k j v es, e, sym ((equal_iff k j).0 e), h) refl
  | inr e ↦ rw (lookup-put k j v es, e) refl
]

get_active-cases :
    (file : Option Text) (exists : Text → Bool) (name : Text)
    → get_active_workstream file exists ≡ some name
    → (is_name name ≡ true) × (exists name ≡ true)
unfolding get_active_workstream
get_active-cases none exists name h = cc
get_active-cases (some content) exists name h =
    elim (Bool-cases (is_name (trim content) && exists (trim content))) [
      | inl e ↦
          let same : trim content ≡ name = cc (rw (get_active_workstream, e) at h) in
          rw (← same) (ground arith)
      | inr e ↦ cc (rw (get_active_workstream, e) at h)
    ]

get_active-agree :
    (file : Option Text) (f g : Text → Bool)
    → ((j : Text) → f j ≡ g j)
    → get_active_workstream file f ≡ get_active_workstream file g
get_active-agree file f g h = ap (get_active_workstream file) (λ i j. h j i)

is_named-some : (name : Text) (o : Option Text) → is_named name o ≡ true → o ≡ some name
is_named-some name none h = cc
is_named-some name (some a) h = ap some ((equal_iff a name).0 h)

-- The name is put back, and the same workstreams are there: the active one is the same.
active_again-active :
    (name : Text) (p q : Planning)
    → q.active ≡ active_again name p
    → ((j : Text) → has j (entries q) ≡ has j (entries p))
    → active_of q ≡ active_of p
unfolding active_of
active_again-active name p q a h = elim (Bool-cases (is_active name p)) [
  | inl e ↦
      let named : active_of p ≡ some name = is_named-some name (active_of p) e in
      let (n, x) = get_active-cases p.active (λ j. has j (entries p)) name named in
      let back : q.active ≡ some (name ++ codes "\n") = rw e at a in
      ap (λ f. get_active_workstream f (λ j. has j (entries q))) back
      ∙ set_active_workstream-get name (some (name ++ codes "\n")) (λ j. has j (entries q))
          (set-name name n)
      ∙ rw (name-full name n, h name, x, named) refl
  | inr e ↦
      let kept : q.active ≡ p.active = rw e at a in
      ap (λ f. get_active_workstream f (λ j. has j (entries q))) kept
      ∙ get_active-agree p.active (λ j. has j (entries q)) (λ j. has j (entries p)) h
]

put-IsSameEntry :
    (k j : Text) (new old : Dir) (es : List (Text × Entry))
    → lookup k es ≡ some (stream old)
    → IsSameDir new old
    → IsSameEntry (lookup j (put k (stream new) es)) (lookup j es)
put-IsSameEntry k j new old es h same = elim (Bool-cases (equal k j)) [
  | inl e ↦ rw (lookup-put k j (stream new) es, e, sym ((equal_iff k j).0 e), h) same
  | inr e ↦ rw (lookup-put k j (stream new) es, e) (IsSameEntry-refl (lookup j es))
]

left-entries : (es : List (Text × Entry)) → entries_of (left_streams es) ≡ es
left-entries [] = refl
left-entries (e ∷ es) = refl

module _ (throws : Text → Bool) (name at : Text) (p : Planning) where
  archive_stream-IsArchived :
      (dir : Dir)
      → lookup name (entries p) ≡ some (stream dir)
      → any (equal at) (names_of p.archive) ≡ false
      → IsArchived name p (archive_entry throws (λ j. false) true name at p (some (stream dir)))
  archive_stream-IsArchived dir e free =
      let m = move_all throws (names_of dir) (fresh dir) [] in
      let back = restore (λ j. false) m.moved m.sides in
      elim (Bool-cases m.failed) [
        | inl f ↦ rw f (
          refl,
          refl,
          active_again-active name p (give_back throws (λ j. false) true name at p m) refl
              (λ j. has-put name j (stream back.from) (stream dir) (entries p) e),
          λ j.
              put-IsSameEntry name j back.from dir (entries p) e
                (outcome-restored throws (names_of dir) dir),
        )
        | inr d ↦ rw d (
          dir,
          m.sides.to,
          e,
          refl,
          free,
          whole-IsSameDir dir m.sides.from m.sides.to (outcome-IsMoved throws (names_of dir) dir d),
          rw
              (
                left-entries (remove name (entries p)),
                lookup-remove name name (entries p),
                equal_refl name,
              )
              refl,
          refl,
        )
      ]

  archive_entry-IsArchived :
      (entry : Option Entry)
      → lookup name (entries p) ≡ entry
      → any (equal at) (names_of p.archive) ≡ false
      → IsArchived name p (archive_entry throws (λ j. false) true name at p entry)
  archive_entry-IsArchived none e free = e
  archive_entry-IsArchived (some plain) e free = (
    refl,
    refl,
    active_again-active name p (record p { active = active_again name p }) refl (λ j. refl),
    λ j. IsSameEntry-refl (lookup j (entries p)),
  )
  archive_entry-IsArchived (some (stream dir)) e free = archive_stream-IsArchived dir e free

-- Whichever renames throw, as long as the moved entries can be moved back and the new archive removed:
-- a completed workstream is in an archive under a name that was free, with all that it had, the other
-- archives are there and the workstream is not; otherwise every workstream, the archives and the
-- active workstream are as before.
pub cmd_workstream_complete-IsArchived :
    (throws : Text → Bool) (name today : Text) (p : Planning)
    → IsArchived name p (cmd_workstream_complete throws (λ j. false) true name today p)
unfolding cmd_workstream_complete
cmd_workstream_complete-IsArchived throws name today p = elim (Bool-cases (is_empty name)) [
  | inl e ↦ rw (cmd_workstream_complete, e) (rw e refl)
  | inr e ↦ elim (Bool-cases (is_bad_name name)) [
    | inl bad ↦ rw (cmd_workstream_complete, e, bad) (rw (e, bad) refl)
    | inr good ↦
        rw (cmd_workstream_complete, e, good)
          (archive_entry-IsArchived throws name (archive_name (names_of p.archive) name today) p
            (lookup name (entries p)) refl (archive_name-IsFree (names_of p.archive) name today))
  ]
]
