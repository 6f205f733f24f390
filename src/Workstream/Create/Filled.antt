-- ===== src/Workstream/Create/Filled.antt =====
-- The directory of a new workstream keeps what it has, and the others stay.
use mikmongo.Base.{
  ◌≡◌, refl, ap, ◌∙◌, sym, ◌⊎◌, inl, inr, Bool, true, false, Bool-cases, Option, none, some, List,
  [], ◌++◌, if◌then◌else◌,
}
use mikmongo.Text.{Text, codes, equal}
use mikmongo.Text.Laws.{equal_refl, equal_iff}
use mikmongo.ActiveWorkstream.{is_name}
use mikmongo.Workstream.{Node, file, folder, Dir, Entry, stream, Planning}
use mikmongo.Workstream.Entries.{lookup, put, is_some, has, lookup-put}
use mikmongo.Workstream.Complete.{entries, active_of}
use mikmongo.Workstream.Create.{
  with_phases, with_state, dir_of, set_active, add_stream, finish, fill, state_content, Creation,
  thrown, created,
}
use mikmongo.Workstream.Create.Active.{set_active-name, named-active}

-- What is in the one directory is in the other.
abbrev pub IsGrown : Dir → Dir → Type 0
IsGrown d full = (j : Text) → (lookup j full ≡ lookup j d) ⊎ (lookup j d ≡ none)

-- The planning directory `q` is `r`, in which the workstreams are `es`, with a workstream `s` that
-- has its phases and a state, keeps what it had, and is the active one.
abbrev pub IsFilled : Text → List (Text × Entry) → Planning → Planning → Type 0
IsFilled s es r q =
    (d : Dir) × (full : Dir) × (dir_of (lookup s es) ≡ some d)
    × IsGrown d full
    × (has (codes "STATE.md") full ≡ true)
    × ((j : Text) → lookup j (entries q) ≡ (if equal s j then some (stream full) else lookup j es))
    × (active_of q ≡ some s)
    × (q.base ≡ r.base)
    × (q.archive ≡ r.archive)

put-IsGrown : (k : Text) (v : Node) (d : Dir) → lookup k d ≡ none → IsGrown d (put k v d)
put-IsGrown k v d h j = elim (Bool-cases (equal k j)) [
  | inl e ↦ inr (rw (← (equal_iff k j).0 e) h)
  | inr e ↦ inl (rw (lookup-put k j v d, e) refl)
]

IsGrown-trans : (a b c : Dir) → IsGrown a b → IsGrown b c → IsGrown a c
IsGrown-trans a b c f g j = elim (f j) [
  | inl x ↦ elim (g j) [ inl y ↦ inl (y ∙ x) | inr y ↦ inr (sym x ∙ y) ]
  | inr x ↦ inr x
]

with_phases-IsGrown :
    (o : Option Node) (d full : Dir)
    → lookup (codes "phases") d ≡ o
    → with_phases o d ≡ some full
    → IsGrown d full
with_phases-IsGrown none d full h e =
    let same : put (codes "phases") (folder []) d ≡ full = cc in
    rw (← same) (put-IsGrown (codes "phases") (folder []) d h)
with_phases-IsGrown (some (folder subs)) d full h e =
    let same : d ≡ full = cc in λ j. inl (rw (← same) refl)
with_phases-IsGrown (some (file t)) d full h e = cc

absent : {V : Type 0} (o : Option V) → is_some o ≡ false → o ≡ none
absent none h = refl
absent (some v) h = cc

with_state-IsGrown :
    (b : Bool) (content : Text) (d : Dir)
    → has (codes "STATE.md") d ≡ b
    → IsGrown d (with_state b content d) × (has (codes "STATE.md") (with_state b content d) ≡ true)
with_state-IsGrown true content d h = ((λ j. inl refl), h)
with_state-IsGrown false content d h = (
  put-IsGrown (codes "STATE.md") (file content) d (absent (lookup (codes "STATE.md") d) h),
  rw
      (
        lookup-put (codes "STATE.md") (codes "STATE.md") (file content) d,
        equal_refl (codes "STATE.md"),
      )
      refl,
)

-- What comes of making the workstream `s` in `r`, in which the workstreams are `es`.
abbrev pub IsMade : Text → Option (List Text) → List (Text × Entry) → Planning → Creation → Type 0
IsMade s files es r (created q t moved) = (t ≡ s) × (moved ≡ files) × IsFilled s es r q
IsMade s files es r (thrown q) = (q.archive ≡ r.archive) × (q.active ≡ r.active) × (q.base ≡ r.base)
IsMade s files es r _ = ⊥

module _ (s today : Text) (files : Option (List Text)) (r : Planning) (n : is_name s ≡ true) where
  added-IsFilled :
      (d full : Dir)
      → dir_of (lookup s (entries r)) ≡ some d
      → IsGrown d full
      → has (codes "STATE.md") full ≡ true
      → IsFilled s (entries r) r (set_active s (add_stream s full r))
  added-IsFilled d full e g h =
      let q = record (add_stream s full r) { active = some (s ++ codes "\n") } in
      let there : lookup s (entries q) ≡ some (stream full) =
        rw (lookup-put s s (stream full) (entries r), equal_refl s) refl in
      rw (set_active-name s (add_stream s full r) n) (
        d,
        full,
        e,
        g,
        h,
        (λ j. lookup-put s j (stream full) (entries r)),
        named-active s q n refl (ap is_some there),
        refl,
        refl,
      )

  finish-IsMade :
      (d : Dir) (o : Option Dir)
      → dir_of (lookup s (entries r)) ≡ some d
      → with_phases (lookup (codes "phases") d) d ≡ o
      → IsMade s files (entries r) r (finish s today files r d o)
  finish-IsMade d none e w = (refl, refl, refl)
  finish-IsMade d (some full) e w =
      let (g, h) =
        with_state-IsGrown (has (codes "STATE.md") full) (state_content s today) full refl in
      let done = with_state (has (codes "STATE.md") full) (state_content s today) full in
      let grown = with_phases-IsGrown (lookup (codes "phases") d) d full refl w in
      (refl, refl, added-IsFilled d done e (IsGrown-trans d full done grown g) h)

  pub fill-IsMade :
      (o : Option Dir)
      → dir_of (lookup s (entries r)) ≡ o
      → IsMade s files (entries r) r (fill s today files r o)
  fill-IsMade none e = (refl, refl, refl)
  fill-IsMade (some d) e = finish-IsMade d (with_phases (lookup (codes "phases") d) d) e refl
