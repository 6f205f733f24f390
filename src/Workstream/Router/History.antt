-- ===== src/Workstream/Router/History.antt =====
-- What any number of calls, one after the other, leaves of a planning directory.
use mikmongo.Base.{
  ◌≡◌, refl, ap, ◌∙◌, sym, ◌⊎◌, inl, inr, ℕ, Bool, true, false, Bool-cases, none, some, List, [],
  ◌∷◌, ◌++◌, any, arith, append_assoc, append-nil,
}
use mikmongo.Text.{Text, equal}
use mikmongo.Text.Laws.{equal_iff}
use mikmongo.ActiveWorkstream.{set_active_workstream, is_name}
use mikmongo.Workstream.{Dir, Planning}
use mikmongo.Workstream.Entries.{lookup, names_of, has}
use mikmongo.Workstream.Complete.{
  cmd_workstream_complete, entries, Completion, refused, not_found, archive_failed, completed,
}
use mikmongo.Workstream.Complete.Atomic.{IsArchived, cmd_workstream_complete-IsArchived}
use mikmongo.Workstream.Create.{
  Creation, failed, thrown, already_exists, migration_failed, created, set_active,
  cmd_workstream_set, cmd_workstream_create, set_checked,
}
use mikmongo.Slug.{slug}
use mikmongo.Workstream.Create.Made.{
  IsCreated, cmd_workstream_create-IsCreated, IsShared, same-IsShared, atomic-IsShared,
}
use mikmongo.Workstream.Router.{
  Call, Subcommand, create, complete, set, arg, create_options, subcommand_of, dispatch,
  workstream_command, left_by, left_by_creation, left_by_completion,
}

-- No name stands twice.
abbrev pub IsDistinct : List Text → Type 0
IsDistinct [] = Unit
IsDistinct (n ∷ ns) = (any (equal n) ns ≡ false) × IsDistinct ns

abbrev pub IsOneMore : Planning → Planning → Type 0
IsOneMore p q =
    (at : Text) × (dir : Dir) × (q.archive ≡ p.archive ++ (at, dir) ∷ [])
    × (any (equal at) (names_of p.archive) ≡ false)

-- One call: the archives are the same, or there is one more with a name that was free.
abbrev pub IsStep : Planning → Planning → Type 0
IsStep p q = ((q.archive ≡ p.archive) ⊎ IsOneMore p q) × IsShared p q

same-IsStep : (p q : Planning) → q.archive ≡ p.archive → q.base ≡ p.base → IsStep p q
same-IsStep p q a b = (inl a, λ j. inr (ap (lookup j) b))

creation-IsStep :
    (s : Text) (p : Planning) (c : Creation) → IsCreated s p c → IsStep p (left_by_creation p c)
creation-IsStep s p (failed m) h = same-IsStep p p refl refl
creation-IsStep s p (thrown q) (a, b, d) = (inl a, d)
creation-IsStep s p (already_exists t) h = same-IsStep p p refl refl
creation-IsStep s p (migration_failed q) (a, b, d, e) = (inl b, λ j. inr (e j))
creation-IsStep s p (created q t none) (e, (dir, full, i, g, h, l, x, y, z)) = same-IsStep p q z y
creation-IsStep s p (created q t (some files))
      (e, (r, old, (dir, m, n), (d, full, i, g, h, l, x, y, z))) =
    (
      inl (z ∙ ap (λ k. k.archive) m),
      same-IsShared p q r y (atomic-IsShared old p r files (dir, m, n)),
    )

completion-IsStep :
    (name : Text) (p : Planning) (c : Completion)
    → IsArchived name p c
    → IsStep p (left_by_completion p c)
completion-IsStep name p (refused m) h = same-IsStep p p refl refl
completion-IsStep name p not_found h = same-IsStep p p refl refl
completion-IsStep name p (archive_failed q) (b, a, c, h) = same-IsStep p q a b
completion-IsStep name p (completed q at n) (old, new, l, a, f, s, g, b) =
    (inr (at, new, a, f), λ j. inr (ap (lookup j) b))

set_active-kept :
    (name : Text) (p : Planning)
    → ((set_active name p).archive ≡ p.archive) × ((set_active name p).base ≡ p.base)
unfolding set_active_workstream
set_active-kept [] p = (refl, refl)
set_active-kept (c ∷ s) p = elim (Bool-cases (is_name (c ∷ s))) [
  | inl e ↦ rw (set_active, set_active_workstream, e) (refl, refl)
  | inr e ↦ rw (set_active, set_active_workstream, e) (refl, refl)
]

checked-IsStep :
    (named there : Bool) (name : Text) (p : Planning) → IsStep p (set_checked named there name p).1
checked-IsStep false there name p = same-IsStep p p refl refl
checked-IsStep true false name p = same-IsStep p p refl refl
checked-IsStep true true name p =
    let (a, b) = set_active-kept name p in same-IsStep p (set_active name p) a b

set-IsStep : (name : Text) (p : Planning) → IsStep p (cmd_workstream_set name p).1
unfolding cmd_workstream_set
set-IsStep [] p = let (a, b) = set_active-kept [] p in same-IsStep p (set_active [] p) a b
set-IsStep (c ∷ s) p = checked-IsStep (is_name (c ∷ s)) (has (c ∷ s) (entries p)) (c ∷ s) p

unlisted_more :
    (n a : Text) (ns : List Text)
    → any (equal n) ns ≡ false
    → equal n a ≡ false
    → any (equal n) (ns ++ a ∷ []) ≡ false
unlisted_more n a [] x e = ground arith
unlisted_more n a (m ∷ ns) x e = ground (arith, unlisted_more n a ns (ground arith) e)

IsDistinct-more :
    (ns : List Text) (a : Text)
    → IsDistinct ns
    → any (equal a) ns ≡ false
    → IsDistinct (ns ++ a ∷ [])
IsDistinct-more [] a d h = (refl, tt)
IsDistinct-more (n ∷ ns) a (x, d) h = (
  unlisted_more n a ns x (ground (arith, equal_iff a n, equal_iff n a)),
  IsDistinct-more ns a d (ground arith),
)

module _ (round_percent : ℕ → ℕ → ℕ) where
  dispatch-IsStep :
      (s : Subcommand) (i : Call) (p : Planning)
      → IsStep p (left_by p (dispatch round_percent (λ j. false) true s i p))
  dispatch-IsStep create i p =
      let name = arg 2 i.args in
      let c =
        cmd_workstream_create i.throws (λ j. false) true name i.today (create_options i.args)
          i.milestone (some p) in
      creation-IsStep (slug name) p c (
        cmd_workstream_create-IsCreated i.throws name i.today (create_options i.args) i.milestone p)
  dispatch-IsStep complete i p =
      let name = arg 2 i.args in
      completion-IsStep name p (cmd_workstream_complete i.throws (λ j. false) true name i.today p)
        (cmd_workstream_complete-IsArchived i.throws name i.today p)
  dispatch-IsStep set i p = set-IsStep (arg 2 i.args) p
  dispatch-IsStep _ i p = same-IsStep p p refl refl

  -- The planning directory after the calls, if what was moved can be moved back and removed.
  unfoldable pub run_calls : List Call → Planning → Planning
  unfolding workstream_command
  run_calls [] p = p
  run_calls (i ∷ is) p =
      run_calls is (left_by p (workstream_command round_percent (λ j. false) true i p))

-- What any number of calls leaves of the archives and of the files that no call moves.
abbrev pub IsHistory : Planning → Planning → Type 0
IsHistory p q =
    ((new : List (Text × Dir)) × (q.archive ≡ p.archive ++ new))
    × IsDistinct (names_of q.archive)
    × IsShared p q

names_more :
    (es : List (Text × Dir)) (e : Text × Dir) → names_of (es ++ e ∷ []) ≡ names_of es ++ e.0 ∷ []
names_more [] e = refl
names_more (x ∷ es) e = ap (λ ns. x.0 ∷ ns) (names_more es e)

-- The archives of a step are distinct again.
step-IsDistinct :
    (p q : Planning)
    → IsStep p q
    → IsDistinct (names_of p.archive)
    → IsDistinct (names_of q.archive)
step-IsDistinct p q (inl a, s) d = rw a d
step-IsDistinct p q (inr (at, dir, a, f), s) d =
    rw (a, names_more p.archive (at, dir)) (IsDistinct-more (names_of p.archive) at d f)

step-IsAppended :
    (p q : Planning) → IsStep p q → (new : List (Text × Dir)) × (q.archive ≡ p.archive ++ new)
step-IsAppended p q (inl a, s) = ([], a ∙ sym (append-nil p.archive))
step-IsAppended p q (inr (at, dir, a, f), s) = ((at, dir) ∷ [], a)

IsShared-trans : (p q r : Planning) → IsShared p q → IsShared q r → IsShared p r
IsShared-trans p q r f g j = elim (g j) [
  | inl i ↦ inl i
  | inr y ↦ elim (f j) [ inl i ↦ inl i | inr x ↦ inr (y ∙ x) ]
]

later-IsHistory : (p q r : Planning) → IsStep p q → IsHistory q r → IsHistory p r
later-IsHistory p q r s ((new, e), d, h) =
    let (one, f) = step-IsAppended p q s in
    (
      (one ++ new, e ∙ (ap (λ a. a ++ new) f ∙ append_assoc p.archive one new)),
      d,
      IsShared-trans p q r s.1 h,
    )

-- However often the command for workstreams is called, with whatever arguments and whichever renames
-- throw, as long as what was moved can be moved back and new directories can be removed: the
-- archives stay, with all that is in them, and new ones come behind them; the names of archives are
-- still distinct, if they were; and the entries of `.planning` other than the roadmap, the state, the
-- requirements and the phases are the same.
pub run_calls-IsHistory :
    (round_percent : ℕ → ℕ → ℕ) (calls : List Call) (p : Planning)
    → IsDistinct (names_of p.archive)
    → IsHistory p (run_calls round_percent calls p)
unfolding run_calls workstream_command
run_calls-IsHistory round_percent [] p d = (([], sym (append-nil p.archive)), d, λ j. inr refl)
run_calls-IsHistory round_percent (i ∷ is) p d =
    let s = dispatch-IsStep round_percent (subcommand_of (arg 1 i.args)) i p in
    let q = left_by p (workstream_command round_percent (λ j. false) true i p) in
    later-IsHistory p q (run_calls round_percent is q) s
      (run_calls-IsHistory round_percent is q (step-IsDistinct p q s d))
