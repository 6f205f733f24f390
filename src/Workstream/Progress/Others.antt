-- ===== src/Workstream/Progress/Others.antt =====
-- The other workstreams are those that have not ended.
use mikmongo.Base.{
  Option, Option-cases, some, none, ◌≢◌, ◌∙◌, sym, map, length, keep, ltb, leb, ◌&&◌, arith, ◌≡◌,
  refl, inl, inr, ◌↔◌, false, Bool-cases, List, [], ◌∷◌, In,
}
use mikmongo.Text.{Text, codes, includes, to_lower, equal}
use mikmongo.Text.Laws.{equal_iff, equal_refl}
use mikmongo.State.{state_extract_field}
use mikmongo.State.Command.{or_text}
use mikmongo.Workstream.Reports.{
  status_of, current_phase_of, read_file, phase_counts, completed_count,
}
use mikmongo.Workstream.Progress.{
  is_ended, Other, other_of, is_left_out, other_streams, get_other_active_workstreams,
}
use mikmongo.Workstream.{Dir, Entry, plain, stream, Planning}
use mikmongo.Workstream.Complete.{entries}

-- A workstream beside the excluded one whose state does not say that it has ended.
abbrev pub IsListed : Text → List (Text × Entry) → Other → Type 0
IsListed excluded es o =
    (name : Text) × (dir : Dir) × In (name, stream dir) es
    × (is_left_out excluded name dir ≡ false)
    × (o ≡ other_of name dir)

other_later :
    (excluded : Text) (e : Text × Entry) (es : List (Text × Entry)) (o : Other)
    → IsListed excluded es o
    → IsListed excluded (e ∷ es) o
other_later excluded e es o (name, dir, i, k, s) = (name, dir, inr i, k, s)

other_first :
    (excluded name : Text) (dir : Dir) (es : List (Text × Entry)) (o : Other)
    → is_left_out excluded name dir ≡ false
    → In o (other_of name dir ∷ other_streams excluded es)
    → (IsListed excluded es o → IsListed excluded ((name, stream dir) ∷ es) o)
    → (In o (other_streams excluded es) → IsListed excluded es o)
    → IsListed excluded ((name, stream dir) ∷ es) o
other_first excluded name dir es o e (inl same) later rest = (name, dir, inl refl, e, same)
other_first excluded name dir es o e (inr i) later rest = later (rest i)

other_streams-IsListed :
    (excluded : Text) (es : List (Text × Entry)) (o : Other)
    → In o (other_streams excluded es)
    → IsListed excluded es o
unfolding other_streams
other_streams-IsListed excluded [] o h = elim h [ ]
other_streams-IsListed excluded ((name, plain) ∷ es) o h =
    other_later excluded (name, plain) es o (other_streams-IsListed excluded es o h)
other_streams-IsListed excluded ((name, stream dir) ∷ es) o h =
    elim (Bool-cases (is_left_out excluded name dir)) [
      | inl e ↦
          other_later excluded (name, stream dir) es o
            (other_streams-IsListed excluded es o (rw e at h))
      | inr e ↦
          other_first excluded name dir es o e (rw e at h)
            (other_later excluded (name, stream dir) es o) (other_streams-IsListed excluded es o)
    ]

-- A returned workstream stays with one more entry before the others.
IsListed-later :
    (excluded name : Text) (dir : Dir) (es : List (Text × Entry)) (o : Other)
    → In o (other_streams excluded es)
    → In o (other_streams excluded ((name, stream dir) ∷ es))
unfolding other_streams
IsListed-later excluded name dir es o h = elim (Bool-cases (is_left_out excluded name dir)) [
  | inl e ↦ rw e h
  | inr e ↦ rw e (inr h)
]

IsListed-first :
    (excluded name n : Text) (dir d : Dir) (es : List (Text × Entry)) (o : Other)
    → n ≡ name
    → d ≡ dir
    → is_left_out excluded n d ≡ false
    → o ≡ other_of n d
    → In o (other_streams excluded ((name, stream dir) ∷ es))
unfolding other_streams
IsListed-first excluded name n dir d es o a b k s =
    let kept : is_left_out excluded name dir ≡ false = rw (← a, ← b) k in
    rw kept (inl (rw (← a, ← b) s))

IsListed-other_streams :
    (excluded : Text) (es : List (Text × Entry)) (o : Other)
    → IsListed excluded es o
    → In o (other_streams excluded es)
unfolding other_streams
IsListed-other_streams excluded [] o (n, d, i, k, s) = elim i [ ]
IsListed-other_streams excluded ((name, plain) ∷ es) o (n, d, inl same, k, s) = cc
IsListed-other_streams excluded ((name, plain) ∷ es) o (n, d, inr i, k, s) =
    IsListed-other_streams excluded es o (n, d, i, k, s)
IsListed-other_streams excluded ((name, stream dir) ∷ es) o (n, d, inl same, k, s) =
    IsListed-first excluded name n dir d es o (cc) (cc) k s
IsListed-other_streams excluded ((name, stream dir) ∷ es) o (n, d, inr i, k, s) =
    IsListed-later excluded name dir es o (IsListed-other_streams excluded es o (n, d, i, k, s))

-- What the state of a workstream says of a field.
abbrev said : Text → Option Text → Option Text
said name none = none
said name (some content) = state_extract_field content name

-- `o` stands for a workstream of the entries that is another than the excluded one, and whose status
-- has neither of the words for an end; its counts are those of the phases that have plans and no
-- fewer summaries.
abbrev pub IsOther : Text → List (Text × Entry) → Other → Type 0
IsOther excluded es o =
    (dir : Dir) × In (o.name, stream dir) es
    × (o.name ≢ excluded)
    × (includes (map to_lower o.status) (codes "milestone complete") ≡ false)
    × (includes (map to_lower o.status) (codes "archived") ≡ false)
    × (o.status ≡ or_text (said (codes "Status") (read_file "STATE.md" dir)) (codes "unknown"))
    × (o.current_phase ≡ said (codes "Current Phase") (read_file "STATE.md" dir))
    × (o.completed
        ≡ length (keep (λ c. ltb 0 c.plans && leb c.plans c.summaries) (phase_counts dir)))
    × (o.phases ≡ length (phase_counts dir))

other_eq :
    (a b : Other)
    → a.name ≡ b.name
    → a.status ≡ b.status
    → a.current_phase ≡ b.current_phase
    → a.completed ≡ b.completed
    → a.phases ≡ b.phases
    → a ≡ b
other_eq a b n s p c k =
    λ i. record { name = n i; status = s i; current_phase = p i; completed = c i; phases = k i }

other_of-status :
    (name : Text) (dir : Dir)
    → status_of dir ≡ or_text (said (codes "Status") (read_file "STATE.md" dir)) (codes "unknown")
unfolding status_of
other_of-status name dir = elim (Option-cases (read_file "STATE.md" dir)) [
  | inl e ↦ rw e refl
  | inr (t, e) ↦ rw e refl
]

other_of-phase :
    (name : Text) (dir : Dir)
    → current_phase_of dir ≡ said (codes "Current Phase") (read_file "STATE.md" dir)
unfolding current_phase_of
other_of-phase name dir = elim (Option-cases (read_file "STATE.md" dir)) [
  | inl e ↦ rw e refl
  | inr (t, e) ↦ rw e refl
]

left_out-written :
    (excluded name : Text) (dir : Dir)
    → is_left_out excluded name dir ≡ false
    → (name ≢ excluded)
      × (includes (map to_lower (status_of dir)) (codes "milestone complete") ≡ false)
      × (includes (map to_lower (status_of dir)) (codes "archived") ≡ false)
unfolding is_ended
left_out-written excluded name dir h =
    ((λ e. cc (rw (e, equal_refl excluded) at h)), ground arith, ground arith)

IsListed-IsOther :
    (excluded : Text) (es : List (Text × Entry)) (o : Other)
    → IsListed excluded es o
    → IsOther excluded es o
unfolding other_of completed_count
IsListed-IsOther excluded es o (name, dir, i, k, s) =
    let (a, b, c) = left_out-written excluded name dir k in
    rw s (dir, i, a, b, c, other_of-status name dir, other_of-phase name dir, refl, refl)

left_out-clear :
    (excluded : Text) (o : Other) (dir : Dir)
    → o.status ≡ status_of dir
    → o.name ≢ excluded
    → includes (map to_lower o.status) (codes "milestone complete") ≡ false
    → includes (map to_lower o.status) (codes "archived") ≡ false
    → is_left_out excluded o.name dir ≡ false
unfolding is_ended
left_out-clear excluded o dir same a b c = elim (Bool-cases (equal o.name excluded)) [
  | inl e ↦ absurd (a ((equal_iff o.name excluded).0 e))
  | inr e ↦ rw e (rw (← same) (rw (b, c) refl))
]

IsOther-IsListed :
    (excluded : Text) (es : List (Text × Entry)) (o : Other)
    → IsOther excluded es o
    → IsListed excluded es o
unfolding other_of completed_count is_ended
IsOther-IsListed excluded es o (dir, i, a, b, c, s, p, n, k) =
    let same : o.status ≡ status_of dir = s ∙ sym (other_of-status o.name dir) in
    (
      o.name,
      dir,
      i,
      left_out-clear excluded o dir same a b c,
      other_eq o (other_of o.name dir) refl same (p ∙ sym (other_of-phase o.name dir)) n k,
    )

-- Exactly the workstreams other than the excluded one are returned whose status has neither
-- `milestone complete` nor `archived` in it, case aside; each with its name, the status (`unknown` if
-- there is none) and the phase of its state, and the number of its phases, all and completed.
pub get_other_active_workstreams-IsOther :
    (excluded : Text) (p : Planning) (o : Other)
    → In o (get_other_active_workstreams excluded p) ↔ IsOther excluded (entries p) o
unfolding get_other_active_workstreams
get_other_active_workstreams-IsOther excluded p o = (
  λ h. IsListed-IsOther excluded (entries p) o (other_streams-IsListed excluded (entries p) o h),
  λ h. IsListed-other_streams excluded (entries p) o (IsOther-IsListed excluded (entries p) o h),
)
