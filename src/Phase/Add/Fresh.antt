-- ===== src/Phase/Add/Fresh.antt =====
-- A new phase has a number of its own, and its entry is put into ROADMAP.md, which stays otherwise.
use mikmongo.Base.{
  ℕ, ◌+◌, ◌≤◌, ◌<◌, ◌≡◌, refl, sym, ap, ◌∙◌, inl, inr, false, ◌||◌, Option, none, some, List, [],
  ◌∷◌, ◌++◌, append-nil, append_assoc, arith, Bool-cases, Option-cases, is_empty, All,
}
use mathlib.Core.Path.{subst}
use mikmongo.Text.{Text, codes, starts_with}
use mikmongo.PhaseNum.{normalize_phase_name}
use mikmongo.PhaseDir.{Dirent}
use mikmongo.Regex.{Found, find}
use mikmongo.Regex.Parts.{find-IsFound}
use mikmongo.Json.{Json}
use mikmongo.Milestone.{extract_current_milestone}
use mikmongo.State.Command.{ℤ, show_nat, truthy}
use mikmongo.Phase.Add.{
  last_split, put_entry, put_after, max_from, greater, phase_numbers, max_phase_number, PhaseId,
  number, custom, phase_entry, added, cmd_phase_add, cmd_phase_insert, inserted_entry,
  decimal_numbers, next_number, next_heading, entries_of, is_custom, custom_id_of, line_heading,
  target_heading, strip_start, matches,
}

-- The entry stands at one place of the new document, and the rest is the old one.
pub record IsInsertion (entry content content' : Text) : Type 0 where
  pub before : Text
  pub after : Text
  pub old : content ≡ before ++ after
  pub new : content' ≡ before ++ (entry ++ after)

last_split-append : (p s : Text) (b r : Text) → last_split p s ≡ some (b, r) → s ≡ b ++ r
unfolding last_split
last_split-append p [] b r h = cc
last_split-append p (c ∷ s) b r h = elim (Option-cases (last_split p s)) [
  | inr ((b', r'), e) ↦ ground (arith, last_split-append p s b' r' e)
  | inl e ↦ elim (Bool-cases (starts_with (c ∷ s) p)) [
    | inl f ↦ cc (rw (last_split, e, f) at h)
    | inr f ↦ cc (rw (last_split, e, f) at h)
  ]
]

at_the_end : (entry content : Text) → IsInsertion entry content (content ++ entry)
at_the_end entry content = record {
  before = content;
  after = [];
  old = sym (append-nil content);
  new = ap (λ x. content ++ x) (sym (append-nil entry));
}

put_entry-cases :
    (entry content : Text) (o : Option (Text × Text))
    → last_split (codes "\n---") content ≡ o
    → IsInsertion entry content (put_entry entry content)
unfolding put_entry
put_entry-cases entry content none e = rw (put_entry, e) (at_the_end entry content)
put_entry-cases entry content (some ([], r)) e = rw (put_entry, e) (at_the_end entry content)
put_entry-cases entry content (some (c ∷ b, r)) e = record {
  before = c ∷ b;
  after = r;
  old = last_split-append (codes "\n---") content (c ∷ b) r e;
  new = rw (put_entry, e) refl;
}

put_entry-IsInsertion : (entry content : Text) → IsInsertion entry content (put_entry entry content)
put_entry-IsInsertion entry content = put_entry-cases entry content _ refl

put_after-IsInsertion :
    (content entry : Text) (m : Found)
    → content ≡ m.before ++ (m.matched ++ m.after)
    → IsInsertion entry content (put_after m entry)
unfolding put_after
put_after-IsInsertion content entry m h = elim (Option-cases (find next_heading m.after)) [
  | inl e ↦ record {
    before = content;
    after = [];
    old = sym (append-nil content);
    new = rw (put_after, e) (rw h (simp (append-nil, append_assoc)));
  }
  | inr (n, e) ↦
      let split = (find-IsFound next_heading m.after n e).split in
      record {
        before = m.before ++ (m.matched ++ n.before);
        after = n.matched ++ n.after;
        old = h ∙ (rw split (simp append_assoc));
        new = rw (put_after, e) (simp append_assoc);
      }
]

max_from-le :
    (best : ℕ) (ns : List ℕ) → (best ≤ max_from best ns) × All (λ k. k ≤ max_from best ns) ns
unfolding max_from
max_from-le best [] = (omega arith, tt)
max_from-le best (n ∷ ns) =
    let (a, b) = max_from-le (greater n best) ns in (ground arith, (ground arith, b))

All-lt : (n : ℕ) (ns : List ℕ) → All (λ k. k ≤ n) ns → All (λ k. k < n + 1) ns
All-lt n [] h = tt
All-lt n (k ∷ ns) h = (omega arith, All-lt n ns h.1)

next_number-lt : (ns : List ℕ) → All (λ k. k < next_number ns) ns
unfolding next_number
next_number-lt [] = tt
next_number-lt (n ∷ ns) =
    let (a, b) = max_from-le n ns in (omega arith, All-lt (max_from n ns) ns b)

above_max : (ns : List ℕ) → All (λ k. k < max_from 0 ns + 1) ns
above_max ns = All-lt (max_from 0 ns) ns (max_from-le 0 ns).1

-- A number that is greater than all that there are; or a name.
abbrev pub IsNew : List ℕ → PhaseId → Type 0
IsNew ns (number n) = All (λ k. k < n) ns
IsNew ns (custom s) = is_empty s ≡ false

-- What a new phase leaves of ROADMAP.md.
pub record IsAdded (state roadmap : Option Text) (naming : Option Text)
    (description content' : Text) : Type 0 where
  pub content : Text
  pub id : PhaseId
  pub there : roadmap ≡ some content
  pub is_new : IsNew (phase_numbers (extract_current_milestone state content)) id
  pub insertion : IsInsertion (phase_entry naming id description) content content'

added_inj : {d c r d' c' r' : Text} {j j' : Json ℤ} → added d c j r ≡ added d' c' j' r' → c ≡ c'
added_inj h = cc

-- When a phase is added, its entry is put into ROADMAP.md, which is otherwise unchanged; and its number is
-- greater than those of all phases of the current milestone, or it has a name, which is not empty.
pub cmd_phase_add-IsAdded :
    (ws naming state roadmap : Option Text) (description : Text) (custom_id : Option Text)
    (dir content' : Text) (result : Json ℤ) (raw : Text)
    → cmd_phase_add ws naming state roadmap description custom_id ≡ added dir content' result raw
    → IsAdded state roadmap naming description content'
unfolding cmd_phase_add
cmd_phase_add-IsAdded ws naming state none [] custom_id dir content' result raw h = cc
cmd_phase_add-IsAdded ws naming state (some content) [] custom_id dir content' result raw h = cc
cmd_phase_add-IsAdded ws naming state none (c ∷ description) custom_id dir content' result raw h =
    cc
cmd_phase_add-IsAdded ws naming state (some content) (c ∷ description) custom_id dir content' result
      raw h =
    let id = custom_id_of custom_id (c ∷ description) in
    elim (Bool-cases (truthy custom_id || is_custom naming)) [
      | inl e ↦ elim (Bool-cases (is_empty id)) [
        | inl f ↦ cc (rw (cmd_phase_add, e, f) at h)
        | inr f ↦ record {
          content = content;
          id = custom id;
          there = refl;
          is_new = f;
          insertion =
              subst (IsInsertion (phase_entry naming (custom id) (c ∷ description)) content)
                (added_inj (rw (cmd_phase_add, e, f) at h))
                (put_entry-IsInsertion (phase_entry naming (custom id) (c ∷ description)) content);
        }
      ]
      | inr e ↦
          let n = max_phase_number (extract_current_milestone state content) + 1 in
          record {
            content = content;
            id = number n;
            there = refl;
            is_new = above_max (phase_numbers (extract_current_milestone state content));
            insertion =
                subst (IsInsertion (phase_entry naming (number n) (c ∷ description)) content)
                  (added_inj (rw (cmd_phase_add, e) at h))
                  (put_entry-IsInsertion (phase_entry naming (number n) (c ∷ description)) content);
          }
    ]

-- What an inserted phase leaves of ROADMAP.md: the phase is a decimal of the base.
pub record IsInserted (phases : Option (List Dirent)) (roadmap : Option Text)
    (after description content' raw : Text) : Type 0 where
  pub content : Text
  pub decimal : ℕ
  pub there : roadmap ≡ some content
  pub named : raw ≡ normalize_phase_name after ++ (codes "." ++ show_nat decimal)
  pub is_new :
      All (λ k. k < decimal) (decimal_numbers (normalize_phase_name after) (entries_of phases))
  pub insertion : IsInsertion (inserted_entry raw after description) content content'

raw_inj : {d c r d' c' r' : Text} {j j' : Json ℤ} → added d c j r ≡ added d' c' j' r' → r ≡ r'
raw_inj h = cc

-- When a phase is inserted behind another, its entry is put into ROADMAP.md, which is otherwise unchanged,
-- and it becomes a decimal of that phase, greater than those of all directories of that phase.
pub cmd_phase_insert-IsInserted :
    (ws : Option Text) (phases : Option (List Dirent)) (state roadmap : Option Text)
    (after description dir content' : Text) (result : Json ℤ) (raw : Text)
    → cmd_phase_insert ws phases state roadmap after description ≡ added dir content' result raw
    → IsInserted phases roadmap after description content' raw
unfolding cmd_phase_insert
cmd_phase_insert-IsInserted ws phases state none [] description dir content' result raw h = cc
cmd_phase_insert-IsInserted ws phases state (some content) [] description dir content' result raw
      h =
    cc
cmd_phase_insert-IsInserted ws phases state none (c ∷ after) [] dir content' result raw h = cc
cmd_phase_insert-IsInserted ws phases state (some content) (c ∷ after) [] dir content' result raw
      h =
    cc
cmd_phase_insert-IsInserted ws phases state none (c ∷ after) (d ∷ description) dir content' result
      raw h =
    cc
cmd_phase_insert-IsInserted ws phases state (some content) (c ∷ after) (d ∷ description) dir
      content' result raw h =
    let base = normalize_phase_name (c ∷ after) in
    let bare = strip_start b'0' base in
    let decimals = decimal_numbers base (entries_of phases) in
    let decimal = base ++ (codes "." ++ show_nat (next_number decimals)) in
    let entry = inserted_entry decimal (c ∷ after) (d ∷ description) in
    elim (Bool-cases (matches (target_heading bare) (extract_current_milestone state content))) [
      | inr e ↦ cc (rw (cmd_phase_insert, e) at h)
      | inl e ↦ elim (Option-cases (find (line_heading bare) content)) [
        | inl f ↦ cc (rw (cmd_phase_insert, e, f) at h)
        | inr (m, f) ↦
            let p : added _ _ _ _ ≡ added dir content' result raw =
              rw (cmd_phase_insert, e, f) at h in
            let same : decimal ≡ raw = raw_inj p in
            let place : IsInsertion entry content (put_after m entry) =
              put_after-IsInsertion content entry m
                (find-IsFound (line_heading bare) content m f).split in
            record {
              content = content;
              decimal = next_number decimals;
              there = refl;
              named = sym same;
              is_new = next_number-lt decimals;
              insertion =
                  subst
                    (λ r.
                      IsInsertion (inserted_entry r (c ∷ after) (d ∷ description)) content content')
                    same (subst (IsInsertion entry content) (added_inj p) place);
            }
      ]
    ]
