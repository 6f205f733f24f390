-- ===== src/Roadmap/Requirements/Filed.antt =====
-- What becomes of the identifiers that are given to `cmdRequirementsMarkComplete`.
use mikmongo.Base.{
  ◌≡◌, refl, ap, ◌∙◌, ◌⊎◌, inl, inr, Bool, true, false, ◌||◌, List, [], ◌∷◌, ◌++◌, append-nil,
  append_assoc, if◌then◌else◌, is_empty,
}
use mathlib.Core.List.{Perm, perm_middle, perm_append_singleton}
use mathlib.Core.Path.{subst}
use mikmongo.Text.{Text, codes}
use mikmongo.Regex.{Regex, matches, replace_all, expand}
use mikmongo.Roadmap.Requirements.{
  Marked, mark, filed, unchanged, mark_one, mark_all, unmarked, done_checkbox, done_row,
  pending_row,
}
use mikmongo.Phase.Complete.{requirement_checkbox}
use mathlib.Core.List.Perm

-- All identifiers that have been filed.
abbrev pub listed : Marked → List Text
listed s = s.updated ++ (s.already_complete ++ s.not_found)

append_one :
    (xs : List Text) (ys : List Text) (x : Text) → Perm ((xs ++ x ∷ []) ++ ys) (x ∷ (xs ++ ys))
append_one xs ys x = rw (append_assoc xs (x ∷ []) ys) (perm_middle xs ys)

append_later :
    (us xs ys : List Text) (zs : List Text) (x : Text)
    → Perm zs (x ∷ (xs ++ ys))
    → Perm (us ++ zs) (x ∷ (us ++ (xs ++ ys)))
append_later us xs ys zs x p = Perm.trans (Perm.append_left us p) (perm_middle us (xs ++ ys))

unchanged-listed :
    (id : Text) (content : Text) (done : Bool) (s : Marked)
    → Perm (listed (unchanged id content done s)) (id ∷ listed s)
unchanged-listed id content true s =
    append_later s.updated s.already_complete s.not_found
      ((s.already_complete ++ id ∷ []) ++ s.not_found) id
      (append_one s.already_complete s.not_found id)
unchanged-listed id content false s =
    append_later s.updated s.already_complete s.not_found
      (s.already_complete ++ (s.not_found ++ id ∷ [])) id
      (Perm.trans (Perm.append_left s.already_complete (perm_append_singleton id s.not_found))
        (perm_middle s.already_complete s.not_found))

filed-listed :
    (id : Text) (content : Text) (found : Bool) (s : Marked)
    → Perm (listed (filed id content found s)) (id ∷ listed s)
unfolding matches
filed-listed id content true s = append_one s.updated (s.already_complete ++ s.not_found) id
filed-listed id content false s =
    unchanged-listed id content
      (matches (done_checkbox id) content || matches (done_row id) content) s

mark_one-listed : (id : Text) (s : Marked) → Perm (listed (mark_one id s)) (id ∷ listed s)
unfolding mark_one mark
mark_one-listed id s =
    let (content1, checked) = mark (requirement_checkbox id) (codes "$1x$2") s.content in
    let (content2, rowed) = mark (pending_row id) (codes "$1 Complete $2") content1 in
    filed-listed id content2 (checked || rowed) s

mark_all-listed : (ids : List Text) (s : Marked) → Perm (listed (mark_all ids s)) (ids ++ listed s)
unfolding mark_all
mark_all-listed [] s = Perm.refl (listed s)
mark_all-listed (id ∷ ids) s =
    Perm.trans (mark_all-listed ids (mark_one id s))
      (Perm.trans (Perm.append_left ids (mark_one-listed id s)) (perm_middle ids (listed s)))

-- Of `t`, that is filed from `s`.
abbrev IsUntouched : Marked → Marked → Type 0
IsUntouched s t = (t.content ≡ s.content) × (t.updated ≡ s.updated)

append-IsFull : (xs : List Text) (x : Text) → is_empty (xs ++ x ∷ []) ≡ false
append-IsFull [] x = refl
append-IsFull (y ∷ xs) x = refl

unchanged-IsUntouched :
    (id : Text) (content : Text) (done : Bool) (s : Marked)
    → ((unchanged id content done s).content ≡ content)
      × ((unchanged id content done s).updated ≡ s.updated)
unchanged-IsUntouched id content true s = (refl, refl)
unchanged-IsUntouched id content false s = (refl, refl)

filed-cases :
    (id : Text) (content : Text) (found : Bool) (s : Marked)
    → (is_empty (filed id content found s).updated ≡ false)
      ⊎ ((found ≡ false)
          × ((filed id content found s).content ≡ content)
          × ((filed id content found s).updated ≡ s.updated))
unfolding matches
filed-cases id content true s = inl (append-IsFull s.updated id)
filed-cases id content false s =
    let done = matches (done_checkbox id) content || matches (done_row id) content in
    let (c, u) = unchanged-IsUntouched id content done s in inr (refl, c, u)

mark-kept :
    (r : Regex) (template content : Text)
    → (mark r template content).1 ≡ false
    → (mark r template content).0 ≡ content
unfolding mark
mark-kept r template content =
    elim (matches r content)
      as (λ b.
        (if◌then◌else◌ {A = Text × Bool} b (replace_all r (expand 2 template) content, true)
            (content, false)).1
          ≡ false
        → (if◌then◌else◌ {A = Text × Bool} b (replace_all r (expand 2 template) content, true)
            (content, false)).0
          ≡ content) [ true ↦ λ e. cc | false ↦ λ e. refl ]

or-false : (a b : Bool) → a || b ≡ false → (a ≡ false) × (b ≡ false)
or-false false b e = (refl, e)
or-false true b e = cc

mark_one-cases :
    (id : Text) (s : Marked)
    → (is_empty (mark_one id s).updated ≡ false) ⊎ IsUntouched s (mark_one id s)
unfolding mark_one mark
mark_one-cases id s =
    let (content1, checked) = mark (requirement_checkbox id) (codes "$1x$2") s.content in
    let (content2, rowed) = mark (pending_row id) (codes "$1 Complete $2") content1 in
    elim (filed-cases id content2 (checked || rowed) s) [
      | inl full ↦ inl full
      | inr (e, c, u) ↦
          let (e1, e2) = or-false checked rowed e in
          inr (
            c
                ∙ mark-kept (pending_row id) (codes "$1 Complete $2") content1 e2
                ∙ mark-kept (requirement_checkbox id) (codes "$1x$2") s.content e1,
            u,
          )
    ]

mark_all-full :
    (ids : List Text) (s : Marked)
    → is_empty s.updated ≡ false
    → is_empty (mark_all ids s).updated ≡ false
unfolding mark_all
mark_all-full [] s h = h
mark_all-full (id ∷ ids) s h =
    mark_all-full ids (mark_one id s)
      (elim (mark_one-cases id s) [ inl full ↦ full | inr (c, u) ↦ ap is_empty u ∙ h ])

mark_all-cases :
    (ids : List Text) (s : Marked)
    → (is_empty (mark_all ids s).updated ≡ false) ⊎ ((mark_all ids s).content ≡ s.content)
unfolding mark_all
mark_all-cases [] s = inr refl
mark_all-cases (id ∷ ids) s = elim (mark_one-cases id s) [
  | inl full ↦ inl (mark_all-full ids (mark_one id s) full)
  | inr (c, u) ↦ elim (mark_all-cases ids (mark_one id s)) [
    | inl full ↦ inl full
    | inr same ↦ inr (same ∙ c)
  ]
]

-- The marked, the already complete and the unknown identifiers are together those that were given,
-- each as often; and REQUIREMENTS.md keeps its text unless one is marked.
pub mark_all-IsFiled :
    (ids : List Text) (content : Text)
    → Perm (listed (mark_all ids (unmarked content))) ids
      × ((is_empty (mark_all ids (unmarked content)).updated ≡ false)
          ⊎ ((mark_all ids (unmarked content)).content ≡ content))
mark_all-IsFiled ids content = (
  subst (Perm (listed (mark_all ids (unmarked content)))) (append-nil ids)
      (mark_all-listed ids (unmarked content)),
  mark_all-cases ids (unmarked content),
)
