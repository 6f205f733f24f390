-- ===== src/Phase/Remove.antt =====
-- .opencode/get-shit-done/bin/lib/phase.cjs: `cmdPhaseRemove`.
use mikmongo.Base.{
  ℕ, zero, suc, Bool, true, false, not, ◌&&◌, Option, none, some, List, [], ◌∷◌, ◌++◌, ltb,
  if◌then◌else◌, length,
}
use Prim.Native.Nat.{Ordering}
use mikmongo.Text.{Text, codes, includes, split}
use mikmongo.Regex.{
  Regex, find, replace, expand, text_of, word, word_ci, spaces, some_spaces, digits, maybe, ◌⨟◌,
}
use mikmongo.PhaseNum.{normalize_phase_name}
use mikmongo.PhaseDir.{filter_summary_files}
use mikmongo.State.{state_extract_field, state_replace_field}
use mikmongo.State.Command.{ℤ, pos, negsuc, parse_number, show, show_nat, truthy, or_text}
use mikmongo.State.Position.{or_same}
use mikmongo.Phase.Decimals.{is_base}
use mikmongo.Phase.Rename.{
  Tree, Outcome, Pair, finished, thrown, files_in, without, dir_names, rename_decimal_phases,
  rename_integer_phases,
}
use mikmongo.PhaseDir
use mikmongo.Phase.Renumber.{update_roadmap}

abbrev pred : ℤ → ℤ
pred (pos zero) = negsuc zero
pred (pos (suc n)) = pos n
pred (negsuc n) = negsuc (suc n)

abbrev pub show_number : Option ℤ → Text
show_number none = codes "NaN"
show_number (some n) = show n

abbrev less_one : Option ℤ → Option ℤ
less_one none = none
less_one (some n) = some (pred n)

-- `/(\bof\s+)(\d+)(\s*(?:\(|phases?))/i`
abbrev pub of_phases : Regex
of_phases =
    Regex.group 1 (Regex.boundary ⨟ word_ci "of" ⨟ some_spaces)
    ⨟ Regex.group 2 digits
    ⨟ Regex.group 3 (spaces ⨟ Regex.alt (word "(") (word_ci "phase" ⨟ maybe (word_ci "s")))

abbrev with_total : Text → Option Text → Text
with_total content total =
    if truthy total
    then or_same
        (state_replace_field content (codes "Total Phases")
          (show_number (less_one (parse_number (or_text total [])))))
        content
    else content

-- The count of the phases in STATE.md.
unfoldable pub count_down : Text → Text
unfolding find replace expand text_of parse_number show
count_down content =
    let content1 = with_total content (state_extract_field content (codes "Total Phases")) in
    elim (find of_phases content1) [
      | none ↦ content1
      | some m ↦
          replace of_phases
            (expand 3
              (codes "$1" ++ (show_number (less_one (parse_number (text_of 2 m))) ++ codes "$3")))
            content1
    ]

abbrev first_number : List Text → Option ℤ
first_number [] = none
first_number (x ∷ xs) = parse_number x

abbrev second_part : List Text → Option ℤ
second_part (x ∷ y ∷ ys) = parse_number y
second_part _ = none

-- A negative number, which no phase has, counts as none.
abbrev natural : Option ℤ → Option ℕ
natural (some (pos n)) = some n
natural _ = none

abbrev head_text : List Text → Text
head_text [] = []
head_text (x ∷ xs) = x

-- What the command leaves: the tree of the phases, ROADMAP.md, the content handed to `writeStateMd`, and
-- what has been renamed.
pub record Removed : Type 0 where
  pub tree : Tree
  pub roadmap : Text
  pub state : Option Text
  pub deleted : Option Text
  pub dirs : List Pair
  pub files : List Pair

pub data Removal : Type 0 where
  refused : Text → Removal
  done : Removed → Removal

-- The summaries of a directory that is there.
abbrev executed : Option Text → Tree → ℕ
executed none t = 0
executed (some dir) t = elim (files_in dir t) [
  | none ↦ 0
  | some fs ↦ length (filter_summary_files fs)
]

abbrev without_dir : Option Text → Tree → Tree
without_dir none t = t
without_dir (some dir) t = without dir t

abbrev state_after : Option Text → Option Text
state_after none = none
state_after (some content) = some (count_down content)

abbrev after_renames : Outcome → Text → Option Text → Option Text → Removed
after_renames (finished r) roadmap state deleted = record {
  tree = r.tree;
  roadmap = roadmap;
  state = state;
  deleted = deleted;
  dirs = r.dirs;
  files = r.files;
}
after_renames (thrown t) roadmap state deleted = record {
  tree = t;
  roadmap = roadmap;
  state = state;
  deleted = deleted;
  dirs = [];
  files = [];
}

module _ (locale_compare : Text → Text → Ordering) where
  abbrev pub target_dir : Text → Tree → Option Text
  target_dir normalized t = PhaseDir.find (is_base normalized) (dir_names locale_compare t)

  renumber_by : Option ℕ → (ℕ → Tree → Outcome) → Tree → Outcome
  renumber_by none rename t = finished (record { tree = t; dirs = []; files = [] })
  renumber_by (some n) rename t = rename n t

  -- The renumbering of the directories that are left.
  unfoldable pub renumber_dirs : Bool → Text → Tree → Outcome
  unfolding renumber_by rename_decimal_phases rename_integer_phases split parse_number
  renumber_dirs true normalized t =
      let parts = split b'.' normalized in
      renumber_by (natural (second_part parts))
        (rename_decimal_phases locale_compare (head_text parts)) t
  renumber_dirs false normalized t =
      renumber_by (natural (parse_number normalized)) (rename_integer_phases locale_compare) t

  remove_phase : Text → Text → Option Text → Tree → Text → Option Text → Removed
  unfolding renumber_dirs update_roadmap count_down
  remove_phase target normalized dir t roadmap state =
      let decimal = includes target (codes ".") in
      after_renames (renumber_dirs decimal normalized (without_dir dir t))
        (update_roadmap target decimal (natural (parse_number normalized)) roadmap)
        (state_after state) dir

  -- `cmdPhaseRemove(cwd, targetPhase, options, raw)` on the tree, ROADMAP.md and STATE.md, `none` for a
  -- file that is missing.
  unfoldable pub cmd_phase_remove : Text → Bool → Tree → Option Text → Option Text → Removal
  unfolding remove_phase PhaseDir.find filter_summary_files files_in
  cmd_phase_remove [] force t roadmap state =
      refused (codes "phase number required for phase remove")
  cmd_phase_remove (c ∷ target) force t none state = refused (codes "ROADMAP.md not found")
  cmd_phase_remove (c ∷ target) force t (some roadmap) state =
      let normalized = normalize_phase_name (c ∷ target) in
      let dir = target_dir normalized t in
      let summaries = executed dir t in
      if not force && ltb 0 summaries
      then refused (
          codes "Phase "
          ++ ((c ∷ target)
              ++ (codes " has "
                  ++ (show_nat summaries
                      ++ codes " executed plan(s). Use --force to remove anyway."))))
      else done (remove_phase (c ∷ target) normalized dir t roadmap state)
