-- ===== src/Phase/Rename.antt =====
-- .opencode/get-shit-done/bin/lib/phase.cjs: `renameDecimalPhases` and `renameIntegerPhases`, on the
-- tree of the phase directories and their files.
use mikmongo.Base.{
  ℕ, ◌-◌, false, not, Option, none, some, List, [], ◌∷◌, ◌++◌, map, ltb, ◌==◌, if◌then◌else◌,
  length, drop, keep,
}
use Prim.Native.Nat.{compare, Ordering}
use mikmongo.Text.{
  Text, codes, equal, starts_with, includes, replace_first, pad_start, parse_int, is_letter,
  to_upper,
}
use mikmongo.Regex.{Regex, find, text_of, group_of, lit, word, some_line, digits, maybe, ◌⨟◌}
use mikmongo.Sort.{sort}
use mikmongo.PhaseNum.{compare_phase_num}
use mikmongo.State.Command.{show_nat}

-- A directory below `phases` and the names of its files.
pub record Dir : Type 0 where
  pub name : Text
  pub files : List Text

abbrev pub Tree : Type 0
Tree = List Dir

unfoldable pub files_in : Text → Tree → Option (List Text)
unfolding equal
files_in name [] = none
files_in name (d ∷ ds) =
    let rest = files_in name ds in if equal d.name name then some d.files else rest

abbrev pub without : Text → Tree → Tree
without name t = keep (λ d. not (equal d.name name)) t

abbrev renamed : Text → Text → Dir → Dir
renamed old new d = if equal d.name old then record d { name = new } else d

-- `fs.renameSync(old, new)` of a directory: `none` if it throws, because there is no such directory, or
-- because another one of the new name is not empty.
unfoldable pub rename_dir : Text → Text → Tree → Option Tree
unfolding files_in equal
rename_dir old new t =
    if equal old new
    then elim (files_in old t) [ none ↦ none | some fs ↦ some t ]
    else elim (files_in old t) [
      | none ↦ none
      | some fs ↦ elim (files_in new t) [
        | none ↦ some (map (renamed old new) t)
        | some [] ↦ some (map (renamed old new) (without new t))
        | some (f ∷ gs) ↦ none
      ]
    ]

-- `fs.renameSync(old, new)` of a file in a directory: a file of the new name is replaced.
unfoldable pub rename_file : Text → Text → List Text → List Text
unfolding equal
rename_file old new fs =
    if equal old new
    then fs
    else map (λ f. if equal f old then new else f) (keep (λ f. not (equal f new)) fs)

abbrev pub in_dir : Text → (List Text → List Text) → Tree → Tree
in_dir name change t =
    map (λ d. if equal d.name name then record d { files = change d.files } else d) t

abbrev pub Pair : Type 0
Pair = Text × Text

-- The tree and what has been renamed in it.
pub record Renames : Type 0 where
  pub tree : Tree
  pub dirs : List Pair
  pub files : List Pair

-- The files of a directory that are renamed, by a function to the new names.
unfoldable pub rename_files : Text → (Text → Option Text) → List Text → Renames → Renames
unfolding rename_file
rename_files dir to [] r = r
rename_files dir to (f ∷ fs) r = elim (to f) [
  | none ↦ rename_files dir to fs r
  | some g ↦ rename_files dir to fs (record {
    tree = in_dir dir (rename_file f g) r.tree;
    dirs = r.dirs;
    files = r.files ++ (f, g) ∷ [];
  })
]

-- A directory to be renamed: its name, its new name, and the new names of its files.
pub record Job : Type 0 where
  pub from_dir : Text
  pub to_dir : Text
  pub to_file : Text → Option Text

abbrev files_of : Option (List Text) → List Text
files_of none = []
files_of (some fs) = fs

-- What a loop over the jobs leaves: the tree, and the lists of the names, which are lost when a call
-- throws.
pub data Outcome : Type 0 where
  finished : Renames → Outcome
  thrown : Tree → Outcome

unfoldable pub rename_all : List Job → Renames → Outcome
unfolding rename_dir rename_files files_in
rename_all [] r = finished r
rename_all (j ∷ js) r = elim (rename_dir j.from_dir j.to_dir r.tree) [
  | none ↦ thrown r.tree
  | some t ↦ rename_all js (
      rename_files j.to_dir j.to_file (files_of (files_in j.to_dir t))
        (record { tree = t; dirs = r.dirs ++ (j.from_dir, j.to_dir) ∷ []; files = r.files }))
]

abbrev pub unrenamed : Tree → Renames
unrenamed t = record { tree = t; dirs = []; files = [] }

-- The order of numbers that puts the greater one first.
abbrev pub descending : ℕ → ℕ → Ordering
descending a b = compare b a

pub record DecimalDir : Type 0 where
  pub dir : Text
  pub old_decimal : ℕ
  pub slug : Text

-- `^base\.(\d+)-(.+)$`, for a base without special characters.
abbrev pub decimal_pattern : Text → Regex
decimal_pattern base =
    Regex.bol false
    ⨟ lit base
    ⨟ word "."
    ⨟ Regex.group 1 digits
    ⨟ word "-"
    ⨟ Regex.group 2 some_line
    ⨟ Regex.eol false

unfoldable pub decimal_dirs : Text → ℕ → List Text → List DecimalDir
unfolding find text_of parse_int
decimal_dirs base removed [] = []
decimal_dirs base removed (dir ∷ dirs) =
    let rest = decimal_dirs base removed dirs in
    elim (find (decimal_pattern base) dir) [
      | none ↦ rest
      | some m ↦
          let n = parse_int (text_of 1 m) in
          if ltb removed n
          then record { dir = dir; old_decimal = n; slug = text_of 2 m } ∷ rest
          else rest
    ]

abbrev phase_id : Text → ℕ → Text
phase_id base n = base ++ (codes "." ++ show_nat n)

unfoldable pub decimal_job : Text → DecimalDir → Job
unfolding includes replace_first show_nat
decimal_job base d = record {
  from_dir = d.dir;
  to_dir = phase_id base (d.old_decimal - 1) ++ (codes "-" ++ d.slug);
  to_file = λ f.
      if includes f (phase_id base d.old_decimal)
      then some (replace_first (phase_id base d.old_decimal) (phase_id base (d.old_decimal - 1)) f)
      else none;
}

unfoldable pub decimal_jobs : Text → ℕ → List Text → List Job
unfolding decimal_dirs decimal_job
decimal_jobs base removed dirs =
    map (decimal_job base)
      (sort (λ a b. descending a.old_decimal b.old_decimal) (decimal_dirs base removed dirs))

pub record IntegerDir : Type 0 where
  pub dir : Text
  pub old_int : ℕ
  pub letter : Text
  pub decimal : Option ℕ
  pub slug : Text

-- `/^(\d+)([A-Z])?(?:\.(\d+))?-(.+)$/i`
abbrev pub integer_pattern : Regex
integer_pattern =
    Regex.bol false
    ⨟ Regex.group 1 digits
    ⨟ maybe (Regex.group 2 (Regex.test is_letter))
    ⨟ maybe (word "." ⨟ Regex.group 3 digits)
    ⨟ word "-"
    ⨟ Regex.group 4 some_line
    ⨟ Regex.eol false

abbrev number_in : Option Text → Option ℕ
number_in none = none
number_in (some s) = some (parse_int s)

unfoldable pub integer_dirs : ℕ → List Text → List IntegerDir
unfolding find text_of group_of parse_int to_upper
integer_dirs removed [] = []
integer_dirs removed (dir ∷ dirs) =
    let rest = integer_dirs removed dirs in
    elim (find integer_pattern dir) [
      | none ↦ rest
      | some m ↦
          let n = parse_int (text_of 1 m) in
          if ltb removed n
          then record {
            dir = dir;
            old_int = n;
            letter = map to_upper (text_of 2 m);
            decimal = number_in (group_of 3 m.groups);
            slug = text_of 4 m;
          }
            ∷ rest
          else rest
    ]

abbrev or_zero : Option ℕ → ℕ
or_zero none = 0
or_zero (some n) = n

abbrev integer_order : IntegerDir → IntegerDir → Ordering
integer_order a b =
    if a.old_int == b.old_int
    then descending (or_zero a.decimal) (or_zero b.decimal)
    else descending a.old_int b.old_int

abbrev decimal_suffix : Option ℕ → Text
decimal_suffix none = []
decimal_suffix (some n) = codes "." ++ show_nat n

-- `String(n).padStart(2, '0')`
abbrev pub padded : ℕ → Text
padded n = pad_start (show_nat n) 2 b'0'

abbrev prefix : ℕ → IntegerDir → Text
prefix n d = padded n ++ (d.letter ++ decimal_suffix d.decimal)

unfoldable pub integer_job : IntegerDir → Job
unfolding starts_with pad_start show_nat
integer_job d =
    let old = prefix d.old_int d in
    let new = prefix (d.old_int - 1) d in
    record {
      from_dir = d.dir;
      to_dir = new ++ (codes "-" ++ d.slug);
      to_file = λ f. if starts_with f old then some (new ++ drop (length old) f) else none;
    }

unfoldable pub integer_jobs : ℕ → List Text → List Job
unfolding integer_dirs integer_job
integer_jobs removed dirs = map integer_job (sort integer_order (integer_dirs removed dirs))

module _ (locale_compare : Text → Text → Ordering) where
  abbrev pub dir_names : Tree → List Text
  dir_names t = sort (compare_phase_num locale_compare) (map (λ d. d.name) t)

  -- `renameDecimalPhases(phasesDir, baseInt, removedDecimal)`
  unfoldable pub rename_decimal_phases : Text → ℕ → Tree → Outcome
  unfolding decimal_jobs rename_all
  rename_decimal_phases base removed t =
      rename_all (decimal_jobs base removed (dir_names t)) (unrenamed t)

  -- `renameIntegerPhases(phasesDir, removedInt)`
  unfoldable pub rename_integer_phases : ℕ → Tree → Outcome
  unfolding integer_jobs rename_all
  rename_integer_phases removed t = rename_all (integer_jobs removed (dir_names t)) (unrenamed t)
