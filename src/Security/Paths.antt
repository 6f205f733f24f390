-- ===== src/Security/Paths.antt =====
-- `validatePath` and `requireSafePath` of .opencode/get-shit-done/bin/lib/security.cjs, with the
-- functions of `path` on POSIX. An absolute normalised path is the list of its segments, from the
-- root down. `realpath` is `fs.realpathSync`, a parameter; `none` is its exception.
pub mod Segments
pub mod Containment
use mikmongo.Base.{
  Bool, false, not, ◌&&◌, ◌||◌, Option, none, some, List, [], ◌∷◌, ◌++◌, ◌==◌, if◌then◌else◌,
  is_empty, any,
}
use mikmongo.Text.{Text, codes, equal, split, starts_with}

abbrev pub Segs : Type 0
Segs = List Text

unfoldable pub drop_last : Segs → Segs
drop_last [] = []
drop_last (s ∷ []) = []
drop_last (s ∷ t ∷ ss) = s ∷ drop_last (t ∷ ss)

-- `path.basename`, as the segments that it adds: none at the root.
unfoldable pub last_only : Segs → Segs
last_only [] = []
last_only (s ∷ []) = s ∷ []
last_only (s ∷ t ∷ ss) = last_only (t ∷ ss)

-- One segment of a path that is being resolved.
unfoldable pub enter : Segs → Text → Segs
unfolding drop_last
enter at part =
    if is_empty part || equal part (codes ".")
    then at
    else if equal part (codes "..")
    then drop_last at
    else at ++ part ∷ []

enter_all : Segs → List Text → Segs
enter_all at [] = at
enter_all at (part ∷ parts) = enter_all (enter at part) parts

-- `path.isAbsolute(p)`
abbrev pub is_absolute : Text → Bool
is_absolute [] = false
is_absolute (c ∷ p) = c == b'/'

-- `path.resolve(from, p)`
unfoldable pub resolve : Segs → Text → Segs
unfolding enter_all
resolve from p = enter_all (if is_absolute p then [] else from) (split b'/' p)

-- The text of a path below the root.
unfoldable pub render_below : Segs → Text
render_below [] = []
render_below (s ∷ ss) = b'/' ∷ (s ++ render_below ss)

-- The text of a path.
unfoldable pub render : Segs → Text
unfolding render_below
render [] = codes "/"
render (s ∷ ss) = render_below (s ∷ ss)

pub data PathError : Type 0 where
  empty_path empty_base null_bytes absolute escapes : PathError

pub data Validated : Type 0 where
  safe : Segs → Validated
  unsafe : PathError → Validated

abbrev or_else : Option Segs → Segs → Segs
or_else none d = d
or_else (some p) d = p

-- `path.join(realParent, path.basename(p))`, or `p` itself.
abbrev or_parent : Option Segs → Segs → Segs
or_parent none p = p
or_parent (some parent) p = parent ++ last_only p

-- `resolvedPath !== resolvedBase && !normalizedPath.startsWith(normalizedBase)`, negated.
unfoldable pub contained : Segs → Segs → Bool
contained base p =
    equal (render p) (render base) || starts_with (render p ++ codes "/") (render base ++ codes "/")

module _ (realpath : Segs → Option Segs) where
  -- The target with its symbolic links resolved, or those of its parent where it does not exist.
  unfoldable pub real_target : Segs → Segs
  real_target p = or_else (realpath p) (or_parent (realpath (drop_last p)) p)

  abbrev pub real_base : Segs → Segs
  real_base base = or_else (realpath base) base

  check_contained : Segs → Segs → Validated
  check_contained base p = if contained base p then safe p else unsafe escapes

  -- `validatePath(filePath, baseDir, { allowAbsolute })` in the working directory `cwd`.
  unfoldable pub validate_path : Segs → Text → Text → Bool → Validated
  unfolding check_contained
  validate_path cwd [] base_dir allow = unsafe empty_path
  validate_path cwd (c ∷ file) [] allow = unsafe empty_base
  validate_path cwd (c ∷ file) (d ∷ dir) allow =
      let base = resolve cwd (d ∷ dir) in
      if any (λ u. u == 0) (c ∷ file)
      then unsafe null_bytes
      else if is_absolute (c ∷ file) && not allow
      then unsafe absolute
      else check_contained (real_base base) (real_target (resolve base (c ∷ file)))
