-- ===== src/Cli/Named.antt =====
-- What the object of named arguments holds.
use mikmongo.Base.{
  ◌≡◌, refl, sym, ap, ◌∙◌, ◌↔◌, inl, inr, true, false, Option, none, some, List, [], ◌∷◌, ◌++◌,
  arith, Bool-cases, any, In,
}
use mikmongo.Text.{Text, equal}
use mikmongo.Text.Laws.{equal_iff, equal_refl, differ, any-In, In-any}
use mikmongo.Json.{Fields, bool, str, end, get}
use mikmongo.Json.Laws.{get-put_self, get-put_other}
use mikmongo.Cli.{
  dashed, is_flag, behind, value_in, text_or_null, put_values, put_booleans, parse_named_args,
}

-- The first occurrence of the flag in the arguments, with `v` as its value behind it.
pub record IsGiven (args : List Text) (flag v : Text) : Type 0 where
  pub before : List Text
  pub after : List Text
  pub splits : args ≡ before ++ dashed flag ∷ v ∷ after
  pub first : any (equal (dashed flag)) before ≡ false
  pub no_flag : is_flag v ≡ false

equal_sym : (s t : Text) → equal s t ≡ equal t s
equal_sym s t = ground (arith, equal_iff s t, equal_iff t s)

pub behind-splits :
    (arg : Text) (args rest : List Text)
    → behind arg args ≡ some rest
    → (before : List Text) × (args ≡ before ++ arg ∷ rest) × (any (equal arg) before ≡ false)
unfolding behind
behind-splits arg [] rest h = cc
behind-splits arg (a ∷ args) rest h = elim (Bool-cases (equal a arg)) [
  | inl e ↦
      let same : a ≡ arg = (equal_iff a arg).0 e in
      let r : args ≡ rest = cc (rw e at h) in ([], rw (same, r) refl, refl)
  | inr e ↦
      let (before, splits, first) = behind-splits arg args rest (rw e at h) in
      (a ∷ before, ap (λ x. a ∷ x) splits, rw (equal_sym arg a, e) first)
]

pub behind-first :
    (arg : Text) (before rest : List Text)
    → any (equal arg) before ≡ false
    → behind arg (before ++ arg ∷ rest) ≡ some rest
unfolding behind
behind-first arg [] rest h = rw (equal_refl arg) refl
behind-first arg (a ∷ before) rest h =
    let n : equal arg a ≡ false = ground arith in
    let m : any (equal arg) before ≡ false = ground arith in
    rw (equal_sym a arg, n) (behind-first arg before rest m)

value_in-head :
    (m : Option (List Text)) (v : Text)
    → value_in m ≡ some v
    → (after : List Text) × (m ≡ some (v ∷ after)) × (is_flag v ≡ false)
unfolding value_in
value_in-head none v h = cc
value_in-head (some []) v h = cc
value_in-head (some (w ∷ args)) v h = elim (Bool-cases (is_flag w)) [
  | inl e ↦ cc (rw e at h)
  | inr e ↦ let same : w ≡ v = cc (rw e at h) in (args, rw same refl, rw (← same) e)
]

value_in_of_IsGiven :
    (args : List Text) (flag v : Text)
    → IsGiven args flag v
    → value_in (behind (dashed flag) args) ≡ some v
unfolding value_in
value_in_of_IsGiven args flag v g =
    rw (g.splits, behind-first (dashed flag) g.before (v ∷ g.after) g.first, g.no_flag) refl

pub value_in_iff :
    (args : List Text) (flag v : Text)
    → (value_in (behind (dashed flag) args) ≡ some v) ↔ IsGiven args flag v
value_in_iff args flag v = (
  λ h.
      let (after, b, n) = value_in-head (behind (dashed flag) args) v h in
      let (before, splits, first) = behind-splits (dashed flag) args (v ∷ after) b in
      record { before = before; after = after; splits = splits; first = first; no_flag = n },
  λ g. value_in_of_IsGiven args flag v g,
)

module _ {N : Type 0} where
  put_values-other :
      (args flags : List Text) (flag : Text) (o : Fields N)
      → any (equal flag) flags ≡ false
      → get flag (put_values args flags o) ≡ get flag o
  unfolding put_values
  put_values-other args [] flag o h = refl
  put_values-other args (f ∷ flags) flag o h =
      put_values-other args flags flag _ (ground arith)
      ∙ get-put_other f flag _ o (differ flag f (ground arith))

  put_booleans-other :
      (args flags : List Text) (flag : Text) (o : Fields N)
      → any (equal flag) flags ≡ false
      → get flag (put_booleans args flags o) ≡ get flag o
  unfolding put_booleans
  put_booleans-other args [] flag o h = refl
  put_booleans-other args (f ∷ flags) flag o h =
      put_booleans-other args flags flag _ (ground arith)
      ∙ get-put_other f flag _ o (differ flag f (ground arith))

  put_values-own :
      (args flags : List Text) (flag : Text) (o : Fields N)
      → In flag flags
      → get flag (put_values args flags o)
        ≡ some (text_or_null (value_in (behind (dashed flag) args)))
  unfolding put_values
  put_values-own args [] flag o i = absurd i
  put_values-own args (f ∷ flags) flag o (inr i) = put_values-own args flags flag _ i
  put_values-own args (f ∷ flags) flag o (inl e) = elim (Bool-cases (any (equal flag) flags)) [
    | inl g ↦ put_values-own args flags flag _ (any-In flag flags g)
    | inr g ↦ put_values-other args flags flag _ g ∙ rw e (get-put_self f _ o)
  ]

  put_booleans-own :
      (args flags : List Text) (flag : Text) (o : Fields N)
      → In flag flags
      → get flag (put_booleans args flags o) ≡ some (bool (any (equal (dashed flag)) args))
  unfolding put_booleans
  put_booleans-own args [] flag o i = absurd i
  put_booleans-own args (f ∷ flags) flag o (inr i) = put_booleans-own args flags flag _ i
  put_booleans-own args (f ∷ flags) flag o (inl e) = elim (Bool-cases (any (equal flag) flags)) [
    | inl g ↦ put_booleans-own args flags flag _ (any-In flag flags g)
    | inr g ↦ put_booleans-other args flags flag _ g ∙ rw e (get-put_self f _ o)
  ]

  text_or_null_iff :
      (m : Option Text) (v : Text) → (some (text_or_null {N = N} m) ≡ some (str v)) ↔ (m ≡ some v)
  text_or_null_iff none v = ((λ h. cc), (λ h. cc))
  text_or_null_iff (some w) v = ((λ h. cc), (λ h. cc))

  -- A flag with a value, that is not also one without, has the value `v` exactly if its first
  -- occurrence stands before `v` and `v` is no flag itself.
  pub parse_named_args-value :
      (args value_flags boolean_flags : List Text) (flag v : Text)
      → In flag value_flags
      → any (equal flag) boolean_flags ≡ false
      → (get flag (parse_named_args {N = N} args value_flags boolean_flags) ≡ some (str v))
        ↔ IsGiven args flag v
  unfolding parse_named_args
  parse_named_args-value args vs bs flag v i n =
      let own =
        put_booleans-other args bs flag (put_values args vs end) n
        ∙ put_values-own args vs flag end i in
      let (to, from) = text_or_null_iff (value_in (behind (dashed flag) args)) v in
      let (into, back) = value_in_iff args flag v in
      ((λ h. into (to (sym own ∙ h))), (λ g. own ∙ from (back g)))

  -- A flag without a value is true or false in the result, and true exactly if it occurs.
  pub parse_named_args-boolean :
      (args value_flags boolean_flags : List Text) (flag : Text)
      → In flag boolean_flags
      → (get flag (parse_named_args {N = N} args value_flags boolean_flags) ≡ some (bool true))
        ↔ In (dashed flag) args
  unfolding parse_named_args
  parse_named_args-boolean args vs bs flag i =
      let own = put_booleans-own args bs flag (put_values args vs end) i in
      ((λ h. any-In (dashed flag) args (cc)), (λ m. own ∙ rw (In-any (dashed flag) args m) refl))
