-- ===== src/Cli/Options/Workstream.antt =====
-- The workstream that a command runs in names one directory.
use mikmongo.Base.{
  ℕ, ◌≡◌, refl, sym, ap, ◌∙◌, ◌≢◌, inl, inr, Bool, true, false, Option, none, some, List, [], ◌∷◌,
  arith, Bool-cases, is_empty, all,
}
use mikmongo.Text.{Text, codes, is_alnum, is_digit, is_letter, is_upper, is_lower}
use mikmongo.Security.Paths.Segments.{IsPlain, NoSlash}
use mikmongo.Cli.Options.{
  Place, directory_of, Parsed, ok, failed, Options, and_then, ws_unit, ws_allowed, with_command,
  chosen_ws, take_option, later_options, parse_options,
}

ws_units-NoSlash : (w : Text) → all ws_unit w ≡ true → NoSlash w
unfolding is_alnum is_digit is_letter is_upper is_lower
ws_units-NoSlash [] h = tt
ws_units-NoSlash (c ∷ w) h = (ground arith, ws_units-NoSlash w (ground arith))

dots-refused :
    (dots : Text)
    → ws_allowed (some dots) ≡ false
    → (w : Text) → ws_allowed (some w) ≡ true
    → w ≢ dots
dots-refused dots n w h e = let k : ws_allowed (some dots) ≡ true = rw e at h in cc

-- The workstream of a result.
abbrev ws_of : Parsed Options → Option Text
ws_of (ok o) = o.ws
ws_of (failed e) = none

with_command-ws :
    (cwd : Text) (ws : Option Text) (raw : Bool) (pick : Option Text) (args : List Text)
    (o : Options)
    → with_command cwd ws raw pick args ≡ ok o
    → o.ws ≡ ws
with_command-ws cwd ws raw pick [] o h = cc
with_command-ws cwd ws raw pick (command ∷ args) o h = elim (Bool-cases (is_empty command)) [
  | inl e ↦ cc (rw e at h)
  | inr e ↦ ap (λ (r : Parsed Options). ws_of r) (sym (rw e at h))
]

ws_allowed-IsPlain : (c : ℕ) (w : Text) → ws_allowed (some (c ∷ w)) ≡ true → IsPlain (c ∷ w)
unfolding ws_allowed is_alnum is_digit is_letter is_upper is_lower
ws_allowed-IsPlain c w h = (
  ws_units-NoSlash (c ∷ w) h,
  (λ e. cc),
  dots-refused (codes ".") refl (c ∷ w) h,
  dots-refused (codes "..") refl (c ∷ w) h,
)

and_then-ok :
    {A B : Type 0} (p : Parsed A) (f : A → Parsed B) (b : B)
    → and_then p f ≡ ok b
    → (a : A) × (p ≡ ok a) × (f a ≡ ok b)
unfolding and_then
and_then-ok (ok a) f b h = (a, refl, h)
and_then-ok (failed e) f b h = cc

later_options-ws :
    (cwd : Text) (ws : Option Text) (args : List Text) (o : Options)
    → later_options cwd ws args ≡ ok o
    → o.ws ≡ ws
unfolding later_options
later_options-ws cwd ws args o h =
    let ((pick, rest), e, f) = and_then-ok _ _ o h in with_command-ws cwd ws _ pick rest o f

-- Whatever the command line, the environment and the file say, a workstream that is accepted, and is
-- not empty, is one plain segment of a path.
pub parse_options-IsPlain :
    (place : Place) (args : List Text) (env : Option Text) (o : Options) (c : ℕ) (w : Text)
    → parse_options place args env ≡ ok o
    → o.ws ≡ some (c ∷ w)
    → IsPlain (c ∷ w)
unfolding parse_options
parse_options-IsPlain place args env o c w h s =
    let ((value, rest), e, f) = and_then-ok (take_option (codes "cwd") args) _ o h in
    let (cwd, d, i) = and_then-ok (directory_of place value) _ o f in
    let ((given, more), g, k) = and_then-ok (take_option (codes "ws") rest) _ o i in
    let ws = chosen_ws given env (place.active cwd) in
    elim (Bool-cases (ws_allowed ws)) [
      | inl a ↦
          let same = later_options-ws cwd ws more o (rw a at k) in
          ws_allowed-IsPlain c w (rw (sym same ∙ s) at a)
      | inr a ↦ cc (rw a at k)
    ]
