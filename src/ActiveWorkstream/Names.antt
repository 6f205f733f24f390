-- ===== src/ActiveWorkstream/Names.antt =====
-- Setting the active workstream and reading it.
use mikmongo.Base.{
  ℕ, ◌≡◌, refl, inl, inr, Bool, true, false, not, ◌&&◌, Option, none, some, [], ◌∷◌, ◌++◌, arith,
  if◌then◌else◌, Bool-cases, is_empty, all,
}
use mikmongo.Text.{
  Text, codes, is_alnum, trim, trim_start, trim_end, is_space, is_digit, is_letter, is_upper,
  is_lower,
}
use mikmongo.ActiveWorkstream.{
  name_unit, is_name, written, set_active_workstream, get_active_workstream,
}

name_unit-no_space : (c : ℕ) → name_unit c ≡ true → is_space c ≡ false
unfolding is_alnum is_digit is_letter is_upper is_lower is_space
name_unit-no_space c h = ground arith

trim_end-name : (s : Text) → all name_unit s ≡ true → trim_end (s ++ codes "\n") ≡ s
unfolding trim_end
trim_end-name [] h = refl
trim_end-name (c ∷ s) h =
    rw (trim_end-name s (ground arith), name_unit-no_space c (ground arith)) refl

trim-name : (c : ℕ) (s : Text) → all name_unit (c ∷ s) ≡ true → trim ((c ∷ s) ++ codes "\n") ≡ c ∷ s
unfolding trim trim_start
trim-name c s h = rw (name_unit-no_space c (ground arith)) (trim_end-name (c ∷ s) h)

-- A name that is set is the active workstream afterwards if its directory exists, and none is if it
-- does not; a name that is not set leaves the file.
pub set_active_workstream-get :
    (name : Text) (file : Option Text) (exists : Text → Bool)
    → set_active_workstream name ≡ written file
    → get_active_workstream file exists
      ≡ (if not (is_empty name) && exists name then some name else none)
unfolding set_active_workstream get_active_workstream is_name
set_active_workstream-get [] file exists h = let same : none ≡ file = cc in rw (← same) refl
set_active_workstream-get (c ∷ s) file exists h = elim (Bool-cases (all name_unit (c ∷ s))) [
  | inl e ↦
      let same : some ((c ∷ s) ++ codes "\n") ≡ file =
        cc (rw (set_active_workstream, is_name, e) at h) in
      rw (← same) (rw (get_active_workstream, trim-name c s e, is_name, e) refl)
  | inr e ↦ cc (rw (set_active_workstream, is_name, e) at h)
]

pub set-name :
    (name : Text)
    → is_name name ≡ true
    → set_active_workstream name ≡ written (some (name ++ codes "\n"))
unfolding set_active_workstream is_name
set-name [] h = cc
set-name (c ∷ s) h = rw h refl

pub name-full : (name : Text) → is_name name ≡ true → is_empty name ≡ false
unfolding is_name
name-full [] h = cc
name-full (c ∷ s) h = refl
