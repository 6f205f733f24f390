-- ===== src/Config/Access.antt =====
-- Setting a value of the configuration and reading it again.
use mikmongo.Base.{
  ◌≡◌, refl, ◌∙◌, ◌⊎◌, inl, inr, false, Option, none, some, List, [], ◌∷◌, Option-cases,
}
use mikmongo.Text.{Text, equal}
use mikmongo.Json.{Json, Fields, null, bool, num, str, arr, obj, get, put, fields_of}
use mikmongo.Json.Laws.{get-put, get-put_self}
use mikmongo.Config.{child, set_member, set_path, read_path}

-- Two paths that part at some key.
abbrev pub Apart : List Text → List Text → Type 0
Apart (k ∷ ks) (l ∷ ls) = (equal k l ≡ false) ⊎ ((k ≡ l) × Apart ks ls)
Apart _ _ = ⊥

module _ {N : Type 0} where
  -- Every value on the way is an object, or missing or a plain value, which an object replaces.
  abbrev pub IsOpen : List Text → Json N → Type 0
  IsOpen [] j = Unit
  IsOpen (key ∷ []) j = (o : Fields N) × (j ≡ obj o)
  IsOpen (key ∷ next ∷ keys) j =
      (o : Fields N) × (j ≡ obj o) × IsOpen (next ∷ keys) (child (get key o))

  read_path-put :
      (key : Text) (keys : List Text) (w : Json N) (o : Fields N)
      → read_path (key ∷ keys) (obj (put key w o)) ≡ read_path keys w
  unfolding read_path fields_of
  read_path-put key keys w o = rw (read_path, get-put_self key w o) refl

  read_path-put_other :
      (key l : Text) (ls : List Text) (w : Json N) (o : Fields N)
      → equal key l ≡ false
      → read_path (l ∷ ls) (obj (put key w o)) ≡ read_path (l ∷ ls) (obj o)
  unfolding read_path fields_of
  read_path-put_other key l ls w o n = rw (read_path, get-put key l w o, n) refl

  pub set_path-read_path :
      (keys : List Text) (v j : Json N)
      → IsOpen keys j
      → (j' : Json N) × (set_path keys v j ≡ some j') × (read_path keys j' ≡ some v)
  unfolding set_path read_path
  set_path-read_path [] v j h = (v, refl, refl)
  set_path-read_path (key ∷ []) v j (o, e) =
      (obj (put key v o), rw e refl, read_path-put key [] v o)
  set_path-read_path (key ∷ next ∷ keys) v j (o, e, h) =
      let (w, s, r) = set_path-read_path (next ∷ keys) v (child (get key o)) h in
      (obj (put key w o), rw (e, set_path, s) refl, read_path-put key (next ∷ keys) w o ∙ r)

  found_below : Text → List Text → Option (Json N) → Option (Json N)
  found_below l ls none = none
  found_below l ls (some w) = read_path (l ∷ ls) w

  read_path-child :
      (l : Text) (ls : List Text) (m : Option (Json N))
      → read_path (l ∷ ls) (child m) ≡ found_below l ls m
  unfolding found_below read_path get fields_of child
  read_path-child l ls none = refl
  read_path-child l ls (some (obj o)) = refl
  read_path-child l ls (some (arr o)) = refl
  read_path-child l ls (some null) = refl
  read_path-child l ls (some (bool b)) = refl
  read_path-child l ls (some (num b)) = refl
  read_path-child l ls (some (str b)) = refl

  found_below-get :
      (k m : Text) (ls : List Text) (o : Fields N)
      → found_below m ls (get k o) ≡ read_path (k ∷ m ∷ ls) (obj o)
  unfolding found_below read_path fields_of
  found_below-get k m ls o = elim (Option-cases (get k o)) [
    | inl e ↦ rw (read_path, e) refl
    | inr (w, e) ↦ rw (read_path, e) refl
  ]

  -- The value below a key that was written.
  set_path-frame_deep :
      (k next : Text) (ks : List Text) (l : Text) (ls : List Text) (v : Json N) (o : Fields N)
      (w : Json N)
      → ((equal k l ≡ false)
          ⊎ ((k ≡ l) × (read_path ls w ≡ read_path ls (child (get k o))) × Apart (next ∷ ks) ls))
      → read_path (l ∷ ls) (obj (put k w o)) ≡ read_path (l ∷ ls) (obj o)
  set_path-frame_deep k next ks l ls v o w (inl n) = read_path-put_other k l ls w o n
  set_path-frame_deep k next ks l [] v o w (inr (e, r, a)) = absurd a
  set_path-frame_deep k next ks l (m ∷ ls) v o w (inr (e, r, a)) =
      rw (← e) (
        read_path-put k (m ∷ ls) w o
        ∙ r
        ∙ read_path-child m ls (get k o)
        ∙ found_below-get k m ls o)

  pub set_path-frame :
      (keys others : List Text) (v j j' : Json N)
      → Apart keys others
      → set_path keys v j ≡ some j'
      → read_path others j' ≡ read_path others j
  unfolding set_path
  set_path-frame [] others v j j' a h = absurd a
  set_path-frame (k ∷ []) [] v j j' a h = absurd a
  set_path-frame (k ∷ next ∷ ks) [] v j j' a h = absurd a
  set_path-frame (k ∷ []) (l ∷ ls) v j j' (inr (e, a)) h = absurd a
  set_path-frame (k ∷ []) (l ∷ ls) v (obj o) j' (inl n) h =
      let e : obj (put k v o) ≡ j' = cc in rw (← e) (read_path-put_other k l ls v o n)
  set_path-frame (k ∷ []) (l ∷ ls) v null j' (inl n) h = unfold set_path set_member in cc
  set_path-frame (k ∷ []) (l ∷ ls) v (bool b) j' (inl n) h =
      let e : bool b ≡ j' = cc in rw (← e) refl
  set_path-frame (k ∷ []) (l ∷ ls) v (num b) j' (inl n) h = let e : num b ≡ j' = cc in rw (← e) refl
  set_path-frame (k ∷ []) (l ∷ ls) v (str b) j' (inl n) h = let e : str b ≡ j' = cc in rw (← e) refl
  set_path-frame (k ∷ []) (l ∷ ls) v (arr b) j' (inl n) h = let e : arr b ≡ j' = cc in rw (← e) refl
  set_path-frame (k ∷ next ∷ ks) (l ∷ ls) v (obj o) j' a h =
      elim (Option-cases (set_path (next ∷ ks) v (child (get k o)))) [
        | inl e ↦ cc (rw (set_path, e) at h)
        | inr (w, e) ↦
            let same : obj (put k w o) ≡ j' = cc (rw (set_path, e) at h) in
            rw (← same) (
              set_path-frame_deep k next ks l ls v o w (elim a [
                | inl n ↦ inl n
                | inr (f, b) ↦ inr (f, set_path-frame (next ∷ ks) ls v (child (get k o)) w b e, b)
              ]))
      ]
  set_path-frame (k ∷ next ∷ ks) (l ∷ ls) v null j' a h = cc
  set_path-frame (k ∷ next ∷ ks) (l ∷ ls) v (bool b) j' a h = cc
  set_path-frame (k ∷ next ∷ ks) (l ∷ ls) v (num b) j' a h = cc
  set_path-frame (k ∷ next ∷ ks) (l ∷ ls) v (str b) j' a h = cc
  set_path-frame (k ∷ next ∷ ks) (l ∷ ls) v (arr b) j' a h =
      let e : arr b ≡ j' = cc in rw (← e) refl
