-- ===== src/Config/Commands.antt =====
-- What `config-set` writes, `config-get` reads.
use mikmongo.Base.{
  ℕ, ◌≡◌, refl, inl, inr, true, false, Option, none, some, Bool, [], ◌∷◌, arith, Bool-cases,
  Option-cases, any, In,
}
use mikmongo.Text.{Text, equal, starts_with, split}
use mikmongo.Text.Laws.{any-In}
use mikmongo.Json.{
  Json, Items, Fields, holds, null, bool, num, str, arr, obj, nil, cons, end, field,
}
use mikmongo.Config.{
  is_valid_config_key, renamed_keys, ok, set_path, set_config_value, config_get, config_set,
  parse_value, written_value, written_items, written_fields, set_found,
}
use mikmongo.Config.Access.{IsOpen, Apart, set_path-read_path, set_path-frame}

-- A key of an earlier version is no valid key.
renamed-invalid : (k : Text) → In k renamed_keys → is_valid_config_key k ≡ false
unfolding is_valid_config_key equal starts_with
renamed-invalid k (inl e) = rw e refl
renamed-invalid k (inr (inl e)) = rw e refl
renamed-invalid k (inr (inr (inl e))) = rw e refl
renamed-invalid k (inr (inr (inr (inl e)))) = rw e refl
renamed-invalid k (inr (inr (inr (inr (inl e))))) = rw e refl
renamed-invalid k (inr (inr (inr (inr (inr e))))) = absurd e

valid-current : (k : Text) → is_valid_config_key k ≡ true → any (equal k) renamed_keys ≡ false
valid-current k h = elim (Bool-cases (any (equal k) renamed_keys)) [
  | inl e ↦ cc (renamed-invalid k (any-In k renamed_keys e))
  | inr e ↦ e
]

-- What is read from the text of a value: a number as its text is read, null in place of an infinite
-- one, and the same value otherwise, with its parts read likewise.
mutual
  pub data IsRead {N : Type 0} (write_number : N → Option N) : Json N → Json N → Type 0 where
    finite : (n m : N) → write_number n ≡ some m → IsRead write_number (num n) (num m)
    infinite : (n : N) → write_number n ≡ none → IsRead write_number (num n) null
    same_null : IsRead write_number null null
    same_bool : (b : Bool) → IsRead write_number (bool b) (bool b)
    same_text : (t : Text) → IsRead write_number (str t) (str t)
    listed : (xs ys : Items N) → AreRead write_number xs ys → IsRead write_number (arr xs) (arr ys)
    keyed : (o p : Fields N) → AreKept write_number o p → IsRead write_number (obj o) (obj p)

  pub data AreRead {N : Type 0} (write_number : N → Option N) : Items N → Items N → Type 0 where
    no_items : AreRead write_number nil nil
    one_item :
        (v w : Json N) (xs ys : Items N)
        → IsRead write_number v w
        → AreRead write_number xs ys
        → AreRead write_number (cons v xs) (cons w ys)

  pub data AreKept {N : Type 0} (write_number : N → Option N) : Fields N → Fields N → Type 0 where
    no_fields : AreKept write_number end end
    one_field :
        (key : Text) (v w : Json N) (o p : Fields N)
        → IsRead write_number v w
        → AreKept write_number o p
        → AreKept write_number (field key v o) (field key w p)

module _ {N : Type 0} (write_number : N → Option N) where
  mutual
    unfolding written_value written_items written_fields

    written_value-IsRead : (v : Json N) → IsRead write_number v (written_value write_number v)
    written_value-IsRead (num n) = elim (Option-cases (write_number n)) [
      | inl e ↦ rw (written_value, e) (infinite n e)
      | inr (m, e) ↦ rw (written_value, e) (finite n m e)
    ]
    written_value-IsRead (arr xs) = listed xs _ (written_items-AreRead xs)
    written_value-IsRead (obj o) = keyed o _ (written_fields-AreKept o)
    written_value-IsRead null = same_null
    written_value-IsRead (bool b) = same_bool b
    written_value-IsRead (str t) = same_text t

    written_items-AreRead : (xs : Items N) → AreRead write_number xs (written_items write_number xs)
    written_items-AreRead nil = no_items
    written_items-AreRead (cons v xs) =
        one_item v _ xs _ (written_value-IsRead v) (written_items-AreRead xs)

    written_fields-AreKept : (o : Fields N) → AreKept write_number o (written_fields write_number o)
    written_fields-AreKept end = no_fields
    written_fields-AreKept (field key v o) =
        one_field key v _ o _ (written_value-IsRead v) (written_fields-AreKept o)

module _ {N : Type 0} (number : Text → Option N) (parse_json : Text → Option (Json N))
    (write_number : N → Option N) where
  -- Setting a valid key succeeds when every value on its way is an object, or is missing or plain
  -- below one, and reading the key from the new file gives what is read from the text of the value:
  -- the value itself, but null for a number in it that has no text.
  pub config_set-config_get :
      (j : Json N) (c : ℕ) (key value : Text)
      → is_valid_config_key (c ∷ key) ≡ true
      → IsOpen (split b'.' (c ∷ key)) j
      → (j' w : Json N) × (config_set number parse_json write_number (holds j) (c ∷ key) value
          ≡ ok j')
        × (config_get (holds j') (c ∷ key) ≡ ok w)
        × IsRead write_number (parse_value number parse_json value) w
  unfolding config_set set_config_value config_get
  config_set-config_get j c key value valid way =
      let v = parse_value number parse_json value in
      let w = written_value write_number v in
      let (j', s, r) = set_path-read_path (split b'.' (c ∷ key)) w j way in
      (
        j',
        w,
        rw (valid-current (c ∷ key) valid, valid, s) refl,
        rw r refl,
        written_value-IsRead write_number v,
      )

  set_config_value-set_path :
      (j v j' : Json N) (key : Text)
      → set_config_value write_number (holds j) key v ≡ ok j'
      → set_path (split b'.' key) (written_value write_number v) j ≡ some j'
  unfolding set_config_value set_found
  set_config_value-set_path j v j' key h =
      elim (Option-cases (set_path (split b'.' key) (written_value write_number v) j)) [
        | inl e ↦ cc (rw e at h)
        | inr (w, e) ↦ cc (rw e at h)
      ]

  config_set-set_path :
      (j j' : Json N) (key value : Text)
      → config_set number parse_json write_number (holds j) key value ≡ ok j'
      → set_path
          (split b'.' key)
          (written_value write_number (parse_value number parse_json value))
          j
        ≡ some j'
  unfolding config_set
  config_set-set_path j j' key value h =
      set_config_value-set_path j (parse_value number parse_json value) j' key (ground arith)

  -- A value that is set changes no value whose path parts from its own.
  pub config_set-frame :
      (j j' : Json N) (key value other : Text)
      → config_set number parse_json write_number (holds j) key value ≡ ok j'
      → Apart (split b'.' key) (split b'.' other)
      → config_get (holds j') other ≡ config_get (holds j) other
  unfolding config_set set_config_value config_get
  config_set-frame j j' key value [] h a = refl
  config_set-frame j j' key value (c ∷ other) h a =
      rw
        (set_path-frame (split b'.' key) (split b'.' (c ∷ other))
          (written_value write_number (parse_value number parse_json value)) j j' a
          (config_set-set_path j j' key value h))
        refl
