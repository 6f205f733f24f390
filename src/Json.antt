-- ===== src/Json.antt =====
-- JSON values as `JSON.parse` builds them, over a type `N` for the numbers of JavaScript. An object
-- is the list of its own properties in insertion order. A file that holds JSON is the value that
-- `JSON.parse` gives for it, so writing `JSON.stringify(v)` leaves the value `v`.
pub mod Laws
use mikmongo.Base.{Bool, false, not, Option, none, some, if◌then◌else◌}
use mikmongo.Text.{Text, equal}

mutual
  pub data Json (N : Type 0) : Type 0 where
    null : Json N
    bool : Bool → Json N
    num : N → Json N
    str : Text → Json N
    arr : Items N → Json N
    obj : Fields N → Json N

  pub data Items (N : Type 0) : Type 0 where
    nil : Items N
    cons : Json N → Items N → Items N

  pub data Fields (N : Type 0) : Type 0 where
    end : Fields N
    field : Text → Json N → Fields N → Fields N

-- A JSON file: missing, or not JSON, or a value.
pub data JsonFile (N : Type 0) : Type 0 where
  absent : JsonFile N
  malformed : JsonFile N
  holds : Json N → JsonFile N

module _ {N : Type 0} where
  -- `o[key]` on own properties; `none` is `undefined`.
  unfoldable pub get : Text → Fields N → Option (Json N)
  get key end = none
  get key (field k v o) = if equal k key then some v else get key o

  -- `o[key] = v`
  unfoldable pub put : Text → Json N → Fields N → Fields N
  put key v end = field key v end
  put key v (field k w o) = if equal k key then field k v o else field k w (put key v o)

  -- `delete o[key]`
  unfoldable pub remove : Text → Fields N → Fields N
  remove key end = end
  remove key (field k w o) = let rest = remove key o in if equal k key then rest else field k w rest

  -- `{ ...a, ...b }`
  unfoldable pub spread : Fields N → Fields N → Fields N
  spread a end = a
  spread a (field k v b) = spread (put k v a) b

  -- The properties that `typeof v === 'object'` values have: those of an object. The properties of
  -- an array are its indices, which no key of the program names.
  unfoldable pub fields_of : Json N → Fields N
  fields_of (obj o) = o
  fields_of _ = end

  -- `v?.key` where `v` may be undefined.
  unfoldable pub member : Option (Json N) → Text → Option (Json N)
  unfolding fields_of get
  member none key = none
  member (some v) key = get key (fields_of v)

  -- `v === true` and `v === false`
  unfoldable pub is_bool : Bool → Option (Json N) → Bool
  is_bool b (some (bool c)) = if b then c else not c
  is_bool b _ = false
