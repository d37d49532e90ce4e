-- ===== src/Json.antt =====
-- `serde_json::Value` as the repository's code uses it. A number is carried by its literal, since
-- no code of the model computes with one; an object is the list of its entries in map order.
use singbox_sub_me.Prelude.{
  ℕ, suc, String, Bool, true, false, Option, none, some, str_eq, if◌then◌else◌,
}

mutual
  pub data Json : Type 0 where
    null : Json
    bool : Bool → Json
    number : String → Json
    text : String → Json
    array : Items → Json
    object : Fields → Json

  pub data Items : Type 0 where
    nil : Items
    cons : Json → Items → Items

  pub data Fields : Type 0 where
    end : Fields
    field : String → Json → Fields → Fields

abbrev pub is_array : Json → Bool
is_array (array _) = true
is_array _ = false

abbrev pub is_object : Json → Bool
is_object (object _) = true
is_object _ = false

-- `Vec::extend`
abbrev pub extend : Items → Items → Items
extend nil ys = ys
extend (cons x xs) ys = cons x (extend xs ys)

abbrev pub length : Items → ℕ
length nil = 0
length (cons _ xs) = suc (length xs)

-- `Map::get`
unfoldable pub get : String → Fields → Option Json
get k end = none
get k (field j v fs) = if str_eq j k then some v else get k fs

-- `Map::get_mut` followed by a write through the reference, or `Map::insert` where there is none.
unfoldable pub upsert : String → (Json → Json) → Json → Fields → Fields
upsert k change new end = field k new end
upsert k change new (field j v fs) =
    if str_eq j k then field j (change v) fs else field j v (upsert k change new fs)

-- `Value::get` by a key: none on anything but an object.
abbrev pub member : String → Json → Option Json
member k (object fs) = get k fs
member k _ = none

abbrev pub as_str : Json → Option String
as_str (text s) = some s
as_str _ = none

abbrev pub as_bool : Json → Option Bool
as_bool (bool b) = some b
as_bool _ = none

-- `Map::insert`
abbrev pub insert : String → Json → Fields → Fields
insert k v fs = upsert k (λ _. v) v fs

-- `value[key]` as a place that `change` writes: a missing key starts as null, null turns into an
-- object, and any other value panics, which is `none`.
unfoldable pub index_mut : String → (Json → Option Json) → Json → Option Json
index_mut k change (object fs) = elim (change (elim (get k fs) [ none ↦ null | some v ↦ v ])) [
  | none ↦ none
  | some v ↦ some (object (insert k v fs))
]
index_mut k change null = elim (change null) [
  | none ↦ none
  | some v ↦ some (object (field k v end))
]
index_mut k change _ = none
