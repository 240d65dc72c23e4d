-- ===== src/Json.antt =====
-- What `JSON.parse` gives, and the reads of it that the launcher makes. The numbers are the natural
-- ones; the entries of an object stand in their order.
use kaede.Prelude.{String, ℕ, Bool, Option, none, some, str_eq, if◌then◌else◌}

mutual
  pub data Json : Type 0 where
    null : Json
    bool : Bool → Json
    number : ℕ → Json
    text : String → Json
    array : Items → Json
    object : Fields → Json

  pub data Items : Type 0 where
    nil : Items
    cons : Json → Items → Items

  pub data Fields : Type 0 where
    end : Fields
    field : String → Json → Fields → Fields

-- of an object, the value of the last entry with the key
unfoldable pub read : String → Fields → Option Json
read key end = none
read key (field name value fields) = elim (read key fields) [
  | some later ↦ some later
  | none ↦ if str_eq name key then some value else none
]

-- `json?.key`, where `undefined` is `none`
abbrev pub member : String → Option Json → Option Json
member key (some (object fields)) = read key fields
member key _ = none

-- `json?.[0]`
abbrev pub first_item : Option Json → Option Json
first_item (some (array (cons item items))) = some item
first_item _ = none

-- a value whose `typeof` is "string" or "number"
abbrev pub as_text : Option Json → Option String
as_text (some (text s)) = some s
as_text _ = none

abbrev pub as_number : Option Json → Option ℕ
as_number (some (number n)) = some n
as_number _ = none
