-- ===== src/Base/Json.antt =====
-- A value that JSON.parse() or a request body gives, with what the code asks of one.
use Prim.Native.String.{String}
use mathlib.Core.Bool.{Bool}
use mathlib.Core.List.{List, [], ◌∷◌}
use mathlib.Core.Option.{Option, none, some}
use msfslogger.Base.Tests.{if◌then◌else◌, str_eq}

mutual
  pub data Json (N : Type 0) : Type 0 where
    null : Json N
    bool : Bool → Json N
    num : N → Json N
    text : String → Json N
    arr : Items N → Json N
    obj : Fields N → Json N

  pub data Items (N : Type 0) : Type 0 where
    nil : Items N
    cons : Json N → Items N → Items N

  pub data Fields (N : Type 0) : Type 0 where
    end : Fields N
    field : String → Json N → Fields N → Fields N

module _ {N : Type 0} where
  -- `object[key]`; a missing property is undefined.
  abbrev pub get_field : String → Fields N → Option (Json N)
  get_field key end = none
  get_field key (field k v rest) =
      let found = get_field key rest in if str_eq k key then some v else found

  -- The elements of an array.
  abbrev pub elements : Items N → List (Json N)
  elements nil = []
  elements (cons v rest) = v ∷ elements rest

  -- `typeof v === 'object' && v !== null && !Array.isArray(v)`
  abbrev pub as_object : Json N → Option (Fields N)
  as_object (obj fields) = some fields
  as_object _ = none

  -- `Array.isArray(v)`
  abbrev pub as_array : Option (Json N) → Option (List (Json N))
  as_array (some (arr items)) = some (elements items)
  as_array _ = none

  -- `typeof v === 'number'`
  abbrev pub as_number : Option (Json N) → Option N
  as_number (some (num x)) = some x
  as_number _ = none

  -- `typeof v === 'string'`
  abbrev pub as_text : Option (Json N) → Option String
  as_text (some (text s)) = some s
  as_text _ = none

  -- `typeof v === 'boolean'`
  abbrev pub as_bool : Option (Json N) → Option Bool
  as_bool (some (bool b)) = some b
  as_bool _ = none
