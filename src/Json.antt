-- ===== src/Json.antt =====
-- The JSON values that entries and view rows are made of, with the property reads, the
-- `String(value)` coercion and the object spread that the daemon applies to them.
use Prim.Native.String.{String}
use openpact.Prelude.{
  Text, codes, text_eq, Option, none, some, List, [], ◌∷◌, ◌++◌, Bool, true, false, if◌then◌else◌,
}

-- A number is kept as the text that `String(n)` gives: no modelled code computes with one.
mutual
  pub data Json : Type 0 where
    null : Json
    bool : Bool → Json
    num : Text → Json
    str : Text → Json
    arr : Items → Json
    obj : Fields → Json

  pub data Items : Type 0 where
    nil : Items
    cons : Json → Items → Items

  pub data Fields : Type 0 where
    end : Fields
    entry : Text → Json → Fields → Fields

abbrev pub items : Items → List Json
items nil = []
items (cons v vs) = v ∷ items vs

abbrev pub lookup : Text → Fields → Option Json
lookup k end = none
lookup k (entry j v fs) = if text_eq j k then some v else lookup k fs

-- `value.k`; `none` is `undefined`.
abbrev pub field : String → Json → Option Json
field k (obj fs) = lookup (codes k) fs
field k null = none
field k (bool b) = none
field k (num n) = none
field k (str s) = none
field k (arr xs) = none

-- `value !== null && typeof value === 'object' && !Array.isArray(value)`
abbrev pub is_object : Json → Bool
is_object (obj fs) = true
is_object null = false
is_object (bool b) = false
is_object (num n) = false
is_object (str s) = false
is_object (arr xs) = false

-- The text of a field that the code reads as `string | undefined`, with `|| ''` for the rest.
abbrev pub text_of : Option Json → Text
text_of (some (str s)) = s
text_of none = []
text_of (some null) = []
text_of (some (bool b)) = []
text_of (some (num n)) = []
text_of (some (arr xs)) = []
text_of (some (obj fs)) = []

pub set_key : Text → Json → Fields → Fields
set_key k v end = entry k v end
set_key k v (entry j w fs) = if text_eq j k then entry j v fs else entry j w (set_key k v fs)

-- `{ ...value, k: v }` of an object.
unfoldable pub spread : String → Json → Json → Json
unfolding set_key
spread k v (obj fs) = obj (set_key (codes k) v fs)
spread k v value = value

-- `String(value)`. An array joins its items by commas, `null` among them as the empty text. Objects
-- with an own `toString`, at which `String` throws a TypeError, are printed like any other.
unfoldable mutual
  pub to_text : Json → Text
  to_text null = codes "null"
  to_text (bool true) = codes "true"
  to_text (bool false) = codes "false"
  to_text (num n) = n
  to_text (str s) = s
  to_text (arr xs) = join xs
  to_text (obj fs) = codes "[object Object]"

  pub item_text : Json → Text
  item_text null = []
  item_text (bool true) = codes "true"
  item_text (bool false) = codes "false"
  item_text (num n) = n
  item_text (str s) = s
  item_text (arr xs) = join xs
  item_text (obj fs) = codes "[object Object]"

  pub join : Items → Text
  join nil = []
  join (cons v vs) = item_text v ++ join_rest vs

  pub join_rest : Items → Text
  join_rest nil = []
  join_rest (cons v vs) = codes "," ++ (item_text v ++ join_rest vs)

-- `${value}` in a template text.
unfoldable pub template : Option Json → Text
unfolding to_text
template none = codes "undefined"
template (some v) = to_text v
