-- ===== src/Schemas.antt =====
-- packages/daemon/src/schemas/index.ts: the check of an entry before it is appended or applied.
-- The compiled ajv validators and the size in bytes of a value's JSON text are parameters.
pub mod Accepts
use openpact.Prelude.{
  ℕ, ◌*◌, Text, codes, text_eq, Option, none, some, Bool, true, false, ◌||◌, ltb, if◌then◌else◌,
  truthy,
}
use openpact.Json.{Json, null, bool, num, str, arr, obj, field, is_object, to_text}

pub data EntryType : Type 0 where
  knowledge task skill message admin invite_redeemed : EntryType

pub data ValidationReason : Type 0 where
  not_an_object unknown_type schema payload_too_large : ValidationReason

-- `throws` is an exception out of `validate` itself.
pub data ValidationResult : Type 0 where
  valid : ValidationResult
  invalid : ValidationReason → ValidationResult
  throws : ValidationResult

-- What `validators[name]` finds: one of the six compiled validators, or a property that the object
-- literal inherits from `Object.prototype`.
pub data Found : Type 0 where
  validator : EntryType → Found
  inherited_truthy : Found
  inherited_throws : Found
  undefined : Found

-- Called with no receiver, `Object` and `Object.prototype.toString` return something truthy; the
-- other inherited functions, and the call of the object `__proto__`, throw a TypeError.
unfoldable pub find_validator : Text → Found
find_validator name =
    if text_eq name (codes "knowledge")
    then validator knowledge
    else if text_eq name (codes "task")
    then validator task
    else if text_eq name (codes "skill")
    then validator skill
    else if text_eq name (codes "message")
    then validator message
    else if text_eq name (codes "admin")
    then validator admin
    else if text_eq name (codes "invite-redeemed")
    then validator invite_redeemed
    else if text_eq name (codes "constructor") || text_eq name (codes "toString")
    then inherited_truthy
    else if text_eq name (codes "hasOwnProperty")
        || text_eq name (codes "isPrototypeOf")
        || text_eq name (codes "propertyIsEnumerable")
        || text_eq name (codes "toLocaleString")
        || text_eq name (codes "valueOf")
        || text_eq name (codes "__proto__")
        || text_eq name (codes "__defineGetter__")
        || text_eq name (codes "__defineSetter__")
        || text_eq name (codes "__lookupGetter__")
        || text_eq name (codes "__lookupSetter__")
    then inherited_throws
    else undefined

-- `e.type ? … : …`
unfoldable pub is_truthy : Json → Bool
is_truthy null = false
is_truthy (bool b) = b
is_truthy (num n) = if text_eq n (codes "0") then false else true
is_truthy (str s) = truthy s
is_truthy (arr xs) = true
is_truthy (obj fs) = true

abbrev pub max_payload_bytes : ℕ
max_payload_bytes = 64 * 1024

-- `Buffer.byteLength(JSON.stringify(payload))` throws where there is no payload to print.
unfoldable pub check_size : (Json → ℕ) → Option Json → ValidationResult
check_size json_bytes none = throws
check_size json_bytes (some payload) =
    if ltb max_payload_bytes (json_bytes payload) then invalid payload_too_large else valid

unfoldable pub check_schema :
    (EntryType → Json → Bool) → (Json → ℕ) → Found → Json → ValidationResult
check_schema validators json_bytes (validator t) e =
    if validators t e then check_size json_bytes (field "payload" e) else invalid schema
check_schema validators json_bytes inherited_truthy e = check_size json_bytes (field "payload" e)
check_schema validators json_bytes inherited_throws e = throws
check_schema validators json_bytes undefined e = invalid unknown_type

unfoldable pub validate_type :
    (EntryType → Json → Bool) → (Json → ℕ) → Option Json → Json → ValidationResult
validate_type validators json_bytes none e = invalid unknown_type
validate_type validators json_bytes (some t) e =
    if is_truthy t
    then check_schema validators json_bytes (find_validator (to_text t)) e
    else invalid unknown_type

unfoldable pub validate : (EntryType → Json → Bool) → (Json → ℕ) → Json → ValidationResult
validate validators json_bytes e =
    if is_object e
    then validate_type validators json_bytes (field "type" e) e
    else invalid not_an_object
