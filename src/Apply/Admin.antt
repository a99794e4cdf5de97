-- ===== src/Apply/Admin.antt =====
-- The entries that packages/daemon/src/apply.ts reads, what it reports of them, and `applyAdmin`.
use openpact.Prelude.{
  ℕ, Text, codes, text_eq, to_lower_case, Option, none, some, List, [], ◌++◌, Bool, true, false,
  ◌&&◌, if◌then◌else◌, ◌>>=◌,
}
use Prim.Native.String.{String}
use openpact.Json.{Json, null, bool, num, str, arr, obj, field, text_of, items}
use openpact.Hex.{from_hex}
use openpact.Schemas.{ValidationReason, is_truthy}
use openpact.Apply.View.{
  ApplyView, ApplyHost, indexer_prefix, member_prefix, pact_name_key, pact_purpose_key,
}
use openpact.Apply.Rows.{put_pact_meta_if_newer}

pub record ApplyNode : Type 0 where
  pub value : Json
  pub writer_key : Option (List ℕ)
  pub length : ℕ

pub data InvalidReason : Type 0 where
  not_an_object unknown_type schema payload_too_large no_writer_key agent_mismatch : InvalidReason
  admin_from_non_indexer invite_from_non_indexer invite_already_spent : InvalidReason

-- What `onInvalid` and `onApplied` are told.
pub data Info : Type 0 where
  invalid : InvalidReason → Info
  applied_admin applied_invite : Info
  applied_entry : Text → Info

abbrev pub of_validation : ValidationReason → InvalidReason
of_validation ValidationReason.not_an_object = not_an_object
of_validation ValidationReason.unknown_type = unknown_type
of_validation ValidationReason.schema = schema
of_validation ValidationReason.payload_too_large = payload_too_large

abbrev pub payload_of : Json → Json
payload_of e = elim (field "payload" e) [ none ↦ null | some p ↦ p ]

abbrev pub payload_text : String → Json → Text
payload_text k e = text_of (field k (payload_of e))

abbrev pub is_text : Option Json → Bool
is_text (some (str s)) = true
is_text none = false
is_text (some null) = false
is_text (some (bool b)) = false
is_text (some (num n)) = false
is_text (some (arr xs)) = false
is_text (some (obj fs)) = false

abbrev pub flag_of : Option Json → Bool
flag_of none = false
flag_of (some v) = is_truthy v

abbrev pub list_of : Option Json → List Json
list_of (some (arr xs)) = items xs
list_of none = []
list_of (some null) = []
list_of (some (bool b)) = []
list_of (some (num n)) = []
list_of (some (str s)) = []
list_of (some (obj fs)) = []

abbrev pub has_type : String → Json → Bool
has_type t e = text_eq (text_of (field "type" e)) (codes t)

-- A non-indexer may remove its own key.
unfoldable pub is_self_revoke : Json → Text → Bool
is_self_revoke e writer_hex =
    text_eq (payload_text "action" e) (codes "removeWriter")
    && is_text (field "key" (payload_of e))
    && text_eq (to_lower_case (payload_text "key" e)) (to_lower_case writer_hex)

module _ (b : ApplyView) (h : ApplyHost) where
  pub record World : Type 0 where
    pub view : b.View
    pub host : h.State

  unfoldable pub put_info : Option Json → Text → Text → b.View → b.View
  put_info none key ts v = v
  put_info (some value) key ts v = put_pact_meta_if_newer b v key value ts

  unfoldable pub add_member : World → Text → Bool → Option World
  add_member w key indexer = do
    host ← h.add_writer w.host (from_hex key) indexer
    let v = b.put w.view (member_prefix ++ key) (bool true)
    some (record {
      view = if indexer then b.put v (indexer_prefix ++ key) (bool true) else v;
      host = host;
    })

  unfoldable pub remove_member : World → Text → Option World
  remove_member w key = do
    host ← h.remove_writer w.host (from_hex key)
    some (record {
      view = b.del (b.del w.view (member_prefix ++ key)) (indexer_prefix ++ key);
      host = host;
    })

  unfoldable pub apply_admin : World → Json → Option World
  apply_admin w e =
      let action = payload_text "action" e in
      let ts = text_of (field "timestamp" e) in
      if text_eq action (codes "setInfo")
      then some (record w {
        view =
            put_info (field "purpose" (payload_of e)) pact_purpose_key ts
              (put_info (field "name" (payload_of e)) pact_name_key ts w.view);
      })
      else if text_eq action (codes "addWriter")
      then add_member w (payload_text "key" e) (flag_of (field "indexer" (payload_of e)))
      else if text_eq action (codes "removeWriter")
      then remove_member w (payload_text "key" e)
      else some w
