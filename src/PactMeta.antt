-- ===== src/PactMeta.antt =====
-- The name and the purpose of a pact that packages/daemon/src/pact.ts shows: setPactInfo with the
-- message that announces it, the mirror of the entries that were applied, and the look-up in the
-- view when a pact is loaded.
pub mod Mirror
pub mod Given
use openpact.Prelude.{
  Text, codes, text_eq, truthy, trim, Option, none, some, List, [], ◌∷◌, ◌++◌, Bool, true, false,
  not, ◌&&◌, ◌||◌, if◌then◌else◌, is_some,
}
use openpact.Json.{Json, Fields, null, bool, num, str, arr, obj, end, entry, field}
use openpact.Apply.View.{ApplyView, pact_name_key, pact_purpose_key}
use openpact.Apply.Admin.{payload_of, payload_text}

-- `_pactName` and `_pactPurpose`.
pub record Meta : Type 0 where
  pub pact_name : Option Text
  pub pact_purpose : Option Text

-- `typeof v === 'string' ? v : null`
abbrev pub shown : Json → Option Text
shown (str s) = some s
shown null = none
shown (bool b) = none
shown (num n) = none
shown (arr xs) = none
shown (obj fs) = none

abbrev pub mirror_field : Option Json → Option Text → Option Text
mirror_field none current = current
mirror_field (some v) current = shown v

-- `entry` was applied as an admin entry.
unfoldable pub on_applied_internal : Json → Meta → Meta
on_applied_internal e m =
    if text_eq (payload_text "action" e) (codes "setInfo")
    then record {
      pact_name = mirror_field (field "name" (payload_of e)) m.pact_name;
      pact_purpose = mirror_field (field "purpose" (payload_of e)) m.pact_purpose;
    }
    else m

-- `if (typeof v === 'string' || v === null) this._pactName = v`
abbrev pub seed_value : Option Json → Option Text → Option Text
seed_value none current = current
seed_value (some (str s)) current = some s
seed_value (some null) current = none
seed_value (some (bool b)) current = current
seed_value (some (num n)) current = current
seed_value (some (arr xs)) current = current
seed_value (some (obj fs)) current = current

abbrev pub seed_row : Option Json → Option Text → Option Text
seed_row none current = current
seed_row (some row) current = seed_value (field "value" row) current

module _ (b : ApplyView) where
  unfoldable pub seed_pact_meta_from_view : b.View → Meta → Meta
  seed_pact_meta_from_view v m = record {
    pact_name = seed_row (b.get v pact_name_key) m.pact_name;
    pact_purpose = seed_row (b.get v pact_purpose_key) m.pact_purpose;
  }

abbrev pub null_if_blank : Text → Option Text
null_if_blank s = if truthy s then some s else none

-- Of an argument, of which the outer `none` is `undefined` and the inner one `null`.
unfoldable pub norm : Option (Option Text) → Option (Option Text)
norm none = none
norm (some none) = some none
norm (some (some s)) = some (null_if_blank (trim s))

unfoldable pub same_text : Option Text → Option Text → Bool
same_text none none = true
same_text none (some t) = false
same_text (some s) none = false
same_text (some s) (some t) = text_eq s t

-- The new value of a field, if there is one and it differs from the old.
unfoldable pub is_changed : Option (Option Text) → Option Text → Bool
is_changed none previous = false
is_changed (some next) previous = not (same_text next previous)

unfoldable pub or_previous : Option (Option Text) → Option Text → Option Text
or_previous none previous = previous
or_previous (some next) previous = next

abbrev pub json_of : Option Text → Json
json_of none = null
json_of (some s) = str s

unfoldable pub put_if_given : Text → Option (Option Text) → Fields → Fields
put_if_given k none rest = rest
put_if_given k (some v) rest = entry k (json_of v) rest

unfoldable pub set_info_payload : Option (Option Text) → Option (Option Text) → Json
set_info_payload name purpose = obj (
    entry (codes "action") (str (codes "setInfo"))
      (put_if_given (codes "name") name (put_if_given (codes "purpose") purpose end)))

abbrev quoted : Option Text → Text
quoted none = codes "(unnamed)"
quoted (some s) = if truthy s then codes "'" ++ (s ++ codes "'") else codes "(unnamed)"

abbrev is_given : Option Text → Bool
is_given none = false
is_given (some s) = truthy s

unfoldable pub announcement : Text → Meta → Meta → Bool → Bool → Text
announcement actor previous next name_changed purpose_changed =
    if name_changed && not purpose_changed
    then actor
      ++ (codes " renamed the pact from "
          ++ (quoted previous.pact_name ++ (codes " to " ++ (quoted next.pact_name ++ codes "."))))
    else if not name_changed && purpose_changed
    then (if is_given next.pact_purpose
        then actor ++ codes " updated the pact purpose."
        else actor ++ codes " cleared the pact purpose.")
    else actor ++ codes " updated the pact."

-- The peer that makes an entry.
pub record Author : Type 0 where
  pub handle : Text
  pub display_name : Option Text

unfoldable pub authored_entry : Text → Text → Author → Json → Json
authored_entry type now author payload = obj (
    entry (codes "type") (str type) (
      entry (codes "timestamp") (str now) (
        entry (codes "agent_id") (str author.handle) (
          entry (codes "display_name") (json_of author.display_name)
            (entry (codes "payload") payload end)))))

abbrev actor_of : Author → Text
actor_of author = elim author.display_name [ none ↦ author.handle | some s ↦ s ]

unfoldable pub update_payload : Text → Meta → Meta → Json
update_payload content previous next = obj (
    entry (codes "content") (str content) (
      entry (codes "kind") (str (codes "pact-update")) (
        entry (codes "prev_name") (json_of previous.pact_name) (
          entry (codes "next_name") (json_of next.pact_name) (
            entry (codes "prev_purpose") (json_of previous.pact_purpose)
              (entry (codes "next_purpose") (json_of next.pact_purpose) end))))))

-- What it shows afterwards, and the entries that it appends, at the times `now` and `later`.
unfoldable pub set_pact_info :
    Bool
    → Text
    → Text
    → Author
    → Option (Option Text)
    → Option (Option Text)
    → Meta
    → Meta × List Json
set_pact_info writable now later author name purpose m =
    let next_name = norm name in
    let next_purpose = norm purpose in
    let name_changed = is_changed next_name m.pact_name in
    let purpose_changed = is_changed next_purpose m.pact_purpose in
    let next : Meta = record {
      pact_name = or_previous next_name m.pact_name;
      pact_purpose = or_previous next_purpose m.pact_purpose;
    } in
    if not writable
    then (next, [])
    else if not name_changed && not purpose_changed
    then (m, [])
    else (
      m,
      authored_entry (codes "admin") now author (set_info_payload next_name next_purpose)
          ∷ authored_entry (codes "message") later author (
              update_payload (announcement (actor_of author) m next name_changed purpose_changed) m
                next)
          ∷ [],
    )
