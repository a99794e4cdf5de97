-- ===== src/Apply.antt =====
-- packages/daemon/src/apply.ts: the reducer that turns the ordered log of entries into the view.
-- The view and the host are parameters, and so are the ajv validators and the size of a payload.
-- `none` is an exception out of `apply`.
pub mod View
pub mod Rows
pub mod Admin
pub mod Steps
pub mod Frame
pub mod Invites
pub mod Bootstrap
pub mod IndexerRows
pub mod Authority
pub mod Newest
use openpact.Prelude.{
  ℕ, Text, codes, truthy, text_eq, Option, none, some, List, [], ◌∷◌, ◌++◌, Bool, true, false, not,
  ◌&&◌, ◌||◌, if◌then◌else◌, is_some, ◌>>=◌,
}
use openpact.Json.{
  Json, null, bool, num, str, arr, obj, end, entry, field, text_of, is_object, spread, template,
}
use openpact.Hex.{to_hex}
use openpact.EntryId
use openpact.EntryId.{buffer}
use openpact.PeerHandle
use openpact.Schemas
use openpact.Schemas.{EntryType, ValidationResult, validate}
use View.{ApplyView, ApplyHost, invite_prefix}
use Rows.{upsert_agent_name, bootstrap_member, bootstrap_indexer, put_refs}
use Admin.{
  ApplyNode, Info, invalid, applied_admin, applied_invite, applied_entry, not_an_object,
  no_writer_key, agent_mismatch, admin_from_non_indexer, invite_from_non_indexer,
  invite_already_spent, of_validation, payload_of, payload_text, list_of, has_type, is_self_revoke,
  World, apply_admin,
}

abbrev pub invite_row : Json → Json
invite_row e = obj (
    entry (codes "redeemed_by") (str (payload_text "redeemed_by" e)) (
      entry (codes "redeemed_at") (str (text_of (field "timestamp" e)))
        (entry (codes "redeemer") (str (text_of (field "agent_id" e))) end)))

abbrev pub entry_key : Json → Text → Text
entry_key e id =
    template (field "type" e)
    ++ (codes "/" ++ (template (field "timestamp" e) ++ (codes "/" ++ id)))

module _ (b : ApplyView) (h : ApplyHost) where
  unfoldable pub admin_entry : World b h → Json → Text → Bool → Option (World b h × Info)
  admin_entry w e writer_hex is_indexer =
      if not is_indexer && not (is_self_revoke e writer_hex)
      then some (w, invalid admin_from_non_indexer)
      else do w' ← apply_admin b h w e; some (w', applied_admin)

  -- The nonce is marked spent unless it is missing or empty.
  unfoldable pub invite_entry : World b h → Json → Bool → World b h × Info
  invite_entry w e is_indexer =
      let nonce = payload_text "nonce" e in
      if not is_indexer
      then (w, invalid invite_from_non_indexer)
      else if truthy nonce && is_some (b.get w.view (invite_prefix ++ nonce))
      then (w, invalid invite_already_spent)
      else if truthy nonce
      then (
        record w { view = b.put w.view (invite_prefix ++ nonce) (invite_row e) },
        applied_invite,
      )
      else (w, applied_invite)

  unfoldable pub user_entry : World b h → Json → List ℕ → ℕ → Option (World b h × Info)
  user_entry w e writer_key length = do
    id ← EntryId.encode (buffer writer_key) length
    let key = entry_key e id
    let stored = spread "id" (str id) e
    let view = put_refs b (b.put w.view key stored) (list_of (field "refs" e)) id stored
    some (record w { view = view }, applied_entry key)

  -- The writes that every entry of a known writer makes first: its display name, and the first
  -- member and the first indexer. The flag says whether the writer is an indexer.
  unfoldable pub prepare : World b h → Json → Text → World b h × Bool
  prepare w e writer_hex =
      let (view, is_indexer) =
        bootstrap_indexer b (bootstrap_member b (upsert_agent_name b w.view e) writer_hex)
          writer_hex in
      (record w { view = view }, is_indexer)

  unfoldable pub by_type : World b h → Json → List ℕ → ℕ → Bool → Option (World b h × Info)
  by_type w e writer_key length is_indexer =
      if has_type "admin" e
      then admin_entry w e (to_hex writer_key) is_indexer
      else if has_type "invite-redeemed" e
      then some (invite_entry w e is_indexer)
      else user_entry w e writer_key length

  unfoldable pub apply_entry : World b h → Json → List ℕ → ℕ → Option (World b h × Info)
  apply_entry w e writer_key length =
      let (w', is_indexer) = prepare w e (to_hex writer_key) in
      by_type w' e writer_key length is_indexer

  unfoldable pub apply_writer : World b h → ApplyNode → Option (List ℕ) → Option (World b h × Info)
  apply_writer w n none = some (w, invalid no_writer_key)
  apply_writer w n (some writer_key) = do
    expected ← PeerHandle.derive writer_key
    if text_eq (text_of (field "agent_id" n.value)) expected
        then apply_entry w n.value writer_key n.length
        else some (w, invalid agent_mismatch)

  unfoldable pub apply_validated :
      World b h → ApplyNode → ValidationResult → Option (World b h × Info)
  apply_validated w n (ValidationResult.invalid reason) = some (w, invalid (of_validation reason))
  apply_validated w n ValidationResult.throws = none
  apply_validated w n ValidationResult.valid = apply_writer w n n.writer_key

  module _ (validators : EntryType → Json → Bool) (json_bytes : Json → ℕ) where
    unfoldable pub apply_node : World b h → ApplyNode → Option (World b h × Info)
    apply_node w n =
        if is_object n.value
        then apply_validated w n (validate validators json_bytes n.value)
        else some (w, invalid not_an_object)

    unfoldable pub apply : World b h → List ApplyNode → Option (World b h × List Info)
    apply w [] = some (w, [])
    apply w (n ∷ ns) = do
      (w', info) ← apply_node w n
      (w'', infos) ← apply w' ns
      some (w'', info ∷ infos)
