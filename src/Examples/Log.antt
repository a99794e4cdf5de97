-- ===== src/Examples/Log.antt =====
-- packages/daemon/src/apply.ts on short logs.
use Prim.Native.String.{String}
use openpact.Prelude.{
  ℕ, Text, codes, text_le, trim, some, List, [], ◌∷◌, ◌++◌, Bool, true, ◌≡◌, ◌≢◌, refl,
}
use openpact.Json.{Json, bool, str, obj, end, entry, to_text}
use openpact.Hex.{to_hex, from_hex}
use openpact.Words.{word_list}
use openpact.PeerHandle
use openpact.Schemas.{
  EntryType, validate, validate_type, check_schema, check_size, find_validator, is_truthy,
}
use openpact.Apply.View.{member_prefix, indexer_prefix, invite_prefix, pact_name_key}
use openpact.Apply.Admin.{
  ApplyNode, World, applied_invite, applied_admin, invalid, invite_already_spent, apply_admin,
  add_member, remove_member,
}
use openpact.Apply.Rows.{
  upsert_agent_name, bootstrap_member, bootstrap_indexer, is_indexer_key, is_member_key,
  put_pact_meta_if_newer,
}
use openpact.Apply.{
  apply_node, apply, invite_row, apply_validated, apply_writer, apply_entry, prepare, by_type,
  invite_entry, admin_entry,
}
use openpact.Apply.Invites.{apply-keeps_redemption, redeems_once}
use openpact.Apply.Newest.{pact_meta_converges}
use openpact.Examples.Table.{Rows, row_of, without, first_in, table, table_laws, writers}

abbrev founder : List ℕ
founder = 1 ∷ 2 ∷ 3 ∷ 4 ∷ 5 ∷ 6 ∷ []

abbrev accepts : EntryType → Json → Bool
accepts t e = true

abbrev small : Json → ℕ
small j = 10

abbrev entry_of : Text → Text → Json → Json
entry_of type agent payload = obj (
    entry (codes "type") (str type) (
      entry (codes "timestamp") (str (codes "2026-01-01T00:00:00.000Z"))
        (entry (codes "agent_id") (str agent) (entry (codes "payload") payload end))))

abbrev founder_hex : Text
founder_hex = codes "010203040506"

abbrev founder_handle : Text
founder_handle = codes "anon-cobra-03040506"

abbrev joiner_hex : Text
joiner_hex = codes "aabbccddeeff"

abbrev nonce : Text
nonce = codes "4f"

abbrev node_of : String → Json → ApplyNode
node_of type payload = record {
  value = entry_of (codes type) founder_handle payload;
  writer_key = some founder;
  length = 1;
}

abbrev redemption : ApplyNode
redemption =
    node_of "invite-redeemed"
      (obj (entry (codes "nonce") (str nonce) (entry (codes "redeemed_by") (str joiner_hex) end)))

abbrev world_of : Rows → World table writers
world_of rows = record { view = rows; host = [] }

abbrev founded : Rows
founded =
    (indexer_prefix ++ founder_hex, bool true) ∷ (member_prefix ++ founder_hex, bool true) ∷ []

abbrev redeemed_rows : Rows
redeemed_rows = (invite_prefix ++ nonce, invite_row redemption.value) ∷ founded

abbrev admission : ApplyNode
admission = node_of "admin" (
    obj (
      entry (codes "action") (str (codes "addWriter"))
        (entry (codes "key") (str joiner_hex) (entry (codes "indexer") (bool true) end))))

abbrev removal : ApplyNode
removal = node_of "admin" (
    obj (
      entry (codes "action") (str (codes "removeWriter"))
        (entry (codes "key") (str joiner_hex) end)))

abbrev admitted : World table writers
admitted = record {
  view =
      (indexer_prefix ++ joiner_hex, bool true)
      ∷ (member_prefix ++ joiner_hex, bool true)
      ∷ founded;
  host = (170 ∷ 187 ∷ 204 ∷ 221 ∷ 238 ∷ 255 ∷ []) ∷ [];
}

abbrev removed : World table writers
removed = record { view = founded; host = admitted.host }

runs :
    (apply_node table writers accepts small (world_of founded) redemption
      ≡ some (world_of redeemed_rows, applied_invite))
    × (apply_node table writers accepts small (world_of redeemed_rows) redemption
        ≡ some (world_of redeemed_rows, invalid invite_already_spent))
    × (apply table writers accepts small (world_of redeemed_rows) (redemption ∷ [])
        ≡ some (world_of redeemed_rows, invalid invite_already_spent ∷ []))
    × (apply_node table writers accepts small (world_of founded) admission
        ≡ some (admitted, applied_admin))
    × (apply_node table writers accepts small admitted removal ≡ some (removed, applied_admin))
unfolding apply_node apply_validated apply_writer apply_entry prepare by_type invite_entry
    admin_entry apply_admin add_member remove_member upsert_agent_name bootstrap_member
    bootstrap_indexer is_indexer_key is_member_key row_of without first_in validate validate_type
    check_schema check_size find_validator is_truthy PeerHandle.derive PeerHandle.word_index to_text
    text_le trim word_list to_hex from_hex apply
runs = (refl, refl, refl, refl, refl)

row_written : row_of redeemed_rows (invite_prefix ++ nonce) ≡ some (invite_row redemption.value)
unfolding row_of
row_written = refl

apply-keeps_redemption_example :
    row_of redeemed_rows (invite_prefix ++ nonce) ≡ some (invite_row redemption.value)
apply-keeps_redemption_example =
    apply-keeps_redemption table table_laws writers accepts small (world_of redeemed_rows)
      (redemption ∷ []) {w' = world_of redeemed_rows} {is = invalid invite_already_spent ∷ []} nonce
      (invite_row redemption.value) (runs.2) row_written

redeems_once_example : invalid invite_already_spent ≢ applied_invite
redeems_once_example =
    redeems_once table table_laws writers accepts small (world_of founded) redemption
      (world_of redeemed_rows) (redemption ∷ []) (world_of redeemed_rows)
      (invalid invite_already_spent ∷ []) redemption (world_of redeemed_rows)
      (invalid invite_already_spent) (runs.0) refl (runs.2) refl (runs.1)

pact_meta_converges_example :
    row_of
      (put_pact_meta_if_newer table
        (put_pact_meta_if_newer table [] pact_name_key (str (codes "A")) (codes "1"))
        pact_name_key
        (str (codes "B"))
        (codes "12"))
      pact_name_key
    ≡ row_of
        (put_pact_meta_if_newer table
          (put_pact_meta_if_newer table [] pact_name_key (str (codes "B")) (codes "12"))
          pact_name_key
          (str (codes "A"))
          (codes "1"))
        pact_name_key
pact_meta_converges_example =
    pact_meta_converges table table_laws [] pact_name_key (str (codes "A")) (str (codes "B"))
      (codes "1") (codes "12") pact_name_key refl refl (λ e. cc)
