-- ===== src/Pact.antt =====
-- packages/daemon/src/pact.ts: minting, listing, revoking and redeeming invite tokens. The lock
-- `_withInviteLock` runs these one after another, so each is a function on the state. Reading and
-- writing invites.json is taken to succeed, and so is appending to the log by an indexer.
pub mod Redeem
pub mod Lookup
pub mod Once
pub mod Minted
pub mod Accepted
use Prim.Native.String.{String}
use openpact.Prelude.{
  ℕ, ◌+◌, Text, codes, truthy, text_eq, to_lower_case, Option, none, some, List, [], ◌∷◌, ◌++◌,
  Bool, true, false, not, ◌&&◌, leb, if◌then◌else◌, is_some, map,
}
use openpact.Json.{Json, null, bool, str, obj, end, entry}
use openpact.Invites.{
  Invite, InviteTokenPayload, InviteSummary, Decoded, decoded, decode_error, TokenCodec, nullable,
  is_hex_text, is_spent, has_expired, decode_token, encode_token, summarise,
}

pub data RedeemErrorCode : Type 0 where
  invite_bad_shape invite_wrong_pact unknown_invite invite_expired : RedeemErrorCode
  invite_revoked invite_spent invite_not_indexer : RedeemErrorCode

-- The HTTP status that the `RedeemError` carries.
abbrev pub status_of : RedeemErrorCode → ℕ
status_of invite_bad_shape = 400
status_of invite_wrong_pact = 400
status_of invite_not_indexer = 409
status_of unknown_invite = 404
status_of invite_revoked = 409
status_of invite_spent = 409
status_of invite_expired = 410

-- `pact_key` is the key of an open pact. `redeemed_row` is the lookup of `_invites/<nonce>` in
-- the view, and `log` the entries appended here, oldest first.
pub record Pact : Type 0 where
  pub pact_key : Text
  pub is_indexer : Bool
  pub peer_handle : Text
  pub display_name : Option Text
  pub pact_name : Option Text
  pub pact_purpose : Option Text
  pub invites : List Invite
  pub redeemed_row : Text → Option Json
  pub log : List Json

pub data RedeemResult : Type 0 where
  redeemed : Text → RedeemResult
  refused : RedeemErrorCode → RedeemResult

-- `file.invites.find((inv) => inv.nonce === nonce)`
unfoldable pub find_invite : Text → List Invite → Option Invite
find_invite nonce [] = none
find_invite nonce (inv ∷ invs) =
    if text_eq inv.nonce nonce then some inv else find_invite nonce invs

-- A write to the object that `find` returned.
unfoldable pub update_invite : Text → (Invite → Invite) → List Invite → List Invite
update_invite nonce f [] = []
update_invite nonce f (inv ∷ invs) =
    if text_eq inv.nonce nonce then f inv ∷ invs else inv ∷ update_invite nonce f invs

abbrev pub log_entry : Pact → String → Text → Json → Json
log_entry p type ts payload = obj (
    entry (codes "type") (str (codes type)) (
      entry (codes "timestamp") (str ts) (
        entry (codes "agent_id") (str p.peer_handle) (
          entry (codes "display_name") (nullable p.display_name)
            (entry (codes "payload") payload end)))))

abbrev pub redeemed_entry : Pact → Text → Text → Text → Json
redeemed_entry p ts nonce joiner =
    log_entry p "invite-redeemed" ts
      (obj (entry (codes "nonce") (str nonce) (entry (codes "redeemed_by") (str joiner) end)))

abbrev pub add_writer_entry : Pact → Text → Text → Bool → Json
add_writer_entry p ts key indexer = log_entry p "admin" ts (
    obj (
      entry (codes "action") (str (codes "addWriter"))
        (entry (codes "key") (str key) (entry (codes "indexer") (bool indexer) end))))

abbrev pub mark_spent : Text → Text → Invite → Invite
mark_spent ts joiner inv = record inv { spent_at = some ts; spent_by = some joiner }

-- The two entries and the local mark, at the time `ts`.
unfoldable pub accept_invite : Pact → Text → Text → Text → Pact
accept_invite p nonce joiner ts = record p {
  invites = update_invite nonce (mark_spent ts joiner) p.invites;
  log = p.log ++ redeemed_entry p ts nonce joiner ∷ add_writer_entry p ts joiner false ∷ [];
}

module _ (to_iso : ℕ → Text) where
  -- `revokeInvite`; `none` is the error of an unknown nonce.
  unfoldable pub revoke_invite : Pact → Text → ℕ → Option Pact
  revoke_invite p nonce now = elim (find_invite nonce p.invites) [
    | none ↦ none
    | some inv ↦
        if inv.revoked
        then some p
        else some (record p {
          invites =
              update_invite nonce (λ i. record i { revoked = true; revoked_at = some (to_iso now) })
                p.invites;
        })
  ]

module _ (c : TokenCodec) where
  unfoldable pub list_invites : Pact → ℕ → List InviteSummary
  list_invites p now = map (λ inv. summarise c.parse_date inv now) p.invites

  -- The checks under the lock, of the invite that the file holds for the nonce.
  unfoldable pub check_invite : Pact → Text → Option Invite → ℕ → Option RedeemErrorCode
  check_invite p nonce none now = some unknown_invite
  check_invite p nonce (some inv) now =
      if inv.revoked
      then some invite_revoked
      else if is_spent inv.spent_at
      then some invite_spent
      else if has_expired (c.parse_date inv.expires_at) now
      then some invite_expired
      else if is_some (p.redeemed_row nonce)
      then some invite_spent
      else none

module _ (c : TokenCodec) (to_iso : ℕ → Text) where
  -- `createInvite` at the time `now`, with a fresh random nonce.
  unfoldable pub create_invite : Pact → Text → ℕ → ℕ → Text × Pact
  create_invite p nonce ttl_ms now =
      let inv : Invite = record {
        nonce = nonce;
        expires_at = to_iso (now + ttl_ms);
        created_at = to_iso now;
        ttl_ms = ttl_ms;
        pact_name = p.pact_name;
        issuer_display = p.display_name;
        revoked = false;
        revoked_at = none;
        spent_at = none;
        spent_by = none;
      } in
      let payload : InviteTokenPayload = record {
        pact_id = p.pact_key;
        nonce = nonce;
        expires_at = to_iso (now + ttl_ms);
        pact_name = p.pact_name;
        pact_purpose = p.pact_purpose;
        issuer_display = p.display_name;
      } in
      (encode_token c payload, record p { invites = p.invites ++ inv ∷ [] })

  unfoldable pub redeem_nonce : Pact → Text → Text → ℕ → ℕ → RedeemResult × Pact
  redeem_nonce p nonce joiner now later =
      elim (check_invite c p nonce (find_invite nonce p.invites) now) [
        | some code ↦ (refused code, p)
        | none ↦ (redeemed nonce, accept_invite p nonce joiner (to_iso later))
      ]

  unfoldable pub redeem_payload : Pact → InviteTokenPayload → Text → ℕ → ℕ → RedeemResult × Pact
  redeem_payload p payload writer_key now later =
      if not (text_eq (to_lower_case payload.pact_id) (to_lower_case p.pact_key))
      then (refused invite_wrong_pact, p)
      else if not p.is_indexer
      then (refused invite_not_indexer, p)
      else redeem_nonce p payload.nonce (to_lower_case writer_key) now later

  -- `redeemInvite`, whose expiry test reads the clock at `now`, and the timestamp at `later`.
  unfoldable pub redeem_invite : Pact → Text → Text → ℕ → ℕ → RedeemResult × Pact
  redeem_invite p token writer_key now later =
      if not (is_hex_text 64 writer_key)
      then (refused invite_bad_shape, p)
      else elim (decode_token c token) [
        | decode_error code ↦ (refused invite_bad_shape, p)
        | decoded payload ↦ redeem_payload p payload writer_key now later
      ]
