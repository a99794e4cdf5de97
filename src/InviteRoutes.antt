-- ===== src/InviteRoutes.antt =====
-- The requests on invites: packages/daemon/src/api/routes/invites.ts after the check of their
-- schemas, and the reply of a peer that is asked to redeem one (_handleRedeemRequest of
-- packages/daemon/src/daemon.ts). The pact of a request is one that `resolvePact` found; what it
-- answers, and what a request to the peers comes to, are arguments.
pub mod Forwarded
use openpact.Prelude.{
  ℕ, Text, codes, text_eq, truthy, Option, none, some, List, [], ◌∷◌, ◌++◌, Bool, true, false, not,
  ◌&&◌, ◌||◌, if◌then◌else◌, is_some, length, ◌==◌, all,
}
use openpact.Wire.{Bytes, RedeemResponse}
use openpact.HostConfig.{is_any_hex}
use openpact.Pact
use openpact.Pact.{
  RedeemErrorCode, invite_bad_shape, invite_wrong_pact, unknown_invite, invite_expired,
  invite_revoked, invite_spent, invite_not_indexer, RedeemResult, redeemed, refused,
}
use openpact.RedeemPeers.{Outcome, redeemed_as, failed}

-- The codes as texts.
abbrev pub code_text : RedeemErrorCode → Text
code_text invite_bad_shape = codes "INVITE_BAD_SHAPE"
code_text invite_wrong_pact = codes "INVITE_WRONG_PACT"
code_text unknown_invite = codes "UNKNOWN_INVITE"
code_text invite_expired = codes "INVITE_EXPIRED"
code_text invite_revoked = codes "INVITE_REVOKED"
code_text invite_spent = codes "INVITE_SPENT"
code_text invite_not_indexer = codes "INVITE_NOT_INDEXER"

unfoldable pub error_status : Text → ℕ
error_status code =
    if text_eq code (codes "INVITE_BAD_SHAPE") || text_eq code (codes "INVITE_WRONG_PACT")
    then 400
    else if text_eq code (codes "UNKNOWN_INVITE") || text_eq code (codes "UNKNOWN_PACT")
    then 404
    else if text_eq code (codes "INVITE_NOT_INDEXER")
        || (text_eq code (codes "INVITE_REVOKED") || text_eq code (codes "INVITE_SPENT"))
    then 409
    else if text_eq code (codes "INVITE_EXPIRED")
    then 410
    else if text_eq code (codes "NO_AGENTS")
        || (text_eq code (codes "NO_INDEXER_REACHABLE")
            || text_eq code (codes "AGENT_DISCONNECTED"))
    then 503
    else 500

pub data InviteReply : Type 0 where
  nonce_of : Text → InviteReply
  http_error : ℕ → Text → InviteReply

-- A peer's reply; an exception that is no `RedeemError` does not arise in the model of the pact.
unfoldable pub handle_redeem_request : Option Bytes → Option RedeemResult → Text → RedeemResponse
handle_redeem_request corr none message = record {
  corr = corr;
  ok = false;
  code = some (codes "UNKNOWN_PACT");
  message = some (codes "pact not found");
  nonce = none;
}
handle_redeem_request corr (some (redeemed nonce)) message = record {
  corr = corr;
  ok = true;
  code = none;
  message = none;
  nonce = some nonce;
}
handle_redeem_request corr (some (refused code)) message = record {
  corr = corr;
  ok = false;
  code = some (code_text code);
  message = some message;
  nonce = none;
}

-- The route on an indexer.
abbrev pub local_reply : RedeemResult → InviteReply
local_reply (redeemed nonce) = nonce_of nonce
local_reply (refused code) = http_error (Pact.status_of code) (code_text code)

-- The route on any other daemon, by what the peers came to.
unfoldable pub forward_reply : Outcome → InviteReply
forward_reply (redeemed_as nonce) = nonce_of nonce
forward_reply (failed code message) = http_error (error_status code) code

unfoldable pub redeem_route : Bool → Bool → Option Text → RedeemResult → Outcome → InviteReply
redeem_route confirm is_indexer pact_key here peers =
    if not confirm
    then http_error 400 (codes "NOT_CONFIRMED")
    else if is_indexer
    then local_reply here
    else if not (is_some pact_key)
    then http_error 409 (codes "PACT_NOT_READY")
    else forward_reply peers

-- `is_creator` says that the role of the pact is creator; `made` is what
-- `createInvite` gave.
pub data MintReply (A : Type 0) : Type 0 where
  minted : A → MintReply A
  refused_as : ℕ → Text → MintReply A

unfoldable pub create_invite_route : {A : Type 0} → Bool → Bool → A → MintReply A
create_invite_route confirm is_creator made =
    if not confirm
    then refused_as 400 (codes "NOT_CONFIRMED")
    else if not is_creator
    then refused_as 409 (codes "NOT_CREATOR")
    else minted made

abbrev pub nonce_pattern : Text → Bool
nonce_pattern nonce = length nonce == 48 && all is_any_hex nonce

-- `known` says that `revokeInvite` did not throw.
unfoldable pub revoke_route : Text → Text → Bool → Bool → InviteReply
revoke_route nonce confirm is_creator known =
    if not (nonce_pattern nonce)
    then http_error 400 (codes "BAD_REQUEST")
    else if not (text_eq confirm nonce)
    then http_error 400 (codes "NOT_CONFIRMED")
    else if not is_creator
    then http_error 409 (codes "NOT_CREATOR")
    else if not known
    then http_error 404 (codes "UNKNOWN_INVITE")
    else nonce_of nonce
