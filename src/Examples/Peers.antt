-- ===== src/Examples/Peers.antt =====
-- packages/daemon/src/daemon.ts and member-auth-channel.ts: a request to two peers.
use openpact.Prelude.{
  Text, codes, text_eq, ◌⊎◌, none, some, List, [], ◌∷◌, ◌++◌, Bool, true, false, ◌≡◌, refl, map,
  is_some, to_lower_case,
}
use openpact.Wire.{RedeemResponse}
use openpact.RedeemPeers.{
  Outcome, redeemed_as, failed, count_sent, start_broadcast, Event, replied, timed_out, on_events,
  all_replied, find_terminal, on_reply, on_timeout, outcome_of,
}
use openpact.RedeemPeers.Settled.{verdict, first_ok}
use openpact.RedeemPeers.Verdicts.{IsVerdict, request_resolves}
use openpact.Wire.{MemberAuthResponse}
use openpact.MemberAuth.{
  AuthOutcome, AuthLink, authed, not_active, verify_failed, get, start_request, finish_request,
  retry_in, after_attempt, backoff_delay_ms, check_response, delete, is_pending, set,
}
use openpact.Pact.{redeemed, refused, invite_spent}
use openpact.InviteRoutes.{
  handle_redeem_request, redeem_route, http_error, create_invite_route, refused_as, revoke_route,
}
use openpact.InviteRoutes.Forwarded.{indexer_decides}
use openpact.MemberAuth.Outcomes.{IsProof, authorised_by-IsProof}

abbrev refusal : Text → RedeemResponse
refusal code = record { corr = none; ok = false; code = some code; message = none; nonce = none }

abbrev success : RedeemResponse
success = record { corr = none; ok = true; code = none; message = none; nonce = some (codes "ab") }

-- A peer without a channel, and two that take the request.
abbrev links : List (Bool × Bool)
links = (false, false) ∷ (true, true) ∷ (true, true) ∷ []

abbrev not_indexer : RedeemResponse
not_indexer = refusal (codes "INVITE_NOT_INDEXER")

request_resolves_example :
    ((o : Outcome) × IsVerdict (not_indexer ∷ success ∷ []) o
      × ((later : List Event)
          → (on_events
              (start_broadcast links)
              (map replied (not_indexer ∷ success ∷ []) ++ later)).settled
            ≡ some o))
    × ((before later : List Event)
        → is_some (on_events (start_broadcast links) (before ++ timed_out ∷ later)).settled ≡ true)
unfolding count_sent
request_resolves_example = request_resolves links not_indexer (success ∷ []) refl

-- What requests come to; the last is cut short by the timer, with the code of the last reply.
request_runs :
    (verdict (not_indexer ∷ success ∷ []) ≡ redeemed_as (codes "ab"))
    × (verdict (not_indexer ∷ refusal (codes "INVITE_SPENT") ∷ [])
        ≡ failed (codes "INVITE_SPENT") (codes "redeem failed"))
    × (verdict (refusal (codes "INVITE_SPENT") ∷ refusal (codes "INVITE_EXPIRED") ∷ [])
        ≡ failed (codes "INVITE_SPENT") (codes "redeem failed"))
    × (verdict (not_indexer ∷ not_indexer ∷ [])
        ≡ failed
            (codes "NO_INDEXER_REACHABLE")
            (codes "no connected peer is an indexer for this pact"))
    × ((on_events (start_broadcast links) (replied not_indexer ∷ timed_out ∷ [])).settled
        ≡ some (failed (codes "INVITE_NOT_INDEXER") (codes "timeout")))
unfolding verdict first_ok outcome_of all_replied find_terminal on_events on_timeout on_reply
    start_broadcast count_sent
request_runs = (refl, refl, refl, refl, refl)

-- The first peer is no indexer, and the second says that the invite is spent.
indexer_decides_example :
    (o : Outcome) × ((on_events (start_broadcast links) (
        map replied (
          not_indexer
          ∷ handle_redeem_request none (some (refused invite_spent)) (codes "spent")
          ∷ []))).settled
      ≡ some o)
    × (redeem_route true false (some (codes "k")) (redeemed []) o
        ≡ redeem_route true true none (refused invite_spent) (redeemed_as []))
unfolding count_sent
indexer_decides_example =
    indexer_decides links none (not_indexer ∷ []) [] (refused invite_spent) (redeemed [])
      (codes "k") none (redeemed_as []) (codes "spent") refl ((refl, refl), tt) tt (λ e. cc)

-- The guards of the routes.
route_runs :
    (redeem_route true true none (refused invite_spent) (redeemed_as [])
      ≡ http_error 409 (codes "INVITE_SPENT"))
    × (redeem_route true false none (redeemed []) (redeemed_as [])
        ≡ http_error 409 (codes "PACT_NOT_READY"))
    × (create_invite_route true false (codes "token") ≡ refused_as 409 (codes "NOT_CREATOR"))
    × (revoke_route (codes "ab") (codes "ab") true true ≡ http_error 400 (codes "BAD_REQUEST"))
unfolding redeem_route create_invite_route revoke_route
route_runs = (refl, refl, refl, refl)

abbrev proof : MemberAuthResponse
proof = record {
  corr = none;
  ok = true;
  member_key = some (codes "AB");
  signer_key = some (codes "cd");
  signer_namespace = none;
  compat = none;
  signature = some [];
  code = none;
  message = none;
}

abbrev trusts : Text → MemberAuthResponse → Bool
trusts pact_id res = true

abbrev knows_ab : Text → Bool
knows_ab key = text_eq key (codes "ab")

abbrev idle : AuthLink
idle = record { has_channel = true; pending = []; claimed = []; authenticated = [] }

authorised :
    get (codes "p1") (finish_request trusts knows_ab (codes "p1") (some proof) idle).1.authenticated
    ≡ some (codes "ab")
unfolding get finish_request check_response to_lower_case set
authorised = refl

authorised_by-IsProof_example :
    (get (codes "p1") idle.authenticated ≡ some (codes "ab"))
    ⊎ ((codes "p1" ≡ codes "p1")
        × IsProof trusts knows_ab (codes "p1") (some proof) (codes "ab")
        × ((finish_request trusts knows_ab (codes "p1") (some proof) idle).0 ≡ authed))
authorised_by-IsProof_example =
    authorised_by-IsProof trusts knows_ab (codes "p1") (some proof) idle (codes "p1") (codes "ab")
      authorised

-- The answers of an attempt, and the waits between the attempts.
attempt_runs :
    ((finish_request trusts knows_ab
        (codes "p1")
        (some (record proof { member_key = some (codes "ef") }))
        idle).0
      ≡ not_active)
    × ((finish_request trusts knows_ab (codes "p1") (some (record proof { ok = false })) idle).0
        ≡ verify_failed)
    × ((start_request true (some (codes "P1")) (codes "c1") true idle).1.pending
        ≡ (codes "c1", codes "p1") ∷ [])
    × (after_attempt AuthOutcome.timed_out 2 ≡ retry_in 1000)
    × (after_attempt verify_failed 9 ≡ retry_in 60000)
unfolding finish_request check_response to_lower_case start_request get is_pending set delete
    after_attempt backoff_delay_ms
attempt_runs = (refl, refl, refl, refl, refl)
