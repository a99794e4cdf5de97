-- ===== src/MemberAuth.antt =====
-- Member authorisation of a link: requestMemberAuth, backoffDelayMs and the handler of responses of
-- packages/daemon/src/member-auth-channel.ts, and the retries of packages/daemon/src/daemon.ts
-- (_scheduleMemberAuthForPact). A request is two steps, up to its sending and from its answer on,
-- between which the link may change. Verifying a signature and looking up a member are parameters;
-- the revocation timers and the replication that a success starts are left out.
pub mod Outcomes
use openpact.Prelude.{
  ℕ, ◌-◌, Text, text_eq, truthy, to_lower_case, Option, none, some, List, [], ◌∷◌, Bool, true,
  false, not, ◌&&◌, ◌||◌, if◌then◌else◌, leb, ltb, is_some,
}
use openpact.Wire.{Bytes, MemberAuthResponse}

pub data AuthOutcome : Type 0 where
  authed channel_closed not_member in_flight timed_out send_failed verify_failed not_active :
      AuthOutcome

-- What of a `PeerLink` member authorisation keeps: `pending` has the pact of each request that
-- waits for an answer, under its `corr`.
pub record AuthLink : Type 0 where
  pub has_channel : Bool
  pub pending : List (Text × Text)
  pub claimed : List (Text × Text)
  pub authenticated : List (Text × Text)

-- `Map.get`, `.delete` and `.set`
unfoldable pub get : Text → List (Text × Text) → Option Text
get k [] = none
get k ((j, v) ∷ m) = let rest = get k m in if text_eq j k then some v else rest

unfoldable pub delete : Text → List (Text × Text) → List (Text × Text)
delete k [] = []
delete k ((j, v) ∷ m) = let rest = delete k m in if text_eq j k then rest else (j, v) ∷ rest

unfoldable pub set : Text → Text → List (Text × Text) → List (Text × Text)
set k v m = (k, v) ∷ delete k m

-- Some pending request is for the pact.
unfoldable pub is_pending : Text → List (Text × Text) → Bool
is_pending pact_id [] = false
is_pending pact_id ((key, p) ∷ m) = text_eq p pact_id || is_pending pact_id m

abbrev pub lower_key : Option Text → Text
lower_key none = []
lower_key (some k) = to_lower_case k

-- The guards, the request and its sending; `none` where an answer is awaited.
unfoldable pub start_request :
    Bool → Option Text → Text → Bool → AuthLink → Option AuthOutcome × AuthLink
start_request is_member pact_key corr sent link =
    let pact_id = lower_key pact_key in
    let waiting = record link { pending = set corr pact_id link.pending } in
    if not is_member
    then (some not_member, link)
    else if not link.has_channel
    then (some channel_closed, link)
    else if not (truthy pact_id)
    then (some not_member, link)
    else if is_some (get pact_id link.authenticated)
    then (some authed, link)
    else if is_pending pact_id link.pending
    then (some in_flight, link)
    else if sent
    then (none, waiting)
    else (some send_failed, record waiting { pending = delete corr waiting.pending })

-- The handler of a response, and the timer: the answer goes to the request that waits for it.
unfoldable pub on_answer : Text → AuthLink → Bool × AuthLink
on_answer corr link =
    if is_some (get corr link.pending)
    then (true, record link { pending = delete corr link.pending })
    else (false, link)

abbrev pub given : Option Text → Bool
given none = false
given (some s) = truthy s

-- `!res.ok || !res.memberKey || !res.signerKey || !res.signature` is false.
abbrev pub is_whole : MemberAuthResponse → Bool
is_whole res = res.ok && (given res.member_key && (given res.signer_key && is_some res.signature))

module _ (verify : Text → MemberAuthResponse → Bool) (has_active_member_key : Text → Bool) where
  -- `verify` is `verifyMembershipChallenge` for the challenge that was sent.
  unfoldable pub check_response : Text → MemberAuthResponse → AuthLink → AuthOutcome × AuthLink
  check_response pact_id res link =
      let member_key = lower_key res.member_key in
      let claimed = record link { claimed = set pact_id member_key link.claimed } in
      if not (is_whole res)
      then (verify_failed, link)
      else if not (verify pact_id res)
      then (verify_failed, link)
      else if not (has_active_member_key member_key)
      then (not_active, claimed)
      else (authed, record claimed { authenticated = set pact_id member_key claimed.authenticated })

  -- `none` is the timer's answer.
  unfoldable pub finish_request :
      Text → Option MemberAuthResponse → AuthLink → AuthOutcome × AuthLink
  finish_request pact_id none link = (timed_out, link)
  finish_request pact_id (some res) link = check_response pact_id res link

-- `AUTH_BACKOFF_MS` at the attempt, clamped to its last entry.
unfoldable pub backoff_delay_ms : ℕ → ℕ
backoff_delay_ms attempt =
    if leb attempt 1
    then 250
    else if leb attempt 2
    then 1000
    else if leb attempt 3
    then 4000
    else if leb attempt 4
    then 15000
    else 60000

-- What the loop does after an attempt: it ends, leaves the slot as it is, or waits.
pub data Next : Type 0 where
  stop keep_slot : Next
  retry_in : ℕ → Next

unfoldable pub after_attempt : AuthOutcome → ℕ → Next
after_attempt authed attempt = stop
after_attempt channel_closed attempt = stop
after_attempt not_active attempt = stop
after_attempt not_member attempt = stop
after_attempt in_flight attempt = keep_slot
after_attempt timed_out attempt = retry_in (backoff_delay_ms attempt)
after_attempt send_failed attempt = retry_in (backoff_delay_ms attempt)
after_attempt verify_failed attempt = retry_in (backoff_delay_ms attempt)
