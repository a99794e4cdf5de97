-- ===== src/RedeemPeers/Verdicts.antt =====
-- What a request to peers should come to, by the replies alone.
use openpact.Prelude.{
  suc, length, map, is_some, Text, codes, text_eq_iff, Option, none, some, List, [], ◌∷◌, ◌++◌,
  Bool, true, false, ◌≡◌, ◌≢◌, ◌⊎◌, ◌↔◌, inl, inr, refl, ap, arith, All, Bool-cases, Option-cases,
}
use openpact.Wire.{RedeemResponse}
use openpact.RedeemPeers.{
  Outcome, redeemed_as, failed, outcome_of, or_code, or_text, has_code, is_terminal, find_terminal,
  all_replied, count_sent, start_broadcast, on_events, Event, replied, timed_out,
}
use openpact.RedeemPeers.Settled.{first_ok, verdict, request_is_settled}

abbrev pub Refuses : RedeemResponse → Type 0
Refuses res = res.ok ≡ false

-- The reply of a peer that cannot redeem: it is no indexer, or does not know the pact.
abbrev pub PassesOn : RedeemResponse → Type 0
PassesOn res =
    (res.code ≡ some (codes "INVITE_NOT_INDEXER")) ⊎ (res.code ≡ some (codes "UNKNOWN_PACT"))

-- A refusal of another kind.
abbrev pub IsFinal : RedeemResponse → Type 0
IsFinal res =
    (res.ok ≡ false)
    × (res.code ≢ some (codes "INVITE_NOT_INDEXER"))
    × (res.code ≢ some (codes "UNKNOWN_PACT"))

-- A text or its default: what is there, unless it is missing.
abbrev pub IsCode : Option Text → Text → Type 0
IsCode none code = code ≡ codes "INTERNAL"
IsCode (some c) code = code ≡ c

abbrev pub IsMessage : Option Text → Text → Type 0
IsMessage none message = message ≡ codes "redeem failed"
IsMessage (some []) message = message ≡ codes "redeem failed"
IsMessage (some (c ∷ s)) message = message ≡ c ∷ s

-- A failure with the code and the message of a reply.
pub record Reports (res : RedeemResponse) (o : Outcome) : Type 0 where
  pub code : Text
  pub message : Text
  pub outcome : o ≡ failed code message
  pub of_code : IsCode res.code code
  pub of_message : IsMessage res.message message

-- The outcome of a success: its nonce, or a failure where it has none.
abbrev pub Redeems : RedeemResponse → Outcome → Type 0
Redeems res o =
    ((nonce : Text) × (res.nonce ≡ some nonce) × (nonce ≢ []) × (o ≡ redeemed_as nonce))
    ⊎ (((res.nonce ≡ none) ⊎ (res.nonce ≡ some [])) × Reports res o)

-- The first reply of `rs` that is not of one kind is of another.
pub record First (Before At : RedeemResponse → Type 0) (rs : List RedeemResponse) : Type 0 where
  pub before : List RedeemResponse
  pub reply : RedeemResponse
  pub after : List RedeemResponse
  pub parts : rs ≡ before ++ reply ∷ after
  pub all_before : All Before before
  pub at : At reply

abbrev pub Succeeds : RedeemResponse → Type 0
Succeeds res = res.ok ≡ true

-- What all replies amount to, in the order of their arrival.
abbrev pub IsVerdict : List RedeemResponse → Outcome → Type 0
IsVerdict rs o =
    ((f : First Refuses Succeeds rs) × Redeems f.reply o)
    ⊎ (All Refuses rs × ((f : First PassesOn IsFinal rs) × Reports f.reply o))
    ⊎ (All Refuses rs
        × All PassesOn rs
        × (o
            ≡ failed (codes "NO_INDEXER_REACHABLE")
                (codes "no connected peer is an indexer for this pact")))

-- A first reply is still the first behind one of the earlier kind.
abbrev behind :
    (B A : RedeemResponse → Type 0) (r : RedeemResponse) (rs : List RedeemResponse)
    → B r
    → First B A rs
    → First B A (r ∷ rs)
behind B A r rs h f = record {
  before = r ∷ f.before;
  reply = f.reply;
  after = f.after;
  parts = ap (λ l. r ∷ l) f.parts;
  all_before = (h, f.all_before);
  at = f.at;
}

abbrev first_here :
    (B A : RedeemResponse → Type 0) (r : RedeemResponse) (rs : List RedeemResponse)
    → A r
    → First B A (r ∷ rs)
first_here B A r rs h = record {
  before = [];
  reply = r;
  after = rs;
  parts = refl;
  all_before = tt;
  at = h;
}

IsCode-or_code : (c : Option Text) → IsCode c (or_code c (codes "INTERNAL"))
IsCode-or_code none = refl
IsCode-or_code (some c) = refl

IsMessage-or_text : (m : Option Text) → IsMessage m (or_text m (codes "redeem failed"))
IsMessage-or_text none = refl
IsMessage-or_text (some []) = refl
IsMessage-or_text (some (c ∷ s)) = refl

failure-Reports :
    (res : RedeemResponse) (o : Outcome)
    → o ≡ failed (or_code res.code (codes "INTERNAL")) (or_text res.message (codes "redeem failed"))
    → Reports res o
failure-Reports res o e = record {
  code = or_code res.code (codes "INTERNAL");
  message = or_text res.message (codes "redeem failed");
  outcome = e;
  of_code = IsCode-or_code res.code;
  of_message = IsMessage-or_text res.message;
}

refusal-Reports : (res : RedeemResponse) → res.ok ≡ false → Reports res (outcome_of res)
unfolding outcome_of
refusal-Reports res refused = failure-Reports res (outcome_of res) (ground arith)

success-Redeems :
    (res : RedeemResponse) (n : Option Text)
    → res.nonce ≡ n
    → res.ok ≡ true
    → Redeems res (outcome_of res)
unfolding outcome_of
success-Redeems res none given ok =
    inr (inl given, failure-Reports res (outcome_of res) (rw given refl))
success-Redeems res (some []) given ok =
    inr (inr given, failure-Reports res (outcome_of res) (rw (given, ok) refl))
success-Redeems res (some (c ∷ s)) given ok = inl (c ∷ s, given, λ e. cc, rw (given, ok) refl)

has_code_iff :
    (res : RedeemResponse) (code : Text) → (has_code res code ≡ true) ↔ (res.code ≡ some code)
has_code_iff res code = elim (Option-cases res.code) [
  | inl uncoded ↦ rw uncoded (λ h. cc, λ h. cc)
  | inr (c, coded) ↦
      rw coded (λ h. ap some ((text_eq_iff c code).0 h), λ h. ground (arith, text_eq_iff c code))
]

terminal-cases :
    (res : RedeemResponse)
    → res.ok ≡ false
    → ((is_terminal res ≡ true) × IsFinal res) ⊎ ((is_terminal res ≡ false) × PassesOn res)
terminal-cases res refused =
    let (indexer, indexer') = has_code_iff res (codes "INVITE_NOT_INDEXER") in
    let (pact, pact') = has_code_iff res (codes "UNKNOWN_PACT") in
    elim (Bool-cases (has_code res (codes "INVITE_NOT_INDEXER"))) [
      | inl here ↦ inr (rw (refused, here) refl, inl (indexer here))
      | inr other ↦ elim (Bool-cases (has_code res (codes "UNKNOWN_PACT"))) [
        | inl here ↦ inr (rw (refused, other, here) refl, inr (pact here))
        | inr neither ↦ inl (
          rw (refused, other, neither) refl,
          (
            refused,
            λ e. absurd (ground (arith, indexer' e)),
            λ e. absurd (ground (arith, pact' e)),
          ),
        )
      ]
    ]

find_terminal-First :
    (rs : List RedeemResponse)
    → All Refuses rs
    → ((f : First PassesOn IsFinal rs) × (find_terminal rs ≡ some f.reply))
      ⊎ (All PassesOn rs × (find_terminal rs ≡ none))
unfolding find_terminal
find_terminal-First [] h = inr (tt, refl)
find_terminal-First (r ∷ rs) (refused, h) = elim (terminal-cases r refused) [
  | inl (terminal, final) ↦ inl (first_here PassesOn IsFinal r rs final, rw terminal refl)
  | inr (not_terminal, passes) ↦ elim (find_terminal-First rs h) [
    | inl (f, found) ↦ inl (behind PassesOn IsFinal r rs passes f, rw not_terminal found)
    | inr (all_pass, nothing) ↦ inr ((passes, all_pass), rw not_terminal nothing)
  ]
]

first_ok-First :
    (rs : List RedeemResponse)
    → ((f : First Refuses Succeeds rs) × (first_ok rs ≡ some f.reply))
      ⊎ (All Refuses rs × (first_ok rs ≡ none))
unfolding first_ok
first_ok-First [] = inr (tt, refl)
first_ok-First (r ∷ rs) = elim (Bool-cases r.ok) [
  | inl ok ↦ inl (first_here Refuses Succeeds r rs ok, rw ok refl)
  | inr refused ↦ elim (first_ok-First rs) [
    | inl (f, found) ↦ inl (behind Refuses Succeeds r rs refused f, rw refused found)
    | inr (h, nothing) ↦ inr ((refused, h), rw refused nothing)
  ]
]

pub verdict-IsVerdict : (rs : List RedeemResponse) → IsVerdict rs (verdict rs)
unfolding verdict all_replied
verdict-IsVerdict rs = elim (first_ok-First rs) [
  | inl (f, found) ↦ inl (f, rw (verdict, found) (success-Redeems f.reply f.reply.nonce refl f.at))
  | inr (h, nothing) ↦ elim (find_terminal-First rs h) [
    | inl (f, terminal) ↦ inr (
        inl (h, (f, rw (verdict, nothing, all_replied, terminal) (refusal-Reports f.reply f.at.0))))
    | inr (all_pass, no_terminal) ↦
        inr (inr (h, all_pass, rw (verdict, nothing, all_replied, no_terminal) refl))
  ]
]

-- A request that at least one peer took is settled once each of those peers has replied, whatever
-- happens later. If a reply is a success, it comes to the nonce of the first one, or to a failure
-- if that has no nonce; otherwise to the failure of the first reply, in the order of arrival, whose
-- code is neither that the peer is no indexer nor that it does not know the pact; and otherwise to
-- NO_INDEXER_REACHABLE. Every run in which the timer fires is settled, too.
pub request_resolves :
    (links : List (Bool × Bool)) (r : RedeemResponse) (rs : List RedeemResponse)
    → count_sent links ≡ suc (length rs)
    → ((o : Outcome) × IsVerdict (r ∷ rs) o
        × ((later : List Event)
            → (on_events (start_broadcast links) (map replied (r ∷ rs) ++ later)).settled ≡ some o))
      × ((before later : List Event)
          → is_some (on_events (start_broadcast links) (before ++ timed_out ∷ later)).settled
            ≡ true)
request_resolves links r rs sent =
    let (settles, times_out) = request_is_settled links r rs sent in
    ((verdict (r ∷ rs), verdict-IsVerdict (r ∷ rs), settles), times_out)
