-- ===== src/MemberAuth/Outcomes.antt =====
-- When an attempt authorises a link, and when it may be made again.
use openpact.Prelude.{
  Text, text_eq, text_eq_iff, text_eq_refl, truthy, Option, none, some, List, [], ◌∷◌, Bool, true,
  false, ◌≡◌, ◌≢◌, ◌⊎◌, inl, inr, refl, sym, ap, ◌∙◌, subst, arith, is_some, Bool-cases,
}
use openpact.Wire.{MemberAuthResponse, or_empty}
use openpact.MemberAuth.{
  authed, AuthLink, get, delete, set, is_pending, lower_key, start_request, on_answer, is_whole,
  check_response, finish_request,
}

get-set : (k v : Text) (m : List (Text × Text)) → get k (set k v m) ≡ some v
unfolding get set
get-set k v m = rw (text_eq_refl k) refl

get-delete :
    (j k : Text) (m : List (Text × Text)) → text_eq k j ≡ false → get j (delete k m) ≡ get j m
unfolding get delete
get-delete j k [] h = refl
get-delete j k ((i, v) ∷ m) h = ground (arith, get-delete j k m h, text_eq_iff i j, text_eq_iff i k)

get-set_other :
    (j k v : Text) (m : List (Text × Text)) → text_eq k j ≡ false → get j (set k v m) ≡ get j m
unfolding get set
get-set_other j k v m h = rw h (get-delete j k m h)

text_of_some : {s t : Text} → some s ≡ some t → s ≡ t
text_of_some h = ap (λ o. or_empty o) h

is_pending-delete :
    (p k : Text) (m : List (Text × Text))
    → is_pending p m ≡ false
    → is_pending p (delete k m) ≡ false
unfolding is_pending delete
is_pending-delete p k [] h = refl
is_pending-delete p k ((j, v) ∷ m) h = ground (arith, is_pending-delete p k m)

module _ (verify : Text → MemberAuthResponse → Bool) (has_active_member_key : Text → Bool) where
  -- What authorises a link for a pact.
  pub record IsProof (pact_id : Text) (answer : Option MemberAuthResponse) (member_key : Text)
      : Type 0 where
    pub res : MemberAuthResponse
    pub received : answer ≡ some res
    pub whole : is_whole res ≡ true
    pub key : lower_key res.member_key ≡ member_key
    pub signed : verify pact_id res ≡ true
    pub active : has_active_member_key member_key ≡ true

  check_response-cases :
      (pact_id : Text) (res : MemberAuthResponse) (link : AuthLink)
      → (IsProof pact_id (some res) (lower_key res.member_key)
          × ((check_response verify has_active_member_key pact_id res link).0 ≡ authed)
          × ((check_response verify has_active_member_key pact_id res link).1.authenticated
              ≡ set pact_id (lower_key res.member_key) link.authenticated))
        ⊎ (((check_response verify has_active_member_key pact_id res link).0 ≢ authed)
            × ((check_response verify has_active_member_key pact_id res link).1.authenticated
                ≡ link.authenticated))
  unfolding check_response
  check_response-cases pact_id res link = elim (Bool-cases (is_whole res)) [
    | inr partial ↦ inr (rw partial (λ k. cc), rw partial refl)
    | inl whole ↦ elim (Bool-cases (verify pact_id res)) [
      | inr forged ↦ inr (rw (whole, forged) (λ k. cc), rw (whole, forged) refl)
      | inl signed ↦ elim (Bool-cases (has_active_member_key (lower_key res.member_key))) [
        | inr gone ↦ inr (rw (whole, signed, gone) (λ k. cc), rw (whole, signed, gone) refl)
        | inl active ↦ inl (
          record {
            res = res;
            received = refl;
            whole = whole;
            key = refl;
            signed = signed;
            active = active;
          },
          rw (whole, signed, active) refl,
          rw (whole, signed, active) refl,
        )
      ]
    ]
  ]

  -- After an attempt, a link is authorised for a pact with a key only if it was so before, or the
  -- attempt was for that pact and its outcome is success, on an answer that is whole, whose
  -- signature was verified for the pact, and whose member key, in lower case, is that of an active
  -- member.
  pub authorised_by-IsProof :
      (pact_id : Text) (answer : Option MemberAuthResponse) (link : AuthLink) (p k : Text)
      → get p (finish_request verify has_active_member_key pact_id answer link).1.authenticated
        ≡ some k
      → (get p link.authenticated ≡ some k)
        ⊎ ((p ≡ pact_id)
            × IsProof pact_id answer k
            × ((finish_request verify has_active_member_key pact_id answer link).0 ≡ authed))
  unfolding finish_request
  authorised_by-IsProof pact_id none link p k h = inl h
  authorised_by-IsProof pact_id (some res) link p k h =
      elim (check_response-cases pact_id res link) [
        | inr (failed, same) ↦ inl (sym (ap (get p) same) ∙ h)
        | inl (proof, success, changed) ↦
            let now : get p (set pact_id (lower_key res.member_key) link.authenticated) ≡ some k =
              sym (ap (get p) changed) ∙ h in
            elim (Bool-cases (text_eq pact_id p)) [
              | inr other ↦ inl (
                  sym (get-set_other p pact_id (lower_key res.member_key) link.authenticated other)
                  ∙ now)
              | inl same ↦
                  let here : p ≡ pact_id = sym ((text_eq_iff pact_id p).0 same) in
                  let key : some (lower_key res.member_key) ≡ some k =
                    sym (get-set pact_id (lower_key res.member_key) link.authenticated)
                    ∙ (ap (λ q. get q (set pact_id (lower_key res.member_key) link.authenticated))
                          (sym here)
                        ∙ now) in
                  inr (here, subst (IsProof pact_id (some res)) (text_of_some key) proof, success)
            ]
      ]

-- A request that the guards let through.
request_sent :
    (pact_key : Option Text) (corr : Text) (link : AuthLink)
    → link.has_channel ≡ true
    → truthy (lower_key pact_key) ≡ true
    → is_some (get (lower_key pact_key) link.authenticated) ≡ false
    → is_pending (lower_key pact_key) link.pending ≡ false
    → start_request true pact_key corr true link
      ≡ (none, record link { pending = set corr (lower_key pact_key) link.pending })
unfolding start_request
request_sent pact_key corr link channel named fresh idle = ground arith

-- A request that was answered, or whose timer fired, no longer waits.
answered :
    (corr pact_id : Text) (link : AuthLink)
    → is_pending pact_id link.pending ≡ false
    → is_pending pact_id
        (on_answer corr (record link { pending = set corr pact_id link.pending })).1.pending
      ≡ false
unfolding on_answer set get delete
answered corr pact_id link idle =
    let once = is_pending-delete pact_id corr link.pending idle in
    rw (text_eq_refl corr) (is_pending-delete pact_id corr (delete corr link.pending) once)

on_answer-same :
    (corr : Text) (link : AuthLink)
    → ((on_answer corr link).1.has_channel ≡ link.has_channel)
      × ((on_answer corr link).1.authenticated ≡ link.authenticated)
unfolding on_answer
on_answer-same corr link = ground arith

-- An attempt that was sent leaves nothing, once it is answered or timed out, that blocks the next
-- attempt for the pact.
sent_then_answered :
    (pact_key : Option Text) (corr again : Text) (link : AuthLink)
    → link.has_channel ≡ true
    → truthy (lower_key pact_key) ≡ true
    → is_some (get (lower_key pact_key) link.authenticated) ≡ false
    → is_pending (lower_key pact_key) link.pending ≡ false
    → (start_request true pact_key again true
        (on_answer corr (start_request true pact_key corr true link).1).1).0
      ≡ none
sent_then_answered pact_key corr again link channel named fresh idle =
    let sent = record link { pending = set corr (lower_key pact_key) link.pending } in
    let (same_channel, same_members) = on_answer-same corr sent in
    ap (λ r. (start_request true pact_key again true (on_answer corr r.1).1).0)
      (request_sent pact_key corr link channel named fresh idle)
    ∙ ap (λ r. r.0)
        (request_sent pact_key again (on_answer corr sent).1 (same_channel ∙ channel) named
          (ap (λ m. is_some (get (lower_key pact_key) m)) same_members ∙ fresh)
          (answered corr (lower_key pact_key) link idle))
