-- ===== src/Pact/Accepted.antt =====
-- What a redemption leaves behind.
use Prim.Native.String.{String}
use openpact.Prelude.{
  ℕ, Text, codes, text_eq, to_lower_case, Option, none, some, [], ◌∷◌, ◌++◌, false, ◌≡◌, ◌⊎◌, inl,
  inr, refl, subst, sym,
}
use openpact.Json.{Json, null, bool, str, obj, end, entry}
use openpact.Invites.{Invite, TokenCodec}
use openpact.Pact.{
  Pact, RedeemErrorCode, RedeemResult, redeemed, refused, find_invite, accept_invite, mark_spent,
  redeem_invite,
}
use openpact.Pact.Redeem.{IsAcceptable, redeem_invite-checked}
use openpact.Pact.Lookup.{find_invite-update, find_invite-update_ne}

abbrev text_or_null : Option Text → Json
text_or_null none = null
text_or_null (some s) = str s

-- An entry that the peer writes at the time `ts`.
abbrev written : Pact → String → Text → Json → Json
written p type ts payload = obj (
    entry (codes "type") (str (codes type)) (
      entry (codes "timestamp") (str ts) (
        entry (codes "agent_id") (str p.peer_handle) (
          entry (codes "display_name") (text_or_null p.display_name)
            (entry (codes "payload") payload end)))))

-- `q` is `p` after the redemption of its invite `inv` by `joiner` at the time `ts`: the log has two
-- more entries, the redemption and the admission of the joiner as a member that is no indexer; the
-- invite is marked spent, and nothing else has changed.
pub record IsRedeemed (p q : Pact) (nonce joiner ts : Text) (inv : Invite) : Type 0 where
  pub appended :
      q.log
      ≡ p.log
        ++ written p "invite-redeemed" ts
            (obj (entry (codes "nonce") (str nonce) (entry (codes "redeemed_by") (str joiner) end)))
          ∷ written p "admin" ts (
              obj (
                entry
                  (codes "action")
                  (str (codes "addWriter"))
                  (entry (codes "key") (str joiner) (entry (codes "indexer") (bool false) end))))
          ∷ []
  pub spent :
      find_invite nonce q.invites ≡ some (record inv { spent_at = some ts; spent_by = some joiner })
  pub others :
      (other : Text)
      → text_eq nonce other ≡ false
      → find_invite other q.invites ≡ find_invite other p.invites
  pub rest : q ≡ record p { invites = q.invites; log = q.log }

accept_invite-IsRedeemed :
    (p : Pact) (nonce joiner ts : Text) (inv : Invite)
    → find_invite nonce p.invites ≡ some inv
    → IsRedeemed p (accept_invite p nonce joiner ts) nonce joiner ts inv
unfolding accept_invite
accept_invite-IsRedeemed p nonce joiner ts inv found = record {
  appended = refl;
  spent = find_invite-update nonce (mark_spent ts joiner) (λ i. refl) p.invites inv found;
  others =
      λ other ne. find_invite-update_ne other nonce (mark_spent ts joiner) (λ i. refl) p.invites ne;
  rest = refl;
}

module _ (c : TokenCodec) (to_iso : ℕ → Text) where
  -- A redemption either is refused with a code and leaves the pact as it was, or every check
  -- passed: the writer key is a hexadecimal text of 64 digits, the token decodes and names this
  -- pact, the peer is an indexer, and the nonce has an invite that is not dead and no row in the
  -- view. Then it gives the nonce; the log gets two entries more, the redemption and an addWriter
  -- entry for the key in lower case with the indexer flag false; that invite, and no other, is
  -- marked spent by the key; and nothing else changes.
  pub redeem_invite-cases :
      (p : Pact) (token writer_key : Text) (now later : ℕ) {q : Pact} {r : RedeemResult}
      → redeem_invite c to_iso p token writer_key now later ≡ (r, q)
      → ((code : RedeemErrorCode) × (r ≡ refused code) × (q ≡ p))
        ⊎ ((ok : IsAcceptable c p token writer_key now) × (r ≡ redeemed ok.payload.nonce)
            × IsRedeemed p q ok.payload.nonce
                (to_lower_case writer_key)
                (to_iso later)
                ok.redeemable.invite)
  redeem_invite-cases p token writer_key now later {q} {r} run =
      elim (redeem_invite-checked c to_iso p token writer_key now later run) [
        | inl refusal ↦ inl refusal
        | inr (ok, answer, after) ↦ inr (
          ok,
          answer,
          subst
              (λ x.
                IsRedeemed p x ok.payload.nonce (to_lower_case writer_key) (to_iso later)
                  ok.redeemable.invite)
              (sym after)
              (accept_invite-IsRedeemed p ok.payload.nonce (to_lower_case writer_key) (to_iso later)
                ok.redeemable.invite ok.redeemable.found),
        )
      ]
