-- ===== src/Pact/Lookup.antt =====
-- Finding an invite in the file of invites, after a write to it.
use openpact.Prelude.{
  Text, text_eq, text_eq_iff, some, List, [], ◌∷◌, ◌++◌, true, false, ◌≡◌, sym, subst, inl, inr,
  Bool-cases, refl, arith, ◌||◌,
}
use openpact.Invites.{Invite, is_spent}
use openpact.Pact.{find_invite, update_invite}

-- The invite that the file holds for the nonce is revoked or spent.
pub record IsGone (nonce : Text) (invs : List Invite) : Type 0 where
  pub invite : Invite
  pub found : find_invite nonce invs ≡ some invite
  pub gone : (invite.revoked || is_spent invite.spent_at) ≡ true

pub find_invite-append :
    (nonce : Text) (xs ys : List Invite) (inv : Invite)
    → find_invite nonce xs ≡ some inv
    → find_invite nonce (xs ++ ys) ≡ some inv
unfolding find_invite
find_invite-append nonce [] ys inv h = absurd (ground arith)
find_invite-append nonce (x ∷ xs) ys inv h = ground (arith, find_invite-append nonce xs ys inv)

find_invite-nonce :
    (nonce : Text) (xs : List Invite) (inv : Invite)
    → find_invite nonce xs ≡ some inv
    → text_eq inv.nonce nonce ≡ true
unfolding find_invite
find_invite-nonce nonce [] inv h = absurd (ground arith)
find_invite-nonce nonce (x ∷ xs) inv h = ground (arith, find_invite-nonce nonce xs inv)

-- A write to the invite of the same nonce is found.
pub find_invite-update :
    (nonce : Text) (f : Invite → Invite) (keeps : (i : Invite) → (f i).nonce ≡ i.nonce)
    (xs : List Invite) (inv : Invite)
    → find_invite nonce xs ≡ some inv
    → find_invite nonce (update_invite nonce f xs) ≡ some (f inv)
unfolding find_invite update_invite
find_invite-update nonce f keeps [] inv h = absurd (ground arith)
find_invite-update nonce f keeps (x ∷ xs) inv h = elim (Bool-cases (text_eq x.nonce nonce)) [
  | inl here ↦ ground (arith, keeps x)
  | inr there ↦ ground (arith, find_invite-update nonce f keeps xs inv)
]

-- A write to the invite of another nonce is not.
pub find_invite-update_ne :
    (nonce other : Text) (f : Invite → Invite) (keeps : (i : Invite) → (f i).nonce ≡ i.nonce)
    (xs : List Invite)
    → text_eq other nonce ≡ false
    → find_invite nonce (update_invite other f xs) ≡ find_invite nonce xs
unfolding find_invite update_invite
find_invite-update_ne nonce other f keeps [] ne = refl
find_invite-update_ne nonce other f keeps (x ∷ xs) ne = ground (
  arith,
  keeps x,
  find_invite-update_ne nonce other f keeps xs ne,
  text_eq_iff x.nonce other,
  text_eq_iff x.nonce nonce,
  text_eq_iff other nonce,
)

-- A write that keeps nonces and revives no invite keeps the gone ones.
pub update-IsGone :
    (nonce other : Text) (f : Invite → Invite) (keeps : (i : Invite) → (f i).nonce ≡ i.nonce)
    (buries : (i : Invite) → ((f i).revoked || is_spent (f i).spent_at) ≡ true) (xs : List Invite)
    → IsGone nonce xs
    → IsGone nonce (update_invite other f xs)
update-IsGone nonce other f keeps buries xs h = elim (Bool-cases (text_eq other nonce)) [
  | inl same ↦
      subst (λ k. IsGone nonce (update_invite k f xs)) (sym ((text_eq_iff other nonce).0 same))
        (record {
          invite = f h.invite;
          found = find_invite-update nonce f keeps xs h.invite h.found;
          gone = buries h.invite;
        })
  | inr ne ↦ record {
    invite = h.invite;
    found = rw (find_invite-update_ne nonce other f keeps xs ne) h.found;
    gone = h.gone;
  }
]
