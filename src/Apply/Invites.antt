-- ===== src/Apply/Invites.antt =====
-- The `_invites/<nonce>` rows.
use openpact.Prelude.{
  ℕ, Text, text_eq_iff, text_eq_refl, truthy, none, some, List, ◌++◌, Bool, true, ◌≡◌, ◌≢◌, inl,
  inr, refl, sym, arith, Bool-cases, Option-cases, ◌∙◌,
}
use openpact.Json.{Json, bool, field, text_of}
use openpact.EntryId
use openpact.EntryId.{buffer}
use openpact.Hex.{to_hex}
use openpact.Schemas.{EntryType, ValidationResult, validate}
use openpact.Apply.View.{
  ApplyView, IsView, ApplyHost, member_prefix, indexer_prefix, invite_prefix, pact_name_key,
  pact_purpose_key,
}
use openpact.Apply.Admin.{
  ApplyNode, Info, applied_invite, World, put_info, add_member, remove_member, apply_admin,
  payload_text, payload_of, has_type,
}
use openpact.Apply.{
  admin_entry, invite_entry, user_entry, prepare, by_type, apply_entry, apply_node, apply,
  invite_row,
}
use openpact.Apply.Frame.{put-get_ne, put_info-get, prepare-get, user_entry-get}
use openpact.Apply.Steps.{apply_node-cases, apply_induction}

module _ (b : ApplyView) (laws : IsView b) (h : ApplyHost) where
  -- An admin entry writes member, indexer and metadata rows only.
  apply_admin-get :
      (w : World b h) (e : Json) {w' : World b h} (n : Text)
      → apply_admin b h w e ≡ some w'
      → b.get w'.view (invite_prefix ++ n) ≡ b.get w.view (invite_prefix ++ n)
  unfolding apply_admin add_member remove_member
  apply_admin-get w e n r =
      let k = invite_prefix ++ n in
      let key = payload_text "key" e in
      let ts = text_of (field "timestamp" e) in
      let name = field "name" (payload_of e) in
      let purpose = field "purpose" (payload_of e) in
      let member = b.put w.view (member_prefix ++ key) (bool true) in
      ground (
        arith,
        put_info-get b laws h name pact_name_key ts w.view k refl,
        put_info-get b laws h purpose pact_purpose_key ts
            (put_info b h name pact_name_key ts w.view) k refl,
        put-get_ne b laws w.view (member_prefix ++ key) (bool true) k refl,
        put-get_ne b laws member (indexer_prefix ++ key) (bool true) k refl,
        laws.get-del w.view (member_prefix ++ key) k,
        laws.get-del (b.del w.view (member_prefix ++ key)) (indexer_prefix ++ key) k,
      )

  admin_entry-get :
      (w : World b h) (e : Json) (hex : Text) (is_indexer : Bool) {w' : World b h} {i : Info}
      (n : Text)
      → admin_entry b h w e hex is_indexer ≡ some (w', i)
      → b.get w'.view (invite_prefix ++ n) ≡ b.get w.view (invite_prefix ++ n)
  unfolding admin_entry
  admin_entry-get w e hex is_indexer n r = elim (Option-cases (apply_admin b h w e)) [
    | inl thrown ↦ ground arith
    | inr (done, applied) ↦ ground (arith, apply_admin-get w e n applied)
  ]

  -- A spent nonce keeps its row.
  invite_entry-get :
      (w : World b h) (e : Json) (is_indexer : Bool) (n : Text) (x : Json)
      → b.get w.view (invite_prefix ++ n) ≡ some x
      → b.get (invite_entry b h w e is_indexer).0.view (invite_prefix ++ n) ≡ some x
  unfolding invite_entry
  invite_entry-get w e is_indexer n x spent =
      let nonce = payload_text "nonce" e in
      ground (
        arith,
        text_eq_iff nonce n,
        laws.get-put w.view (invite_prefix ++ nonce) (invite_row e) (invite_prefix ++ n),
      )

  admin_entry-info :
      (w : World b h) (e : Json) (hex : Text) (is_indexer : Bool) {w' : World b h}
      → admin_entry b h w e hex is_indexer ≢ some (w', applied_invite)
  unfolding admin_entry
  admin_entry-info w e hex is_indexer r = elim (Option-cases (apply_admin b h w e)) [
    | inl thrown ↦ ground arith
    | inr (done, applied) ↦ ground arith
  ]

  user_entry-info :
      (w : World b h) (e : Json) (key : List ℕ) (length : ℕ) {w' : World b h}
      → user_entry b h w e key length ≢ some (w', applied_invite)
  unfolding user_entry
  user_entry-info w e key length r = elim (Option-cases (EntryId.encode (buffer key) length)) [
    | inl thrown ↦ ground arith
    | inr (id, encoded) ↦ ground arith
  ]

  invite_entry-fresh :
      (w : World b h) (e : Json) (is_indexer : Bool) {w' : World b h}
      → invite_entry b h w e is_indexer ≡ (w', applied_invite)
      → truthy (payload_text "nonce" e) ≡ true
      → (b.get w.view (invite_prefix ++ payload_text "nonce" e) ≡ none)
        × (b.get w'.view (invite_prefix ++ payload_text "nonce" e) ≡ some (invite_row e))
  unfolding invite_entry
  invite_entry-fresh w e is_indexer r given =
      let nonce = payload_text "nonce" e in
      ground (
        arith,
        text_eq_refl nonce,
        laws.get-put w.view (invite_prefix ++ nonce) (invite_row e) (invite_prefix ++ nonce),
      )

  module _ (validators : EntryType → Json → Bool) (json_bytes : Json → ℕ) where
    apply_entry-get :
        (w : World b h) (e : Json) (key : List ℕ) (length : ℕ) {w' : World b h} {i : Info}
        (n : Text) (x : Json)
        → validate validators json_bytes e ≡ ValidationResult.valid
        → apply_entry b h w e key length ≡ some (w', i)
        → b.get w.view (invite_prefix ++ n) ≡ some x
        → b.get w'.view (invite_prefix ++ n) ≡ some x
    unfolding apply_entry by_type
    apply_entry-get w e key length {w'} {i} n x v r spent =
        let hex = to_hex key in
        let (w1, flag) = prepare b h w e hex in
        let kept : b.get w1.view (invite_prefix ++ n) ≡ some x =
          prepare-get b laws h w e hex (invite_prefix ++ n) (λ a. refl) refl refl ∙ spent in
        elim (Bool-cases (has_type "admin" e)) [
          | inl admin ↦
              let done : admin_entry b h w1 e hex flag ≡ some (w', i) = ground arith in
              admin_entry-get w1 e hex flag n done ∙ kept
          | inr other ↦ elim (Bool-cases (has_type "invite-redeemed" e)) [
            | inl invite ↦ ground (arith, invite_entry-get w1 e flag n x kept)
            | inr user ↦
                let done : user_entry b h w1 e key length ≡ some (w', i) = ground arith in
                user_entry-get b laws h validators json_bytes w1 e key length _ v done ∙ kept
          ]
        ]

    pub apply_node-get :
        (w : World b h) (n : ApplyNode) {w' : World b h} {i : Info} (nonce : Text) (x : Json)
        → apply_node b h validators json_bytes w n ≡ some (w', i)
        → b.get w.view (invite_prefix ++ nonce) ≡ some x
        → b.get w'.view (invite_prefix ++ nonce) ≡ some x
    apply_node-get w n {w'} {i} nonce x r spent =
        elim (apply_node-cases b h validators json_bytes w n w' i r) [
          | inl dropped ↦ rw dropped.same spent
          | inr a ↦ apply_entry-get w n.value a.key n.length nonce x a.validated a.entered spent
        ]

    -- Once a nonce is marked redeemed, with whatever row, no further run of `apply`, over any
    -- nodes, changes or removes that row.
    pub apply-keeps_redemption :
        (w : World b h) (ns : List ApplyNode) {w' : World b h} {is : List Info} (nonce : Text)
        (x : Json)
        → apply b h validators json_bytes w ns ≡ some (w', is)
        → b.get w.view (invite_prefix ++ nonce) ≡ some x
        → b.get w'.view (invite_prefix ++ nonce) ≡ some x
    apply-keeps_redemption w ns {w'} {is} nonce x r spent =
        apply_induction b h validators json_bytes
          (λ u. b.get u.view (invite_prefix ++ nonce) ≡ some x)
          (λ u n u' i stepped p. apply_node-get u n nonce x stepped p) w ns w' is r spent

    redeemed_entry :
        (w : World b h) (e : Json) (key : List ℕ) (length : ℕ) {w' : World b h}
        → apply_entry b h w e key length ≡ some (w', applied_invite)
        → truthy (payload_text "nonce" e) ≡ true
        → (b.get w.view (invite_prefix ++ payload_text "nonce" e) ≡ none)
          × (b.get w'.view (invite_prefix ++ payload_text "nonce" e) ≡ some (invite_row e))
    unfolding apply_entry by_type
    redeemed_entry w e key length {w'} r given =
        let hex = to_hex key in
        let nonce = payload_text "nonce" e in
        let (w1, flag) = prepare b h w e hex in
        let kept : b.get w1.view (invite_prefix ++ nonce) ≡ b.get w.view (invite_prefix ++ nonce) =
          prepare-get b laws h w e hex (invite_prefix ++ nonce) (λ a. refl) refl refl in
        elim (Bool-cases (has_type "admin" e)) [
          | inl admin ↦ absurd (admin_entry-info w1 e hex flag {w' = w'} (ground arith))
          | inr other ↦ elim (Bool-cases (has_type "invite-redeemed" e)) [
            | inl invite ↦
                let (fresh, row) = invite_entry-fresh w1 e flag {w' = w'} (ground arith) given in
                (sym kept ∙ fresh, row)
            | inr user ↦ absurd (user_entry-info w1 e key length {w' = w'} (ground arith))
          ]
        ]

    -- What `apply` reports as a redemption has just written the row of its nonce, which had none.
    apply_node-redeemed :
        (w : World b h) (n : ApplyNode) (w' : World b h)
        → apply_node b h validators json_bytes w n ≡ some (w', applied_invite)
        → truthy (payload_text "nonce" n.value) ≡ true
        → (b.get w.view (invite_prefix ++ payload_text "nonce" n.value) ≡ none)
          × (b.get w'.view (invite_prefix ++ payload_text "nonce" n.value)
              ≡ some (invite_row n.value))
    apply_node-redeemed w n w' r given =
        elim (apply_node-cases b h validators json_bytes w n w' applied_invite r) [
          | inl dropped ↦ absurd (cc (dropped.reported))
          | inr a ↦ redeemed_entry w n.value a.key n.length a.entered given
        ]

    -- A nonce is redeemed at most once: after a node that `apply_node` reports as a redemption
    -- with a non-empty nonce, and any run of further nodes, no node with that nonce is reported
    -- as a redemption.
    pub redeems_once :
        (w : World b h) (n : ApplyNode) (w1 : World b h) (ns : List ApplyNode) (w2 : World b h)
        (is : List Info) (n' : ApplyNode) (w3 : World b h) (i : Info)
        → apply_node b h validators json_bytes w n ≡ some (w1, applied_invite)
        → truthy (payload_text "nonce" n.value) ≡ true
        → apply b h validators json_bytes w1 ns ≡ some (w2, is)
        → payload_text "nonce" n'.value ≡ payload_text "nonce" n.value
        → apply_node b h validators json_bytes w2 n' ≡ some (w3, i)
        → i ≢ applied_invite
    redeems_once w n w1 ns w2 is n' w3 i r given run same r' redeemed =
        let nonce = payload_text "nonce" n.value in
        let spent =
          apply-keeps_redemption w1 ns nonce (invite_row n.value) run
            (apply_node-redeemed w n w1 r given).1 in
        let (fresh, row) = apply_node-redeemed w2 n' w3 (rw redeemed at r') (rw same given) in cc
