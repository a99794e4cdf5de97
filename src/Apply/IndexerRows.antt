-- ===== src/Apply/IndexerRows.antt =====
-- What the entry of a known writer does to the rows that say who is an indexer.
use openpact.Prelude.{
  ℕ, Text, codes, text_eq_iff, to_lower_case, some, List, ◌++◌, Bool, true, false, ◌≡◌, ◌⊎◌, inl,
  inr, refl, sym, arith, Bool-cases, Option-cases, ◌∙◌, ap, is_some,
}
use openpact.Json.{Json, bool, field, text_of}
use openpact.Hex.{to_hex}
use openpact.Schemas.{EntryType, ValidationResult, validate}
use openpact.Apply.View.{
  ApplyView, IsView, ApplyHost, member_prefix, indexer_prefix, invite_prefix, pact_name_key,
  pact_purpose_key,
}
use openpact.Apply.Rows.{is_indexer_key}
use openpact.Apply.Admin.{
  Info, World, put_info, add_member, remove_member, apply_admin, payload_text, payload_of, flag_of,
  has_type, is_self_revoke,
}
use openpact.Apply.{by_type, admin_entry, invite_entry, user_entry, invite_row}
use openpact.Apply.Frame.{put-get_ne, put_info-get, user_entry-get}

-- The entry names the key in an `addWriter` with the indexer flag.
pub record AddsIndexer (e : Json) (k : Text) : Type 0 where
  pub action : payload_text "action" e ≡ codes "addWriter"
  pub key : payload_text "key" e ≡ k
  pub flag : flag_of (field "indexer" (payload_of e)) ≡ true

-- The entry names the key in a `removeWriter`.
pub record Removes (e : Json) (k : Text) : Type 0 where
  pub action : payload_text "action" e ≡ codes "removeWriter"
  pub key : payload_text "key" e ≡ k

module _ (b : ApplyView) (laws : IsView b) (h : ApplyHost) where
  apply_admin-adds :
      (w : World b h) (e : Json) (w' : World b h) (k : Text)
      → apply_admin b h w e ≡ some w'
      → is_indexer_key b w.view k ≡ false
      → is_indexer_key b w'.view k ≡ true
      → AddsIndexer e k
  unfolding apply_admin add_member remove_member is_indexer_key
  apply_admin-adds w e w' k r before after =
      let j = indexer_prefix ++ k in
      let key = payload_text "key" e in
      let ts = text_of (field "timestamp" e) in
      let name = field "name" (payload_of e) in
      let purpose = field "purpose" (payload_of e) in
      let member = b.put w.view (member_prefix ++ key) (bool true) in
      ground (
        arith,
        text_eq_iff (payload_text "action" e) (codes "addWriter"),
        text_eq_iff key k,
        put_info-get b laws h name pact_name_key ts w.view j refl,
        put_info-get b laws h purpose pact_purpose_key ts
            (put_info b h name pact_name_key ts w.view) j refl,
        put-get_ne b laws w.view (member_prefix ++ key) (bool true) j refl,
        laws.get-put member (indexer_prefix ++ key) (bool true) j,
        laws.get-del w.view (member_prefix ++ key) j,
        laws.get-del (b.del w.view (member_prefix ++ key)) (indexer_prefix ++ key) j,
      )

  apply_admin-Removes :
      (w : World b h) (e : Json) (w' : World b h) (k : Text)
      → apply_admin b h w e ≡ some w'
      → is_indexer_key b w.view k ≡ true
      → is_indexer_key b w'.view k ≡ false
      → Removes e k
  unfolding apply_admin add_member remove_member is_indexer_key
  apply_admin-Removes w e w' k r before after =
      let j = indexer_prefix ++ k in
      let key = payload_text "key" e in
      let ts = text_of (field "timestamp" e) in
      let name = field "name" (payload_of e) in
      let purpose = field "purpose" (payload_of e) in
      let member = b.put w.view (member_prefix ++ key) (bool true) in
      ground (
        arith,
        text_eq_iff (payload_text "action" e) (codes "removeWriter"),
        text_eq_iff key k,
        put_info-get b laws h name pact_name_key ts w.view j refl,
        put_info-get b laws h purpose pact_purpose_key ts
            (put_info b h name pact_name_key ts w.view) j refl,
        put-get_ne b laws w.view (member_prefix ++ key) (bool true) j refl,
        laws.get-put member (indexer_prefix ++ key) (bool true) j,
        laws.get-del w.view (member_prefix ++ key) j,
        laws.get-del (b.del w.view (member_prefix ++ key)) (indexer_prefix ++ key) j,
      )

  module _ (w : World b h) (e : Json) (hex : Text) (flag : Bool) (w' : World b h) (i : Info) where
    admin_entry-adds :
        (k : Text)
        → admin_entry b h w e hex flag ≡ some (w', i)
        → is_indexer_key b w.view k ≡ false
        → is_indexer_key b w'.view k ≡ true
        → AddsIndexer e k × (flag ≡ true)
    unfolding admin_entry is_self_revoke
    admin_entry-adds k r before after = elim (Option-cases (apply_admin b h w e)) [
      | inl thrown ↦ ground arith
      | inr (done, applied) ↦
          let adds : AddsIndexer e k = apply_admin-adds w e done k applied before (ground arith) in
          (adds, ground (arith, adds.action))
    ]

    admin_entry-Removes :
        (k : Text)
        → admin_entry b h w e hex flag ≡ some (w', i)
        → is_indexer_key b w.view k ≡ true
        → is_indexer_key b w'.view k ≡ false
        → Removes e k × ((flag ≡ true) ⊎ (to_lower_case k ≡ to_lower_case hex))
    unfolding admin_entry is_self_revoke
    admin_entry-Removes k r before after = elim (Option-cases (apply_admin b h w e)) [
      | inl thrown ↦ ground arith
      | inr (done, applied) ↦
          let removes : Removes e k =
            apply_admin-Removes w e done k applied before (ground arith) in
          let key = payload_text "key" e in
          (
            removes,
            elim (Bool-cases flag) [
              | inl indexer ↦ inl indexer
              | inr other ↦ inr (
                  sym (ap to_lower_case removes.key)
                  ∙ (text_eq_iff (to_lower_case key) (to_lower_case hex)).0 (ground arith))
            ],
          )
    ]

    invite_entry-indexer :
        (k : Text)
        → is_indexer_key b (invite_entry b h w e flag).0.view k ≡ is_indexer_key b w.view k
    unfolding invite_entry is_indexer_key
    invite_entry-indexer k =
        let nonce = payload_text "nonce" e in
        ground (
          arith,
          put-get_ne b laws w.view (invite_prefix ++ nonce) (invite_row e) (indexer_prefix ++ k)
              refl,
        )

  module _ (validators : EntryType → Json → Bool) (json_bytes : Json → ℕ) where
    -- Only an admin entry changes the indexer rows.
    by_type-keeps :
        (w : World b h) (e : Json) (key : List ℕ) (length : ℕ) (flag : Bool) (w' : World b h)
        (i : Info) (k : Text)
        → validate validators json_bytes e ≡ ValidationResult.valid
        → has_type "admin" e ≡ false
        → by_type b h w e key length flag ≡ some (w', i)
        → is_indexer_key b w'.view k ≡ is_indexer_key b w.view k
    unfolding by_type
    by_type-keeps w e key length flag w' i k v other r =
        elim (Bool-cases (has_type "invite-redeemed" e)) [
          | inl invite ↦ ground (arith, invite_entry-indexer w e (to_hex key) flag w' i k)
          | inr user ↦
              let done : user_entry b h w e key length ≡ some (w', i) = ground arith in
              unfold is_indexer_key in
              ap is_some (user_entry-get b laws h validators json_bytes w e key length _ v done)
        ]

    pub by_type-adds :
        (w : World b h) (e : Json) (key : List ℕ) (length : ℕ) (flag : Bool) (w' : World b h)
        (i : Info) (k : Text)
        → validate validators json_bytes e ≡ ValidationResult.valid
        → by_type b h w e key length flag ≡ some (w', i)
        → is_indexer_key b w.view k ≡ false
        → is_indexer_key b w'.view k ≡ true
        → (has_type "admin" e ≡ true) × AddsIndexer e k × (flag ≡ true)
    by_type-adds w e key length flag w' i k v r before after =
        elim (Bool-cases (has_type "admin" e)) [
          | inl admin ↦
              let done : admin_entry b h w e (to_hex key) flag ≡ some (w', i) =
                unfold by_type in ground arith in
              let (adds, set) = admin_entry-adds w e (to_hex key) flag w' i k done before after in
              (admin, adds, set)
          | inr other ↦ absurd (cc (by_type-keeps w e key length flag w' i k v other r))
        ]

    pub by_type-Removes :
        (w : World b h) (e : Json) (key : List ℕ) (length : ℕ) (flag : Bool) (w' : World b h)
        (i : Info) (k : Text)
        → validate validators json_bytes e ≡ ValidationResult.valid
        → by_type b h w e key length flag ≡ some (w', i)
        → is_indexer_key b w.view k ≡ true
        → is_indexer_key b w'.view k ≡ false
        → (has_type "admin" e ≡ true)
          × Removes e k
          × ((flag ≡ true) ⊎ (to_lower_case k ≡ to_lower_case (to_hex key)))
    by_type-Removes w e key length flag w' i k v r before after =
        elim (Bool-cases (has_type "admin" e)) [
          | inl admin ↦
              let done : admin_entry b h w e (to_hex key) flag ≡ some (w', i) =
                unfold by_type in ground arith in
              let (removes, set) =
                admin_entry-Removes w e (to_hex key) flag w' i k done before after in
              (admin, removes, set)
          | inr other ↦ absurd (cc (by_type-keeps w e key length flag w' i k v other r))
        ]
