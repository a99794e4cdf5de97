-- ===== src/PactMeta/Mirror.antt =====
-- What a pact shows against the rows that it would show after a restart.
use openpact.Prelude.{
  Text, codes, text_eq, text_eq_refl, text_le, truthy, Option, none, some, true, false, ◌≡◌, refl,
  sym, ap, ◌∙◌, ◌&&◌,
}
use openpact.Json.{Json, null, bool, num, str, arr, obj, field, text_of}
use openpact.Apply.View.{ApplyView, ApplyHost, IsView, pact_name_key, pact_purpose_key}
use openpact.Apply.Rows.{row_ts, meta_row, put_pact_meta_if_newer}
use openpact.Apply.Admin.{World, put_info, apply_admin, payload_of, payload_text}
use openpact.Apply.Newest.{put_pact_meta-row}
use openpact.PactMeta.{
  Meta, shown, mirror_field, on_applied_internal, seed_value, seed_row, seed_pact_meta_from_view,
}

-- The row is missing, has no timestamp, or has an older one.
abbrev pub IsOlder : Option Json → Text → Type 0
IsOlder row ts = (truthy (row_ts row) && text_le ts (row_ts row)) ≡ false

seed_value-shown : (x : Json) → seed_value (some x) (shown x) ≡ shown x
seed_value-shown null = refl
seed_value-shown (bool b) = refl
seed_value-shown (num n) = refl
seed_value-shown (str s) = refl
seed_value-shown (arr xs) = refl
seed_value-shown (obj fs) = refl

module _ (b : ApplyView) (h : ApplyHost) (laws : IsView b) where
  put_info-seeded :
      (f : Option Json) (key ts : Text) (v : b.View) (current : Option Text)
      → IsOlder (b.get v key) ts
      → seed_row (b.get v key) current ≡ current
      → seed_row (b.get (put_info b h f key ts v) key) (mirror_field f current)
        ≡ mirror_field f current
  unfolding put_info put_pact_meta_if_newer
  put_info-seeded none key ts v current older agrees = agrees
  put_info-seeded (some x) key ts v current older agrees =
      rw (older, laws.get-put v key (meta_row x ts) key, text_eq_refl key) (seed_value-shown x)

  put_info-other :
      (f : Option Json) (key ts : Text) (v : b.View) (k : Text)
      → text_eq key k ≡ false
      → b.get (put_info b h f key ts v) k ≡ b.get v k
  unfolding put_info
  put_info-other none key ts v k other = refl
  put_info-other (some x) key ts v k other = rw (put_pact_meta-row b laws v key x ts k, other) refl

  info_view :
      (w w' : World b h) (e : Json)
      → apply_admin b h w e ≡ some w'
      → text_eq (payload_text "action" e) (codes "setInfo") ≡ true
      → put_info b h
          (field "purpose" (payload_of e))
          pact_purpose_key
          (text_of (field "timestamp" e))
          (put_info b h
            (field "name" (payload_of e))
            pact_name_key
            (text_of (field "timestamp" e))
            w.view)
        ≡ w'.view
  unfolding apply_admin
  info_view w w' e applied is_info =
      let name = field "name" (payload_of e) in
      let purpose = field "purpose" (payload_of e) in
      let ts = text_of (field "timestamp" e) in
      let next : World b h = record w {
        view = put_info b h purpose pact_purpose_key ts (put_info b h name pact_name_key ts w.view);
      } in
      let reached : apply_admin b h w e ≡ some next = rw is_info refl in
      ap (λ o. elim o [ none ↦ w.view | some x ↦ x.view ]) (sym reached ∙ applied)

  fields_stored :
      (name purpose : Option Json) (ts : Text) (v : b.View) (m : Meta)
      → IsOlder (b.get v pact_name_key) ts
      → IsOlder (b.get v pact_purpose_key) ts
      → seed_row (b.get v pact_name_key) m.pact_name ≡ m.pact_name
      → seed_row (b.get v pact_purpose_key) m.pact_purpose ≡ m.pact_purpose
      → let next =
          put_info b h purpose pact_purpose_key ts (put_info b h name pact_name_key ts v) in
        (seed_row (b.get next pact_name_key) (mirror_field name m.pact_name)
          ≡ mirror_field name m.pact_name)
        × (seed_row (b.get next pact_purpose_key) (mirror_field purpose m.pact_purpose)
            ≡ mirror_field purpose m.pact_purpose)
  fields_stored name purpose ts v m name_older purpose_older name_agrees purpose_agrees =
      let named = put_info b h name pact_name_key ts v in
      let kept = put_info-other name pact_name_key ts v pact_purpose_key refl in
      (
        rw (put_info-other purpose pact_purpose_key ts named pact_name_key refl)
            (put_info-seeded name pact_name_key ts v m.pact_name name_older name_agrees),
        put_info-seeded purpose pact_purpose_key ts named m.pact_purpose (rw kept purpose_older)
            (rw kept purpose_agrees),
      )

  -- After a `setInfo` entry that is newer than the rows, the name and the purpose that a pact shows
  -- are those that it would show after a restart, if they were before.
  pub shown_is_stored :
      (w w' : World b h) (e : Json) (m : Meta)
      → apply_admin b h w e ≡ some w'
      → text_eq (payload_text "action" e) (codes "setInfo") ≡ true
      → IsOlder (b.get w.view pact_name_key) (text_of (field "timestamp" e))
      → IsOlder (b.get w.view pact_purpose_key) (text_of (field "timestamp" e))
      → seed_pact_meta_from_view b w.view m ≡ m
      → seed_pact_meta_from_view b w'.view (on_applied_internal e m) ≡ on_applied_internal e m
  unfolding seed_pact_meta_from_view on_applied_internal
  shown_is_stored w w' e m applied is_info name_older purpose_older agrees =
      let (name, purpose) =
        fields_stored (field "name" (payload_of e)) (field "purpose" (payload_of e))
          (text_of (field "timestamp" e)) w.view m name_older purpose_older
          (ap (λ x. x.pact_name) agrees) (ap (λ x. x.pact_purpose) agrees) in
      rw (is_info, sym (info_view w w' e applied is_info), name, purpose) refl
