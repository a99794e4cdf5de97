-- ===== src/Apply/Steps.antt =====
-- The ways in which `apply` treats a node.
use openpact.Prelude.{
  ℕ, text_eq, text_eq_iff, Option, none, some, List, [], ◌∷◌, Bool, true, false, ◌≡◌, ◌⊎◌, inl, inr,
  refl, sym, ap, subst, ◌∙◌, arith, Bool-cases, Option-cases,
}
use openpact.Json.{Json, field, text_of, is_object}
use openpact.PeerHandle
use openpact.Schemas.{EntryType, ValidationReason, ValidationResult, validate}
use openpact.Apply.View.{ApplyView, ApplyHost}
use openpact.Apply.Admin.{
  ApplyNode, InvalidReason, Info, invalid, not_an_object, unknown_type, schema, payload_too_large,
  no_writer_key, agent_mismatch, admin_from_non_indexer, invite_from_non_indexer,
  invite_already_spent, of_validation, World,
}
use openpact.Apply.{apply_node, apply_entry, apply_writer, apply_validated, apply}

-- The reasons that are found before anything is written.
abbrev pub is_early : InvalidReason → Bool
is_early not_an_object = true
is_early unknown_type = true
is_early schema = true
is_early payload_too_large = true
is_early no_writer_key = true
is_early agent_mismatch = true
is_early admin_from_non_indexer = false
is_early invite_from_non_indexer = false
is_early invite_already_spent = false

early_of : (r : ValidationReason) → is_early (of_validation r) ≡ true
early_of ValidationReason.not_an_object = refl
early_of _ = refl

module _ (b : ApplyView) (h : ApplyHost) where
  -- Nothing changed, and the report says why.
  pub record Dropped (w w' : World b h) (i : Info) : Type 0 where
    pub reason : InvalidReason
    pub reported : i ≡ invalid reason
    pub early : is_early reason ≡ true
    pub same : w' ≡ w

  module _ (validators : EntryType → Json → Bool) (json_bytes : Json → ℕ) where
    -- The entry is valid, and its `agent_id` is the handle of the key that wrote it.
    pub record Accepted (w w' : World b h) (n : ApplyNode) (i : Info) : Type 0 where
      pub key : List ℕ
      pub writer : n.writer_key ≡ some key
      pub validated : validate validators json_bytes n.value ≡ ValidationResult.valid
      pub identity : PeerHandle.derive key ≡ some (text_of (field "agent_id" n.value))
      pub entered : apply_entry b h w n.value key n.length ≡ some (w', i)

    module _ (w : World b h) (n : ApplyNode) (w' : World b h) (i : Info) where
      writer_cases :
          (k : Option (List ℕ))
          → n.writer_key ≡ k
          → validate validators json_bytes n.value ≡ ValidationResult.valid
          → apply_writer b h w n k ≡ some (w', i)
          → Dropped w w' i ⊎ Accepted w w' n i
      unfolding apply_writer
      writer_cases none e v r =
          inl (record { reason = no_writer_key; reported = cc; early = refl; same = cc })
      writer_cases (some key) e v r = elim (Option-cases (PeerHandle.derive key)) [
        | inl thrown ↦ absurd (ground arith)
        | inr (expected, derived) ↦
            elim (Bool-cases (text_eq (text_of (field "agent_id" n.value)) expected)) [
              | inl same ↦ inr (record {
                key = key;
                writer = e;
                validated = v;
                identity = derived ∙ ap some (sym ((text_eq_iff _ _).0 same));
                entered = ground arith;
              })
              | inr other ↦ inl (record {
                reason = agent_mismatch;
                reported = ground arith;
                early = refl;
                same = ground arith;
              })
            ]
      ]

      validated_cases :
          (res : ValidationResult)
          → validate validators json_bytes n.value ≡ res
          → apply_validated b h w n res ≡ some (w', i)
          → Dropped w w' i ⊎ Accepted w w' n i
      unfolding apply_validated
      validated_cases (ValidationResult.invalid reason) e r = inl (record {
        reason = of_validation reason;
        reported = cc;
        early = early_of reason;
        same = cc;
      })
      validated_cases ValidationResult.throws e r = absurd (ground arith)
      validated_cases ValidationResult.valid e r = writer_cases n.writer_key refl e r

      pub apply_node-cases :
          apply_node b h validators json_bytes w n ≡ some (w', i)
          → Dropped w w' i ⊎ Accepted w w' n i
      unfolding apply_node
      apply_node-cases r = elim (Bool-cases (is_object n.value)) [
        | inl yes_obj ↦ validated_cases _ refl (ground arith)
        | inr no_obj ↦ inl (record {
          reason = not_an_object;
          reported = ground arith;
          early = refl;
          same = ground arith;
        })
      ]

    -- A property that every node keeps holds after a run.
    pub apply_induction :
        (P : World b h → Type 0)
        → ((w : World b h) (n : ApplyNode) (w' : World b h) (i : Info)
            → apply_node b h validators json_bytes w n ≡ some (w', i)
            → P w
            → P w')
        → (w : World b h) (ns : List ApplyNode) (w' : World b h) (is : List Info)
        → apply b h validators json_bytes w ns ≡ some (w', is)
        → P w
        → P w'
    unfolding apply
    apply_induction P step w [] w' is r p = let same : w ≡ w' = ground arith in subst P same p
    apply_induction P step w (n ∷ ns) w' is r p =
        elim (Option-cases (apply_node b h validators json_bytes w n)) [
          | inl thrown ↦ absurd (ground arith)
          | inr ((w1, i), stepped) ↦ elim (Option-cases (apply b h validators json_bytes w1 ns)) [
            | inl thrown ↦ absurd (ground arith)
            | inr ((w2, rest), run) ↦
                let same : w2 ≡ w' = ground arith in
                subst P same (apply_induction P step w1 ns w2 rest run (step w n w1 i stepped p))
          ]
        ]
