-- ===== src/Apply/Bootstrap.antt =====
-- The first writer becomes the first indexer: what `prepare` does to the indexer rows.
use openpact.Prelude.{
  Text, text_eq_iff, text_le, none, ◌++◌, true, false, ◌≡◌, ◌⊎◌, inl, inr, refl, sym, arith,
  Option-cases, ◌∙◌, ap, is_some,
}
use openpact.Json.{Json, bool}
use openpact.Apply.View.{ApplyView, IsView, ApplyHost, indexer_prefix, indexer_range_end}
use openpact.Apply.Rows.{is_indexer_key, upsert_agent_name, bootstrap_member, bootstrap_indexer}
use openpact.Apply.Admin.{World}
use openpact.Apply.{prepare}
use openpact.Apply.Frame.{bootstrap_member-get, upsert_agent_name-get}

module _ (b : ApplyView) (laws : IsView b) (h : ApplyHost) where
  abbrev pub NoIndexers : b.View → Type 0
  NoIndexers v = (k : Text) → is_indexer_key b v k ≡ false

  peek-NoIndexers : (v : b.View) → b.peek v indexer_prefix indexer_range_end ≡ none → NoIndexers v
  unfolding text_le is_indexer_key
  peek-NoIndexers v e k =
      rw (laws.peek_none v indexer_prefix indexer_range_end (indexer_prefix ++ k) e refl refl)

  -- The writer is an indexer, or the pact has none yet.
  abbrev pub HasAuthority : b.View → Text → Type 0
  HasAuthority v hex = (is_indexer_key b v hex ≡ true) ⊎ NoIndexers v

  joined-get :
      (v : b.View) (e : Json) (hex k : Text)
      → b.get (bootstrap_member b (upsert_agent_name b v e) hex) (indexer_prefix ++ k)
        ≡ b.get v (indexer_prefix ++ k)
  joined-get v e hex k =
      bootstrap_member-get b laws (upsert_agent_name b v e) hex (indexer_prefix ++ k) refl
      ∙ upsert_agent_name-get b laws v e (indexer_prefix ++ k) (λ a. refl)

  joined-is_indexer_key :
      (v : b.View) (e : Json) (hex k : Text)
      → is_indexer_key b (bootstrap_member b (upsert_agent_name b v e) hex) k ≡ is_indexer_key b v k
  unfolding is_indexer_key
  joined-is_indexer_key v e hex k = ap is_some (joined-get v e hex k)

  bootstrap_indexer-gain :
      (v : b.View) (hex k : Text)
      → is_indexer_key b v k ≡ false
      → is_indexer_key b (bootstrap_indexer b v hex).0 k ≡ true
      → hex ≡ k
  unfolding bootstrap_indexer is_indexer_key
  bootstrap_indexer-gain v hex k before after = ground (
    arith,
    text_eq_iff hex k,
    laws.get-put v (indexer_prefix ++ hex) (bool true) (indexer_prefix ++ k),
  )

  bootstrap_indexer-keeps :
      (v : b.View) (hex k : Text)
      → is_indexer_key b v k ≡ true
      → is_indexer_key b (bootstrap_indexer b v hex).0 k ≡ true
  unfolding bootstrap_indexer is_indexer_key
  bootstrap_indexer-keeps v hex k before =
      ground (arith, laws.get-put v (indexer_prefix ++ hex) (bool true) (indexer_prefix ++ k))

  module _ (w : World b h) (e : Json) (hex : Text) where
    peeked-NoIndexers :
        b.peek
            (bootstrap_member b (upsert_agent_name b w.view e) hex)
            indexer_prefix
            indexer_range_end
          ≡ none
        → NoIndexers w.view
    peeked-NoIndexers p k = sym (joined-is_indexer_key w.view e hex k) ∙ peek-NoIndexers _ p k

    -- The flag is set for an indexer and for the first writer.
    pub prepare-HasAuthority : (prepare b h w e hex).1 ≡ true → HasAuthority w.view hex
    unfolding prepare bootstrap_indexer
    prepare-HasAuthority flag =
        let v = bootstrap_member b (upsert_agent_name b w.view e) hex in
        elim (Option-cases (b.peek v indexer_prefix indexer_range_end)) [
          | inl empty ↦ inr (peeked-NoIndexers empty)
          | inr (row, found) ↦ inl (ground (arith, joined-is_indexer_key w.view e hex hex))
        ]

    -- The preparation makes an indexer of the writer alone, and only of the first one.
    pub prepare-indexer :
        (k : Text)
        → is_indexer_key b w.view k ≡ false
        → is_indexer_key b (prepare b h w e hex).0.view k ≡ true
        → (hex ≡ k) × NoIndexers w.view
    unfolding prepare bootstrap_indexer
    prepare-indexer k before after =
        let v = bootstrap_member b (upsert_agent_name b w.view e) hex in
        let there = joined-is_indexer_key w.view e hex k in
        elim (Option-cases (b.peek v indexer_prefix indexer_range_end)) [
          | inl empty ↦
              (bootstrap_indexer-gain v hex k (there ∙ before) after, peeked-NoIndexers empty)
          | inr (row, found) ↦ absurd (ground arith)
        ]

    pub prepare-keeps_indexer :
        (k : Text)
        → is_indexer_key b w.view k ≡ true
        → is_indexer_key b (prepare b h w e hex).0.view k ≡ true
    unfolding prepare bootstrap_indexer
    prepare-keeps_indexer k before =
        let v = bootstrap_member b (upsert_agent_name b w.view e) hex in
        bootstrap_indexer-keeps v hex k (joined-is_indexer_key w.view e hex k ∙ before)
