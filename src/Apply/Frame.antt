-- ===== src/Apply/Frame.antt =====
-- Which rows of the view each write leaves alone. The reserved rows are those whose keys begin
-- with an underscore.
use openpact.Prelude.{
  ℕ, Text, codes, text_eq, text_eq_iff, trim, Option, none, some, List, [], ◌∷◌, ◌++◌, Bool, true,
  false, ◌≡◌, inl, inr, refl, arith, ◌==◌, ◌≢◌, Option-cases, if◌then◌else◌, ◌∙◌,
}
use openpact.Json.{Json, null, bool, str, field, text_of, template, to_text, spread}
use openpact.EntryId
use openpact.EntryId.{buffer}
use openpact.Schemas.{EntryType, ValidationResult, Found, validate, find_validator}
use openpact.Schemas.Accepts.{validate-found}
use openpact.Apply.View.{
  ApplyView, IsView, ApplyHost, agent_name_prefix, member_prefix, indexer_prefix,
}
use openpact.Apply.Rows.{
  put_agent_name, upsert_agent_name, bootstrap_member, bootstrap_indexer, put_pact_meta_if_newer,
  put_ref, put_refs, name_row, meta_row, ref_key,
}
use openpact.Apply.Admin.{World, Info, put_info, list_of}
use openpact.Apply.{prepare, user_entry, entry_key}

-- The type of a valid entry is a text whose first character is a letter.
starts_plain : Text → Bool
starts_plain [] = false
starts_plain (c ∷ s) = if c == b'_' then false else true

found_plain :
    (name : Text)
    → find_validator name ≢ Found.inherited_throws
    → find_validator name ≢ Found.undefined
    → starts_plain name ≡ true
unfolding find_validator starts_plain
found_plain name p q = ground (
  arith,
  text_eq_iff name (codes "knowledge"),
  text_eq_iff name (codes "task"),
  text_eq_iff name (codes "skill"),
  text_eq_iff name (codes "message"),
  text_eq_iff name (codes "admin"),
  text_eq_iff name (codes "invite-redeemed"),
  text_eq_iff name (codes "constructor"),
  text_eq_iff name (codes "toString"),
)

module _ (validators : EntryType → Json → Bool) (json_bytes : Json → ℕ) where
  type_plain :
      (e : Json)
      → validate validators json_bytes e ≡ ValidationResult.valid
      → starts_plain (template (field "type" e)) ≡ true
  unfolding template
  type_plain e v =
      let (t, given, p, q) = validate-found validators json_bytes e v in
      rw given (found_plain (to_text t) p q)

plain_ne : (t s k : Text) → starts_plain t ≡ true → text_eq (t ++ s) (b'_' ∷ k) ≡ false
unfolding starts_plain
plain_ne [] s k h = ground arith
plain_ne (c ∷ t) s k h = ground arith

module _ (b : ApplyView) (laws : IsView b) where
  pub put-get_ne :
      (v : b.View) (k : Text) (x : Json) (j : Text)
      → text_eq k j ≡ false
      → b.get (b.put v k x) j ≡ b.get v j
  put-get_ne v k x j ne = rw (laws.get-put, ne)

  pub put_agent_name-get :
      (v : b.View) (a name ts k : Text)
      → text_eq (agent_name_prefix ++ a) k ≡ false
      → b.get (put_agent_name b v a name ts) k ≡ b.get v k
  unfolding put_agent_name
  put_agent_name-get v a name ts k ne =
      ground (arith, put-get_ne v (agent_name_prefix ++ a) (name_row name ts) k ne)

  pub upsert_agent_name-get :
      (v : b.View) (e : Json) (k : Text)
      → ((a : Text) → text_eq (agent_name_prefix ++ a) k ≡ false)
      → b.get (upsert_agent_name b v e) k ≡ b.get v k
  unfolding upsert_agent_name
  upsert_agent_name-get v e k ne =
      let agent_id = text_of (field "agent_id" e) in
      let name = trim (text_of (field "display_name" e)) in
      let ts = text_of (field "timestamp" e) in
      ground (arith, put_agent_name-get v agent_id name ts k (ne agent_id))

  pub put_pact_meta-get :
      (v : b.View) (key : Text) (x : Json) (ts k : Text)
      → text_eq key k ≡ false
      → b.get (put_pact_meta_if_newer b v key x ts) k ≡ b.get v k
  unfolding put_pact_meta_if_newer
  put_pact_meta-get v key x ts k ne = ground (arith, put-get_ne v key (meta_row x ts) k ne)

  put_ref-get :
      (v : b.View) (t : Json) (id : Text) (stored : Json) (k : Text)
      → b.get (put_ref b v t id stored) (b'_' ∷ k) ≡ b.get v (b'_' ∷ k)
  unfolding put_ref
  put_ref-get v null id stored k = refl
  put_ref-get v (str t) id stored k =
      ground (arith, put-get_ne v (ref_key t id) stored (b'_' ∷ k) refl)
  put_ref-get v _ id stored k = refl

  pub put_refs-get :
      (v : b.View) (ts : List Json) (id : Text) (stored : Json) (k : Text)
      → b.get (put_refs b v ts id stored) (b'_' ∷ k) ≡ b.get v (b'_' ∷ k)
  unfolding put_refs
  put_refs-get v [] id stored k = refl
  put_refs-get v (t ∷ ts) id stored k =
      put_refs-get (put_ref b v t id stored) ts id stored k ∙ put_ref-get v t id stored k

  module _ (h : ApplyHost) (validators : EntryType → Json → Bool) (json_bytes : Json → ℕ) where
    pub user_entry-get :
        (w : World b h) (e : Json) (key : List ℕ) (length : ℕ) {w' : World b h} {i : Info}
        (k : Text)
        → validate validators json_bytes e ≡ ValidationResult.valid
        → user_entry b h w e key length ≡ some (w', i)
        → b.get w'.view (b'_' ∷ k) ≡ b.get w.view (b'_' ∷ k)
    unfolding user_entry
    user_entry-get w e key length k v r = elim (Option-cases (EntryId.encode (buffer key) length)) [
      | inl thrown ↦ absurd (ground arith)
      | inr (id, encoded) ↦
          let stored = spread "id" (str id) e in
          let ne : text_eq (entry_key e id) (b'_' ∷ k) ≡ false =
            plain_ne (template (field "type" e)) _ k (type_plain validators json_bytes e v) in
          ground (
            arith,
            put_refs-get (b.put w.view (entry_key e id) stored) (list_of (field "refs" e)) id stored
                k,
            put-get_ne w.view (entry_key e id) stored (b'_' ∷ k) ne,
          )
    ]

    pub user_entry-host :
        (w : World b h) (e : Json) (key : List ℕ) (length : ℕ) {w' : World b h} {i : Info}
        → user_entry b h w e key length ≡ some (w', i)
        → w'.host ≡ w.host
    unfolding user_entry
    user_entry-host w e key length r = ground (arith)

  pub bootstrap_member-get :
      (v : b.View) (hex k : Text)
      → text_eq (member_prefix ++ hex) k ≡ false
      → b.get (bootstrap_member b v hex) k ≡ b.get v k
  unfolding bootstrap_member
  bootstrap_member-get v hex k ne =
      ground (arith, put-get_ne v (member_prefix ++ hex) (bool true) k ne)

  pub bootstrap_indexer-get :
      (v : b.View) (hex k : Text)
      → text_eq (indexer_prefix ++ hex) k ≡ false
      → b.get (bootstrap_indexer b v hex).0 k ≡ b.get v k
  unfolding bootstrap_indexer
  bootstrap_indexer-get v hex k ne =
      ground (arith, put-get_ne v (indexer_prefix ++ hex) (bool true) k ne)

  module _ (h : ApplyHost) where
    pub prepare-get :
        (w : World b h) (e : Json) (hex k : Text)
        → ((a : Text) → text_eq (agent_name_prefix ++ a) k ≡ false)
        → text_eq (member_prefix ++ hex) k ≡ false
        → text_eq (indexer_prefix ++ hex) k ≡ false
        → b.get (prepare b h w e hex).0.view k ≡ b.get w.view k
    unfolding prepare
    prepare-get w e hex k ne_name ne_member ne_indexer =
        let named = upsert_agent_name b w.view e in
        bootstrap_indexer-get (bootstrap_member b named hex) hex k ne_indexer
        ∙ (bootstrap_member-get named hex k ne_member ∙ upsert_agent_name-get w.view e k ne_name)

    pub put_info-get :
        (o : Option Json) (key ts : Text) (v : b.View) (k : Text)
        → text_eq key k ≡ false
        → b.get (put_info b h o key ts v) k ≡ b.get v k
    unfolding put_info
    put_info-get none key ts v k ne = refl
    put_info-get (some x) key ts v k ne = put_pact_meta-get v key x ts k ne
