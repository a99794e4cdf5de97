-- ===== src/Registry/Operations.antt =====
-- Runs of operations on a host.
use openpact.Prelude.{
  Text, text_eq, text_eq_iff, Option, none, some, List, [], ◌∷◌, ◌++◌, Bool, true, false, ◌≡◌, inl,
  inr, refl, sym, ap, ◌∙◌, subst, arith, if◌then◌else◌, is_some, Bool-cases, Option-cases, truthy,
  take, codes, to_lower_case,
}
use openpact.Aliases.{RegistryEntry, some_alias, validate_alias}
use openpact.HostConfig.{hex_pattern}
use openpact.Registry.{
  OpenPact, Host, Reply, threw, returned, find_open, find_entry, remove_entry, is_alias,
  first_alias, load_registry, CreatePactOpts, JoinPactOpts, or_else, open_pact, register_made,
  create_chosen, rejoined, create_pact, rejoin, join_pact, close_pact, remove_pact,
}
use openpact.Registry.Entries.{is_some-find_entry, find_entry-remove_entry, find_open-deleted}
use openpact.Registry.Changes.{IsDistinct-remove_entry, remove_entry-AreAliases}
use openpact.Registry.Invariant.{
  IsHost, changed-IsValid, host-IsDistinct, host_current, IsOpened-closed, find_open-left,
}
use openpact.Registry.Keeps.{IsKept, save-IsKept, open_pact-IsKept, register-IsKept}

-- A key that was made is in hexadecimal.
abbrev pub IsKeyed : Option Text → Type 0
IsKeyed none = Unit
IsKeyed (some key) = hex_pattern key ≡ true

pub first_alias-listed :
    (ps : List RegistryEntry) (a : Text)
    → is_alias (first_alias ps) a ≡ true
    → some_alias a ps ≡ true
unfolding some_alias
first_alias-listed [] a k = absurd (ground arith)
first_alias-listed (p ∷ ps) a k = rw k refl

-- The names that look-ups still find.
pub some_alias-find_entry :
    (a : Text) (ps qs : List RegistryEntry)
    → find_entry a ps ≡ find_entry a qs
    → some_alias a ps ≡ some_alias a qs
some_alias-find_entry a ps qs h =
    sym (is_some-find_entry a ps) ∙ (ap is_some h ∙ is_some-find_entry a qs)

pub is_alias-apart :
    (o : Option Text) (a b : Text)
    → is_alias o a ≡ false
    → is_alias o b ≡ true
    → text_eq a b ≡ false
is_alias-apart none a b h k = absurd (ground arith)
is_alias-apart (some c) a b h k = ground (arith, text_eq_iff c b, text_eq_iff a b, text_eq_iff c a)

removed_current :
    (a : Text) (o : Option Text) (ps : List RegistryEntry)
    → ((b : Text) → is_alias o b ≡ true → some_alias b ps ≡ true)
    → (b : Text) → is_alias (if is_alias o a then first_alias (remove_entry a ps) else o) b ≡ true
    → some_alias b (remove_entry a ps) ≡ true
removed_current a o ps current b k = elim (Bool-cases (is_alias o a)) [
  | inl was ↦
      first_alias-listed (remove_entry a ps) b
        (subst (λ t. is_alias (if t then first_alias (remove_entry a ps) else o) b ≡ true) was k)
  | inr kept ↦
      let k' : is_alias o b ≡ true =
        subst (λ t. is_alias (if t then first_alias (remove_entry a ps) else o) b ≡ true) kept k in
      some_alias-find_entry b (remove_entry a ps) ps
        (find_entry-remove_entry b a ps (is_alias-apart o a b kept k'))
      ∙ current b k'
]

module _ (discovery_key pact_config_dir : Text → Text) where
  close_pact-closed :
      (a : Text) (h : Host)
      → ((close_pact discovery_key pact_config_dir a h).port ≡ h.port)
        × (find_open a (close_pact discovery_key pact_config_dir a h).open_pacts ≡ none)
        × ((b : Text) (q : OpenPact)
            → find_open b (close_pact discovery_key pact_config_dir a h).open_pacts ≡ some q
            → find_open b h.open_pacts ≡ some q)
  unfolding close_pact
  close_pact-closed a h = elim (Option-cases (find_open a h.open_pacts)) [
    | inl absent ↦ rw (close_pact, absent) (refl, absent, λ b q k. k)
    | inr (p, present) ↦
        rw (close_pact, present)
          (refl, find_open-deleted a h.open_pacts, λ b q k. find_open-left a b h.open_pacts q k)
  ]

  -- What a removal returns and saves.
  pub remove_pact-saved :
      (a : Text) (h : Host)
      → IsHost h
      → some_alias a h.config.pacts ≡ true
      → ((remove_pact discovery_key pact_config_dir a h).0 ≡ returned tt)
        × ((remove_pact discovery_key pact_config_dir a h).1.config.pacts
            ≡ remove_entry a h.config.pacts)
        × IsHost (remove_pact discovery_key pact_config_dir a h).1
  unfolding remove_pact load_registry
  remove_pact-saved a h inv known =
      let left = remove_entry a h.config.pacts in
      let was_current = is_alias h.config.current_alias a in
      let closed = close_pact discovery_key pact_config_dir a h in
      let after = record closed {
        current = if was_current then first_alias left else closed.current;
      } in
      let (port, gone, fewer) = close_pact-closed a h in
      let (saved, host) =
        save-IsKept {A = Unit} after after
          (record (load_registry h) {
            pacts = left;
            current_alias = if was_current then first_alias left else h.config.current_alias;
          })
          tt
          (changed-IsValid (load_registry h) left
            (if was_current then first_alias left else h.config.current_alias) inv.valid
            (IsDistinct-remove_entry a h.config.pacts (host-IsDistinct inv))
            (removed_current a h.config.current_alias h.config.pacts (host_current inv)))
          port (remove_entry-AreAliases a h.config.pacts inv.shaped)
          (IsOpened-closed h.config.pacts left h.open_pacts closed.open_pacts a inv.opened gone
            fewer (λ b other listed. find_entry-remove_entry b a h.config.pacts other)) in
      rw (known, saved) (refl, refl, host)

  pub remove_pact-IsKept :
      (a : Text) (h : Host) → IsHost h → IsKept (remove_pact discovery_key pact_config_dir a h)
  unfolding remove_pact load_registry
  remove_pact-IsKept a h inv = elim (Bool-cases (some_alias a h.config.pacts)) [
    | inr unknown ↦ rw unknown (inv, λ e k. cc)
    | inl known ↦ let (reply, pacts, host) = remove_pact-saved a h inv known in (host, λ e k. cc)
  ]

  module _ (placed : (a : Text) → truthy (pact_config_dir a) ≡ true) where
    register_made-IsKept :
        (alias now : Text) (made : Option Text) (set_current : Option Bool) (h : Host)
        → IsHost h
        → validate_alias alias ≡ true
        → some_alias alias h.config.pacts ≡ false
        → IsKeyed made
        → IsKept (register_made discovery_key pact_config_dir alias made set_current now h)
    unfolding register_made
    register_made-IsKept alias now none set_current h inv shape new keyed = (inv, λ e k. cc)
    register_made-IsKept alias now (some key) set_current h inv shape new keyed =
        register-IsKept discovery_key pact_config_dir placed alias key now set_current h inv shape
          new keyed

    create_chosen-IsKept :
        (chosen made : Option Text) (set_current : Option Bool) (now : Text) (h : Host)
        → IsHost h
        → IsKeyed made
        → IsKept (create_chosen discovery_key pact_config_dir chosen made set_current now h)
    unfolding create_chosen load_registry
    create_chosen-IsKept none made set_current now h inv keyed = (inv, λ e k. cc)
    create_chosen-IsKept (some a) made set_current now h inv keyed =
        elim (Bool-cases (validate_alias a)) [
          | inr bad ↦ rw bad (inv, λ e k. cc)
          | inl shape ↦ elim (Bool-cases (some_alias a h.config.pacts)) [
            | inl taken ↦ rw (shape, taken) (inv, λ e k. cc)
            | inr new ↦
                rw (shape, new) (register_made-IsKept a now made set_current h inv shape new keyed)
          ]
        ]

    pub create_pact-IsKept :
        (opts : CreatePactOpts) (made : Option Text) (now : Text) (h : Host)
        → IsHost h
        → IsKeyed made
        → IsKept (create_pact discovery_key pact_config_dir opts made now h)
    unfolding create_pact
    create_pact-IsKept opts made now h inv keyed =
        create_chosen-IsKept _ made opts.set_current now h inv keyed

    rejoined-IsKept :
        (a : Text) (r : Reply OpenPact × Host)
        → IsKept r
        → IsKept (rejoined discovery_key pact_config_dir a r)
    rejoined-IsKept a (threw e, h) (inv, fine) = (inv, λ f k. ground (arith, fine f))
    rejoined-IsKept a (returned p, h) (inv, fine) = (inv, λ e k. cc)

    rejoin-IsKept :
        (a : Text) (loaded : Option Text) (h : Host)
        → IsHost h
        → IsKept (rejoin discovery_key pact_config_dir a loaded h)
    unfolding rejoin
    rejoin-IsKept a loaded h inv =
        rejoined-IsKept a (open_pact discovery_key pact_config_dir (some a) loaded h)
          (open_pact-IsKept discovery_key pact_config_dir (some a) loaded h inv)

    pub join_pact-IsKept :
        (opts : JoinPactOpts) (made loaded : Option Text) (now : Text) (h : Host)
        → IsHost h
        → IsKeyed made
        → IsKept (join_pact discovery_key pact_config_dir opts made loaded now h)
    unfolding join_pact load_registry
    join_pact-IsKept opts made loaded now h inv keyed =
        let a = or_else opts.alias (codes "joined-" ++ take 8 opts.join_key) in
        elim (Bool-cases (validate_alias a)) [
          | inr bad ↦ rw bad (inv, λ e k. cc)
          | inl shape ↦ elim (Option-cases (find_entry a h.config.pacts)) [
            | inr (entry, found) ↦
                elim (Bool-cases
                  (text_eq (to_lower_case entry.pact_id) (to_lower_case opts.join_key))) [
                    | inl same ↦ rw (shape, found, same) (rejoin-IsKept a loaded h inv)
                    | inr other ↦ rw (shape, found, other) (inv, λ e k. cc)
                  ]
            | inl absent ↦
                rw (shape, absent)
                  (register_made-IsKept a now made opts.set_current h inv shape
                    (sym (is_some-find_entry a h.config.pacts) ∙ ap is_some absent) keyed)
          ]
        ]
