-- ===== src/Registry/Found.antt =====
-- What the registry finds after a pact was created, removed, or renamed and renamed back.
use openpact.Prelude.{
  ◌≤◌, Text, text_eq, text_eq_iff, none, some, true, false, ◌≡◌, inl, inr, refl, ap, ◌∙◌, arith,
  if◌then◌else◌, length, truthy, Bool-cases,
}
use openpact.Aliases.{RegistryEntry, some_alias, validate_alias, slug_or_pact}
use openpact.Aliases.Fresh.{unique_alias-found}
use openpact.HostConfig.{hex_pattern}
use openpact.Registry.{
  Host, returned, find_entry, find_open, load_registry, CreatePactOpts, register_made,
  create_chosen, create_pact, remove_pact,
}
use openpact.Registry.Entries.{
  find_entry-absent, find_entry-append, find_entry-appended, find_entry-remove_entry,
  find_entry-removed,
}
use openpact.Registry.Invariant.{IsHost, host-IsDistinct}
use openpact.Registry.Keeps.{register-saved}
use openpact.Registry.Operations.{remove_pact-saved}

module _ (discovery_key pact_config_dir : Text → Text)
    (placed : (a : Text) → truthy (pact_config_dir a) ≡ true) where
  -- On a host in order with at most 9,997 pacts, a pact whose name gives a slug of at most 43
  -- characters is created without an alias, from a key that is not empty and in hexadecimal: it
  -- gets a name that no pact had, is registered under it, is open under it with that key, and every
  -- other name finds the registration that it found before, if directories are not empty.
  pub created_is_found :
      (opts : CreatePactOpts) (key now : Text) (h : Host)
      → IsHost h
      → opts.alias ≡ none
      → length (slug_or_pact opts.pact_name) ≤ 43
      → length h.config.pacts ≤ 9997
      → hex_pattern key ≡ true
      → (a : Text) × (e : RegistryEntry) × ((create_pact discovery_key pact_config_dir opts
            (some key)
            now
            h).0
          ≡ returned (record { pact_key = key; data_dir = e.data_dir }, a))
        × (find_entry a h.config.pacts ≡ none)
        × (find_entry a
              (create_pact discovery_key pact_config_dir opts (some key) now h).1.config.pacts
            ≡ some e)
        × (e.pact_id ≡ key)
        × (find_open a
              (create_pact discovery_key pact_config_dir opts (some key) now h).1.open_pacts
            ≡ some (record { pact_key = key; data_dir = e.data_dir }))
        × ((b : Text)
            → text_eq a b ≡ false
            → find_entry b
                (create_pact discovery_key pact_config_dir opts (some key) now h).1.config.pacts
              ≡ find_entry b h.config.pacts)
  unfolding create_pact create_chosen register_made load_registry
  created_is_found opts key now h inv auto short few keyed =
      let (a, found, free, shaped) = unique_alias-found opts.pact_name h.config.pacts few in
      let shape : validate_alias a ≡ true = ground arith in
      let (reply, pacts, host, opened) =
        register-saved discovery_key pact_config_dir placed a key now opts.set_current h inv shape
          free keyed in
      let entry : RegistryEntry = record {
        alias = a;
        pact_id = key;
        data_dir = pact_config_dir a;
        added_at = now;
      } in
      (
        a,
        entry,
        rw (auto, found, shape, free) reply,
        find_entry-absent a h.config.pacts free,
        rw (auto, found, shape, free)
            (ap (find_entry a) pacts ∙ find_entry-appended h.config.pacts entry free),
        refl,
        rw (auto, found, shape, free) opened,
        λ b other.
            rw (auto, found, shape, free)
              (ap (find_entry b) pacts ∙ find_entry-append b h.config.pacts entry other),
      )

  -- On a host in order, a registered pact is removed: its name finds no pact afterwards, and every
  -- other name finds what it found before.
  pub removed_is_gone :
      (a : Text) (h : Host)
      → IsHost h
      → some_alias a h.config.pacts ≡ true
      → ((remove_pact discovery_key pact_config_dir a h).0 ≡ returned tt)
        × ((b : Text)
            → find_entry b (remove_pact discovery_key pact_config_dir a h).1.config.pacts
              ≡ (if text_eq a b then none else find_entry b h.config.pacts))
  removed_is_gone a h inv known =
      let (reply, pacts, host) = remove_pact-saved discovery_key pact_config_dir a h inv known in
      (
        reply,
        λ b. ap (find_entry b) pacts ∙ (elim (Bool-cases (text_eq a b)) [
          | inl same ↦
              rw (same, ← (text_eq_iff a b).0 same)
                (find_entry-removed a h.config.pacts (host-IsDistinct inv))
          | inr other ↦ rw other (find_entry-remove_entry b a h.config.pacts other)
        ]),
      )
