-- ===== src/Registry/Rename.antt =====
-- Renaming a pact: that it keeps the invariant, and that it can be undone.
use openpact.Prelude.{
  Text, text_eq, text_eq_iff, Option, none, some, List, Bool, true, false, ◌≡◌, inl, inr, refl, sym,
  ap, ◌∙◌, subst, arith, if◌then◌else◌, is_some, Bool-cases, Option-cases, truthy,
}
use openpact.Aliases.{RegistryEntry, some_alias, validate_alias}
use openpact.Registry.{
  Host, Reply, threw, returned, find_open, delete_open, find_entry, rename_entry, is_alias,
  load_registry, reopen, rename_current, move_pact, rename_pact,
}
use openpact.Registry.Entries.{
  is_some-find_entry, find_entry-rename_entry, find_entry-renamed, find_open-deleted,
}
use openpact.Registry.Changes.{IsDistinct-rename_entry, rename_entry-AreAliases}
use openpact.Registry.Invariant.{
  IsHost, changed-IsValid, host-IsDistinct, host_current, IsOpened-set_open, IsOpened-closed,
  find_open-left, validate_alias-truthy,
}
use openpact.Registry.Keeps.{IsKept, save-IsKept}
use openpact.Registry.Operations.{some_alias-find_entry, is_alias-apart}

-- A name that some entry has, other than the two, finds the same entry.
renamed_elsewhere :
    (old new dir : Text) (ps : List RegistryEntry) (b : Text)
    → some_alias new ps ≡ false
    → text_eq old b ≡ false
    → some_alias b ps ≡ true
    → find_entry b (rename_entry old new dir ps) ≡ find_entry b ps
renamed_elsewhere old new dir ps b free other listed =
    find_entry-rename_entry b old new dir ps other (elim (Bool-cases (text_eq new b)) [
      | inr apart ↦ apart
      | inl same ↦ absurd (ground (arith, text_eq_iff new b))
    ])

renamed_listed :
    (old new dir : Text) (ps : List RegistryEntry)
    → some_alias old ps ≡ true
    → some_alias new ps ≡ false
    → (e : RegistryEntry) × (find_entry new (rename_entry old new dir ps)
        ≡ some (record e { alias = new; data_dir = dir }))
renamed_listed old new dir ps listed free = elim (Option-cases (find_entry old ps)) [
  | inr (e, found) ↦ (e, find_entry-renamed old new dir ps e free found)
  | inl absent ↦ absurd (ground (arith, is_some-find_entry old ps))
]

renamed_current :
    (old new dir : Text) (o : Option Text) (ps : List RegistryEntry)
    → some_alias old ps ≡ true
    → some_alias new ps ≡ false
    → ((b : Text) → is_alias o b ≡ true → some_alias b ps ≡ true)
    → (b : Text) → is_alias (if is_alias o old then some new else o) b ≡ true
    → some_alias b (rename_entry old new dir ps) ≡ true
renamed_current old new dir o ps listed free current b k = elim (Bool-cases (is_alias o old)) [
  | inl was ↦
      let same : text_eq new b ≡ true =
        subst (λ t. is_alias (if t then some new else o) b ≡ true) was k in
      let (e, found) = renamed_listed old new dir ps listed free in
      subst (λ c. some_alias c (rename_entry old new dir ps) ≡ true) ((text_eq_iff new b).0 same)
        (sym (is_some-find_entry new (rename_entry old new dir ps)) ∙ ap is_some found)
  | inr kept ↦
      let k' : is_alias o b ≡ true =
        subst (λ t. is_alias (if t then some new else o) b ≡ true) kept k in
      some_alias-find_entry b (rename_entry old new dir ps) ps
        (renamed_elsewhere old new dir ps b free (is_alias-apart o old b kept k') (current b k'))
      ∙ current b k'
]

module _ (discovery_key pact_config_dir : Text → Text)
    (placed : (a : Text) → truthy (pact_config_dir a) ≡ true) where
  rename_current-IsKept :
      (old new : Text) (r : Reply Unit × Host)
      → IsKept r
      → IsKept (rename_current discovery_key pact_config_dir old new r)
  unfolding load_registry
  rename_current-IsKept old new (threw e, h) kept = kept
  rename_current-IsKept old new (returned u, h) (inv, fine) =
      (record { valid = inv.valid; shaped = inv.shaped; opened = inv.opened }, λ e k. cc)

  reopen-IsKept :
      (old new : Text) (loaded : Option Text) (r : Reply Unit × Host) (e : RegistryEntry)
      → IsKept r
      → find_entry new r.1.config.pacts
        ≡ some (record e { alias = new; data_dir = pact_config_dir new })
      → IsKept (reopen discovery_key pact_config_dir old new loaded r)
  unfolding reopen load_registry
  reopen-IsKept old new loaded (threw f, h) e kept found = kept
  reopen-IsKept old new none (returned u, h) e (inv, fine) found = (inv, λ f k. cc)
  reopen-IsKept old new (some key) (returned u, h) e (inv, fine) found = (
    record {
      valid = inv.valid;
      shaped = inv.shaped;
      opened =
          IsOpened-set_open h.config.pacts h.open_pacts new
            (record { pact_key = key; data_dir = pact_config_dir new })
            (record e { alias = new; data_dir = pact_config_dir new }) inv.opened found refl;
    },
    λ f k. cc,
  )

  closed-IsHost :
      (old : Text) (h : Host)
      → IsHost h
      → IsHost (record h { open_pacts = delete_open old h.open_pacts })
  unfolding load_registry
  closed-IsHost old h inv = record {
    valid = inv.valid;
    shaped = inv.shaped;
    opened =
        IsOpened-closed h.config.pacts h.config.pacts h.open_pacts (delete_open old h.open_pacts)
          old inv.opened (find_open-deleted old h.open_pacts)
          (λ b q k. find_open-left old b h.open_pacts q k) (λ b other listed. refl);
  }

  -- Past the guards.
  renamed-IsKept :
      (old new : Text) (moved : Bool) (loaded : Option Text) (h : Host)
      → IsHost h
      → validate_alias new ≡ true
      → some_alias old h.config.pacts ≡ true
      → some_alias new h.config.pacts ≡ false
      → IsKept (move_pact discovery_key pact_config_dir old new moved loaded h)
  unfolding move_pact load_registry
  renamed-IsKept old new false loaded h inv shape listed free = (closed-IsHost old h inv, λ e k. cc)
  renamed-IsKept old new true loaded h inv shape listed free =
      let dir = pact_config_dir new in
      let entries = rename_entry old new dir h.config.pacts in
      let chosen =
        if is_alias h.config.current_alias old then some new else h.config.current_alias in
      let closed = record h { open_pacts = delete_open old h.open_pacts } in
      let cfg = record (load_registry h) { pacts = entries; current_alias = chosen } in
      let (saved, host) =
        save-IsKept closed closed cfg tt
          (changed-IsValid (load_registry h) entries chosen inv.valid
            (IsDistinct-rename_entry old new dir h.config.pacts (host-IsDistinct inv)
              (validate_alias-truthy new shape) (placed new) free)
            (renamed_current old new dir h.config.current_alias h.config.pacts listed free
              (host_current inv)))
          refl (rename_entry-AreAliases old new dir h.config.pacts inv.shaped shape)
          (IsOpened-closed h.config.pacts entries h.open_pacts (delete_open old h.open_pacts) old
            inv.opened (find_open-deleted old h.open_pacts)
            (λ b q k. find_open-left old b h.open_pacts q k)
            (λ b other there. renamed_elsewhere old new dir h.config.pacts b free other there)) in
      let (e, found) = renamed_listed old new dir h.config.pacts listed free in
      let done : IsKept (returned tt, record closed { config = cfg }) = (host, λ f k. cc) in
      elim (Option-cases (find_open old h.open_pacts)) [
        | inl absent ↦ rw (absent, saved) (rename_current-IsKept old new _ done)
        | inr (p, present) ↦ rw (present, saved) (reopen-IsKept old new loaded _ e done found)
      ]

  pub rename_pact-IsKept :
      (old new : Text) (moved : Bool) (loaded : Option Text) (h : Host)
      → IsHost h
      → IsKept (rename_pact discovery_key pact_config_dir old new moved loaded h)
  unfolding rename_pact load_registry
  rename_pact-IsKept old new moved loaded h inv = elim (Bool-cases (validate_alias new)) [
    | inr bad ↦ rw bad (inv, λ e k. cc)
    | inl shape ↦ elim (Bool-cases (some_alias old h.config.pacts)) [
      | inr unknown ↦ rw (shape, unknown) (inv, λ e k. cc)
      | inl listed ↦ elim (Bool-cases (some_alias new h.config.pacts)) [
        | inl taken ↦ rw (shape, listed, taken) (inv, λ e k. cc)
        | inr free ↦
            rw (shape, listed, free) (renamed-IsKept old new moved loaded h inv shape listed free)
      ]
    ]
  ]
