-- ===== src/Registry/Keeps.antt =====
-- The operations on a host keep its invariant.
use openpact.Prelude.{
  Text, text_eq_iff, text_eq_refl, Option, none, some, List, [], ◌∷◌, ◌++◌, Bool, true, false, not,
  ◌≡◌, ◌≢◌, inl, inr, refl, sym, ap, ◌∙◌, subst, arith, if◌then◌else◌, is_some, Bool-cases,
  Option-cases, truthy,
}
use openpact.Aliases.{RegistryEntry, some_alias, validate_alias}
use openpact.HostConfig.{DaemonConfig, ConfigError, validate_daemon_config, hex_pattern}
use openpact.Registry.{
  OpenPact, Host, invalid_config, Reply, threw, returned, find_open, set_open, find_entry,
  load_registry, load_pact, save_registry, set_current_alias, or_else, join_topic, open_pact,
  register,
}
use openpact.Registry.Entries.{find_entry-alias, find_entry-appended}
use openpact.Registry.Changes.{AreAliases, IsDistinct-append, append-AreAliases}
use openpact.Registry.Invariant.{
  IsOpened, IsHost, changed-IsValid, host-IsDistinct, host_current, IsOpened-set_open,
  IsOpened-append, validate_alias-truthy, chosen_current,
}

find_open-set_open :
    (a : Text) (p : OpenPact) (ps : List (Text × OpenPact)) → find_open a (set_open a p ps) ≡ some p
unfolding find_open set_open
find_open-set_open a p ps = rw (text_eq_refl a) refl

-- The host is in order afterwards, and the configuration was not refused.
abbrev pub IsKept : {A : Type 0} → Reply A × Host → Type 0
IsKept (reply, h) = IsHost h × ((e : ConfigError) → reply ≢ threw (invalid_config e))

pub save-IsKept :
    {A : Type 0} (before after : Host) (cfg : DaemonConfig) (value : A)
    → validate_daemon_config cfg ≡ none
    → after.port ≡ cfg.port
    → AreAliases cfg.pacts
    → IsOpened cfg.pacts after.open_pacts
    → (save_registry before cfg value after ≡ (returned value, record after { config = cfg }))
      × IsHost (record after { config = cfg })
unfolding save_registry load_registry
save-IsKept before after cfg value valid port shaped opened = (
  rw (save_registry, valid) refl,
  record {
    valid = subst (λ n. validate_daemon_config (record cfg { port = n }) ≡ none) (sym port) valid;
    shaped = shaped;
    opened = opened;
  },
)

pub saved-IsKept :
    {A : Type 0} (before after : Host) (cfg : DaemonConfig) (value : A)
    → validate_daemon_config cfg ≡ none
    → after.port ≡ cfg.port
    → AreAliases cfg.pacts
    → IsOpened cfg.pacts after.open_pacts
    → IsKept (save_registry before cfg value after)
saved-IsKept before after cfg value valid port shaped opened =
    let (saved, host) = save-IsKept before after cfg value valid port shaped opened in
    rw saved (host, λ e k. cc)

pub set_current_alias-IsKept :
    (alias : Option Text) (h : Host) → IsHost h → IsKept (set_current_alias alias h)
unfolding set_current_alias load_registry
set_current_alias-IsKept none h inv =
    saved-IsKept (record h { current = none }) (record h { current = none })
      (record (load_registry h) { current_alias = none }) tt
      (changed-IsValid (load_registry h) h.config.pacts none inv.valid (host-IsDistinct inv)
        (λ a k. absurd (ground arith)))
      refl inv.shaped inv.opened
set_current_alias-IsKept (some b) h inv = elim (Bool-cases (some_alias b h.config.pacts)) [
  | inr out ↦ rw out (inv, λ e k. cc)
  | inl in_ ↦ rw in_ (
      saved-IsKept (record h { current = some b }) (record h { current = some b })
        (record (load_registry h) { current_alias = some b }) tt
        (changed-IsValid (load_registry h) h.config.pacts (some b) inv.valid (host-IsDistinct inv)
          (λ a k. ground (arith, text_eq_iff b a)))
        refl inv.shaped inv.opened)
]

module _ (discovery_key pact_config_dir : Text → Text) where
  join_topic-same :
      (p : OpenPact) (h : Host)
      → ((join_topic discovery_key pact_config_dir p h).port ≡ h.port)
        × ((join_topic discovery_key pact_config_dir p h).config ≡ h.config)
        × ((join_topic discovery_key pact_config_dir p h).open_pacts ≡ h.open_pacts)
  unfolding join_topic
  join_topic-same p h = ground arith

  join_topic-IsHost :
      (p : OpenPact) (h : Host) → IsHost h → IsHost (join_topic discovery_key pact_config_dir p h)
  unfolding load_registry
  join_topic-IsHost p h inv =
      let (port, config, pacts) = join_topic-same p h in
      record {
        valid = rw (port, config) (inv.valid);
        shaped = rw config (inv.shaped);
        opened = rw (config, pacts) (inv.opened);
      }

  load_pact-IsKept :
      (a : Text) (entry : RegistryEntry) (loaded : Option Text) (h : Host)
      → IsHost h
      → find_entry a h.config.pacts ≡ some entry
      → IsKept (load_pact discovery_key pact_config_dir entry loaded h)
  unfolding load_pact load_registry
  load_pact-IsKept a entry none h inv found = (inv, λ e k. cc)
  load_pact-IsKept a entry (some key) h inv found =
      let pact : OpenPact = record { pact_key = key; data_dir = entry.data_dir } in
      let alias : entry.alias ≡ a = find_entry-alias a h.config.pacts entry found in
      (
        join_topic-IsHost pact (record h { open_pacts = set_open entry.alias pact h.open_pacts })
            (record {
              valid = inv.valid;
              shaped = inv.shaped;
              opened =
                  IsOpened-set_open h.config.pacts h.open_pacts entry.alias pact entry inv.opened
                    (ap (λ b. find_entry b h.config.pacts) alias ∙ found) refl;
            }),
        λ e k. cc,
      )

  pub open_pact-IsKept :
      (alias loaded : Option Text) (h : Host)
      → IsHost h
      → IsKept (open_pact discovery_key pact_config_dir alias loaded h)
  unfolding open_pact load_registry
  open_pact-IsKept alias loaded h inv =
      let a = or_else alias (or_else h.config.current_alias []) in
      elim (Bool-cases (truthy a)) [
        | inr empty ↦ rw empty (inv, λ e k. cc)
        | inl given ↦ elim (Option-cases (find_open a h.open_pacts)) [
          | inr (p, cached) ↦ rw (given, cached) (inv, λ e k. cc)
          | inl closed ↦ elim (Option-cases (find_entry a h.config.pacts)) [
            | inl unknown ↦ rw (given, closed, unknown) (inv, λ e k. cc)
            | inr (entry, found) ↦
                rw (given, closed, found) (load_pact-IsKept a entry loaded h inv found)
          ]
        ]
      ]

  module _ (placed : (a : Text) → truthy (pact_config_dir a) ≡ true) where
    -- What a registration returns and saves.
    pub register-saved :
        (alias key now : Text) (set_current : Option Bool) (h : Host)
        → IsHost h
        → validate_alias alias ≡ true
        → some_alias alias h.config.pacts ≡ false
        → hex_pattern key ≡ true
        → ((register discovery_key pact_config_dir alias key set_current now h).0
            ≡ returned (record { pact_key = key; data_dir = pact_config_dir alias }, alias))
          × ((register discovery_key pact_config_dir alias key set_current now h).1.config.pacts
              ≡ h.config.pacts
                ++ record {
                  alias = alias;
                  pact_id = key;
                  data_dir = pact_config_dir alias;
                  added_at = now;
                }
                  ∷ [])
          × IsHost (register discovery_key pact_config_dir alias key set_current now h).1
          × (find_open alias
                (register discovery_key pact_config_dir alias key set_current now h).1.open_pacts
              ≡ some (record { pact_key = key; data_dir = pact_config_dir alias }))
    unfolding register load_registry
    register-saved alias key now set_current h inv shape new keyed =
        let dir = pact_config_dir alias in
        let pact : OpenPact = record { pact_key = key; data_dir = dir } in
        let entry : RegistryEntry = record {
          alias = alias;
          pact_id = key;
          data_dir = dir;
          added_at = now;
        } in
        let should_set = or_else set_current (not (is_some h.config.current_alias)) in
        let chosen = if should_set then some alias else h.config.current_alias in
        let after = record h {
          open_pacts = set_open alias pact h.open_pacts;
          current = if should_set then some alias else h.current;
        } in
        let (port, config, pacts) = join_topic-same pact after in
        let wider : IsOpened (h.config.pacts ++ entry ∷ []) h.open_pacts =
          IsOpened-append h.config.pacts h.open_pacts entry new inv.opened in
        let (saved, host) =
          save-IsKept {A = OpenPact × Text} h (join_topic discovery_key pact_config_dir pact after)
            (record (load_registry h) {
              pacts = h.config.pacts ++ entry ∷ [];
              current_alias = chosen;
            })
            (pact, alias)
            (changed-IsValid (load_registry h) (h.config.pacts ++ entry ∷ []) chosen inv.valid
              (IsDistinct-append h.config.pacts entry (host-IsDistinct inv)
                (record {
                  named = validate_alias-truthy alias shape;
                  keyed = keyed;
                  placed = placed alias;
                })
                new)
              (chosen_current should_set alias h.config.current_alias h.config.pacts entry refl
                (host_current inv)))
            port (append-AreAliases h.config.pacts entry inv.shaped shape)
            (subst (IsOpened (h.config.pacts ++ entry ∷ [])) (sym pacts) (
              IsOpened-set_open (h.config.pacts ++ entry ∷ []) h.open_pacts alias pact entry wider
                (find_entry-appended h.config.pacts entry new) refl)) in
        rw saved (
          refl,
          refl,
          host,
          ap (find_open alias) pacts ∙ find_open-set_open alias pact h.open_pacts,
        )

    pub register-IsKept :
        (alias key now : Text) (set_current : Option Bool) (h : Host)
        → IsHost h
        → validate_alias alias ≡ true
        → some_alias alias h.config.pacts ≡ false
        → hex_pattern key ≡ true
        → IsKept (register discovery_key pact_config_dir alias key set_current now h)
    register-IsKept alias key now set_current h inv shape new keyed =
        let (reply, pacts, host, opened) =
          register-saved alias key now set_current h inv shape new keyed in
        (host, λ e k. cc)
