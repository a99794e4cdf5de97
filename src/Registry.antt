-- ===== src/Registry.antt =====
-- The pacts of a host: setCurrentAlias, openPact, createPact, joinPact, removePact and renamePact of
-- packages/daemon/src/daemon.ts, between start and stop or before them. What opening, creating and
-- joining the stores of a pact gives, and whether a directory could be renamed, are inputs; so are
-- the key that a pact is announced under and the directories of aliases.
pub mod Entries
pub mod Changes
pub mod Invariant
pub mod Keeps
pub mod Operations
pub mod Rename
pub mod Runs
pub mod Found
use openpact.Prelude.{
  ℕ, Text, codes, text_eq, truthy, to_lower_case, Option, none, some, List, [], ◌∷◌, ◌++◌, Bool,
  true, false, not, ◌&&◌, ◌||◌, if◌then◌else◌, is_some, take,
}
use openpact.Aliases.{RegistryEntry, some_alias, validate_alias, unique_alias_from_name}
use openpact.HostConfig.{DaemonConfig, ConfigError, validate_daemon_config}

pub record OpenPact : Type 0 where
  pub pact_key : Text
  pub data_dir : Text

-- `config` is what daemon.json holds; `open_pacts`, `current` and `topics` are `_pacts`,
-- `_currentAlias` and `_joinedTopics`.
pub record Host : Type 0 where
  pub config : DaemonConfig
  pub port : ℕ
  pub open_pacts : List (Text × OpenPact)
  pub current : Option Text
  pub started : Bool
  pub topics : List Text

pub data HostError : Type 0 where
  no_pact_specified unknown_pact bad_alias alias_exists no_unique_alias : HostError
  pact_failed rename_failed pact_alias_exists : HostError
  invalid_config : ConfigError → HostError

pub data Reply (A : Type 0) : Type 0 where
  threw : HostError → Reply A
  returned : A → Reply A

-- `_pacts.get`, `.set` and `.delete`
unfoldable pub find_open : Text → List (Text × OpenPact) → Option OpenPact
find_open a [] = none
find_open a ((b, p) ∷ ps) = if text_eq b a then some p else find_open a ps

unfoldable pub delete_open : Text → List (Text × OpenPact) → List (Text × OpenPact)
delete_open a [] = []
delete_open a ((b, p) ∷ ps) =
    let rest = delete_open a ps in if text_eq b a then rest else (b, p) ∷ rest

unfoldable pub set_open : Text → OpenPact → List (Text × OpenPact) → List (Text × OpenPact)
set_open a p ps = (a, p) ∷ delete_open a ps

-- `cfg.pacts.find((p) => p.alias === alias)`
unfoldable pub find_entry : Text → List RegistryEntry → Option RegistryEntry
find_entry a [] = none
find_entry a (p ∷ ps) = if text_eq p.alias a then some p else find_entry a ps

-- `cfg.pacts.splice(idx, 1)`, at the first entry of the alias.
unfoldable pub remove_entry : Text → List RegistryEntry → List RegistryEntry
remove_entry a [] = []
remove_entry a (p ∷ ps) = let rest = remove_entry a ps in if text_eq p.alias a then ps else p ∷ rest

-- The assignments to the first entry of the alias.
unfoldable pub rename_entry : Text → Text → Text → List RegistryEntry → List RegistryEntry
rename_entry a b dir [] = []
rename_entry a b dir (p ∷ ps) =
    let rest = rename_entry a b dir ps in
    if text_eq p.alias a then record p { alias = b; data_dir = dir } ∷ ps else p ∷ rest

-- `currentAlias === alias`
abbrev pub is_alias : Option Text → Text → Bool
is_alias none a = false
is_alias (some b) a = text_eq b a

-- `pacts[0]?.alias ?? null`
abbrev pub first_alias : List RegistryEntry → Option Text
first_alias [] = none
first_alias (p ∷ ps) = some p.alias

unfoldable pub load_registry : Host → DaemonConfig
load_registry h = record h.config { port = h.port }

-- `_saveRegistry`: the file is written only if the configuration is valid.
unfoldable pub save_registry : {A : Type 0} → Host → DaemonConfig → A → Host → Reply A × Host
save_registry before cfg value after = elim (validate_daemon_config cfg) [
  | some e ↦ (threw (invalid_config e), before)
  | none ↦ (returned value, record after { config = cfg })
]

unfoldable pub set_current_alias : Option Text → Host → Reply Unit × Host
set_current_alias alias h =
    let cfg = load_registry h in
    let moved = record h { current = alias } in
    let next = save_registry moved (record cfg { current_alias = alias }) tt moved in
    elim alias [
      | none ↦ next
      | some a ↦ if some_alias a cfg.pacts then next else (threw unknown_pact, h)
    ]

pub record CreatePactOpts : Type 0 where
  pub alias : Option Text
  pub pact_name : Text
  pub set_current : Option Bool

pub record JoinPactOpts : Type 0 where
  pub alias : Option Text
  pub join_key : Text
  pub set_current : Option Bool

abbrev pub has_topic : Text → List Text → Bool
has_topic t [] = false
has_topic t (u ∷ us) = text_eq u t || has_topic t us

unfoldable pub delete_topic : Text → List Text → List Text
delete_topic t [] = []
delete_topic t (u ∷ us) = let rest = delete_topic t us in if text_eq u t then rest else u ∷ rest

-- `??`
abbrev pub or_else {ℓ} : {A : Type ℓ} → Option A → A → A
or_else (some x) y = x
or_else none y = y

module _ (discovery_key pact_config_dir : Text → Text) where
  -- `if (this._started) this._joinTopic(pact)`
  unfoldable pub join_topic : OpenPact → Host → Host
  join_topic pact h =
      let t = discovery_key pact.pact_key in
      if not h.started || has_topic t h.topics then h else record h { topics = t ∷ h.topics }

  -- `loaded` is the key of the pact that `Pact.load` finds in the directory of the entry.
  unfoldable pub load_pact : RegistryEntry → Option Text → Host → Reply OpenPact × Host
  load_pact entry none h = (threw pact_failed, h)
  load_pact entry (some key) h =
      let pact : OpenPact = record { pact_key = key; data_dir = entry.data_dir } in
      (
        returned pact,
        join_topic pact (record h { open_pacts = set_open entry.alias pact h.open_pacts }),
      )

  unfoldable pub open_pact : Option Text → Option Text → Host → Reply OpenPact × Host
  open_pact alias_or_null loaded h =
      let cfg = load_registry h in
      let alias = or_else alias_or_null (or_else cfg.current_alias []) in
      if not (truthy alias)
      then (threw no_pact_specified, h)
      else elim (find_open alias h.open_pacts) [
        | some cached ↦ (returned cached, h)
        | none ↦ elim (find_entry alias cfg.pacts) [
          | none ↦ (threw unknown_pact, h)
          | some entry ↦ load_pact entry loaded h
        ]
      ]

  -- The end of createPact and of joinPact.
  unfoldable pub register : Text → Text → Option Bool → Text → Host → Reply (OpenPact × Text) × Host
  register alias key set_current now h =
      let cfg = load_registry h in
      let dir = pact_config_dir alias in
      let pact : OpenPact = record { pact_key = key; data_dir = dir } in
      let entry : RegistryEntry = record {
        alias = alias;
        pact_id = key;
        data_dir = dir;
        added_at = now;
      } in
      let should_set = or_else set_current (not (is_some cfg.current_alias)) in
      save_registry h
        (record cfg {
          pacts = cfg.pacts ++ entry ∷ [];
          current_alias = if should_set then some alias else cfg.current_alias;
        })
        (pact, alias)
        (join_topic pact (record h {
          open_pacts = set_open alias pact h.open_pacts;
          current = if should_set then some alias else h.current;
        }))

  -- The rest of createPact, at the alias that was given or found. `made` is the key of the pact
  -- that `Pact.create` or `Pact.join` makes.
  unfoldable pub register_made :
      Text → Option Text → Option Bool → Text → Host → Reply (OpenPact × Text) × Host
  register_made alias none set_current now h = (threw pact_failed, h)
  register_made alias (some key) set_current now h = register alias key set_current now h

  unfoldable pub create_chosen :
      Option Text → Option Text → Option Bool → Text → Host → Reply (OpenPact × Text) × Host
  create_chosen none made set_current now h = (threw no_unique_alias, h)
  create_chosen (some alias) made set_current now h =
      let cfg = load_registry h in
      if not (validate_alias alias)
      then (threw bad_alias, h)
      else if some_alias alias cfg.pacts
      then (threw alias_exists, h)
      else register_made alias made set_current now h

  unfoldable pub create_pact :
      CreatePactOpts → Option Text → Text → Host → Reply (OpenPact × Text) × Host
  create_pact opts made now h =
      let cfg = load_registry h in
      let chosen : Option Text = elim opts.alias [
        | some a ↦ some a
        | none ↦ unique_alias_from_name opts.pact_name cfg.pacts
      ] in
      create_chosen chosen made opts.set_current now h

  abbrev pub rejoined : Text → Reply OpenPact × Host → Reply (OpenPact × Text) × Host
  rejoined alias (threw e, h) = (threw e, h)
  rejoined alias (returned pact, h) = (returned (pact, alias), h)

  -- A pact that is open already, or is opened now.
  unfoldable pub rejoin : Text → Option Text → Host → Reply (OpenPact × Text) × Host
  rejoin alias loaded h = rejoined alias (open_pact (some alias) loaded h)

  -- `loaded` is the key that `openPact` finds.
  unfoldable pub join_pact :
      JoinPactOpts → Option Text → Option Text → Text → Host → Reply (OpenPact × Text) × Host
  join_pact opts made loaded now h =
      let cfg = load_registry h in
      let alias = or_else opts.alias (codes "joined-" ++ take 8 opts.join_key) in
      if not (validate_alias alias)
      then (threw bad_alias, h)
      else elim (find_entry alias cfg.pacts) [
        | some existing ↦
            if text_eq (to_lower_case existing.pact_id) (to_lower_case opts.join_key)
            then rejoin alias loaded h
            else (threw pact_alias_exists, h)
        | none ↦ register_made alias made opts.set_current now h
      ]

  -- The pact is no longer announced and is closed; the parting entries are appended before.
  unfoldable pub close_pact : Text → Host → Host
  close_pact alias h = elim (find_open alias h.open_pacts) [
    | none ↦ h
    | some pact ↦ record h {
      open_pacts = delete_open alias h.open_pacts;
      topics = if h.started then delete_topic (discovery_key pact.pact_key) h.topics else h.topics;
    }
  ]

  unfoldable pub remove_pact : Text → Host → Reply Unit × Host
  remove_pact alias h =
      let cfg = load_registry h in
      let left = remove_entry alias cfg.pacts in
      let closed = close_pact alias h in
      let was_current = is_alias cfg.current_alias alias in
      let after = record closed {
        current = if was_current then first_alias left else closed.current;
      } in
      if some_alias alias cfg.pacts
      then save_registry after
          (record cfg {
            pacts = left;
            current_alias = if was_current then first_alias left else cfg.current_alias;
          })
          tt after
      else (threw unknown_pact, h)

  -- The reload of a pact that was open, and the last assignment. The topic is not joined again.
  unfoldable pub reopen : Text → Text → Option Text → Reply Unit × Host → Reply Unit × Host
  reopen old new loaded (threw e, h) = (threw e, h)
  reopen old new none (returned u, h) = (threw pact_failed, h)
  reopen old new (some key) (returned u, h) = (
    returned u,
    record h {
      open_pacts =
          set_open new (record { pact_key = key; data_dir = pact_config_dir new }) h.open_pacts;
      current = if is_alias h.current old then some new else h.current;
    },
  )

  abbrev pub rename_current : Text → Text → Reply Unit × Host → Reply Unit × Host
  rename_current old new (threw e, h) = (threw e, h)
  rename_current old new (returned u, h) =
      (returned u, record h { current = if is_alias h.current old then some new else h.current })

  -- The rest of renamePact after its tests; `moved` says that the directory was renamed.
  unfoldable pub move_pact : Text → Text → Bool → Option Text → Host → Reply Unit × Host
  move_pact old new moved loaded h =
      let cfg = load_registry h in
      let closed = record h { open_pacts = delete_open old h.open_pacts } in
      let saved =
        save_registry closed
          (record cfg {
            pacts = rename_entry old new (pact_config_dir new) cfg.pacts;
            current_alias = if is_alias cfg.current_alias old then some new else cfg.current_alias;
          })
          tt closed in
      if not moved then (threw rename_failed, closed) else elim (find_open old h.open_pacts) [
        | none ↦ rename_current old new saved
        | some pact ↦ reopen old new loaded saved
      ]

  unfoldable pub rename_pact : Text → Text → Bool → Option Text → Host → Reply Unit × Host
  rename_pact old new moved loaded h =
      let cfg = load_registry h in
      if not (validate_alias new)
      then (threw bad_alias, h)
      else if not (some_alias old cfg.pacts)
      then (threw unknown_pact, h)
      else if some_alias new cfg.pacts
      then (threw alias_exists, h)
      else move_pact old new moved loaded h
