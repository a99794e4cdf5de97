-- ===== src/PactRoutes.antt =====
-- The requests on the set of pacts: packages/daemon/src/api/routes/pacts.ts after the check of their
-- schemas, and the look-up of packages/daemon/src/api/pact-resolver.ts. An error that the routes do
-- not turn into a reply is passed on as it is.
pub mod Confirmed
use openpact.Prelude.{
  ℕ, Text, text_eq, truthy, Option, none, some, List, [], ◌∷◌, Bool, true, false, not, ◌&&◌, ◌||◌,
  if◌then◌else◌,
}
use openpact.Aliases.{RegistryEntry}
use openpact.Registry.{
  OpenPact, Host, HostError, no_pact_specified, unknown_pact, bad_alias, alias_exists,
  no_unique_alias, pact_failed, rename_failed, pact_alias_exists, invalid_config, Reply, threw,
  returned, find_entry, load_registry, CreatePactOpts, JoinPactOpts, set_current_alias, open_pact,
  create_pact, join_pact, remove_pact, rename_pact, is_alias,
}

-- The codes of the `HttpError`s.
pub data HttpCode : Type 0 where
  bad_request not_confirmed unknown_pact_code alias_exists_code : HttpCode

abbrev pub status_of : HttpCode → ℕ
status_of bad_request = 400
status_of not_confirmed = 400
status_of unknown_pact_code = 404
status_of alias_exists_code = 409

pub data HttpReply (A : Type 0) : Type 0 where
  http_error : HttpCode → HttpReply A
  passed_on : HostError → HttpReply A
  ok : A → HttpReply A

-- `entries.find((p) => p.pactId === value)`
unfoldable pub find_id : Text → List RegistryEntry → Option RegistryEntry
find_id value [] = none
find_id value (p ∷ ps) = if text_eq p.pact_id value then some p else find_id value ps

-- By alias, or else by id.
unfoldable pub find_pact : Text → List RegistryEntry → Option RegistryEntry
find_pact value ps = elim (find_entry value ps) [ some e ↦ some e | none ↦ find_id value ps ]

abbrev pub to_reply : {A B : Type 0} → (A → B) → Reply A × Host → HttpReply B × Host
to_reply f (returned x, h) = (ok (f x), h)
to_reply f (threw e, h) = (passed_on e, h)

-- The `JoinPactError` is the one error that a route maps.
abbrev pub to_join_reply : {A : Type 0} → Reply A × Host → HttpReply A × Host
to_join_reply (returned x, h) = (ok x, h)
to_join_reply (threw pact_alias_exists, h) = (http_error alias_exists_code, h)
to_join_reply (threw no_pact_specified, h) = (passed_on no_pact_specified, h)
to_join_reply (threw unknown_pact, h) = (passed_on unknown_pact, h)
to_join_reply (threw bad_alias, h) = (passed_on bad_alias, h)
to_join_reply (threw alias_exists, h) = (passed_on alias_exists, h)
to_join_reply (threw no_unique_alias, h) = (passed_on no_unique_alias, h)
to_join_reply (threw pact_failed, h) = (passed_on pact_failed, h)
to_join_reply (threw rename_failed, h) = (passed_on rename_failed, h)
to_join_reply (threw (invalid_config e), h) = (passed_on (invalid_config e), h)

unfoldable pub switch_route : Text → Text → Host → HttpReply Text × Host
switch_route alias confirm h =
    if not (text_eq confirm alias)
    then (http_error not_confirmed, h)
    else to_reply (λ u. alias) (set_current_alias (some alias) h)

module _ (discovery_key pact_config_dir : Text → Text) where
  unfoldable pub resolve_pact : Text → Option Text → Host → HttpReply OpenPact × Host
  resolve_pact value loaded h =
      if not (truthy value)
      then (http_error bad_request, h)
      else elim (find_pact value (load_registry h).pacts) [
        | none ↦ (http_error unknown_pact_code, h)
        | some e ↦
            to_reply (λ p. p) (open_pact discovery_key pact_config_dir (some e.alias) loaded h)
      ]

  unfoldable pub create_route :
      Bool → CreatePactOpts → Option Text → Text → Host → HttpReply (OpenPact × Text) × Host
  create_route confirm opts made now h =
      if not confirm
      then (http_error not_confirmed, h)
      else to_reply (λ p. p) (create_pact discovery_key pact_config_dir opts made now h)

  unfoldable pub join_route :
      Bool
      → JoinPactOpts
      → Option Text
      → Option Text
      → Text
      → Host
      → HttpReply (OpenPact × Text) × Host
  join_route confirm opts made loaded now h =
      if not confirm
      then (http_error not_confirmed, h)
      else to_join_reply (join_pact discovery_key pact_config_dir opts made loaded now h)

  unfoldable pub alias_route :
      Text → Text → Bool → Option Text → Host → HttpReply RegistryEntry × Host
  alias_route value alias moved loaded h = elim (find_pact value (load_registry h).pacts) [
    | none ↦ (http_error unknown_pact_code, h)
    | some e ↦
        to_reply (λ u. e) (rename_pact discovery_key pact_config_dir e.alias alias moved loaded h)
  ]

  unfoldable pub delete_found : RegistryEntry → Option Text → Host → HttpReply RegistryEntry × Host
  delete_found e confirm h =
      if is_alias confirm e.alias || is_alias confirm e.pact_id
      then to_reply (λ u. e) (remove_pact discovery_key pact_config_dir e.alias h)
      else (http_error not_confirmed, h)

  unfoldable pub delete_route : Text → Option Text → Host → HttpReply RegistryEntry × Host
  delete_route value confirm h = elim (find_pact value (load_registry h).pacts) [
    | none ↦ (http_error unknown_pact_code, h)
    | some e ↦ delete_found e confirm h
  ]
