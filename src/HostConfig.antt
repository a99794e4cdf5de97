-- ===== src/HostConfig.antt =====
-- daemon.json and the config.json of a pact: packages/daemon/src/config.ts, on values of the types
-- that it declares. Reading and writing the files are inputs and results.
pub mod Entries
pub mod Token
use openpact.Prelude.{
  ℕ, Text, codes, text_eq, truthy, Option, none, some, List, [], ◌∷◌, Bool, true, false, not, ◌&&◌,
  ◌||◌, ◌==◌, leb, ltb, if◌then◌else◌, length, all,
}
use openpact.Aliases.{RegistryEntry}

pub record DaemonConfig : Type 0 where
  pub port : ℕ
  pub pacts : List RegistryEntry
  pub current_alias : Option Text
  pub api_token : Option Text

abbrev pub default_port : ℕ
default_port = 7666

abbrev pub daemon_defaults : DaemonConfig
daemon_defaults = record { port = default_port; pacts = []; current_alias = none; api_token = none }

-- The errors of `validateDaemonConfig`, in the order of its tests.
pub data ConfigError : Type 0 where
  bad_port missing_alias duplicate_alias bad_pact_id missing_data_dir : ConfigError
  unknown_current bad_token : ConfigError

-- `[0-9a-f]`, and with the flag `i`
abbrev pub is_lower_hex : ℕ → Bool
is_lower_hex c = leb 48 c && leb c 57 || leb 97 c && leb c 102

abbrev pub is_any_hex : ℕ → Bool
is_any_hex c = is_lower_hex c || leb 65 c && leb c 70

-- `/^[0-9a-f]+$/i`
abbrev pub hex_pattern : Text → Bool
hex_pattern s = truthy s && all is_any_hex s

-- `/^[0-9a-f]{64}$/`
unfoldable pub token_pattern : Text → Bool
token_pattern s = length s == 64 && all is_lower_hex s

-- `aliases.has(alias)`
unfoldable pub has_text : Text → List Text → Bool
has_text s [] = false
has_text s (t ∷ ts) = text_eq t s || has_text s ts

-- The loop over the pacts, with the aliases that it has seen.
unfoldable pub check_entries : List Text → List RegistryEntry → Option ConfigError
check_entries seen [] = none
check_entries seen (p ∷ ps) =
    let rest = check_entries (p.alias ∷ seen) ps in
    if not (truthy p.alias)
    then some missing_alias
    else if has_text p.alias seen
    then some duplicate_alias
    else if not (hex_pattern p.pact_id)
    then some bad_pact_id
    else if not (truthy p.data_dir)
    then some missing_data_dir
    else rest

unfoldable pub aliases_of : List RegistryEntry → List Text
aliases_of [] = []
aliases_of (p ∷ ps) = p.alias ∷ aliases_of ps

-- The tests after the loop.
unfoldable pub check_current : Option Text → List Text → Option ConfigError
check_current none aliases = none
check_current (some a) aliases = if has_text a aliases then none else some unknown_current

unfoldable pub check_token : Option Text → Option ConfigError
check_token none = none
check_token (some t) = if token_pattern t then none else some bad_token

-- `none` where it does not throw.
unfoldable pub validate_daemon_config : DaemonConfig → Option ConfigError
validate_daemon_config c =
    if ltb c.port 1 || ltb 65535 c.port then some bad_port else elim (check_entries [] c.pacts) [
      | some e ↦ some e
      | none ↦ elim (check_current c.current_alias (aliases_of c.pacts)) [
        | some e ↦ some e
        | none ↦ check_token c.api_token
      ]
    ]

-- `config.apiToken && API_TOKEN_RE.test(config.apiToken)`
abbrev pub good_token : Option Text → Option Text
good_token none = none
good_token (some t) = if token_pattern t then some t else none

-- `loaded` is the configuration on disk, where it could be read; the result is the token or what
-- the save threw, with the configuration that is on disk afterwards.
pub data Ensured : Type 0 where
  token : Text → Ensured
  not_saved : ConfigError → Ensured

unfoldable pub ensure_api_token : DaemonConfig → Text → Ensured × DaemonConfig
ensure_api_token config fresh =
    let next = record config { api_token = some fresh } in
    elim (good_token config.api_token) [
      | some t ↦ (token t, config)
      | none ↦ elim (validate_daemon_config next) [
        | some e ↦ (not_saved e, config)
        | none ↦ (token fresh, next)
      ]
    ]

unfoldable pub read_api_token : Option DaemonConfig → Option Text
read_api_token none = none
read_api_token (some config) = good_token config.api_token

-- The configuration of a pact. A role that no type restricts is a text.
pub record PactConfig : Type 0 where
  pub pact_key : Option Text
  pub pact_name : Option Text
  pub pact_purpose : Option Text
  pub display_name : Option Text
  pub role : Option Text

pub data PactConfigError : Type 0 where
  invalid_role bad_pact_key long_name long_purpose long_display_name : PactConfigError

abbrev pub is_role : Text → Bool
is_role r = text_eq r (codes "creator") || text_eq r (codes "indexer") || text_eq r (codes "member")

abbrev pub within : ℕ → Option Text → Bool
within max none = true
within max (some s) = leb (length s) max

abbrev pub option_all : (Text → Bool) → Option Text → Bool
option_all test none = true
option_all test (some s) = test s

unfoldable pub validate_pact_config : PactConfig → Option PactConfigError
validate_pact_config c =
    if not (option_all is_role c.role)
    then some invalid_role
    else if not (option_all hex_pattern c.pact_key)
    then some bad_pact_key
    else if not (within 64 c.pact_name)
    then some long_name
    else if not (within 200 c.pact_purpose)
    then some long_purpose
    else if not (within 64 c.display_name)
    then some long_display_name
    else none

unfoldable pub normalise_role : Option Text → Option Text
normalise_role none = none
normalise_role (some r) =
    if text_eq r (codes "writer")
    then some (codes "member")
    else if text_eq r (codes "reader")
    then none
    else some r
