-- ===== src/Examples/Hosts.antt =====
-- packages/daemon/src/daemon.ts and config.ts: a host with two pacts.
use openpact.Prelude.{
  ◌≤◌, Text, codes, truthy, text_eq, none, some, List, [], ◌∷◌, ◌++◌, true, false, ◌≡◌, ◌⊎◌, ◌<◌,
  refl, arith, if◌then◌else◌, length, All, inl, inr, Bool-cases,
}
use openpact.Aliases.{
  RegistryEntry, validate_alias, slugify, slug_or_pact, some_alias, unique_alias_from_name,
  numbered, dash_runs, first_free, trim_left, trim_right,
}
use openpact.Aliases.Fresh.{unique_alias-found}
use openpact.HostConfig.{
  validate_daemon_config, aliases_of, check_current, check_entries, check_token, has_text,
}
use openpact.Registry.{
  Host, bad_alias, threw, returned, find_entry, find_open, CreatePactOpts, create_pact, remove_pact,
  create_chosen, load_registry,
}
use openpact.Registry.Invariant.{IsHost, IsOpened}
use openpact.Registry.Runs.{
  Operation, switch_to, open_at, create, join_in, remove, rename, IsSaved, run, run-IsHost,
}
use openpact.Registry.Found.{created_is_found, removed_is_gone}
use openpact.EntryId.Decimal.{to_decimal}

abbrev pub dir_of : Text → Text
dir_of a = codes "/h/pacts/" ++ a

abbrev pub announced : Text → Text
announced key = codes "t" ++ key

pub placed : (a : Text) → truthy (dir_of a) ≡ true
placed a = refl

abbrev entry_of : Text → Text → RegistryEntry
entry_of a key = record {
  alias = a;
  pact_id = key;
  data_dir = dir_of a;
  added_at = codes "2026-01-01";
}

abbrev pub host : Host
host = record {
  config = record {
    port = 7666;
    pacts = entry_of (codes "trip") (codes "aa") ∷ entry_of (codes "book-club") (codes "bb") ∷ [];
    current_alias = some (codes "trip");
    api_token = none;
  };
  port = 7666;
  open_pacts =
      (codes "trip", record { pact_key = codes "aa"; data_dir = dir_of (codes "trip") }) ∷ [];
  current = some (codes "trip");
  started = true;
  topics = codes "taa" ∷ [];
}

host_opened : IsOpened host.config.pacts host.open_pacts
unfolding IsOpened find_open find_entry
host_opened a p k = elim (Bool-cases (text_eq (codes "trip") a)) [
  | inl here ↦ (entry_of (codes "trip") (codes "aa"), rw here refl, ground arith)
  | inr other ↦ absurd (ground arith)
]

pub host-IsHost : IsHost host
unfolding validate_daemon_config validate_alias load_registry check_entries has_text check_current
    aliases_of check_token
host-IsHost = record { valid = refl; shaped = (refl, (refl, tt)); opened = host_opened }

abbrev morning : List Operation
morning =
    open_at none none
    ∷ create (record { alias = none; pact_name = codes "Trip"; set_current = none })
        (some (codes "cc")) (codes "2026-02-01")
    ∷ join_in (record { alias = some (codes "trip"); join_key = codes "AA"; set_current = none })
        none none (codes "2026-02-01")
    ∷ rename (codes "trip") (codes "journey") true (some (codes "aa"))
    ∷ remove (codes "journey")
    ∷ switch_to (some (codes "trip"))
    ∷ []

run-IsHost_example :
    IsHost (run announced dir_of morning host).1 × All IsSaved (run announced dir_of morning host).0
run-IsHost_example =
    run-IsHost announced dir_of placed morning host host-IsHost
      (tt, (refl, (tt, (tt, (tt, (tt, tt))))))

abbrev second_trip : CreatePactOpts
second_trip = record { alias = none; pact_name = codes " Trip! "; set_current = none }

short : length (slug_or_pact (codes " Trip! ")) ≤ 43
unfolding slugify trim_right trim_left dash_runs
short = omega arith

created_is_found_example :
    (a : Text) × (e : RegistryEntry) × ((create_pact announced dir_of second_trip
        (some (codes "cc"))
        (codes "now")
        host).0
      ≡ returned (record { pact_key = codes "cc"; data_dir = e.data_dir }, a))
    × (find_entry a host.config.pacts ≡ none)
    × (find_entry a
          (create_pact announced dir_of second_trip
            (some (codes "cc"))
            (codes "now")
            host).1.config.pacts
        ≡ some e)
    × (e.pact_id ≡ codes "cc")
    × (find_open a
          (create_pact announced dir_of second_trip
            (some (codes "cc"))
            (codes "now")
            host).1.open_pacts
        ≡ some (record { pact_key = codes "cc"; data_dir = e.data_dir }))
    × ((b : Text)
        → text_eq a b ≡ false
        → find_entry b
            (create_pact announced dir_of second_trip
              (some (codes "cc"))
              (codes "now")
              host).1.config.pacts
          ≡ find_entry b host.config.pacts)
created_is_found_example =
    created_is_found announced dir_of placed second_trip (codes "cc") (codes "now") host host-IsHost
      refl short (omega arith) refl

trip_listed : some_alias (codes "trip") host.config.pacts ≡ true
unfolding some_alias
trip_listed = refl

trip_removed :
    ((remove_pact announced dir_of (codes "trip") host).0 ≡ returned tt)
    × ((b : Text)
        → find_entry b (remove_pact announced dir_of (codes "trip") host).1.config.pacts
          ≡ (if text_eq (codes "trip") b then none else find_entry b host.config.pacts))
trip_removed = removed_is_gone announced dir_of placed (codes "trip") host host-IsHost trip_listed

unique_alias-found_example :
    (a : Text) × (unique_alias_from_name (codes "Trip") host.config.pacts ≡ some a)
    × (some_alias a host.config.pacts ≡ false)
    × ((validate_alias a ≡ true) ⊎ (43 < length (slug_or_pact (codes "Trip"))))
unique_alias-found_example = unique_alias-found (codes "Trip") host.config.pacts (omega arith)

abbrev fresh_token : Text
fresh_token = codes "0123456789abcdef0123456789abcdef0123456789abcdef0123456789abcdef"

abbrev long_name : Text
long_name = codes "the quick brown fox jumps over the lazy dogs and cats"

abbrev long_host : Host
long_host = record host {
  config = record host.config {
    pacts = entry_of (slugify long_name) (codes "aa") ∷ [];
    current_alias = none;
  };
}

-- A second pact of a long name is refused, for an alias that nobody chose.
slug_runs :
    (slugify (codes " Trip to Rome! ") ≡ codes "trip-to-rome")
    × (slugify (codes "--") ≡ [])
    × (slugify (304 ∷ 8490 ∷ []) ≡ codes "i-k")
    × (unique_alias_from_name (codes "Trip") host.config.pacts ≡ some (codes "trip-2"))
    × (validate_alias (slugify long_name) ≡ true)
    × ((create_pact announced dir_of
          (record { alias = none; pact_name = long_name; set_current = none })
          (some (codes "cc"))
          (codes "now")
          long_host).0
        ≡ threw bad_alias)
unfolding slugify unique_alias_from_name validate_alias create_pact trim_right trim_left dash_runs
    some_alias first_free numbered to_decimal create_chosen load_registry
slug_runs = (refl, refl, refl, refl, refl, refl)
