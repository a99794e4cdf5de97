-- ===== src/Registry/Runs.antt =====
-- Runs of operations on a host.
use openpact.Prelude.{Text, truthy, Option, none, some, List, [], ◌∷◌, Bool, true, ◌≡◌, ◌≢◌, All}
use openpact.HostConfig.{ConfigError}
use openpact.Registry.{
  Host, HostError, invalid_config, Reply, threw, returned, CreatePactOpts, JoinPactOpts,
  set_current_alias, open_pact, create_pact, join_pact, remove_pact, rename_pact,
}
use openpact.Registry.Invariant.{IsHost}
use openpact.Registry.Keeps.{IsKept, set_current_alias-IsKept, open_pact-IsKept}
use openpact.Registry.Operations.{IsKeyed, create_pact-IsKept, join_pact-IsKept, remove_pact-IsKept}
use openpact.Registry.Rename.{rename_pact-IsKept}

-- A call, with what the world gives it.
pub data Operation : Type 0 where
  switch_to : Option Text → Operation
  open_at : Option Text → Option Text → Operation
  create : CreatePactOpts → Option Text → Text → Operation
  join_in : JoinPactOpts → Option Text → Option Text → Text → Operation
  remove : Text → Operation
  rename : Text → Text → Bool → Option Text → Operation

-- Keys that `Pact.create` and `Pact.join` make are in hexadecimal.
abbrev pub HasKey : Operation → Type 0
HasKey (create opts made now) = IsKeyed made
HasKey (join_in opts made loaded now) = IsKeyed made
HasKey (switch_to a) = Unit
HasKey (open_at a l) = Unit
HasKey (remove a) = Unit
HasKey (rename old new moved loaded) = Unit

abbrev pub error_of : {A : Type 0} → Reply A × Host → Option HostError × Host
error_of (threw e, h) = (some e, h)
error_of (returned x, h) = (none, h)

module _ (discovery_key pact_config_dir : Text → Text) where
  unfoldable pub step : Operation → Host → Option HostError × Host
  step (switch_to a) h = error_of (set_current_alias a h)
  step (open_at a l) h = error_of (open_pact discovery_key pact_config_dir a l h)
  step (create opts made now) h =
      error_of (create_pact discovery_key pact_config_dir opts made now h)
  step (join_in opts made loaded now) h =
      error_of (join_pact discovery_key pact_config_dir opts made loaded now h)
  step (remove a) h = error_of (remove_pact discovery_key pact_config_dir a h)
  step (rename old new moved loaded) h =
      error_of (rename_pact discovery_key pact_config_dir old new moved loaded h)

  unfoldable pub run : List Operation → Host → List (Option HostError) × Host
  run [] h = ([], h)
  run (op ∷ ops) h =
      let (error, next) = step op h in let (errors, last) = run ops next in (error ∷ errors, last)

-- No error is that the configuration was refused.
abbrev pub IsSaved : Option HostError → Type 0
IsSaved o = (e : ConfigError) → o ≢ some (invalid_config e)

error_of-IsKept :
    {A : Type 0} (r : Reply A × Host) → IsKept r → IsHost (error_of r).1 × IsSaved (error_of r).0
error_of-IsKept (threw e, h) (inv, fine) = (inv, λ f k. fine f cc)
error_of-IsKept (returned x, h) (inv, fine) = (inv, λ f k. cc)

module _ (discovery_key pact_config_dir : Text → Text)
    (placed : (a : Text) → truthy (pact_config_dir a) ≡ true) where
  step-IsHost :
      (op : Operation) (h : Host)
      → IsHost h
      → HasKey op
      → IsHost (step discovery_key pact_config_dir op h).1
        × IsSaved (step discovery_key pact_config_dir op h).0
  unfolding step
  step-IsHost (switch_to a) h inv keyed = error_of-IsKept _ (set_current_alias-IsKept a h inv)
  step-IsHost (open_at a l) h inv keyed =
      error_of-IsKept _ (open_pact-IsKept discovery_key pact_config_dir a l h inv)
  step-IsHost (create opts made now) h inv keyed =
      error_of-IsKept _
        (create_pact-IsKept discovery_key pact_config_dir placed opts made now h inv keyed)
  step-IsHost (join_in opts made loaded now) h inv keyed =
      error_of-IsKept _
        (join_pact-IsKept discovery_key pact_config_dir placed opts made loaded now h inv keyed)
  step-IsHost (remove a) h inv keyed =
      error_of-IsKept _ (remove_pact-IsKept discovery_key pact_config_dir a h inv)
  step-IsHost (rename old new moved loaded) h inv keyed =
      error_of-IsKept _
        (rename_pact-IsKept discovery_key pact_config_dir placed old new moved loaded h inv)

  -- From a host in order, whatever is called and whatever fails on the way, the host is in order at
  -- the end, and no call fails because the configuration that it would save is refused, if
  -- directories are not empty and made keys are in hexadecimal.
  pub run-IsHost :
      (ops : List Operation) (h : Host)
      → IsHost h
      → All HasKey ops
      → IsHost (run discovery_key pact_config_dir ops h).1
        × All IsSaved (run discovery_key pact_config_dir ops h).0
  unfolding run
  run-IsHost [] h inv keyed = (inv, tt)
  run-IsHost (op ∷ ops) h inv (keyed, rest) =
      let (next, saved) = step-IsHost op h inv keyed in
      let (last, all_saved) =
        run-IsHost ops (step discovery_key pact_config_dir op h).1 next rest in
      (last, (saved, all_saved))
