-- ===== src/Aliases.antt =====
-- The short names of pacts: validateAlias, uniqueAliasFromName and slugify of
-- packages/daemon/src/daemon.ts, with an entry of the registry (packages/daemon/src/config.ts).
pub mod Slugs
pub mod Fresh
use openpact.Prelude.{
  ℕ, zero, suc, ◌+◌, Text, codes, text_eq, Option, none, some, List, [], ◌∷◌, ◌++◌, Bool, true,
  false, not, ◌&&◌, ◌||◌, ◌==◌, leb, if◌then◌else◌, length, take, all, truthy,
}
use openpact.EntryId.Decimal.{to_decimal}

pub record RegistryEntry : Type 0 where
  pub alias : Text
  pub pact_id : Text
  pub data_dir : Text
  pub added_at : Text

-- `[a-z0-9]`
abbrev pub is_alnum : ℕ → Bool
is_alnum c = leb 97 c && leb c 122 || leb 48 c && leb c 57

-- `[a-z0-9-]`
abbrev pub is_alias_char : ℕ → Bool
is_alias_char c = is_alnum c || c == 45

abbrev pub alias_max : ℕ
alias_max = 48

-- `/^[a-z0-9][a-z0-9-]*$/`
abbrev pub alias_pattern : Text → Bool
alias_pattern [] = false
alias_pattern (c ∷ s) = is_alnum c && all is_alias_char s

-- `validateAlias` does not throw.
unfoldable pub validate_alias : Text → Bool
validate_alias alias = alias_pattern alias && leb (length alias) alias_max

-- `toLowerCase`, as far as `slugify` can tell: beside the ASCII letters, only the Kelvin sign and
-- the dotted I have a lower case with a letter of `[a-z0-9]` in it.
abbrev pub lower_unit : ℕ → Text
lower_unit c =
    if leb 65 c && leb c 90
    then (c + 32) ∷ []
    else if c == 8490
    then 107 ∷ []
    else if c == 304
    then 105 ∷ 775 ∷ []
    else c ∷ []

abbrev pub lower_text : Text → Text
lower_text [] = []
lower_text (c ∷ s) = lower_unit c ++ lower_text s

-- `.replace(/[^a-z0-9]+/g, '-')`; `in_run` says that the run has its dash already.
unfoldable pub dash_runs : Bool → Text → Text
dash_runs in_run [] = []
dash_runs in_run (c ∷ s) =
    let other = not (is_alnum c) in
    let rest = dash_runs other s in if other then (if in_run then rest else 45 ∷ rest) else c ∷ rest

-- `.replace(/^-+|-+$/g, '')`
unfoldable pub trim_left : Text → Text
trim_left [] = []
trim_left (c ∷ s) = let rest = trim_left s in if c == 45 then rest else c ∷ s

unfoldable pub trim_right : Text → Text
trim_right [] = []
trim_right (c ∷ s) =
    let rest = trim_right s in if c == 45 && not (truthy rest) then [] else c ∷ rest

unfoldable pub slugify : Text → Text
slugify s = take alias_max (trim_right (trim_left (dash_runs false (lower_text s))))

-- `existing.some((p) => p.alias === alias)`
unfoldable pub some_alias : Text → List RegistryEntry → Bool
some_alias alias [] = false
some_alias alias (p ∷ ps) = text_eq p.alias alias || some_alias alias ps

-- `${base}-${i}`
unfoldable pub numbered : Text → ℕ → Text
numbered base i = base ++ (codes "-" ++ to_decimal i)

-- The loop of `uniqueAliasFromName` from `i`, with `fuel` rounds left until `i` is 9999.
unfoldable pub first_free : Text → List RegistryEntry → ℕ → ℕ → Option Text
first_free base existing zero i = none
first_free base existing (suc fuel) i = elim (some_alias (numbered base i) existing) [
  | false ↦ some (numbered base i)
  | true ↦ first_free base existing fuel (i + 1)
]

abbrev pub slug_or_pact : Text → Text
slug_or_pact name = let slug = slugify name in if truthy slug then slug else codes "pact"

-- `none` is the throw at the end.
unfoldable pub unique_alias_from_name : Text → List RegistryEntry → Option Text
unique_alias_from_name name existing =
    let base = slug_or_pact name in
    elim (some_alias base existing) [ false ↦ some base | true ↦ first_free base existing 9997 2 ]
