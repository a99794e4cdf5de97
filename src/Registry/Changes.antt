-- ===== src/Registry/Changes.antt =====
-- The lists of entries that the registry makes are accepted again.
use openpact.Prelude.{
  Text, text_eq, text_eq_iff, List, [], ◌∷◌, ◌++◌, true, false, ◌||◌, ◌≡◌, inl, inr, refl, arith,
  All, Bool-cases, truthy,
}
use openpact.Aliases.{RegistryEntry, some_alias, validate_alias}
use openpact.HostConfig.Entries.{IsEntry, IsDistinct}
use openpact.Registry.{remove_entry, rename_entry}

pub some_alias-append :
    (a : Text) (ps : List RegistryEntry) (e : RegistryEntry)
    → some_alias a (ps ++ e ∷ []) ≡ (some_alias a ps || text_eq e.alias a)
unfolding some_alias
some_alias-append a [] e = ground arith
some_alias-append a (p ∷ ps) e = ground (arith, some_alias-append a ps e)

pub IsDistinct-append :
    (ps : List RegistryEntry) (e : RegistryEntry)
    → IsDistinct ps
    → IsEntry e
    → some_alias e.alias ps ≡ false
    → IsDistinct (ps ++ e ∷ [])
unfolding IsDistinct some_alias
IsDistinct-append [] e h k new = (k, refl, tt)
IsDistinct-append (p ∷ ps) e (entry, apart, distinct) k new = (
  entry,
  ground (
    arith,
    some_alias-append p.alias ps e,
    text_eq_iff p.alias e.alias,
    text_eq_iff e.alias p.alias,
  ),
  IsDistinct-append ps e distinct k (ground arith),
)

pub some_alias-remove_entry :
    (a b : Text) (ps : List RegistryEntry)
    → some_alias a ps ≡ false
    → some_alias a (remove_entry b ps) ≡ false
unfolding some_alias remove_entry
some_alias-remove_entry a b [] h = refl
some_alias-remove_entry a b (p ∷ ps) h = ground (arith, some_alias-remove_entry a b ps)

pub IsDistinct-remove_entry :
    (a : Text) (ps : List RegistryEntry) → IsDistinct ps → IsDistinct (remove_entry a ps)
unfolding IsDistinct remove_entry
IsDistinct-remove_entry a [] h = tt
IsDistinct-remove_entry a (p ∷ ps) (entry, apart, distinct) =
    elim (Bool-cases (text_eq p.alias a)) [
      | inl same ↦ rw same distinct
      | inr other ↦
          rw other (
            entry,
            some_alias-remove_entry p.alias a ps apart,
            IsDistinct-remove_entry a ps distinct,
          )
    ]

some_alias-rename_entry :
    (x a b dir : Text) (ps : List RegistryEntry)
    → some_alias x ps ≡ false
    → text_eq b x ≡ false
    → some_alias x (rename_entry a b dir ps) ≡ false
unfolding some_alias rename_entry
some_alias-rename_entry x a b dir [] h k = refl
some_alias-rename_entry x a b dir (p ∷ ps) h k =
    ground (arith, some_alias-rename_entry x a b dir ps)

pub IsDistinct-rename_entry :
    (a b dir : Text) (ps : List RegistryEntry)
    → IsDistinct ps
    → truthy b ≡ true
    → truthy dir ≡ true
    → some_alias b ps ≡ false
    → IsDistinct (rename_entry a b dir ps)
unfolding IsDistinct rename_entry some_alias
IsDistinct-rename_entry a b dir [] h named placed new = tt
IsDistinct-rename_entry a b dir (p ∷ ps) (entry, apart, distinct) named placed new =
    elim (Bool-cases (text_eq p.alias a)) [
      | inl same ↦
          rw same
            (record { named = named; keyed = entry.keyed; placed = placed }, ground arith, distinct)
      | inr other ↦ rw other (
        entry,
        some_alias-rename_entry p.alias a b dir ps apart
            (ground (arith, text_eq_iff p.alias b, text_eq_iff b p.alias)),
        IsDistinct-rename_entry a b dir ps distinct named placed (ground arith),
      )
    ]

-- Every alias of the registry has the shape of an alias.
abbrev pub AreAliases : List RegistryEntry → Type 0
AreAliases = All (λ p. validate_alias p.alias ≡ true)

pub append-AreAliases :
    (ps : List RegistryEntry) (e : RegistryEntry)
    → AreAliases ps
    → validate_alias e.alias ≡ true
    → AreAliases (ps ++ e ∷ [])
append-AreAliases [] e h k = (k, tt)
append-AreAliases (p ∷ ps) e (h, hs) k = (h, append-AreAliases ps e hs k)

pub remove_entry-AreAliases :
    (a : Text) (ps : List RegistryEntry) → AreAliases ps → AreAliases (remove_entry a ps)
unfolding remove_entry
remove_entry-AreAliases a [] h = tt
remove_entry-AreAliases a (p ∷ ps) (h, hs) = elim (Bool-cases (text_eq p.alias a)) [
  | inl same ↦ rw same hs
  | inr other ↦ rw other (h, remove_entry-AreAliases a ps hs)
]

pub rename_entry-AreAliases :
    (a b dir : Text) (ps : List RegistryEntry)
    → AreAliases ps
    → validate_alias b ≡ true
    → AreAliases (rename_entry a b dir ps)
unfolding rename_entry
rename_entry-AreAliases a b dir [] h k = tt
rename_entry-AreAliases a b dir (p ∷ ps) (h, hs) k = elim (Bool-cases (text_eq p.alias a)) [
  | inl same ↦ rw same (k, hs)
  | inr other ↦ rw other (h, rename_entry-AreAliases a b dir ps hs k)
]
