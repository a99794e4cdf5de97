-- ===== src/Registry/Entries.antt =====
-- Look-ups in the registry and in the map of open pacts after a change at one place.
use openpact.Prelude.{
  Text, text_eq, text_eq_iff, text_eq_refl, none, some, List, [], ◌∷◌, ◌++◌, false, ◌≡◌, inl, inr,
  refl, arith, is_some, Bool-cases,
}
use openpact.Aliases.{RegistryEntry, some_alias}
use openpact.HostConfig.Entries.{IsDistinct}
use openpact.Registry.{OpenPact, find_open, delete_open, find_entry, remove_entry, rename_entry}

pub is_some-find_entry :
    (a : Text) (ps : List RegistryEntry) → is_some (find_entry a ps) ≡ some_alias a ps
unfolding find_entry some_alias
is_some-find_entry a [] = refl
is_some-find_entry a (p ∷ ps) = ground (arith, is_some-find_entry a ps)

pub find_entry-absent :
    (a : Text) (ps : List RegistryEntry) → some_alias a ps ≡ false → find_entry a ps ≡ none
unfolding find_entry some_alias
find_entry-absent a [] h = refl
find_entry-absent a (p ∷ ps) h = ground (arith, find_entry-absent a ps)

-- What is found has the alias.
pub find_entry-alias :
    (a : Text) (ps : List RegistryEntry) (e : RegistryEntry)
    → find_entry a ps ≡ some e
    → e.alias ≡ a
unfolding find_entry
find_entry-alias a [] e h = absurd (ground arith)
find_entry-alias a (p ∷ ps) e h = ground (arith, find_entry-alias a ps e, text_eq_iff p.alias a)

pub find_entry-append :
    (a : Text) (ps : List RegistryEntry) (e : RegistryEntry)
    → text_eq e.alias a ≡ false
    → find_entry a (ps ++ e ∷ []) ≡ find_entry a ps
unfolding find_entry
find_entry-append a [] e h = ground arith
find_entry-append a (p ∷ ps) e h = ground (arith, find_entry-append a ps e h)

pub find_entry-appended :
    (ps : List RegistryEntry) (e : RegistryEntry)
    → some_alias e.alias ps ≡ false
    → find_entry e.alias (ps ++ e ∷ []) ≡ some e
unfolding find_entry some_alias
find_entry-appended [] e h = rw (text_eq_refl e.alias) refl
find_entry-appended (p ∷ ps) e h = ground (arith, find_entry-appended ps e)

pub find_entry-remove_entry :
    (a b : Text) (ps : List RegistryEntry)
    → text_eq b a ≡ false
    → find_entry a (remove_entry b ps) ≡ find_entry a ps
unfolding find_entry remove_entry
find_entry-remove_entry a b [] h = refl
find_entry-remove_entry a b (p ∷ ps) h =
    ground (arith, find_entry-remove_entry a b ps h, text_eq_iff p.alias a, text_eq_iff p.alias b)

pub find_entry-removed :
    (a : Text) (ps : List RegistryEntry) → IsDistinct ps → find_entry a (remove_entry a ps) ≡ none
unfolding find_entry remove_entry IsDistinct
find_entry-removed a [] h = refl
find_entry-removed a (p ∷ ps) (entry, apart, distinct) = elim (Bool-cases (text_eq p.alias a)) [
  | inl same ↦ rw same (ground (arith, find_entry-absent a ps, text_eq_iff p.alias a))
  | inr other ↦ rw (other, other) (find_entry-removed a ps distinct)
]

pub find_entry-rename_entry :
    (x a b dir : Text) (ps : List RegistryEntry)
    → text_eq a x ≡ false
    → text_eq b x ≡ false
    → find_entry x (rename_entry a b dir ps) ≡ find_entry x ps
unfolding find_entry rename_entry
find_entry-rename_entry x a b dir [] h k = refl
find_entry-rename_entry x a b dir (p ∷ ps) h k =
    ground (
      arith,
      find_entry-rename_entry x a b dir ps h k,
      text_eq_iff p.alias x,
      text_eq_iff p.alias a,
    )

pub find_entry-renamed :
    (a b dir : Text) (ps : List RegistryEntry) (e : RegistryEntry)
    → some_alias b ps ≡ false
    → find_entry a ps ≡ some e
    → find_entry b (rename_entry a b dir ps) ≡ some (record e { alias = b; data_dir = dir })
unfolding find_entry rename_entry some_alias
find_entry-renamed a b dir [] e h k = absurd (ground arith)
find_entry-renamed a b dir (p ∷ ps) e h k = elim (Bool-cases (text_eq p.alias a)) [
  | inl same ↦ rw (same, text_eq_refl b) (ground arith)
  | inr other ↦ rw other (ground (arith, find_entry-renamed a b dir ps e))
]

pub find_entry-renamed_from :
    (a b dir : Text) (ps : List RegistryEntry)
    → IsDistinct ps
    → text_eq b a ≡ false
    → find_entry a (rename_entry a b dir ps) ≡ none
unfolding find_entry rename_entry IsDistinct
find_entry-renamed_from a b dir [] h ne = refl
find_entry-renamed_from a b dir (p ∷ ps) (entry, apart, distinct) ne =
    elim (Bool-cases (text_eq p.alias a)) [
      | inl same ↦ rw (same, ne) (ground (arith, find_entry-absent a ps, text_eq_iff p.alias a))
      | inr other ↦ rw (other, other) (find_entry-renamed_from a b dir ps distinct ne)
    ]

-- The map of open pacts.
pub find_open-delete_open :
    (a b : Text) (ps : List (Text × OpenPact))
    → text_eq b a ≡ false
    → find_open a (delete_open b ps) ≡ find_open a ps
unfolding find_open delete_open
find_open-delete_open a b [] h = refl
find_open-delete_open a b ((c, p) ∷ ps) h =
    ground (arith, find_open-delete_open a b ps h, text_eq_iff c a, text_eq_iff c b)

pub find_open-deleted :
    (a : Text) (ps : List (Text × OpenPact)) → find_open a (delete_open a ps) ≡ none
unfolding find_open delete_open
find_open-deleted a [] = refl
find_open-deleted a ((c, p) ∷ ps) = ground (arith, find_open-deleted a ps)
