-- ===== src/PactRoutes/Confirmed.antt =====
-- What the deletion of a pact needs and does.
use openpact.Prelude.{
  Text, text_eq_iff, some, List, [], ◌∷◌, true, ◌≡◌, ◌⊎◌, inl, inr, refl, sym, ap, ◌∙◌, arith,
  is_some, Option-cases,
}
use openpact.Aliases.{RegistryEntry, some_alias}
use openpact.Registry.{find_entry}
use openpact.Registry.Entries.{is_some-find_entry, find_entry-alias}
use openpact.PactRoutes.{find_id, find_pact}

find_id-listed :
    (value : Text) (ps : List RegistryEntry) (e : RegistryEntry)
    → find_id value ps ≡ some e
    → (some_alias e.alias ps ≡ true) × (e.pact_id ≡ value)
unfolding find_id some_alias
find_id-listed value [] e h = absurd (ground arith)
find_id-listed value (p ∷ ps) e h =
    ground
      (arith, find_id-listed value ps e, text_eq_iff p.pact_id value, text_eq_iff p.alias e.alias)

-- What a look-up finds is registered, under the alias or with the id that was asked for.
pub find_pact-listed :
    (value : Text) (ps : List RegistryEntry) (e : RegistryEntry)
    → find_pact value ps ≡ some e
    → (some_alias e.alias ps ≡ true) × ((e.alias ≡ value) ⊎ (e.pact_id ≡ value))
unfolding find_pact
find_pact-listed value ps e h = elim (Option-cases (find_entry value ps)) [
  | inl absent ↦
      let (listed, id) = find_id-listed value ps e (sym (rw (find_pact, absent) refl) ∙ h) in
      (listed, inr id)
  | inr (f, found) ↦
      let same : f ≡ e = ground arith in
      let name : e.alias ≡ value = find_entry-alias value ps e (found ∙ ap some same) in
      (
        ap (λ a. some_alias a ps) name ∙ (sym (is_some-find_entry value ps) ∙ ap is_some found),
        inl name,
      )
]
