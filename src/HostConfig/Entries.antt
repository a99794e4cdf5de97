-- ===== src/HostConfig/Entries.antt =====
-- What the check of the configuration accepts, part by part, and lists of entries changed at one
-- place.
use openpact.Prelude.{
  ◌≤◌, Text, text_eq, text_eq_iff, truthy, none, List, [], ◌∷◌, true, false, ◌≡◌, ◌↔◌, inl, inr,
  refl, arith, Bool-cases, Option-cases,
}
use openpact.Aliases.{RegistryEntry, some_alias}
use openpact.HostConfig.{
  DaemonConfig, hex_pattern, has_text, check_entries, check_current, check_token, aliases_of,
  validate_daemon_config,
}

abbrev pub IsValid : DaemonConfig → Type 0
IsValid c =
    (1 ≤ c.port)
    × (c.port ≤ 65535)
    × (check_entries [] c.pacts ≡ none)
    × (check_current c.current_alias (aliases_of c.pacts) ≡ none)
    × (check_token c.api_token ≡ none)

pub validate-IsValid : (c : DaemonConfig) → (validate_daemon_config c ≡ none) ↔ IsValid c
unfolding validate_daemon_config
validate-IsValid c = elim (Option-cases (check_entries [] c.pacts)) [
  | inr (e, bad) ↦ ground arith
  | inl ok ↦ elim (Option-cases (check_current c.current_alias (aliases_of c.pacts))) [
    | inr (e, bad) ↦ ground arith
    | inl fine ↦ ground arith
  ]
]

-- An entry by itself.
pub record IsEntry (p : RegistryEntry) : Type 0 where
  pub named : truthy p.alias ≡ true
  pub keyed : hex_pattern p.pact_id ≡ true
  pub placed : truthy p.data_dir ≡ true

pub has_text-aliases_of :
    (a : Text) (ps : List RegistryEntry) → has_text a (aliases_of ps) ≡ some_alias a ps
unfolding has_text aliases_of some_alias
has_text-aliases_of a [] = refl
has_text-aliases_of a (p ∷ ps) = ground (arith, has_text-aliases_of a ps)

-- The loop accepts an entry.
check_entries-cons :
    (seen : List Text) (p : RegistryEntry) (ps : List RegistryEntry)
    → (check_entries seen (p ∷ ps) ≡ none)
      ↔ (IsEntry p × (has_text p.alias seen ≡ false) × (check_entries (p.alias ∷ seen) ps ≡ none))
unfolding check_entries
check_entries-cons seen p ps = (
  λ h. (
    record { named = ground arith; keyed = ground arith; placed = ground arith },
    ground arith,
    ground arith,
  ),
  λ (e, fresh, rest). rw (e.named, fresh, e.keyed, e.placed) rest,
)

-- Every entry is well formed, and no two share an alias.
unfoldable pub IsDistinct : List RegistryEntry → Type 0
IsDistinct [] = Unit
IsDistinct (p ∷ ps) = IsEntry p × (some_alias p.alias ps ≡ false) × IsDistinct ps

check_entries-IsDistinct :
    (seen : List Text) (ps : List RegistryEntry)
    → check_entries seen ps ≡ none
    → IsDistinct ps × ((a : Text) → has_text a seen ≡ true → some_alias a ps ≡ false)
unfolding IsDistinct some_alias has_text
check_entries-IsDistinct seen [] h = (tt, λ a k. refl)
check_entries-IsDistinct seen (p ∷ ps) h =
    let (entry, fresh, rest) = (check_entries-cons seen p ps).0 h in
    let (distinct, unseen) = check_entries-IsDistinct (p.alias ∷ seen) ps rest in
    (
      (entry, unseen p.alias (ground (arith, text_eq_iff p.alias p.alias)), distinct),
      λ a k. ground (arith, text_eq_iff p.alias a, unseen a (ground arith)),
    )

IsDistinct-check_entries :
    (seen : List Text) (ps : List RegistryEntry)
    → IsDistinct ps
    → ((a : Text) → has_text a seen ≡ true → some_alias a ps ≡ false)
    → check_entries seen ps ≡ none
unfolding IsDistinct some_alias has_text
IsDistinct-check_entries seen [] h unseen = unfold check_entries in refl
IsDistinct-check_entries seen (p ∷ ps) (entry, apart, distinct) unseen =
    (check_entries-cons seen p ps).1 (
      entry,
      elim (Bool-cases (has_text p.alias seen)) [
        | inl old ↦ absurd (ground (arith, unseen p.alias old, text_eq_iff p.alias p.alias))
        | inr new ↦ new
      ],
      IsDistinct-check_entries (p.alias ∷ seen) ps distinct (λ a k.
          elim (Bool-cases (text_eq p.alias a)) [
            | inl same ↦ ground (arith, text_eq_iff p.alias a)
            | inr other ↦ ground (arith, unseen a (ground arith))
          ]),
    )

pub check_entries_iff : (ps : List RegistryEntry) → (check_entries [] ps ≡ none) ↔ IsDistinct ps
unfolding has_text
check_entries_iff ps = (
  λ h. (check_entries-IsDistinct [] ps h).0,
  λ h. IsDistinct-check_entries [] ps h (λ a k. absurd (ground arith)),
)
