-- ===== src/Registry/Invariant.antt =====
-- The invariant of a host, part by part.
use openpact.Prelude.{
  Text, text_eq, text_eq_iff, text_eq_refl, Option, none, some, List, [], ◌∷◌, ◌++◌, Bool, true,
  false, ◌≡◌, ◌↔◌, inl, inr, refl, sym, ap, ◌∙◌, arith, if◌then◌else◌, is_some, Bool-cases, truthy,
}
use openpact.Aliases.{RegistryEntry, some_alias, validate_alias}
use openpact.HostConfig.{DaemonConfig, validate_daemon_config, check_current, aliases_of}
use openpact.HostConfig.Entries.{
  validate-IsValid, IsDistinct, check_entries_iff, has_text-aliases_of,
}
use openpact.Registry.{
  OpenPact, Host, find_open, delete_open, set_open, find_entry, is_alias, load_registry,
}
use openpact.Registry.Entries.{
  is_some-find_entry, find_entry-append, find_open-delete_open, find_open-deleted,
}
use openpact.Registry.Changes.{AreAliases, some_alias-append}

-- The pacts that are open are those of entries, in the entries' directories.
unfoldable pub IsOpened : List RegistryEntry → List (Text × OpenPact) → Type 0
IsOpened entries pacts =
    (a : Text) (p : OpenPact)
    → find_open a pacts ≡ some p
    → (e : RegistryEntry) × (find_entry a entries ≡ some e) × (e.data_dir ≡ p.data_dir)

-- What is loaded is a valid configuration whose aliases have the shape of aliases.
pub record IsHost (h : Host) : Type 0 where
  pub valid : validate_daemon_config (load_registry h) ≡ none
  pub shaped : AreAliases h.config.pacts
  pub opened : IsOpened h.config.pacts h.open_pacts

-- The current alias is none, or the alias of an entry.
pub check_current_iff :
    (o : Option Text) (ps : List RegistryEntry)
    → (check_current o (aliases_of ps) ≡ none)
      ↔ ((a : Text) → is_alias o a ≡ true → some_alias a ps ≡ true)
unfolding check_current
check_current_iff none ps = (λ h a k. absurd (ground arith), λ h. refl)
check_current_iff (some b) ps = (
  λ h a k. ground (arith, text_eq_iff b a, has_text-aliases_of b ps),
  λ h. ground (arith, h b (text_eq_refl b), has_text-aliases_of b ps),
)

-- The configuration with other entries and another current pact.
pub changed-IsValid :
    (c : DaemonConfig) (ps : List RegistryEntry) (o : Option Text)
    → validate_daemon_config c ≡ none
    → IsDistinct ps
    → ((a : Text) → is_alias o a ≡ true → some_alias a ps ≡ true)
    → validate_daemon_config (record c { pacts = ps; current_alias = o }) ≡ none
changed-IsValid c ps o valid distinct current =
    let (low, high, entries, old, token) = (validate-IsValid c).0 valid in
    (validate-IsValid (record c { pacts = ps; current_alias = o })).1
      (low, high, (check_entries_iff ps).1 distinct, (check_current_iff o ps).1 current, token)

module _ {h : Host} (inv : IsHost h) where
  pub host-IsDistinct : IsDistinct h.config.pacts
  unfolding load_registry
  host-IsDistinct =
      (check_entries_iff h.config.pacts).0 ((validate-IsValid (load_registry h)).0 inv.valid).2

  pub host_current :
      (a : Text) → is_alias h.config.current_alias a ≡ true → some_alias a h.config.pacts ≡ true
  unfolding load_registry
  host_current =
      (check_current_iff h.config.current_alias h.config.pacts).0
        ((validate-IsValid (load_registry h)).0 inv.valid).3

pub IsOpened-set_open :
    (entries : List RegistryEntry) (pacts : List (Text × OpenPact)) (a : Text) (p : OpenPact)
    (e : RegistryEntry)
    → IsOpened entries pacts
    → find_entry a entries ≡ some e
    → e.data_dir ≡ p.data_dir
    → IsOpened entries (set_open a p pacts)
unfolding IsOpened set_open find_open
IsOpened-set_open entries pacts a p e h found dir b q k = elim (Bool-cases (text_eq a b)) [
  | inl same ↦ (e, ground (arith, text_eq_iff a b), ground arith)
  | inr other ↦ h b q (ground (arith, find_open-delete_open b a pacts other))
]

-- With an alias closed, the entries may change at that alias and at names that no entry had.
pub IsOpened-closed :
    (entries next : List RegistryEntry) (pacts left : List (Text × OpenPact)) (a : Text)
    → IsOpened entries pacts
    → find_open a left ≡ none
    → ((b : Text) (q : OpenPact) → find_open b left ≡ some q → find_open b pacts ≡ some q)
    → ((b : Text)
        → text_eq a b ≡ false
        → some_alias b entries ≡ true
        → find_entry b next ≡ find_entry b entries)
    → IsOpened next left
unfolding IsOpened
IsOpened-closed entries next pacts left a h closed fewer same b q k =
    elim (Bool-cases (text_eq a b)) [
      | inl here ↦ absurd (ground (arith, text_eq_iff a b))
      | inr other ↦
          let (e, found, dir) = h b q (fewer b q k) in
          let listed : some_alias b entries ≡ true =
            sym (is_some-find_entry b entries) ∙ ap is_some found in
          (e, same b other listed ∙ found, dir)
    ]

pub find_open-left :
    (a b : Text) (pacts : List (Text × OpenPact)) (q : OpenPact)
    → find_open b (delete_open a pacts) ≡ some q
    → find_open b pacts ≡ some q
find_open-left a b pacts q k = elim (Bool-cases (text_eq a b)) [
  | inl here ↦ absurd (ground (arith, text_eq_iff a b, find_open-deleted a pacts))
  | inr other ↦ sym (find_open-delete_open b a pacts other) ∙ k
]

pub IsOpened-append :
    (entries : List RegistryEntry) (pacts : List (Text × OpenPact)) (e : RegistryEntry)
    → some_alias e.alias entries ≡ false
    → IsOpened entries pacts
    → IsOpened (entries ++ e ∷ []) pacts
unfolding IsOpened
IsOpened-append entries pacts e new h a p k =
    let (d, found, dir) = h a p k in
    (
      d,
      find_entry-append a entries e (elim (Bool-cases (text_eq e.alias a)) [
        | inr other ↦ other
        | inl same ↦ absurd (ground (arith, text_eq_iff e.alias a, is_some-find_entry a entries))
      ])
          ∙ found,
      dir,
    )

pub validate_alias-truthy : (a : Text) → validate_alias a ≡ true → truthy a ≡ true
unfolding validate_alias
validate_alias-truthy [] h = absurd (ground arith)
validate_alias-truthy (c ∷ s) h = refl

-- A pact chosen as the current one, or the one before it.
pub chosen_current :
    (set : Bool) (alias : Text) (o : Option Text) (ps : List RegistryEntry) (e : RegistryEntry)
    → e.alias ≡ alias
    → ((a : Text) → is_alias o a ≡ true → some_alias a ps ≡ true)
    → (a : Text) → is_alias (if set then some alias else o) a ≡ true
    → some_alias a (ps ++ e ∷ []) ≡ true
chosen_current true alias o ps e same h a k = rw (some_alias-append a ps e, same, k) (ground arith)
chosen_current false alias o ps e same h a k = rw (some_alias-append a ps e, h a k) refl
