-- ===== src/PactMeta/Given.antt =====
-- What setPactInfo comes to, once the entries that it appended were applied.
use openpact.Prelude.{
  Text, Option, none, some, List, [], ◌∷◌, Bool, ◌≡◌, ◌≢◌, ◌⊎◌, trim, if◌then◌else◌,
}
use openpact.Json.{Json}
use openpact.Apply.View.{ApplyView, ApplyHost}
use openpact.Apply.Admin.{
  has_type, World, Info, invalid, applied_admin, applied_invite, applied_entry,
}
use openpact.Apply.{admin_entry}
use openpact.PactMeta.{Meta, on_applied_internal, norm, or_previous}

module _ (b : ApplyView) (h : ApplyHost) where
  -- What is shown after an admin entry: `onApplied` is told of it only if `apply` accepts it.
  abbrev notice : Option (World b h × Info) → Json → Meta → Meta
  notice none e m = m
  notice (some (w, applied_admin)) e m = on_applied_internal e m
  notice (some (w, invalid reason)) e m = m
  notice (some (w, applied_invite)) e m = m
  notice (some (w, applied_entry key)) e m = m

  -- What a writer shows once `apply` has met the entries that it appended. `is_indexer` says what
  -- `apply` finds of the writer; only the admin entries change what is shown.
  unfoldable pub all_met : World b h → Text → Bool → List Json → Meta → Meta
  all_met w writer_hex is_indexer [] m = m
  all_met w writer_hex is_indexer (e ∷ es) m =
      let shown_then =
        if has_type "admin" e then notice (admin_entry b h w e writer_hex is_indexer) e m else m in
      all_met w writer_hex is_indexer es shown_then

-- What an argument asks for, after what was shown before: nothing, to clear the field, or the text
-- without the white space around it, where a blank text clears the field too.
abbrev pub IsGiven : Option (Option Text) → Option Text → Option Text → Type 0
IsGiven none before after = after ≡ before
IsGiven (some none) before after = after ≡ none
IsGiven (some (some s)) before after =
    ((trim s ≢ []) × (after ≡ some (trim s))) ⊎ ((trim s ≡ []) × (after ≡ none))

-- The next value of both fields.
abbrev asked_for : Option (Option Text) → Option (Option Text) → Meta → Meta
asked_for name purpose m = record {
  pact_name = or_previous (norm name) m.pact_name;
  pact_purpose = or_previous (norm purpose) m.pact_purpose;
}
