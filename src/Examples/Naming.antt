-- ===== src/Examples/Naming.antt =====
-- packages/daemon/src/pact.ts: the name and the purpose of a pact, over the view of Table.
use openpact.Prelude.{Text, codes, text_le, trim, none, some, [], ◌∷◌, true, false, ◌≡◌, refl}
use openpact.Json.{Json, str}
use openpact.Apply.View.{pact_name_key}
use openpact.Apply.Admin.{World, apply_admin, put_info}
use openpact.Apply.Rows.{meta_row, put_pact_meta_if_newer, row_ts}
use openpact.PactMeta.{
  Meta, Author, on_applied_internal, seed_pact_meta_from_view, set_pact_info, authored_entry,
  set_info_payload, norm, same_text, is_changed, or_previous, put_if_given, announcement,
}
use openpact.PactMeta.Mirror.{shown_is_stored}
use openpact.Examples.Table.{Rows, row_of, table, table_laws, writers}

abbrev salt : Author
salt = record { handle = codes "salt"; display_name = none }

abbrev named : Text → Meta
named name = record { pact_name = some name; pact_purpose = none }

abbrev renaming : Text → Text → Json
renaming name now =
    authored_entry (codes "admin") now salt (set_info_payload (some (some name)) none)

abbrev rows : Rows
rows = (pact_name_key, meta_row (str (codes "A")) (codes "2")) ∷ []

abbrev before : World table writers
before = record { view = rows; host = [] }

abbrev after : World table writers
after = record { view = (pact_name_key, meta_row (str (codes "B")) (codes "3")) ∷ rows; host = [] }

shown_is_stored_example :
    seed_pact_meta_from_view table after.view
      (on_applied_internal (renaming (codes "B") (codes "3")) (named (codes "A")))
    ≡ on_applied_internal (renaming (codes "B") (codes "3")) (named (codes "A"))
unfolding apply_admin authored_entry set_info_payload put_info put_if_given put_pact_meta_if_newer
    row_ts row_of text_le seed_pact_meta_from_view
shown_is_stored_example =
    shown_is_stored table writers table_laws before after (renaming (codes "B") (codes "3"))
      (named (codes "A")) refl refl refl refl refl

-- An entry that is older than the row is shown, and gone after a restart.
stale_name_is_shown :
    (apply_admin table writers before (renaming (codes "B") (codes "1")) ≡ some before)
    × (on_applied_internal (renaming (codes "B") (codes "1")) (named (codes "A"))
        ≡ named (codes "B"))
    × (seed_pact_meta_from_view table before.view (named (codes "B")) ≡ named (codes "A"))
unfolding apply_admin authored_entry set_info_payload put_info put_if_given put_pact_meta_if_newer
    row_ts row_of text_le on_applied_internal seed_pact_meta_from_view
stale_name_is_shown = (refl, refl, refl)

-- Nothing is appended for a name that is unchanged, and nothing by a peer that may not write.
naming_runs :
    (set_pact_info true
        (codes "3")
        (codes "4")
        salt
        (some (some (codes "A")))
        none
        (named (codes "A"))
      ≡ (named (codes "A"), []))
    × (set_pact_info false
          (codes "3")
          (codes "4")
          salt
          (some (some (codes "B")))
          none
          (named (codes "A"))
        ≡ (named (codes "B"), []))
    × (announcement (codes "salt") (named (codes "A")) (named (codes "B")) true false
        ≡ codes "salt renamed the pact from 'A' to 'B'.")
unfolding set_pact_info is_changed norm same_text trim or_previous announcement
naming_runs = (refl, refl, refl)
