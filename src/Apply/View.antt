-- ===== src/Apply/View.antt =====
-- The interfaces of packages/daemon/src/apply.ts towards code that is not in the repository: the
-- view (a Hyperbee) and the host (an Autobase). Operations return the new state.
use openpact.Prelude.{
  ℕ, ◌≡◌, Text, codes, text_eq, text_le, Option, none, some, List, Bool, true, false, if◌then◌else◌,
}
use openpact.Json.{Json}

pub record ApplyView : Type 1 where
  pub View : Type 0
  pub get : View → Text → Option Json
  pub put : View → Text → Json → View
  pub del : View → Text → View
  -- `peek(v, gte, lt)`: the first row with a key in the range.
  pub peek : View → Text → Text → Option (Text × Json)

-- What a Hyperbee documents of these calls.
pub record IsView (b : ApplyView) : Type 0 where
  pub get-put :
      (v : b.View) (k : Text) (x : Json) (j : Text)
      → b.get (b.put v k x) j ≡ (if text_eq k j then some x else b.get v j)
  pub get-del :
      (v : b.View) (k j : Text) → b.get (b.del v k) j ≡ (if text_eq k j then none else b.get v j)
  pub peek_none :
      (v : b.View) (gte lt k : Text)
      → b.peek v gte lt ≡ none
      → text_le gte k ≡ true
      → text_le lt k ≡ false
      → b.get v k ≡ none

-- The writer set of the Autobase; `none` is a thrown error.
pub record ApplyHost : Type 1 where
  pub State : Type 0
  pub add_writer : State → List ℕ → Bool → Option State
  pub remove_writer : State → List ℕ → Option State

abbrev pub indexer_prefix : Text
indexer_prefix = codes "_indexers/"

abbrev pub indexer_range_end : Text
indexer_range_end = codes "_indexers0"

abbrev pub member_prefix : Text
member_prefix = codes "_members/"

abbrev pub member_range_end : Text
member_range_end = codes "_members0"

abbrev pub invite_prefix : Text
invite_prefix = codes "_invites/"

abbrev pub agent_name_prefix : Text
agent_name_prefix = codes "_agents/"

abbrev pub pact_name_key : Text
pact_name_key = codes "_pact/name"

abbrev pub pact_purpose_key : Text
pact_purpose_key = codes "_pact/purpose"
