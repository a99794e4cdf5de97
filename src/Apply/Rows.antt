-- ===== src/Apply/Rows.antt =====
-- The helpers of packages/daemon/src/apply.ts that read and write single rows of the view.
use openpact.Prelude.{
  Text, codes, truthy, text_le, trim, Option, none, some, List, [], ◌∷◌, ◌++◌, Bool, true, false,
  ◌&&◌, ◌||◌, if◌then◌else◌, is_some,
}
use openpact.Json.{Json, null, str, bool, num, arr, obj, end, entry, field, text_of}
use openpact.Apply.View.{
  ApplyView, indexer_prefix, indexer_range_end, member_prefix, member_range_end, agent_name_prefix,
}

-- The `ts` of a stored row, empty where there is none.
unfoldable pub row_ts : Option Json → Text
row_ts none = []
row_ts (some row) = text_of (field "ts" row)

abbrev pub name_row : Text → Text → Json
name_row name ts = obj (entry (codes "name") (str name) (entry (codes "ts") (str ts) end))

abbrev pub meta_row : Json → Text → Json
meta_row value ts = obj (entry (codes "value") value (entry (codes "ts") (str ts) end))

abbrev pub ref_key : Text → Text → Text
ref_key target id = codes "ref/" ++ (target ++ (codes "/" ++ id))

module _ (b : ApplyView) where
  unfoldable pub is_indexer_key : b.View → Text → Bool
  is_indexer_key v key = is_some (b.get v (indexer_prefix ++ key))

  unfoldable pub is_member_key : b.View → Text → Bool
  is_member_key v key = is_some (b.get v (member_prefix ++ key))

  -- The last test and the write of `upsertAgentName`.
  unfoldable pub put_agent_name : b.View → Text → Text → Text → b.View
  put_agent_name v agent_id name ts =
      let key = agent_name_prefix ++ agent_id in
      let existing_ts = row_ts (b.get v key) in
      if truthy ts && truthy existing_ts && text_le ts existing_ts
      then v
      else b.put v key (name_row name ts)

  unfoldable pub upsert_agent_name : b.View → Json → b.View
  upsert_agent_name v e =
      let agent_id = text_of (field "agent_id" e) in
      let name = trim (text_of (field "display_name" e)) in
      if truthy agent_id && truthy name
      then put_agent_name v agent_id name (text_of (field "timestamp" e))
      else v

  unfoldable pub put_pact_meta_if_newer : b.View → Text → Json → Text → b.View
  put_pact_meta_if_newer v key value ts =
      let prev_ts = row_ts (b.get v key) in
      if truthy prev_ts && text_le ts prev_ts then v else b.put v key (meta_row value ts)

  -- The first writer implicitly becomes the first member.
  unfoldable pub bootstrap_member : b.View → Text → b.View
  bootstrap_member v key =
      if is_member_key v key || is_some (b.peek v member_prefix member_range_end)
      then v
      else b.put v (member_prefix ++ key) (bool true)

  -- Likewise for the first indexer; the flag says whether the writer is one now.
  unfoldable pub bootstrap_indexer : b.View → Text → b.View × Bool
  bootstrap_indexer v key =
      if is_indexer_key v key
      then (v, true)
      else if is_some (b.peek v indexer_prefix indexer_range_end)
      then (v, false)
      else (b.put v (indexer_prefix ++ key) (bool true), true)

  unfoldable pub put_ref : b.View → Json → Text → Json → b.View
  put_ref v (str target) id stored = if truthy target then b.put v (ref_key target id) stored else v
  put_ref v null id stored = v
  put_ref v (bool x) id stored = v
  put_ref v (num n) id stored = v
  put_ref v (arr xs) id stored = v
  put_ref v (obj fs) id stored = v

  -- The reverse index: one row for each target that the entry refers to.
  unfoldable pub put_refs : b.View → List Json → Text → Json → b.View
  put_refs v [] id stored = v
  put_refs v (target ∷ targets) id stored = put_refs (put_ref v target id stored) targets id stored
