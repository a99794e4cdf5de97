-- ===== src/Apply/Newest.antt =====
-- The rows that keep the newest value: the pact's name and purpose, and the agents' names.
use openpact.Prelude.{
  Text, text_eq, text_eq_iff, text_eq_refl, text_le, text_le_total, text_le_antisymm, text_le_trans,
  text_le_refl, truthy, Option, some, ◌++◌, true, ◌≡◌, ◌≢◌, arith, if◌then◌else◌, ◌&&◌,
}
use openpact.Json.{Json}
use openpact.Apply.View.{ApplyView, IsView, agent_name_prefix}
use openpact.Apply.Rows.{row_ts, put_pact_meta_if_newer, put_agent_name, meta_row, name_row}

module _ (b : ApplyView) (laws : IsView b) where
  -- The row after the write, by the row before it.
  pub newer : Option Json → Json → Text → Option Json
  newer row x ts =
      if truthy (row_ts row) && text_le ts (row_ts row) then row else some (meta_row x ts)

  pub put_pact_meta-row :
      (v : b.View) (key : Text) (x : Json) (ts k : Text)
      → b.get (put_pact_meta_if_newer b v key x ts) k
        ≡ (if text_eq key k then newer (b.get v key) x ts else b.get v k)
  unfolding put_pact_meta_if_newer newer
  put_pact_meta-row v key x ts k =
      ground (arith, text_eq_iff key k, laws.get-put v key (meta_row x ts) k)

  newer_comm :
      (row : Option Json) (x y : Json) (s t : Text)
      → truthy s ≡ true
      → truthy t ≡ true
      → s ≢ t
      → newer (newer row x s) y t ≡ newer (newer row y t) x s
  unfolding newer row_ts
  newer_comm row x y s t hs ht ne =
      let p = row_ts row in
      ground (
        arith,
        text_le_total s t,
        text_le_antisymm s t,
        text_le_trans s t p,
        text_le_trans t s p,
        text_le_trans s p t,
        text_le_trans t p s,
        text_le_total p s,
        text_le_total p t,
      )

  -- Two updates of a pact's name (or purpose) with different, non-empty timestamps leave the same
  -- rows in whichever order they are applied.
  pub pact_meta_converges :
      (v : b.View) (key : Text) (x y : Json) (s t k : Text)
      → truthy s ≡ true
      → truthy t ≡ true
      → s ≢ t
      → b.get (put_pact_meta_if_newer b (put_pact_meta_if_newer b v key x s) key y t) k
        ≡ b.get (put_pact_meta_if_newer b (put_pact_meta_if_newer b v key y t) key x s) k
  pact_meta_converges v key x y s t k hs ht ne =
      simp (put_pact_meta-row, text_eq_refl)
        (ground (arith, newer_comm (b.get v key) x y s t hs ht ne))

  newer_name : Option Json → Text → Text → Option Json
  newer_name row name ts =
      if truthy ts && truthy (row_ts row) && text_le ts (row_ts row)
      then row
      else some (name_row name ts)

  put_agent_name-row :
      (v : b.View) (a name ts k : Text)
      → b.get (put_agent_name b v a name ts) k ≡ (
          if text_eq (agent_name_prefix ++ a) k
          then newer_name (b.get v (agent_name_prefix ++ a)) name ts
          else b.get v k)
  unfolding put_agent_name newer_name
  put_agent_name-row v a name ts k =
      let key = agent_name_prefix ++ a in
      ground (arith, text_eq_iff key k, laws.get-put v key (name_row name ts) k)

  -- The row of an agent after an update: the newer of the two names, the old one on a tie.
  agent_name_newest :
      (v : b.View) (a name ts : Text)
      → truthy ts ≡ true
      → (b.get (put_agent_name b v a name ts) (agent_name_prefix ++ a) ≡ (
          if text_le ts (row_ts (b.get v (agent_name_prefix ++ a)))
          then b.get v (agent_name_prefix ++ a)
          else some (name_row name ts)))
        × (text_le
              (row_ts (b.get v (agent_name_prefix ++ a)))
              (row_ts (b.get (put_agent_name b v a name ts) (agent_name_prefix ++ a)))
            ≡ true)
        × (text_le ts (row_ts (b.get (put_agent_name b v a name ts) (agent_name_prefix ++ a)))
            ≡ true)
  unfolding newer_name row_ts text_le
  agent_name_newest v a name ts h =
      let row = b.get v (agent_name_prefix ++ a) in
      simp (put_agent_name-row, text_eq_refl)
        (
          ground (arith, text_le_total ts (row_ts row), text_le_refl ts, text_le_refl (row_ts row)),
          ground (arith, text_le_total ts (row_ts row), text_le_refl ts, text_le_refl (row_ts row)),
          ground (arith, text_le_total ts (row_ts row), text_le_refl ts, text_le_refl (row_ts row)),
        )
