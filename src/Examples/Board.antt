-- ===== src/Examples/Board.antt =====
-- packages/daemon/src/api/tasks-state.ts on a board with one task.
use Prim.Native.String.{String}
use mathlib.Core.Logic.Or
use mathlib.Core.List.{Permᴰ, Mem, mem-cons, not-mem-nil}
use openpact.Prelude.{
  ℕ, Text, codes, text_le, text_le_total, text_le_trans, text_le_antisymm, text_ne, Option, none,
  some, List, [], ◌∷◌, ◌≡◌, ◌⊎◌, ◌↔◌, refl, sym, subst, arith,
}
use openpact.EntryId.{is_valid}
use openpact.Tasks.{
  open_, claimed, complete, TaskStatus, TaskEntry, TaskState, apply_task_update, apply_updates,
  find_original, sort, insert, reduce_task_history, reduce_ordered, initial_state, check_clock,
  expire, claim_expired_by, on_claim,
}
use openpact.Tasks.Lifecycle.{Step, update_follows_lifecycle}
use openpact.Tasks.Order.{IsIdOrder, HasIds, reduce_deterministic}
use openpact.Tasks.Claims.{complete_is_final, active_claim_stands}
use openpact.TaskRoutes.{
  Append, check_claim, claim_entry, claim_route, wait_for_view, reply_claim, has_entry,
}
use openpact.TaskRoutes.Agreement.{guarded_claim}
use openpact.TaskRoutes.Replies.{Seen, claim_route-replied}

abbrev ada : Text
ada = codes "anon-ada"

abbrev bob : Text
bob = codes "anon-bob"

-- A time is the number of units in its text.
abbrev read_time : Text → Option ℕ
read_time [] = none
read_time (c ∷ s) = some c

abbrev print_time : ℕ → Text
print_time ms = ms ∷ []

abbrev entry_at : String → ℕ → Text → List Text → TaskStatus → TaskEntry
entry_at id at agent refs status = record {
  id = codes id;
  timestamp = print_time at;
  agent_id = agent;
  display_name = none;
  refs = refs;
  title = codes "t";
  description = none;
  status = status;
  claimed_by = none;
  result = none;
  assigned_to = none;
}

abbrev opening : TaskEntry
opening = entry_at "aaaaaaaa-1" 1 ada [] open_

abbrev claiming : TaskEntry
claiming = entry_at "bbbbbbbb-9" 5 bob (codes "aaaaaaaa-1" ∷ []) claimed

abbrev releasing : TaskEntry
releasing = entry_at "bbbbbbbb-10" 6 bob (codes "aaaaaaaa-1" ∷ []) open_

abbrev meddling : TaskEntry
meddling = entry_at "aaaaaaaa-2" 7 ada (codes "aaaaaaaa-1" ∷ []) complete

abbrev opened : TaskState
opened = initial_state opening (opening ∷ claiming ∷ [])

abbrev held : TaskState
held = record opened { status = claimed; claimed_by = some bob; claimed_at = some (print_time 5) }

abbrev done : TaskState
done = record opened { status = complete }

id_order : IsIdOrder text_le
id_order = record {
  total = text_le_total;
  trans = text_le_trans;
  antisymm = λ s t vs vt. text_le_antisymm s t;
}

-- A proposition about entries that holds of both.
both :
    {P : TaskEntry → Type 0}
    → ((e : TaskEntry) → IsProp (P e))
    → P opening
    → P claiming
    → (e : TaskEntry) → Mem e (opening ∷ claiming ∷ [])
    → P e
both {P} prop first second e m =
    Or.elim (prop e) (mem-cons.0 m) (λ q. subst P (sym q) first)
      (λ n.
        Or.elim (prop e) (mem-cons.0 n) (λ q. subst P (sym q) second) (λ k. absurd (not-mem-nil k)))

two_ids : HasIds (opening ∷ claiming ∷ [])
unfolding is_valid
two_ids = record {
  valid = both (λ e. hlevel) refl refl;
  distinct = λ e f m n.
      both {P = λ x. x.id ≡ f.id → x ≡ f} (λ x. hlevel)
        (both {P = λ y. opening.id ≡ y.id → opening ≡ y} (λ y. hlevel) (λ q. refl)
          (λ q. absurd (text_ne refl q)) f n)
        (both {P = λ y. claiming.id ≡ y.id → claiming ≡ y} (λ y. hlevel)
          (λ q. absurd (text_ne refl q)) (λ q. refl) f n)
        e m;
}

reduced :
    reduce_task_history read_time print_time text_le (opening ∷ claiming ∷ []) (some 100) 50
    ≡ some held
unfolding reduce_task_history reduce_ordered sort insert find_original apply_updates
    apply_task_update on_claim claim_expired_by check_clock expire text_le
reduced = refl

update_follows_lifecycle_example : (apply_task_update read_time opened claiming 100 ≡ held) ↔ (
    Step read_time 100 opened claiming held
    ⊎ ((held ≡ opened) × ((t : TaskState) → ¬ Step read_time 100 opened claiming t)))
update_follows_lifecycle_example = update_follows_lifecycle read_time 100 opened claiming held

complete_is_final_example :
    apply_updates read_time opening.id 100 done (claiming ∷ releasing ∷ []) ≡ done
complete_is_final_example =
    complete_is_final read_time opening.id 100 done (claiming ∷ releasing ∷ []) refl

active_claim_stands_example : apply_updates read_time opening.id 100 held (meddling ∷ []) ≡ held
active_claim_stands_example =
    active_claim_stands read_time opening.id 100 held bob (print_time 5) (meddling ∷ []) refl refl
      refl (record { foreign = text_ne refl; in_time = refl }, tt)

reduce_deterministic_example :
    reduce_task_history read_time print_time text_le (opening ∷ claiming ∷ []) (some 100) 50
    ≡ reduce_task_history read_time print_time text_le (claiming ∷ opening ∷ []) (some 100) 50
reduce_deterministic_example =
    reduce_deterministic text_le id_order read_time print_time (opening ∷ claiming ∷ [])
      (claiming ∷ opening ∷ []) (some 100) 50 ∣ Permᴰ.swap refl refl ∣₁ two_ids

abbrev bob_appends : Append
bob_appends = record {
  peer = bob;
  display_name = none;
  timestamp = print_time 60;
  id = codes "bbbbbbbb-9";
  task_id = codes "aaaaaaaa-1";
}

guarded_claim_example :
    apply_task_update read_time opened
      (claim_entry bob_appends (check_clock read_time print_time opened 50 100))
      100
    ≡ record opened { status = claimed; claimed_by = some bob; claimed_at = some (print_time 60) }
unfolding check_claim check_clock
guarded_claim_example =
    guarded_claim read_time print_time opened bob_appends 50 100 60 refl refl (omega arith)

claim_route-replied_example :
    (held.status ≡ claimed)
    × (held.claimed_by ≡ some bob)
    × Seen read_time print_time text_le
        (some 100)
        (codes "bbbbbbbb-9")
        held
        ((50, opening ∷ claiming ∷ []) ∷ [])
unfolding claim_route check_claim wait_for_view reply_claim has_entry
claim_route-replied_example =
    claim_route-replied read_time print_time text_le (some 100) (some opened) bob_appends
      ((50, opening ∷ claiming ∷ []) ∷ []) held (rw reduced refl)
