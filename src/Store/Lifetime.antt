-- ===== src/Store/Lifetime.antt =====
-- When a row of `tasks` may exist, in src/nightshift/manager/store.py and src/nightshift/transitions.py.
use nightshift.Base.{
  ℕ, String, Bool, true, false, not, ◌&&◌, ◌||◌, Option, none, some, ◌≡◌, refl, ap, ◌∙◌, is_some,
  leb, arith, Bool-cases, inl, inr,
}
use nightshift.Lifecycle.{AttemptRef, Outcome, WorkflowStepPolicy, Progress, TaskEffects}
use nightshift.Transitions.{workflow_doc_advance}
use nightshift.Store.Rows.{TaskRow, TaskKey, TaskTable, same_key, lookup_task}
use nightshift.Store.Tasks.{apply_effects}
use nightshift.Store.Overlay.{Overlay, effects_row, lookup-apply_effects, same_key_refl}

-- The row carries a hold, a counter or a backoff.
unfoldable pub is_carried : TaskRow → Bool
is_carried r =
    is_some r.state || (not (leb r.attempts_without_progress 0) || is_some r.next_eligible_at)

abbrev pub is_justified : Overlay → Bool
is_justified none = true
is_justified (some r) = is_carried r

-- The counter is reset while no hold is written or lifted.
unfoldable pub resets_only : TaskEffects → Bool
resets_only e =
    elim e.progress [ Progress.reset ↦ true | _ ↦ false ] && not (is_some e.hold || e.clear_hold)

module _ (now : ℕ) where
  row-stays :
      (e : TaskEffects) (o : Overlay)
      → resets_only e ≡ false
      → is_justified o ≡ true
      → is_justified (effects_row now e o) ≡ true
  unfolding resets_only is_carried
  row-stays e o h k = ground arith

  -- A transition's writes keep every row carried, each row by a hold, a counter or a backoff,
  -- unless they reset the counter and neither write nor lift a hold.
  pub apply_effects-IsJustified :
      (k j : TaskKey) (e : TaskEffects) (t : TaskTable)
      → resets_only e ≡ false
      → ((i : TaskKey) → is_justified (lookup_task i t) ≡ true)
      → is_justified (lookup_task j (apply_effects now k e t)) ≡ true
  apply_effects-IsJustified k j e t h all =
      ap is_justified (lookup-apply_effects now k j e t) ∙ elim (Bool-cases (same_key k j)) [
        | inl same ↦ ground (arith, row-stays e (lookup_task k t) h (all k))
        | inr other ↦ ground (arith, all j)
      ]

  left_behind :
      (e : TaskEffects) (r : TaskRow)
      → resets_only e ≡ true
      → r.state ≡ none
      → is_justified (effects_row now e (some r)) ≡ false
  unfolding resets_only is_carried
  left_behind e r h k = ground arith

  -- The row of a task that is not held stays when a document step moves the workflow on, although
  -- the row then carries no hold, no counter and no backoff.
  pub workflow_doc_advance_leaves_row :
      (k : TaskKey) (ref : AttemptRef) (o : Outcome) (step : WorkflowStepPolicy)
      (artifact : Option (String × String)) (t : TaskTable) (r : TaskRow)
      → lookup_task k t ≡ some r
      → r.state ≡ none
      → is_justified
          (lookup_task k (apply_effects now k (workflow_doc_advance ref o step artifact).effects t))
        ≡ false
  unfolding workflow_doc_advance resets_only
  workflow_doc_advance_leaves_row k ref o step artifact t r h free =
      ap is_justified (lookup-apply_effects now k k e t)
      ∙ ground (arith, same_key_refl now k, left_behind e r bare free)
    where
      e : TaskEffects
      e = (workflow_doc_advance ref o step artifact).effects

      bare : resets_only e ≡ true
      bare = refl
