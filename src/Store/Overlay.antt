-- ===== src/Store/Overlay.antt =====
-- The writes of `apply_transition` to `tasks` in src/nightshift/manager/store.py, row by row.
use nightshift.Base.{
  ℕ, Bool, true, false, Option, none, some, [], ◌∷◌, ◌≡◌, refl, if◌then◌else◌, arith, ◌∙◌, ap,
  eq_iff, Option-cases, eq_refl, inl, inr,
}
use nightshift.Lifecycle.{TaskHold, Progress, TaskEffects}
use nightshift.Store.Rows.{
  TaskRow, TaskKey, TaskTable, same_key, lookup_task, lookup-put, lookup-delete,
}
use nightshift.Store.Tasks.{
  upsert_hold, increment_task, reset_task, delete_if_clean, demote_task, apply_effects, set_hold,
  count_progress, clear_hold, held_row, hold_over, first_count, count_over, reset_over, demoted,
  is_clean,
}

-- What the overlay of one task may be: no row, or a row.
abbrev pub Overlay : Type 0
Overlay = Option TaskRow

module _ (now : ℕ) where
  abbrev pub hold_row : Option TaskHold → Overlay → Overlay
  hold_row none o = o
  hold_row (some h) none = some (held_row now h.kind h.reason none h.retry_eligible)
  hold_row (some h) (some r) = some (hold_over now h.kind h.reason none h.retry_eligible r)

  abbrev pub count_row : Progress → Option ℕ → Overlay → Overlay
  count_row Progress.unchanged secs o = o
  count_row Progress.reset secs none = none
  count_row Progress.reset secs (some r) = some (reset_over now r)
  count_row Progress.increment secs none = some (first_count now secs)
  count_row Progress.increment secs (some r) = some (count_over now secs r)

  -- A hold that is lifted leaves a row behind only for a counter or a backoff.
  abbrev lift_row : Overlay → Overlay
  lift_row none = none
  lift_row (some r) = if is_clean r then none else some (demoted now r)

  abbrev pub clear_row : Option TaskHold → Bool → Overlay → Overlay
  clear_row none true o = lift_row o
  clear_row _ _ o = o

  abbrev pub effects_row : TaskEffects → Overlay → Overlay
  effects_row e o =
      clear_row e.hold e.clear_hold (count_row e.progress e.next_eligible_in (hold_row e.hold o))

  module _ (k j : TaskKey) where
    lookup-same : (t : TaskTable) → same_key k j ≡ true → lookup_task j t ≡ lookup_task k t
    unfolding lookup_task
    lookup-same [] h = refl
    lookup-same ((i, r) ∷ t) h =
        ground (arith, lookup-same t h, eq_iff k.queue j.queue, eq_iff k.task j.task)

    -- What `j` reads where the row of `k` was replaced by `o`.
    abbrev reads : Overlay → TaskTable → Overlay
    reads o t = if same_key k j then o else lookup_task j t

    reads-unchanged : (t : TaskTable) → lookup_task j t ≡ reads (lookup_task k t) t
    reads-unchanged t = ground (arith, lookup-same t)

    lookup-set_hold :
        (h : Option TaskHold) (t : TaskTable)
        → lookup_task j (set_hold now k h t) ≡ reads (hold_row h (lookup_task k t)) t
    unfolding upsert_hold
    lookup-set_hold none t = reads-unchanged t
    lookup-set_hold (some h) t = elim (Option-cases (lookup_task k t)) [
      | inl e ↦
          ground (arith, lookup-put k j (held_row now h.kind h.reason none h.retry_eligible) t)
      | inr (r, e) ↦
          ground (arith, lookup-put k j (hold_over now h.kind h.reason none h.retry_eligible r) t)
    ]

    lookup-count_progress :
        (p : Progress) (secs : Option ℕ) (t : TaskTable)
        → lookup_task j (count_progress now k p secs t)
          ≡ reads (count_row p secs (lookup_task k t)) t
    unfolding increment_task reset_task
    lookup-count_progress Progress.unchanged secs t = reads-unchanged t
    lookup-count_progress Progress.reset secs t = elim (Option-cases (lookup_task k t)) [
      | inl e ↦ ground (arith, reads-unchanged t)
      | inr (r, e) ↦ ground (arith, lookup-put k j (reset_over now r) t)
    ]
    lookup-count_progress Progress.increment secs t = elim (Option-cases (lookup_task k t)) [
      | inl e ↦ ground (arith, lookup-put k j (first_count now secs) t)
      | inr (r, e) ↦ ground (arith, lookup-put k j (count_over now secs r) t)
    ]

    lookup-lift :
        (t : TaskTable)
        → lookup_task j (demote_task now k (delete_if_clean now k t))
          ≡ reads (lift_row (lookup_task k t)) t
    unfolding demote_task delete_if_clean
    lookup-lift t = elim (Option-cases (lookup_task k t)) [
      | inl e ↦ ground (arith, reads-unchanged t)
      | inr (r, e) ↦ ground (
        arith,
        lookup-put k j (demoted now r) t,
        lookup-delete k j t,
        lookup-delete k k t,
        eq_refl k.queue,
        eq_refl k.task,
      )
    ]

    lookup-clear_hold :
        (h : Option TaskHold) (clear : Bool) (t : TaskTable)
        → lookup_task j (clear_hold now k h clear t) ≡ reads (clear_row h clear (lookup_task k t)) t
    lookup-clear_hold none true t = lookup-lift t
    lookup-clear_hold none false t = reads-unchanged t
    lookup-clear_hold (some h) clear t = reads-unchanged t

  pub same_key_refl : (k : TaskKey) → same_key k k ≡ true
  same_key_refl k = ground (arith, eq_refl k.queue, eq_refl k.task)

  pub reads_self : (k : TaskKey) (o : Overlay) (t : TaskTable) → reads k k o t ≡ o
  reads_self k o t = ground (arith, same_key_refl k)

  three_writes :
      (same : Bool) (a b c w : Overlay) {x y z : Overlay}
      → x ≡ (if same then a else y)
      → y ≡ (if same then b else z)
      → z ≡ (if same then c else w)
      → x ≡ (if same then a else w)
  three_writes true a b c w h k l = h
  three_writes false a b c w h k l = h ∙ k ∙ l

  -- The row that is read after the writes.
  pub lookup-apply_effects :
      (k j : TaskKey) (e : TaskEffects) (t : TaskTable)
      → lookup_task j (apply_effects now k e t)
        ≡ (if same_key k j then effects_row e (lookup_task k t) else lookup_task j t)
  unfolding apply_effects
  lookup-apply_effects k j e t =
      three_writes (same_key k j) (effects_row e (lookup_task k t)) _ _ (lookup_task j t)
        (lookup-clear_hold k j e.hold e.clear_hold counted
          ∙ ap (λ o. reads k j (clear_row e.hold e.clear_hold o) counted) own)
        (lookup-count_progress k j e.progress e.next_eligible_in held)
        (lookup-set_hold k j e.hold t)
    where
      held : TaskTable
      held = set_hold now k e.hold t

      counted : TaskTable
      counted = count_progress now k e.progress e.next_eligible_in held

      own :
          lookup_task k counted
          ≡ count_row e.progress e.next_eligible_in (hold_row e.hold (lookup_task k t))
      own =
          lookup-count_progress k k e.progress e.next_eligible_in held
          ∙ reads_self k _ held
          ∙ ap (count_row e.progress e.next_eligible_in)
              (lookup-set_hold k k e.hold t ∙ reads_self k _ t)
