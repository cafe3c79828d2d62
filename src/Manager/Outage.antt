-- ===== src/Manager/Outage.antt =====
-- A finding on `_reconcile_holds` of src/nightshift/manager/reconciler.py: an absent repository and a blocked
-- task.
use nightshift.Base.{
  ℕ, String, Bool, true, false, Option, none, some, ◌≡◌, refl, ◌∙◌, ap, ◌==◌, leb, if◌then◌else◌,
  if_ind, arith, eq_refl,
}
use nightshift.Lifecycle.{TaskHoldKind}
use nightshift.Scheduler.{TaskCandidate}
use nightshift.Store.{
  TaskKey, TaskRow, TaskTable, same_key, lookup_task, lookup-put, lookup-delete, upsert_hold,
  hold_over, hold_value, has_state, get_task_state, set_task_state, clear_task_state,
  release_delete, release_demote, delete_task, append_event,
}
use nightshift.Manager.World.{World, Reply, Outside}
use nightshift.Manager.Finish.{emit}
use nightshift.Manager.Holds.{
  HoldInputs, is_back, hold_of, put_hold, warned, warn_once, hold_outage,
}
use nightshift.Manager.Spared.{key_of}

self_key : (k : TaskKey) → same_key k k ≡ true
self_key k = ground (arith, eq_refl k.queue, eq_refl k.task)

deleted :
    (now : ℕ) (k : TaskKey) (q : TaskRow) (t : TaskTable)
    → lookup_task k t ≡ some q
    → leb q.attempts_without_progress 0 ≡ true
    → release_delete now k t ≡ delete_task k t
unfolding release_delete
deleted now k q t h e = ground (arith, h, e)

demoted_none :
    (now : ℕ) (k : TaskKey) (t : TaskTable) → lookup_task k t ≡ none → release_demote now k t ≡ t
unfolding release_demote
demoted_none now k t h = ground (arith, h)

gone : (k : TaskKey) (t : TaskTable) → lookup_task k (delete_task k t) ≡ none
gone k t = lookup-delete k k t ∙ ap (λ b. if b then none else lookup_task k t) (self_key k)

released :
    (now : ℕ) (k : TaskKey) (q : TaskRow) (t : TaskTable)
    → lookup_task k t ≡ some q
    → leb q.attempts_without_progress 0 ≡ true
    → lookup_task k (release_demote now k (release_delete now k t)) ≡ none
released now k q t h e =
    ap (λ u. lookup_task k (release_demote now k u)) (deleted now k q t h e)
    ∙ ap (lookup_task k) (demoted_none now k (delete_task k t) (gone k t))
    ∙ gone k t

overwritten :
    (now : ℕ) (k : TaskKey) (repo : String) (r : TaskRow) (t : TaskTable)
    → lookup_task k t ≡ some r
    → lookup_task k (upsert_hold now k TaskHoldKind.repo_unavailable none (some repo) false t)
      ≡ some (hold_over now TaskHoldKind.repo_unavailable none (some repo) false r)
unfolding upsert_hold
overwritten now k repo r t h = ground (
  arith,
  h,
  self_key k,
  lookup-put k k (hold_over now TaskHoldKind.repo_unavailable none (some repo) false r) t,
)

abbrev is_held : Option TaskHoldKind → TaskHoldKind → Bool
is_held s state = elim s [ none ↦ false | some k ↦ hold_value k == hold_value state ]

other_kind :
    (k : TaskHoldKind)
    → (hold_value k == hold_value TaskHoldKind.blocked) ≡ true
    → (hold_value k == hold_value TaskHoldKind.repo_unavailable) ≡ false
unfolding hold_value
other_kind TaskHoldKind.repo_unavailable h = absurd (ground arith)
other_kind _ h = refl

not_unavailable :
    (r : TaskRow)
    → has_state TaskHoldKind.blocked r ≡ true
    → has_state TaskHoldKind.repo_unavailable r ≡ false
not_unavailable r h = by_state r.state h
  where
    by_state :
        (s : Option TaskHoldKind)
        → is_held s TaskHoldKind.blocked ≡ true
        → is_held s TaskHoldKind.repo_unavailable ≡ false
    by_state none h = refl
    by_state (some k) h = other_kind k h

module _ (out : Outside) (c : TaskCandidate) (repo : String) where
  tasks-warn_once : (w : World) → (warn_once out c repo w).1.store.tasks ≡ w.store.tasks
  unfolding warn_once emit append_event
  tasks-warn_once w =
      if_ind (λ (p : Reply (Unit {0}) × World). p.1.store.tasks ≡ w.store.tasks) (warned out c w)
        refl refl

  abbrev held : World → World
  held w = put_hold out c TaskHoldKind.repo_unavailable none (some repo) w

  unavailable_row :
      (w : World) (r : TaskRow)
      → lookup_task (key_of c) w.store.tasks ≡ some r
      → has_state TaskHoldKind.blocked r ≡ true
      → lookup_task (key_of c) (hold_outage out c repo w).1.store.tasks
        ≡ some (hold_over out.now TaskHoldKind.repo_unavailable none (some repo) false r)
  unfolding hold_outage get_task_state set_task_state
  unavailable_row w r h blocked =
      ap
        (λ b.
          lookup_task (key_of c)
            (if b then warn_once out c repo w else warn_once out c repo (held w)).1.store.tasks)
        (ap (hold_of TaskHoldKind.repo_unavailable) h ∙ not_unavailable r blocked)
      ∙ ap (lookup_task (key_of c)) (tasks-warn_once (held w))
      ∙ overwritten out.now (key_of c) repo r w.store.tasks h

  -- Where a task is blocked and has no failed attempt, the hold of an absent repository takes over its
  -- row: the state becomes `repo_unavailable` and the reason is dropped. Once the repository is there
  -- again the row meets the test of the clear, and the clear deletes it: the task is released, although
  -- it was blocked for another reason.
  pub hold_outage_releases :
      (i : HoldInputs) (later : ℕ) (w : World) (r : TaskRow)
      → get_task_state c.queue c.task w.store ≡ some r
      → has_state TaskHoldKind.blocked r ≡ true
      → r.attempts_without_progress ≡ 0
      → (repo == "") ≡ false
      → i.repo_available repo ≡ true
      → (held_by : TaskRow) × (get_task_state c.queue c.task (hold_outage out c repo w).1.store
          ≡ some held_by)
        × (held_by.state ≡ some TaskHoldKind.repo_unavailable)
        × (held_by.blocked_reason ≡ none)
        × (is_back out i held_by ≡ true)
        × (get_task_state c.queue c.task
              (clear_task_state later c.queue c.task false (hold_outage out c repo w).1.store)
            ≡ none)
  unfolding get_task_state clear_task_state
  hold_outage_releases i later w r h blocked fresh filled there =
      let held_by = hold_over out.now TaskHoldKind.repo_unavailable none (some repo) false r in
      (
        held_by,
        unavailable_row w r h blocked,
        refl,
        refl,
        ground (arith, filled, there),
        released later (key_of c) held_by (hold_outage out c repo w).1.store.tasks
            (unavailable_row w r h blocked) (ground (arith, fresh)),
      )
