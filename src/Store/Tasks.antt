-- ===== src/Store/Tasks.antt =====
-- src/nightshift/manager/store.py, lines 89-158 and 714-803: the task overlay.
use nightshift.Base.{
  ℕ, ◌+◌, String, Bool, true, false, Option, none, some, List, [], ◌∷◌, ltb, leb, is_some,
  if◌then◌else◌, ◌&&◌, ◌==◌,
}
use nightshift.Lifecycle.{TaskHoldKind, TaskHold, Progress, TaskEffects}
use nightshift.Store.Rows.{
  TaskRow, TaskKey, TaskTable, Store, qkey, lookup_task, put_task, delete_task,
}

-- `UPDATE nightshift.tasks SET … WHERE queue = $1 AND task = $2`
abbrev update_task : TaskKey → (TaskRow → TaskRow) → TaskTable → TaskTable
update_task k f t = elim (lookup_task k t) [ none ↦ t | some r ↦ put_task k (f r) t ]

-- `DELETE FROM nightshift.tasks WHERE queue = $1 AND task = $2 AND …`
abbrev delete_where : TaskKey → (TaskRow → Bool) → TaskTable → TaskTable
delete_where k p t = elim (lookup_task k t) [
  | none ↦ t
  | some r ↦ if p r then delete_task k t else t
]

-- The columns that the insert of a new row does not name take their defaults.
abbrev pub held_row : ℕ → TaskHoldKind → Option String → Option String → Bool → TaskRow
held_row now state reason repo eligible = record {
  state = some state;
  blocked_reason = reason;
  repo = repo;
  retry_eligible = eligible;
  attempts_without_progress = 0;
  next_eligible_at = none;
  updated_at = now;
}

abbrev pub hold_over : ℕ → TaskHoldKind → Option String → Option String → Bool → TaskRow → TaskRow
hold_over now state reason repo eligible r = record r {
  state = some state;
  blocked_reason = reason;
  repo = repo;
  retry_eligible = eligible;
  updated_at = now;
}

-- `now() + make_interval(secs => secs)`, which is NULL where `secs` is.
abbrev later : ℕ → Option ℕ → Option ℕ
later now none = none
later now (some secs) = some (now + secs)

abbrev pub first_count : ℕ → Option ℕ → TaskRow
first_count now secs = record {
  state = none;
  blocked_reason = none;
  repo = none;
  retry_eligible = false;
  attempts_without_progress = 1;
  next_eligible_at = later now secs;
  updated_at = now;
}

abbrev pub count_over : ℕ → Option ℕ → TaskRow → TaskRow
count_over now secs r = record r {
  attempts_without_progress = r.attempts_without_progress + 1;
  next_eligible_at = later now secs;
  updated_at = now;
}

abbrev pub reset_over : ℕ → TaskRow → TaskRow
reset_over now r = record r {
  attempts_without_progress = 0;
  next_eligible_at = none;
  updated_at = now;
}

abbrev pub is_clean : TaskRow → Bool
is_clean r =
    leb r.attempts_without_progress 0 && elim r.next_eligible_at [ none ↦ true | some _ ↦ false ]

abbrev pub demoted : ℕ → TaskRow → TaskRow
demoted now r = record r {
  state = none;
  blocked_reason = none;
  repo = none;
  retry_eligible = false;
  updated_at = now;
}

module _ (now : ℕ) (k : TaskKey) where
  -- _TASK_UPSERT_SQL
  unfoldable pub upsert_hold :
      TaskHoldKind → Option String → Option String → Bool → TaskTable → TaskTable
  unfolding lookup_task put_task
  upsert_hold state reason repo eligible t = elim (lookup_task k t) [
    | none ↦ put_task k (held_row now state reason repo eligible) t
    | some r ↦ put_task k (hold_over now state reason repo eligible r) t
  ]

  -- _TASK_INCREMENT_SQL
  unfoldable pub increment_task : Option ℕ → TaskTable → TaskTable
  increment_task secs t = elim (lookup_task k t) [
    | none ↦ put_task k (first_count now secs) t
    | some r ↦ put_task k (count_over now secs r) t
  ]

  -- _TASK_RESET_SQL
  unfoldable pub reset_task : TaskTable → TaskTable
  reset_task = update_task k (reset_over now)

  -- _TASK_DELETE_IF_CLEAN_SQL
  unfoldable pub delete_if_clean : TaskTable → TaskTable
  delete_if_clean = delete_where k is_clean

  -- _TASK_DEMOTE_SQL
  unfoldable pub demote_task : TaskTable → TaskTable
  demote_task = update_task k (demoted now)

  -- _TASK_RELEASE_DELETE_SQL
  unfoldable pub release_delete : TaskTable → TaskTable
  release_delete = delete_where k (λ r. leb r.attempts_without_progress 0)

  -- _TASK_RELEASE_DEMOTE_SQL
  unfoldable pub release_demote : TaskTable → TaskTable
  release_demote = update_task k (λ r. record r {
    state = none;
    blocked_reason = none;
    repo = none;
    retry_eligible = false;
    next_eligible_at = none;
    updated_at = now;
  })

  -- The task half of `apply_transition`: the hold, the counter, the cleared hold.
  abbrev pub set_hold : Option TaskHold → TaskTable → TaskTable
  set_hold none t = t
  set_hold (some h) t = upsert_hold h.kind h.reason none h.retry_eligible t

  abbrev pub count_progress : Progress → Option ℕ → TaskTable → TaskTable
  count_progress Progress.increment secs t = increment_task secs t
  count_progress Progress.reset secs t = reset_task t
  count_progress Progress.unchanged secs t = t

  abbrev pub clear_hold : Option TaskHold → Bool → TaskTable → TaskTable
  clear_hold none true t = demote_task (delete_if_clean t)
  clear_hold _ _ t = t

  unfoldable pub apply_effects : TaskEffects → TaskTable → TaskTable
  unfolding upsert_hold increment_task reset_task demote_task delete_if_clean
  apply_effects e t =
      clear_hold e.hold e.clear_hold
        (count_progress e.progress e.next_eligible_in (set_hold e.hold t))

abbrev key : Option String → String → TaskKey
key queue task = record { queue = qkey queue; task = task }

unfoldable pub set_task_state :
    ℕ → Option String → String → TaskHoldKind → Option String → Option String → Bool → Store → Store
unfolding upsert_hold
set_task_state now queue task state reason repo eligible s = record s {
  tasks = upsert_hold now (key queue task) state reason repo eligible s.tasks;
}

unfoldable pub get_task_state : Option String → String → Store → Option TaskRow
unfolding lookup_task
get_task_state queue task s = lookup_task (key queue task) s.tasks

-- `clear_task_state`, with its argument `reset_progress`.
unfoldable pub clear_task_state : ℕ → Option String → String → Bool → Store → Store
unfolding delete_task release_delete release_demote
clear_task_state now queue task reset_progress s =
    let k = key queue task in
    record s {
      tasks =
          if reset_progress
          then delete_task k s.tasks
          else release_demote now k (release_delete now k s.tasks);
    }

unfoldable pub clear_task_backoff : ℕ → Option String → String → Store → Store
clear_task_backoff now queue task s =
    let k = key queue task in
    record s {
      tasks = elim (lookup_task k s.tasks) [
        | none ↦ s.tasks
        | some r ↦
            if is_some r.next_eligible_at
            then put_task k (record r { next_eligible_at = none; updated_at = now }) s.tasks
            else s.tasks
      ];
    }

-- The rows of a queue that `retryable_tasks` selects.
abbrev is_retryable : TaskRow → Bool
is_retryable r = elim r.state [
  | some TaskHoldKind.failed ↦ true
  | some TaskHoldKind.blocked ↦ r.retry_eligible
  | _ ↦ false
]

unfoldable pub retryable_from : String → TaskTable → TaskTable
retryable_from queue [] = []
retryable_from queue ((k, r) ∷ t) =
    let rest = retryable_from queue t in
    if k.queue == queue && is_retryable r then (k, r) ∷ rest else rest

unfoldable pub retryable_tasks : Option String → Store → TaskTable
unfolding retryable_from qkey
retryable_tasks queue s = retryable_from (qkey queue) s.tasks

-- The tasks whose backoff has not elapsed.
unfoldable pub backing_off : ℕ → TaskTable → List TaskKey
backing_off now [] = []
backing_off now ((k, r) ∷ t) =
    let rest = backing_off now t in
    elim r.next_eligible_at [ none ↦ rest | some at ↦ if ltb now at then k ∷ rest else rest ]
