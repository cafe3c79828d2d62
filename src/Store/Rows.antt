-- ===== src/Store/Rows.antt =====
-- src/nightshift/manager/store.py: the rows of the tables and the state of the store. A table is
-- keyed by its primary key; a time is a number of ticks.
use nightshift.Base.{
  ℕ, String, Bool, ◌&&◌, Option, none, some, List, [], ◌∷◌, ◌==◌, ◌≡◌, refl, Dict, Json,
  if◌then◌else◌, arith, eq_iff, opt_or,
}
use nightshift.Lifecycle.{AttemptState, TaskHoldKind}

-- An attempt, without its id; `columns` holds the columns that no query reads.
pub record AttemptRow : Type 0 where
  pub queue : String
  pub task : String
  pub worker_id : Option String
  pub state : AttemptState
  pub started_at : ℕ
  pub heartbeat_at : ℕ
  pub deadline_at : Option ℕ
  pub finished_at : Option ℕ
  pub released_at : Option ℕ
  pub columns : Dict Json

-- A task's overlay, without its key; `state` is NULL where the task is not held.
pub record TaskRow : Type 0 where
  pub state : Option TaskHoldKind
  pub blocked_reason : Option String
  pub repo : Option String
  pub retry_eligible : Bool
  pub attempts_without_progress : ℕ
  pub next_eligible_at : Option ℕ
  pub updated_at : ℕ

pub record EventRow : Type 0 where
  pub id : ℕ
  pub kind : String
  pub run_id : Option String
  pub queue : Option String
  pub task : Option String
  pub payload : Dict Json
  pub ts : ℕ

-- The primary key of `tasks`.
pub record TaskKey : Type 0 where
  pub queue : String
  pub task : String

abbrev pub TaskTable : Type 0
TaskTable = List (TaskKey × TaskRow)

-- `next_event` is the identity that the next event gets.
pub record Store : Type 0 where
  pub attempts : Dict AttemptRow
  pub tasks : TaskTable
  pub events : List EventRow
  pub next_event : ℕ

-- `_qkey`: the storage key of a queue.
unfoldable pub qkey : Option String → String
qkey queue = opt_or queue ""

abbrev pub same_key : TaskKey → TaskKey → Bool
same_key a b = a.queue == b.queue && a.task == b.task

unfoldable pub lookup_task : TaskKey → TaskTable → Option TaskRow
lookup_task k [] = none
lookup_task k ((j, r) ∷ t) = if same_key j k then some r else lookup_task k t

unfoldable pub put_task : TaskKey → TaskRow → TaskTable → TaskTable
put_task k r [] = (k, r) ∷ []
put_task k r ((j, q) ∷ t) = if same_key j k then (k, r) ∷ t else (j, q) ∷ put_task k r t

unfoldable pub delete_task : TaskKey → TaskTable → TaskTable
delete_task k [] = []
delete_task k ((j, q) ∷ t) =
    let rest = delete_task k t in if same_key j k then rest else (j, q) ∷ rest

pub lookup-put :
    (k j : TaskKey) (r : TaskRow) (t : TaskTable)
    → lookup_task j (put_task k r t) ≡ (if same_key k j then some r else lookup_task j t)
unfolding lookup_task put_task
lookup-put k j r [] = refl
lookup-put k j r ((i, q) ∷ t) = ground (
  arith,
  lookup-put k j r t,
  eq_iff i.queue k.queue,
  eq_iff i.task k.task,
  eq_iff i.queue j.queue,
  eq_iff i.task j.task,
  eq_iff k.queue j.queue,
  eq_iff k.task j.task,
)

pub lookup-delete :
    (k j : TaskKey) (t : TaskTable)
    → lookup_task j (delete_task k t) ≡ (if same_key k j then none else lookup_task j t)
unfolding lookup_task delete_task
lookup-delete k j [] = ground arith
lookup-delete k j ((i, q) ∷ t) = ground (
  arith,
  lookup-delete k j t,
  eq_iff i.queue k.queue,
  eq_iff i.task k.task,
  eq_iff i.queue j.queue,
  eq_iff i.task j.task,
  eq_iff k.queue j.queue,
  eq_iff k.task j.task,
)
