-- ===== src/Store/Reads.antt =====
-- src/nightshift/manager/store.py, lines 740-757 and 976-998: reads of the task overlay and the event log.
use nightshift.Base.{
  ℕ, zero, suc, String, Bool, true, false, none, some, List, [], ◌∷◌, ◌==◌, ltb, if◌then◌else◌,
}
use nightshift.Lifecycle.{TaskHoldKind}
use nightshift.Store.Rows.{TaskTable, TaskRow, EventRow, Store}

-- The value of a TaskHoldKind.
unfoldable pub hold_value : TaskHoldKind → String
hold_value TaskHoldKind.blocked = "blocked"
hold_value TaskHoldKind.failed = "failed"
hold_value TaskHoldKind.quarantined = "quarantined"
hold_value TaskHoldKind.repo_unavailable = "repo_unavailable"
hold_value TaskHoldKind.ci_red = "ci_red"

-- `state = $1`
abbrev pub has_state : TaskHoldKind → TaskRow → Bool
has_state state r = elim r.state [ none ↦ false | some k ↦ hold_value k == hold_value state ]

unfoldable pub rows_in_state : TaskHoldKind → TaskTable → TaskTable
unfolding hold_value
rows_in_state state [] = []
rows_in_state state ((k, r) ∷ t) =
    let rest = rows_in_state state t in if has_state state r then (k, r) ∷ rest else rest

unfoldable pub tasks_in_state : TaskHoldKind → Store → TaskTable
unfolding rows_in_state
tasks_in_state state s = rows_in_state state s.tasks

unfoldable pub list_blocked : Store → TaskTable
unfolding rows_in_state
list_blocked s = rows_in_state TaskHoldKind.blocked s.tasks

-- The log stands in the order of the ids, which grow with each event.
unfoldable pub events_from : ℕ → ℕ → List EventRow → List EventRow
events_from cursor limit [] = []
events_from cursor zero (e ∷ events) = []
events_from cursor (suc limit) (e ∷ events) = elim (ltb cursor e.id) [
  | true ↦ e ∷ events_from cursor limit events
  | false ↦ events_from cursor (suc limit) events
]

unfoldable pub events_since : ℕ → ℕ → Store → List EventRow
unfolding events_from
events_since cursor limit s = events_from cursor limit s.events

unfoldable pub max_id : List EventRow → ℕ
max_id [] = 0
max_id (e ∷ events) = let rest = max_id events in if ltb rest e.id then e.id else rest

unfoldable pub max_event_id : Store → ℕ
unfolding max_id
max_event_id s = max_id s.events

abbrev is_of : String → EventRow → Bool
is_of run_id e = elim e.run_id [ none ↦ false | some id ↦ id == run_id ]

unfoldable pub events_of : String → List EventRow → List EventRow
events_of run_id [] = []
events_of run_id (e ∷ events) =
    let rest = events_of run_id events in if is_of run_id e then e ∷ rest else rest

unfoldable pub run_events : String → Store → List EventRow
unfolding events_of
run_events run_id s = events_of run_id s.events
