-- ===== src/Store/Updates.antt =====
-- src/nightshift/manager/store.py, lines 568-577 and 631-646: updates of an attempt outside the
-- transitions, and the tasks that were ever started. A `state` among the fields stands beside them.
use nightshift.Base.{
  ℕ, String, Option, none, some, List, [], ◌∷◌, ◌==◌, Dict, Json, lookup, contains, if◌then◌else◌,
  Result, ok, ◌>>=◌, ◌>>◌,
}
use nightshift.Lifecycle.{AttemptState}
use nightshift.Store.Rows.{AttemptRow, Store, qkey}
use nightshift.Store.Attempts.{check_attempt_fields, set_columns, set_attempt, write_attempt}

unfoldable pub updated_row : ℕ → Dict Json → Option AttemptState → AttemptRow → AttemptRow
unfolding set_columns set_attempt
updated_row now fields none r = record r { columns = set_columns fields r.columns }
updated_row now fields (some state) r = set_attempt now fields state r

unfoldable pub write_update : ℕ → String → Dict Json → Option AttemptState → Store → Result Store
unfolding check_attempt_fields lookup write_attempt updated_row
write_update now id fields state s = check_attempt_fields fields >> elim (lookup id s.attempts) [
  | none ↦ ok s
  | some r ↦ write_attempt id (updated_row now fields state r) s.attempts >>= λ attempts.
      ok (record s { attempts = attempts })
]

unfoldable pub update_attempt : ℕ → String → Dict Json → Option AttemptState → Store → Result Store
unfolding write_update
update_attempt now id [] none s = ok s
update_attempt now id fields state s = write_update now id fields state s

-- `SELECT DISTINCT task … WHERE queue =`
unfoldable pub tasks_of : String → Dict AttemptRow → List String
tasks_of queue [] = []
tasks_of queue ((id, r) ∷ attempts) =
    let rest = tasks_of queue attempts in
    if r.queue == queue then if contains rest r.task then rest else r.task ∷ rest else rest

unfoldable pub started_tasks : Option String → Store → List String
unfolding tasks_of qkey
started_tasks queue s = tasks_of (qkey queue) s.attempts
