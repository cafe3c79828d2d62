-- ===== src/Store/Attempts.antt =====
-- src/nightshift/manager/store.py, lines 47-86 and 508-629: the attempts.
use nightshift.Base.{
  ℕ, ◌+◌, String, Bool, false, not, ◌&&◌, ◌||◌, Option, none, some, List, [], ◌∷◌, ◌==◌, Dict, Json,
  bool, str, arr, obj, Members, opt_json, texts, contains, lookup, insert, is_some, if◌then◌else◌,
  Result, ok, err, value_error, integrity_error,
}
use nightshift.Lifecycle.{AttemptState, is_live, is_terminal}
use nightshift.Store.Rows.{AttemptRow, Store, qkey}

-- ATTEMPT_UPDATABLE_FIELDS without `state`: the wire fields of an outcome, less `landable`,
-- `status`, `document` and `signal`, and the columns of a land.
abbrev updatable_fields : List String
updatable_fields =
    "turns" ∷ "input_tokens" ∷ "output_tokens" ∷ "cache_read_input_tokens"
    ∷ "cache_creation_input_tokens" ∷ "usage" ∷ "cost_usd" ∷ "billing" ∷ "validate_cmd" ∷ "worktree"
    ∷ "timings" ∷ "result_line" ∷ "model" ∷ "backend" ∷ "branch_ref" ∷ "head_sha" ∷ "failure_kind"
    ∷ "failure_reason" ∷ "phase" ∷ "commit_sha" ∷ "loc" ∷ "remote" ∷ "pushed" ∷ "rating" ∷ "notes"
    ∷ []

-- The names that `_check_attempt_fields` finds unknown.
unfoldable pub unknown_fields : Dict Json → List String
unknown_fields [] = []
unknown_fields ((k, v) ∷ fields) =
    let rest = unknown_fields fields in if contains updatable_fields k then rest else k ∷ rest

-- The check with `allow_state=False`; the sorted list that the message shows is left out.
unfoldable pub check_attempt_fields : Dict Json → Result (Unit {0})
unfolding unknown_fields
check_attempt_fields fields = elim (unknown_fields fields) [
  | [] ↦ ok tt
  | _ ↦ err (value_error "update_attempt: unknown field(s)")
]

abbrev coalesce : Option ℕ → ℕ → Option ℕ
coalesce none now = some now
coalesce (some at) now = some at

unfoldable pub set_columns : Dict Json → Dict Json → Dict Json
set_columns [] columns = columns
set_columns ((k, v) ∷ fields) columns = set_columns fields (insert k v columns)

-- The SET clause: the columns, and the one-shot stamps of a terminal state.
unfoldable pub set_attempt : ℕ → Dict Json → AttemptState → AttemptRow → AttemptRow
unfolding set_columns is_terminal
set_attempt now fields state r =
    let done = is_terminal state in
    record r {
      state = state;
      columns = set_columns fields r.columns;
      finished_at = if done then coalesce r.finished_at now else r.finished_at;
      released_at = if done then coalesce r.released_at now else r.released_at;
    }

-- Another attempt holds the live slot of the task (the index `attempts_live_task_uniq`).
unfoldable pub slot_taken : String → String → String → Dict AttemptRow → Bool
unfolding is_live
slot_taken id queue task [] = false
slot_taken id queue task ((j, r) ∷ d) =
    not (j == id) && is_live r.state && (r.queue == queue && r.task == task)
    || slot_taken id queue task d

-- A write of a row, which the partial unique index may refuse.
unfoldable pub write_attempt : String → AttemptRow → Dict AttemptRow → Result (Dict AttemptRow)
unfolding slot_taken insert
write_attempt id r d =
    if is_live r.state && slot_taken id r.queue r.task d
    then err (integrity_error "attempts_live_task_uniq")
    else ok (insert id r d)

-- The arguments of `create_attempt`.
pub record NewAttempt : Type 0 where
  pub id : String
  pub task : String
  pub queue : Option String
  pub worker_id : Option String
  pub backend : Option String
  pub model : Option String
  pub base_ref : Option String
  pub ttl_seconds : ℕ
  pub title : Option String
  pub body : Option String
  pub notes : Option String
  pub required_mcps : List String
  pub repo : Option String
  pub validate_cmd : Option String
  pub state : AttemptState
  pub enhanced : Bool
  pub workflow : Option Members
  pub kind : Option String

unfoldable pub new_row : ℕ → NewAttempt → AttemptRow
unfolding qkey is_live
new_row now a = record {
  queue = qkey a.queue;
  task = a.task;
  worker_id = a.worker_id;
  state = a.state;
  started_at = now;
  heartbeat_at = now;
  deadline_at = if is_live a.state then some (now + a.ttl_seconds) else none;
  finished_at = none;
  released_at = none;
  columns =
      ("backend", opt_json str a.backend)
      ∷ ("model", opt_json str a.model)
      ∷ ("repo", opt_json str a.repo)
      ∷ ("required_mcps", arr (texts a.required_mcps))
      ∷ ("validate_cmd", opt_json str a.validate_cmd)
      ∷ ("title", opt_json str a.title)
      ∷ ("body", opt_json str a.body)
      ∷ ("notes", opt_json str a.notes)
      ∷ ("enhanced", bool a.enhanced)
      ∷ ("base_ref", opt_json str a.base_ref)
      ∷ ("workflow", opt_json obj a.workflow)
      ∷ ("kind", opt_json str a.kind)
      ∷ [];
}

-- The new row, or `none` where the task has a live attempt; an id that is there already is an error.
unfoldable pub create_attempt : ℕ → NewAttempt → Store → Result (Option AttemptRow × Store)
unfolding new_row slot_taken lookup insert
create_attempt now a s =
    let row = new_row now a in
    if is_some (lookup a.id s.attempts)
    then err (integrity_error "attempts_pkey")
    else if is_live a.state && slot_taken a.id row.queue a.task s.attempts
    then ok (none, s)
    else ok (some row, record s { attempts = insert a.id row s.attempts })

-- `SELECT * … WHERE state IN` the live states.
unfoldable pub live_from : Dict AttemptRow → Dict AttemptRow
unfolding is_live
live_from [] = []
live_from ((i, r) ∷ d) = let rest = live_from d in if is_live r.state then (i, r) ∷ rest else rest

unfoldable pub live_attempts : Store → Dict AttemptRow
unfolding live_from
live_attempts s = live_from s.attempts

unfoldable pub heartbeat_attempt : ℕ → String → ℕ → Store → Store
unfolding lookup insert is_live
heartbeat_attempt now id ttl_seconds s = elim (lookup id s.attempts) [
  | none ↦ s
  | some r ↦
      if is_live r.state
      then record s {
        attempts =
            insert id (record r { heartbeat_at = now; deadline_at = some (now + ttl_seconds) })
              s.attempts;
      }
      else s
]
