-- ===== src/Store/Workers.antt =====
-- src/nightshift/manager/store.py, lines 410-507, and src/nightshift/manager/registry.py: the table
-- of workers. A time is a number of seconds; a set of names is the list of its members.
use nightshift.Base.{
  ℕ, ◌+◌, String, Bool, true, not, ◌&&◌, Option, none, some, List, [], ◌∷◌, ◌++◌, ◌==◌, Dict, Json,
  contains, lookup, insert, ltb, sort_by, text_lt, if◌then◌else◌,
}

-- A worker, without its id.
pub record WorkerRow : Type 0 where
  pub backend : String
  pub queues : Option (List String)
  pub priorities : Option (List ℕ)
  pub models : List String
  pub mcps : List String
  pub status : String
  pub meta : Dict Json
  pub current_task : Option String
  pub current_queue : Option String
  pub current_run_id : Option String
  pub registered_at : ℕ
  pub last_checkin_at : ℕ
  pub last_heartbeat_at : ℕ

abbrev pub WorkerTable : Type 0
WorkerTable = Dict WorkerRow

-- What a worker says of itself when it checks in.
pub record Checkin : Type 0 where
  pub backend : String
  pub queues : Option (List String)
  pub priorities : Option (List ℕ)
  pub models : Option (List String)
  pub mcps : Option (List String)
  pub meta : Option (Dict Json)

-- `value or []`
abbrev or_empty {ℓ} : {A : Type ℓ} → Option (List A) → List A
or_empty none = []
or_empty (some values) = values

-- The row that is inserted, or that the conflict clause makes of the old one.
abbrev pub checked_in : ℕ → Checkin → Option WorkerRow → WorkerRow
checked_in now c none = record {
  backend = c.backend;
  queues = c.queues;
  priorities = c.priorities;
  models = or_empty c.models;
  mcps = or_empty c.mcps;
  status = "idle";
  meta = or_empty c.meta;
  current_task = none;
  current_queue = none;
  current_run_id = none;
  registered_at = now;
  last_checkin_at = now;
  last_heartbeat_at = now;
}
checked_in now c (some r) = record r {
  backend = c.backend;
  queues = c.queues;
  priorities = c.priorities;
  models = or_empty c.models;
  mcps = or_empty c.mcps;
  status = "idle";
  meta = or_empty c.meta;
  last_checkin_at = now;
  last_heartbeat_at = now;
}

unfoldable pub register_worker : ℕ → String → Checkin → WorkerTable → WorkerTable
unfolding insert lookup
register_worker now worker_id c rows =
    insert worker_id (checked_in now c (lookup worker_id rows)) rows

-- `UPDATE nightshift.workers SET … WHERE id = $1`
abbrev update_worker : String → (WorkerRow → WorkerRow) → WorkerTable → WorkerTable
update_worker worker_id f rows = elim (lookup worker_id rows) [
  | none ↦ rows
  | some r ↦ insert worker_id (f r) rows
]

unfoldable pub set_worker_status :
    ℕ → String → String → Option String → Option String → Option String → WorkerTable → WorkerTable
unfolding insert lookup
set_worker_status now worker_id status task queue run_id rows =
    update_worker worker_id
      (λ r. record r {
        status = status;
        current_task = task;
        current_queue = queue;
        current_run_id = run_id;
        last_heartbeat_at = now;
      })
      rows

unfoldable pub heartbeat_worker : ℕ → String → WorkerTable → WorkerTable
unfolding insert lookup
heartbeat_worker now worker_id rows =
    update_worker worker_id (λ r. record r { last_heartbeat_at = now }) rows

unfoldable pub list_workers : WorkerTable → WorkerTable
unfolding sort_by text_lt
list_workers rows = sort_by (λ a b. text_lt a.0 b.0) rows

unfoldable pub get_worker : String → WorkerTable → Option WorkerRow
unfolding lookup
get_worker worker_id rows = lookup worker_id rows

abbrev pub is_offline : WorkerRow → Bool
is_offline r = r.status == "offline"

-- The WHERE clause of `expire_stale_workers`.
abbrev pub is_silent : ℕ → ℕ → WorkerRow → Bool
is_silent now ttl_seconds r = not (is_offline r) && ltb (r.last_heartbeat_at + ttl_seconds) now

-- The ids that went offline, and the table.
unfoldable pub expire_stale_workers : ℕ → ℕ → WorkerTable → List String × WorkerTable
expire_stale_workers now ttl_seconds [] = ([], [])
expire_stale_workers now ttl_seconds ((id, r) ∷ rows) =
    let (ids, rest) = expire_stale_workers now ttl_seconds rows in
    if is_silent now ttl_seconds r
    then (id ∷ ids, (id, record r { status = "offline" }) ∷ rest)
    else (ids, (id, r) ∷ rest)

unfoldable pub set_busy : ℕ → String → String → Option String → String → WorkerTable → WorkerTable
unfolding set_worker_status
set_busy now worker_id task queue run_id rows =
    set_worker_status now worker_id "busy" (some task) queue (some run_id) rows

unfoldable pub set_idle : ℕ → String → WorkerTable → WorkerTable
unfolding set_worker_status
set_idle now worker_id rows = set_worker_status now worker_id "idle" none none none rows

-- The rows that are not offline, in the order of `list_workers`.
unfoldable pub online : WorkerTable → WorkerTable
online [] = []
online ((id, r) ∷ rows) = let rest = online rows in if is_offline r then rest else (id, r) ∷ rest

unfoldable pub live_workers : WorkerTable → WorkerTable
unfolding online list_workers
live_workers rows = online (list_workers rows)

-- `out.update(names)` from worker to worker: each name once.
unfoldable pub union : List String → List String → List String
union [] out = out
union (name ∷ names) out = union names (if contains out name then out else out ++ (name ∷ []))

unfoldable pub advertised : (WorkerRow → List String) → WorkerTable → List String → List String
unfolding union
advertised f [] out = out
advertised f ((id, r) ∷ rows) out = advertised f rows (union (f r) out)

unfoldable pub available_models : WorkerTable → List String
unfolding advertised live_workers
available_models rows = advertised (λ (r : WorkerRow). r.models) (live_workers rows) []

unfoldable pub available_mcps : WorkerTable → List String
unfolding advertised live_workers
available_mcps rows = advertised (λ (r : WorkerRow). r.mcps) (live_workers rows) []

abbrev serves : String → WorkerRow → Bool
serves queue_label r = elim r.queues [ none ↦ true | some names ↦ contains names queue_label ]

unfoldable pub models_for_queue : String → WorkerTable → List String
unfolding advertised live_workers sort_by text_lt
models_for_queue queue_label rows =
    "auto"
    ∷ "max"
    ∷ sort_by text_lt
        (advertised (λ r. if serves queue_label r then r.models else []) (live_workers rows) [])

abbrev ids : WorkerTable → List String
ids [] = []
ids ((id, r) ∷ rows) = id ∷ ids rows

unfoldable pub online_worker_ids : WorkerTable → List String
unfolding live_workers
online_worker_ids rows = ids (live_workers rows)
