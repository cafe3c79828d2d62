-- ===== src/Store/Transport.antt =====
-- src/nightshift/manager/store.py, lines 805-955: the dedication of the queues, their pauses and
-- modes, and the CI state of the repositories.
use nightshift.Base.{
  ℕ, String, Bool, true, false, not, ◌&&◌, Option, none, some, List, [], ◌∷◌, ◌++◌, ◌==◌, Dict,
  lookup, insert, filter, sort_by, text_lt, is_some, if◌then◌else◌,
}

pub record QueueState : Type 0 where
  pub paused_reason : Option String
  pub mode : Option String
  pub updated_at : ℕ

pub record RepoCi : Type 0 where
  pub state : String
  pub head_sha : Option String
  pub url : Option String
  pub detail : Option String
  pub fix_task : Option String
  pub fix_sha : Option String
  pub updated_at : ℕ

-- The rows of `queue_routing`, a queue and a worker.
abbrev pub Routing : Type 0
Routing = List (String × String)

-- `out.setdefault(queue, []).append(worker)`
unfoldable pub add_worker : String × String → Dict (List String) → Dict (List String)
unfolding lookup insert
add_worker (queue, worker) out = elim (lookup queue out) [
  | none ↦ insert queue (worker ∷ []) out
  | some workers ↦ insert queue (workers ++ (worker ∷ [])) out
]

unfoldable pub gather : Routing → Dict (List String) → Dict (List String)
unfolding add_worker
gather [] out = out
gather (row ∷ rows) out = gather rows (add_worker row out)

unfoldable pub queue_dedication : Routing → Dict (List String)
unfolding gather sort_by text_lt
queue_dedication rows = gather (sort_by (λ a b. text_lt a.0 b.0) rows) []

abbrev routed : Routing → String → String → Bool
routed [] queue worker = false
routed ((q, w) ∷ rows) queue worker =
    if q == queue && w == worker then true else routed rows queue worker

-- The inserts, which pass over a row that is there.
unfoldable pub add_routes : String → List String → Routing → Routing
add_routes queue [] rows = rows
add_routes queue (w ∷ workers) rows =
    add_routes queue workers (if routed rows queue w then rows else rows ++ ((queue, w) ∷ []))

unfoldable pub set_queue_dedication : String → List String → Routing → Routing
unfolding add_routes filter
set_queue_dedication queue workers rows =
    add_routes queue (filter (λ w. not (w == "")) workers) (filter (λ r. not (r.0 == queue)) rows)

-- The rows that carry a value.
unfoldable pub valued : (QueueState → Option String) → Dict QueueState → Dict String
valued f [] = []
valued f ((queue, r) ∷ rows) =
    let rest = valued f rows in elim (f r) [ none ↦ rest | some v ↦ (queue, v) ∷ rest ]

unfoldable pub queue_pauses : Dict QueueState → Dict String
unfolding valued
queue_pauses rows = valued (λ (r : QueueState). r.paused_reason) rows

unfoldable pub queue_modes : Dict QueueState → Dict String
unfolding valued
queue_modes rows = valued (λ (r : QueueState). r.mode) rows

-- A row that `_QUEUE_STATE_PRUNE_SQL` keeps.
abbrev pub carries : QueueState → Bool
carries r = elim r.paused_reason [ some reason ↦ true | none ↦ is_some r.mode ]

-- `_QUEUE_STATE_PRUNE_SQL`
unfoldable pub prune : String → Dict QueueState → Dict QueueState
prune queue [] = []
prune queue ((q, r) ∷ rows) =
    let rest = prune queue rows in if q == queue && not (carries r) then rest else (q, r) ∷ rest

-- The row that is inserted, or that an update makes of the old one.
abbrev pub paused_row : ℕ → Option String → Option QueueState → QueueState
paused_row now reason none = record { paused_reason = reason; mode = none; updated_at = now }
paused_row now reason (some r) = record r { paused_reason = reason; updated_at = now }

abbrev pub moded_row : ℕ → Option String → Option QueueState → QueueState
moded_row now mode none = record { paused_reason = none; mode = mode; updated_at = now }
moded_row now mode (some r) = record r { mode = mode; updated_at = now }

unfoldable pub set_queue_pause : ℕ → String → Option String → Dict QueueState → Dict QueueState
unfolding prune insert lookup
set_queue_pause now queue reason rows =
    prune queue (insert queue (paused_row now reason (lookup queue rows)) rows)

unfoldable pub set_queue_mode : ℕ → String → Option String → Dict QueueState → Dict QueueState
unfolding prune insert lookup
set_queue_mode now queue mode rows =
    prune queue (insert queue (moded_row now mode (lookup queue rows)) rows)

-- The state that the new one replaced, and the table.
unfoldable pub set_repo_ci :
    ℕ
    → String
    → String
    → Option String
    → Option String
    → Option String
    → Dict RepoCi
    → Option String × Dict RepoCi
unfolding insert lookup
set_repo_ci now repo state head_sha url detail rows =
    let fresh : RepoCi = record {
      state = state;
      head_sha = head_sha;
      url = url;
      detail = detail;
      fix_task = none;
      fix_sha = none;
      updated_at = now;
    } in
    elim (lookup repo rows) [
      | none ↦ (none, insert repo fresh rows)
      | some r ↦ (
        some r.state,
        if r.state == state
            then insert repo
                (record r { head_sha = head_sha; url = url; detail = detail; updated_at = now })
                rows
            else insert repo fresh rows,
      )
    ]

unfoldable pub set_repo_ci_fix : String → String → String → Dict RepoCi → Dict RepoCi
unfolding insert lookup
set_repo_ci_fix repo fix_task fix_sha rows = elim (lookup repo rows) [
  | none ↦ rows
  | some r ↦ insert repo (record r { fix_task = some fix_task; fix_sha = some fix_sha }) rows
]
