-- ===== src/Manager/Lease.antt =====
-- `_lease_and_build` of src/nightshift/manager/api_worker.py, lines 341-466: the lease of a task and its work
-- order.
use nightshift.Base.{
  ℕ, String, Bool, true, false, not, ◌&&◌, ◌||◌, Option, none, some, List, [], ◌∷◌, ◌++◌, ◌==◌,
  opt_or, Dict, Json, null, str, Members, end, member, lookup, pos, if◌then◌else◌, Result,
}
use nightshift.Lifecycle.{AttemptState, is_remote, TaskHoldKind, TransitionEvent}
use nightshift.Workflows.Step.{WorkflowDef, format_visits}
use nightshift.Queues.Config.{ConfigFile, truth, text_of}
use nightshift.Candidates.Resolver.{text_in, first_id}
use nightshift.Store.{
  AttemptRow, TaskRow, NewAttempt, create_attempt, get_task_state, set_task_state, clear_task_state,
  has_state, hold_value, set_busy,
}
use nightshift.Manager.World.{
  Job, engine_meta_job, sync_job, World, Action, ◌>>=◌, ◌>>◌, pure, from_result, modify, suppress,
  ManagerConfig, Outside,
}
use nightshift.Manager.Policy.{task_meta, effective_mode}
use nightshift.Manager.Finish.{on_store, emit, run_tasks_repo_job}

-- What `_lease_and_build` reads of the work order of `build_work_order`: its `config`, its texts, the
-- rewritten `docs_pin` (`some none` clears it), and the order that goes to the worker.
pub record WorkOrder : Type 0 where
  pub model : String
  pub validate_cmd : Option String
  pub title : String
  pub body : String
  pub notes : Option String
  pub enhanced : Bool
  pub workflow : Option Members
  pub docs_pin : Option (Option String)
  pub wire : Json

-- `build_work_order` returned, or raised `DocsBlocked`.
pub data OrderResult : Type 0 where
  order_built : WorkOrder → OrderResult
  docs_blocked : String → OrderResult

-- What a dispatch reads, some of it as the jobs that ran before have left it. `now` and `run_id` are
-- those of the dispatch.
pub record Dispatch : Type 0 where
  pub now : ℕ
  pub run_id : String
  pub planner_model : String
  pub default_model : String
  pub lease_ttl_seconds : ℕ
  pub lower : String → String
  pub provider_of : String → Option String
  pub config : Option String → ConfigFile
  pub files : List Job → Option String → Dict String
  pub dedication : Option (Dict (List String))
  pub repo_available : String → Bool
  pub sync_due : String → Bool
  pub synced : List Job → Job → Result (Unit {0})
  pub canonical_head : List Job → String → Result (Option String)
  pub build_work_order :
      List Job
      → Option String
      → String
      → Option String
      → String
      → Option String
      → Result OrderResult

-- `bool(repo)`
abbrev pub given : Option String → Bool
given repo = not (opt_or repo "" == "")

module _ (out : Outside) (d : Dispatch) (cfg : ManagerConfig) (queue : Option String)
    (task : String) (worker_id : String) (backend : Option String) where
  abbrev pub meta_in : World → Dict Json
  meta_in w = task_meta (lookup task (d.files w.jobs queue))

  abbrev pub is_stale : Option TaskRow → Bool
  is_stale none = false
  is_stale (some r) = has_state TaskHoldKind.repo_unavailable r || has_state TaskHoldKind.blocked r

  unfoldable pub clear_stale : World → World
  unfolding get_task_state clear_task_state hold_value
  clear_stale w =
      if is_stale (get_task_state queue task w.store)
      then record w { store = clear_task_state d.now queue task false w.store }
      else w

  abbrev pub needs_sync : Dict Json → String → Bool
  needs_sync meta repo =
      not (repo == "")
      && (is_remote (effective_mode meta cfg.landing_mode)
          && (given cfg.rendezvous_remote && d.sync_due repo))

  -- A job of the executor of the repository.
  unfoldable pub sync : String → Action (Unit {0})
  sync repo w =
      from_result (d.synced w.jobs (sync_job repo))
        (record w { jobs = w.jobs ++ (sync_job repo ∷ []) })

  unfoldable pub sync_main : Dict Json → Option String → Action (Unit {0})
  unfolding effective_mode is_remote sync
  sync_main meta none = pure tt
  sync_main meta (some repo) = if needs_sync meta repo then suppress (sync repo) else pure tt

  abbrev pub base_ref_of : Option String → Action (Option String)
  base_ref_of none w = (pure none) w
  base_ref_of (some repo) w =
      if repo == "" then pure none w else from_result (d.canonical_head w.jobs repo) w

  -- The cursor of a workflow that has none yet.
  abbrev pub first_cursor : String → Dict Json
  first_cursor step =
      ("workflow_step", str step)
      ∷ ("workflow_visits", str (format_visits ((step, pos 1) ∷ [])))
      ∷ []

  abbrev pub stamp_step : String → Action (Unit {0})
  stamp_step step =
      suppress (run_tasks_repo_job out (engine_meta_job queue task (first_cursor step)))

  abbrev pub stamp_found : String → Option WorkflowDef → Action (Unit {0})
  stamp_found step none = pure tt
  stamp_found step (some wf) =
      if step == "" then from_result (first_id wf.steps) >>= stamp_step else pure tt

  unfoldable pub stamp : Dict Json → Action (Unit {0})
  unfolding text_in lookup format_visits run_tasks_repo_job
  stamp meta =
      if text_in out.repr "workflow" meta == ""
      then pure tt
      else stamp_found (text_in out.repr "workflow_step" meta)
          (lookup (text_in out.repr "workflow" meta) out.workflows)

  unfoldable pub hold_docs : String → Action (Unit {0})
  unfolding set_task_state
  hold_docs reason = modify (λ w. record w {
    store = set_task_state d.now queue task TaskHoldKind.blocked (some reason) none false w.store;
  })

  abbrev pub pin_value : Option String → Json
  pin_value none = null
  pin_value (some rendered) = str rendered

  unfoldable pub keep_pin : Option (Option String) → Action (Unit {0})
  unfolding run_tasks_repo_job
  keep_pin none = pure tt
  keep_pin (some pin) =
      suppress
        (run_tasks_repo_job out (engine_meta_job queue task (("docs_pin", pin_value pin) ∷ [])))

  -- The workflow block without the artifacts.
  unfoldable pub without_artifacts : Members → Members
  without_artifacts end = end
  without_artifacts (member key v members) =
      let rest = without_artifacts members in if key == "artifacts" then rest else member key v rest

  abbrev pub is_filled : Members → Bool
  is_filled end = false
  is_filled (member key v members) = true

  abbrev pub persisted : Option Members → Option Members
  persisted none = none
  persisted (some block) = if is_filled block then some (without_artifacts block) else none

  abbrev pub named_or : Option String → Option String → Option String
  named_or none other = other
  named_or (some s) other = if s == "" then other else some s

  -- `meta.get("kind") or None`
  abbrev pub kind_of : Dict Json → Option String
  kind_of meta = elim (lookup "kind" meta) [
    | none ↦ none
    | some v ↦ if truth v then some (text_of out.repr v) else none
  ]

  unfoldable pub new_attempt :
      Dict Json → Option String → List String → Option String → WorkOrder → NewAttempt
  unfolding lookup truth text_of without_artifacts
  new_attempt meta repo required_mcps base_ref order = record {
    id = d.run_id;
    task = task;
    queue = queue;
    worker_id = some worker_id;
    backend = named_or (d.provider_of order.model) backend;
    model = some order.model;
    base_ref = base_ref;
    ttl_seconds = d.lease_ttl_seconds;
    title = some order.title;
    body = some order.body;
    notes = order.notes;
    required_mcps = required_mcps;
    repo = repo;
    validate_cmd = named_or order.validate_cmd none;
    state = AttemptState.running;
    enhanced = order.enhanced;
    workflow = persisted order.workflow;
    kind = kind_of meta;
  }

  abbrev pub event_of : String → Dict Json → TransitionEvent
  event_of kind payload = record {
    kind = kind;
    run_id = some d.run_id;
    queue = queue;
    task = some task;
    payload = some payload;
  }

  abbrev pub start : World → World
  start w = record w { workers = set_busy d.now worker_id task queue d.run_id w.workers }

  abbrev pub acquired : TransitionEvent
  acquired =
      event_of "lease_acquired" (("worker_id", str worker_id) ∷ ("lease_id", str d.run_id) ∷ [])

  abbrev pub run_started : WorkOrder → TransitionEvent
  run_started order =
      event_of "run_started" (("title", str order.title) ∷ ("worker_id", str worker_id) ∷ [])

  unfoldable pub leased : WorkOrder → Option AttemptRow → Action (Option Json)
  unfolding set_busy emit
  leased order none = pure none
  leased order (some row) =
      modify start >> emit out acquired >> emit out (run_started order) >> pure (some order.wire)

  unfoldable pub lease_order :
      Dict Json → Option String → List String → Option String → OrderResult → Action (Option Json)
  unfolding hold_docs keep_pin new_attempt create_attempt leased
  lease_order meta repo required_mcps base_ref (docs_blocked reason) = hold_docs reason >> pure none
  lease_order meta repo required_mcps base_ref (order_built order) =
      keep_pin order.docs_pin
      >> on_store (create_attempt d.now (new_attempt meta repo required_mcps base_ref order))
      >>= leased order

  abbrev pub build : Option String → Option String → Action OrderResult
  build repo base_ref w =
      from_result (d.build_work_order w.jobs queue task repo d.run_id base_ref) w

  unfoldable pub dispatch : Option String → List String → Dict Json → Action (Option Json)
  unfolding sync_main stamp lease_order
  dispatch repo required_mcps meta = sync_main meta repo >> base_ref_of repo >>= λ base_ref.
      stamp meta >> build repo base_ref >>= lease_order meta repo required_mcps base_ref

  -- `_lease_and_build`
  unfoldable pub lease_and_build : Option String → List String → Action (Option Json)
  unfolding clear_stale dispatch task_meta lookup
  lease_and_build repo required_mcps w =
      (modify clear_stale >> dispatch repo required_mcps (meta_in w)) w
