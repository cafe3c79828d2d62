-- ===== src/Manager/Examples.antt =====
-- Concrete runs of the handlers of src/nightshift/manager/api_worker.py and of the duties of reconciler.py.
use nightshift.Base.{
  true, false, Option, none, some, [], ◌∷◌, ◌≡◌, refl, Dict, Json, str, ok, pos, lookup,
}
use nightshift.Lifecycle.{
  AttemptState, LandingMode, LandKind, TaskHoldKind, Transition, state_value, on_failure,
  error_state_for,
}
use nightshift.Transitions.{failure_ladder}
use nightshift.Queues.Config.{missing}
use nightshift.Scheduler.{TaskCandidate}
use nightshift.Samples.{crashed, finished, a_policy, a_land, a_row, a_key, a_counter, a_store}
use nightshift.Store.{
  TaskRow, get_task_state, clear_task_state, hold_value, lookup_task, live_attempts, commit,
  append_events, cas_matches, qkey,
}
use nightshift.Manager.World.{
  World, Reply, done, refused, Action, pure, ManagerConfig, Outside, SubmitBody,
}
use nightshift.Manager.Finish.{emit}
use nightshift.Manager.Verdict.{stale_submit, returned, queue_from_label}
use nightshift.Manager.Submit.{complete_land, discarded, land_outcome, worker_submit}
use nightshift.Manager.Deadlines.{expire_deadlines}
use nightshift.Manager.Reconcile.{Git, recover_interrupted_lands}
use nightshift.Manager.Holds.{HoldInputs, is_back, hold_outage, set_holds}
use nightshift.Manager.Quiet.{IsQuiet, pure-IsQuiet}
use nightshift.Manager.Fenced.{IsFencedAt}
use nightshift.Manager.Lease.{Dispatch, WorkOrder, order_built}
use nightshift.Manager.Chain.{maybe_chain}
use nightshift.Manager.Chained.{worker_submit-IsFencedAt}
use nightshift.Manager.Replay.{worker_submit_once}
use nightshift.Manager.Discarded.{complete_land-discarded}
use nightshift.Manager.Expired.{IsExpired, expire_deadlines-IsExpired}
use nightshift.Manager.Ladder.{IsAnswering}
use nightshift.Manager.Restarted.{IsRecovered, recover_interrupted_lands-IsRecovered}
use nightshift.Manager.Spared.{IsSpared}
use nightshift.Manager.Blocked.{set_holds-IsSpared}
use nightshift.Manager.Outage.{hold_outage_releases}

abbrev a_config : ManagerConfig
a_config = record {
  quarantine_threshold = 3;
  retry_backoff_seconds = 60;
  landing_mode = LandingMode.local;
  auto_resolve = true;
  max_concurrent_resolves = 1;
  resolve_backend = none;
  resolve_model = none;
  rendezvous_remote = none;
}

-- Every job of the content store succeeds, and every land conflicts.
abbrev an_outside : Outside
an_outside = record {
  now = 40;
  new_run_id = "run-9";
  brief = λ queue task. none;
  evergreen_tasks = λ queue. [];
  workflows = [];
  repr = λ v. "";
  run_job = λ jobs job. ok tt;
  harvested = λ jobs job. ok [];
  adopted = λ jobs job. ok (a_land LandKind.no_changes);
  code_loc = λ repo sha. ok (pos 3);
  exited = λ child. false;
  spawned = λ child. true;
}

abbrev a_git : Git
a_git = record {
  repo_available = λ repo. true;
  find_landed_attempt = λ jobs repo id. ok none;
  branch_exists = λ repo task queue. ok true;
  land = λ jobs job. ok (a_land LandKind.conflict);
  error_text = λ jobs job. "";
}

abbrev a_world : World
a_world = record {
  store = a_store;
  workers = [];
  queues = [];
  watch = [];
  cooldowns = [];
  resolves = [];
  repo_warnings = [];
  jobs = [];
  sent = [];
}

abbrev a_body : SubmitBody
a_body = record {
  outcome = crashed;
  worker_id = "w1";
  lease_id = "run-1";
  task = "04.1.setup";
  queue = some "docs";
  title = "Setup";
  quarantine = false;
}

abbrev no_chain : Transition → Action (Option Json)
no_chain t = pure none

abbrev submitted_world : Reply (Dict Json) × World
submitted_world = worker_submit an_outside a_config "run-1" a_body no_chain a_world

abbrev answer_of : Reply (Dict Json) → Dict Json
answer_of (done answer) = answer
answer_of _ = []

quiet : (t : Transition) → IsQuiet "run-1" (no_chain t)
quiet t = pure-IsQuiet "run-1" none

abbrev an_order : WorkOrder
an_order = record {
  model = "auto";
  validate_cmd = none;
  title = "Set up";
  body = "Do it.";
  notes = none;
  enhanced = false;
  workflow = none;
  docs_pin = none;
  wire = str "order";
}

abbrev a_dispatch : Dispatch
a_dispatch = record {
  now = 41;
  run_id = "run-10";
  planner_model = "";
  default_model = "auto";
  lease_ttl_seconds = 600;
  lower = λ s. s;
  provider_of = λ model. none;
  config = λ queue. missing;
  files = λ jobs queue. [];
  dedication = none;
  repo_available = λ repo. true;
  sync_due = λ repo. false;
  synced = λ jobs job. ok tt;
  canonical_head = λ jobs repo. ok none;
  build_work_order = λ jobs queue task repo id base_ref. ok (order_built an_order);
}

worker_submit-IsFencedAt_example : IsFencedAt "run-1" "w1" (Dict Json) a_world (
    worker_submit an_outside a_config "run-1" a_body
      (maybe_chain an_outside a_dispatch a_config (some "docs") "04.1.setup" "w1" none)
      a_world)
unfolding queue_from_label
worker_submit-IsFencedAt_example =
    worker_submit-IsFencedAt an_outside a_dispatch a_config "run-1" a_body none a_world refl refl

worker_submit_once_example :
    worker_submit an_outside a_config "run-1"
      (record a_body { outcome = finished })
      no_chain
      submitted_world.1
    ≡ (refused 409 stale_submit, submitted_world.1)
unfolding worker_submit state_value on_failure commit error_state_for failure_ladder append_events
worker_submit_once_example =
    worker_submit_once an_outside an_outside a_config "run-1" a_body
      (record a_body { outcome = finished }) no_chain a_world submitted_world.1
      (answer_of submitted_world.0) refl quiet refl refl refl

complete_land-discarded_example :
    complete_land an_outside a_config "run-1" a_body none finished a_policy
      (returned (a_land LandKind.landed))
      a_world
    ≡ (
      done tt,
      (emit an_outside
          (discarded an_outside a_config "run-1" a_body (
            land_outcome an_outside a_config "run-1" a_body none
              (returned (a_land LandKind.landed))))
          a_world).1,
    )
unfolding lookup cas_matches state_value
complete_land-discarded_example =
    complete_land-discarded an_outside a_config "run-1" a_body none finished a_policy
      (returned (a_land LandKind.landed)) a_world refl

expire_deadlines-IsExpired_example :
    IsExpired an_outside (live_attempts a_store) a_world (expire_deadlines an_outside a_world)
expire_deadlines-IsExpired_example = expire_deadlines-IsExpired an_outside a_world

git_answers : IsAnswering a_git
git_answers = record {
  scanned = λ jobs repo id. (none, refl);
  looked = λ repo task queue. (true, refl);
}

abbrev landing_world : World
landing_world = record a_world {
  store = record a_store { attempts = ("run-1", a_row AttemptState.landing) ∷ [] };
}

recover_interrupted_lands-IsRecovered_example :
    IsRecovered an_outside a_config a_git git_answers
      (recover_interrupted_lands an_outside a_config a_git landing_world)
recover_interrupted_lands-IsRecovered_example =
    recover_interrupted_lands-IsRecovered an_outside a_config a_git git_answers landing_world

abbrev a_candidate : TaskCandidate
a_candidate = record {
  queue = some "docs";
  task = "04.1.setup";
  priority = 5;
  model = "auto";
  required_mcps = [];
  after = [];
  repo = some "site";
  repo_error = none;
  workflow = none;
  workflow_step = none;
  workflow_error = none;
}

abbrev a_block : TaskRow
a_block = record a_counter {
  state = some TaskHoldKind.blocked;
  blocked_reason = some "needs input";
  attempts_without_progress = 0;
}

abbrev blocked_world : World
blocked_world = record a_world { store = record a_store { tasks = (a_key, a_block) ∷ [] } }

abbrev some_inputs : HoldInputs
some_inputs = record {
  candidates = (some "docs", a_candidate ∷ []) ∷ [];
  quarantined = [];
  monitored = [];
  repo_ci = [];
  dedication = none;
  repo_available = λ repo. true;
}

set_holds-IsSpared_example : IsSpared a_key a_block (
    set_holds an_outside some_inputs
      ((a_candidate, "no live worker provides model 'x'") ∷ [])
      blocked_world)
unfolding hold_value lookup_task set_holds qkey
set_holds-IsSpared_example =
    set_holds-IsSpared a_key a_block an_outside refl some_inputs
      ((a_candidate, "no live worker provides model 'x'") ∷ []) blocked_world refl refl

hold_outage_releases_example :
    (held_by : TaskRow) × (get_task_state
        (some "docs")
        "04.1.setup"
        (hold_outage an_outside a_candidate "site" blocked_world).1.store
      ≡ some held_by)
    × (held_by.state ≡ some TaskHoldKind.repo_unavailable)
    × (held_by.blocked_reason ≡ none)
    × (is_back an_outside some_inputs held_by ≡ true)
    × (get_task_state (some "docs") "04.1.setup" (
          clear_task_state 50
            (some "docs")
            "04.1.setup"
            false
            (hold_outage an_outside a_candidate "site" blocked_world).1.store)
        ≡ none)
unfolding hold_value get_task_state qkey
hold_outage_releases_example =
    hold_outage_releases an_outside a_candidate "site" some_inputs 50 blocked_world a_block refl
      refl refl refl refl
