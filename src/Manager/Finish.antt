-- ===== src/Manager/Finish.antt =====
-- src/nightshift/manager/api_worker.py, lines 854-941, and `_emit` and `_start_resolve` of
-- src/nightshift/manager/app.py: applying a transition, and what follows the commit.
use nightshift.Base.{
  ℕ, ◌+◌, String, Bool, true, false, not, ◌&&◌, Option, none, some, List, [], ◌∷◌, ◌++◌, ◌==◌, leb,
  Dict, Json, bool, str, insert, if◌then◌else◌, Error, Result, ok, err, value_error,
}
use nightshift.Lifecycle.{
  AttemptState, FailureKind, failure_value, resolve_worker_id, FrontmatterFlag, TaskEffects,
  TransitionEvent, Transition,
}
use nightshift.Scheduler.{queue_label}
use nightshift.Store.{
  AttemptRow, Store, NewAttempt, create_attempt, update_attempt, append_event, apply_transition,
  set_idle, set_queue_pause,
}
use nightshift.Manager.World.{
  Job, flag_job, artifact_job, reset_job, engine_meta_job, drop_job, World, done, raised, Action,
  ◌>>=◌, ◌>>◌, pure, from_result, modify, suppress, ManagerConfig, Outside, SubmitBody,
}

-- A call of the store that returns a value.
abbrev pub on_store : {A : Type 0} → (Store → Result (A × Store)) → Action A
on_store f w = elim (f w.store) [
  | ok (a, s) ↦ (done a, record w { store = s })
  | err e ↦ (raised e, w)
]

-- A call of the store that returns nothing.
abbrev pub no_value : Result Store → Result (Unit {0} × Store)
no_value (ok s) = ok (tt, s)
no_value (err e) = err e

abbrev pub launch_fields : Dict Json
launch_fields =
    ("result_line", str "failed to launch resolver process")
    ∷ ("failure_kind", str (failure_value FailureKind.worker_launch))
    ∷ []

-- The broadcast of an event that is in the log.
abbrev pub send : ℕ → TransitionEvent → World → World
send id event w = record w { sent = w.sent ++ (record { id = id; event = event } ∷ []) }

abbrev pub zip_error : Error
zip_error = value_error "zip() argument 2 is of another length"

abbrev same_repo : Option String → Option String → Bool
same_repo none none = true
same_repo (some a) (some b) = a == b
same_repo _ _ = false

unfoldable pub put_cooldown :
    String → String → ℕ → List ((String × String) × ℕ) → List ((String × String) × ℕ)
put_cooldown worker label expiry [] = ((worker, label), expiry) ∷ []
put_cooldown worker label expiry (((w, l), at) ∷ cooldowns) =
    if w == worker && l == label
    then ((worker, label), expiry) ∷ cooldowns
    else ((w, l), at) ∷ put_cooldown worker label expiry cooldowns

module _ (out : Outside) where
  unfoldable pub emit : TransitionEvent → Action (Unit {0})
  unfolding append_event
  emit event w =
      let (id, s) = append_event out.now event w.store in
      (done tt, send id event (record w { store = s }))

  -- A mutation of the content store, run by the executor of the tasks repository.
  unfoldable pub run_tasks_repo_job : Job → Action (Unit {0})
  run_tasks_repo_job job w =
      from_result (out.run_job w.jobs job) (record w { jobs = w.jobs ++ (job ∷ []) })

  -- `reap_finished_resolves`
  unfoldable pub reap_finished_resolves : Dict (Option String) → Dict (Option String)
  reap_finished_resolves [] = []
  reap_finished_resolves ((child, repo) ∷ resolves) =
      let rest = reap_finished_resolves resolves in
      if out.exited child then rest else (child, repo) ∷ rest

  -- `_active_resolves`
  unfoldable pub active_resolves : Option String → Dict (Option String) → ℕ
  active_resolves repo [] = 0
  active_resolves repo ((child, r) ∷ resolves) =
      let rest = active_resolves repo resolves in
      if same_repo r repo && not (out.exited child) then 1 + rest else rest

  -- A resolve child: not live, and without a deadline.
  abbrev pub resolve_child :
      ManagerConfig → Option String → String → Option String → String → NewAttempt
  resolve_child cfg queue task repo title = record {
    id = out.new_run_id;
    task = task;
    queue = queue;
    worker_id = some resolve_worker_id;
    backend = cfg.resolve_backend;
    model = cfg.resolve_model;
    base_ref = none;
    ttl_seconds = 0;
    title = some title;
    body = none;
    notes = none;
    required_mcps = [];
    repo = repo;
    validate_cmd = none;
    state = AttemptState.resolving;
    enhanced = false;
    workflow = none;
    kind = none;
  }

  unfoldable pub launch_failed : Store → Result (Unit {0} × Store)
  unfolding update_attempt
  launch_failed s =
      no_value (update_attempt out.now out.new_run_id launch_fields (some AttemptState.failed) s)

  abbrev pub resolve_started : Option String → String → TransitionEvent
  resolve_started queue task = record {
    kind = "run_started";
    run_id = some out.new_run_id;
    queue = queue;
    task = some task;
    payload = some (("task", str task) ∷ ("resolve", bool true) ∷ []);
  }

  -- `_spawn_resolve` keeps the process that it could start.
  abbrev pub spawn_resolve : Option String → World → World
  spawn_resolve repo w = record w { resolves = insert out.new_run_id repo w.resolves }

  abbrev pub reap : World → World
  reap w = record w { resolves = reap_finished_resolves w.resolves }

  abbrev pub at_cap : ManagerConfig → Option String → World → Bool
  at_cap cfg repo w =
      leb (if leb cfg.max_concurrent_resolves 1 then 1 else cfg.max_concurrent_resolves)
        (active_resolves repo w.resolves)

  unfoldable pub create_child :
      ManagerConfig → Option String → String → Option String → String → Action (Option AttemptRow)
  unfolding create_attempt
  create_child cfg queue task repo title =
      on_store (create_attempt out.now (resolve_child cfg queue task repo title))

  unfoldable pub spawned_or_failed : Option String → String → Option String → Action Bool
  unfolding emit launch_failed insert
  spawned_or_failed queue task repo =
      if out.spawned out.new_run_id
      then modify (spawn_resolve repo) >> emit (resolve_started queue task) >> pure true
      else on_store launch_failed >> pure false

  -- `_start_resolve`, of whose answer only the first part is used.
  unfoldable pub start_resolve :
      ManagerConfig → Option String → String → Option String → String → Action Bool
  unfolding create_child reap_finished_resolves active_resolves spawned_or_failed
  start_resolve cfg queue task repo title w =
      if at_cap cfg repo (reap w)
      then (done false, reap w)
      else (create_child cfg queue task repo title >> spawned_or_failed queue task repo) (reap w)

  module _ (queue : Option String) (task : String) where
    unfoldable pub set_flags : List FrontmatterFlag → Action (Unit {0})
    unfolding run_tasks_repo_job
    set_flags [] = pure tt
    set_flags (flag ∷ flags) = run_tasks_repo_job (flag_job queue task flag) >> set_flags flags

    unfoldable pub write_artifact : Option (String × String) → Action (Unit {0})
    unfolding run_tasks_repo_job
    write_artifact none = pure tt
    write_artifact (some (name, text)) = run_tasks_repo_job (artifact_job queue task name text)

    unfoldable pub write_engine_meta : Bool → Option (Dict Json) → Action (Unit {0})
    unfolding run_tasks_repo_job
    write_engine_meta true changes = run_tasks_repo_job (reset_job queue task)
    write_engine_meta false none = pure tt
    write_engine_meta false (some changes) = run_tasks_repo_job (engine_meta_job queue task changes)

    -- The content-store half of the effects: the artifact before the cursor.
    unfoldable pub content_effects : TaskEffects → Action (Unit {0})
    unfolding set_flags write_artifact write_engine_meta
    content_effects e =
        set_flags e.frontmatter
        >> write_artifact e.write_artifact
        >> write_engine_meta e.workflow_reset e.engine_meta

    abbrev set_watch : Option Bool → World → World
    set_watch none w = w
    set_watch (some armed) w = record w { watch = insert (queue_label queue) armed w.watch }

    abbrev pause : Option String → World → World
    pause none w = w
    pause (some reason) w = record w {
      queues = set_queue_pause out.now (queue_label queue) (some reason) w.queues;
    }

    -- WORKER_COOLDOWN_SECONDS
    abbrev cool_down : Bool → String → World → World
    cool_down false worker w = w
    cool_down true worker w = record w {
      cooldowns = put_cooldown worker (queue_label queue) (out.now + 300) w.cooldowns;
    }

    -- The watch, the pause and the cooldown of the queue.
    unfoldable pub queue_effects : TaskEffects → String → World → World
    unfolding insert set_queue_pause queue_label put_cooldown
    queue_effects e worker w =
        cool_down e.worker_cooldown worker (pause e.pause_queue (set_watch e.watch_armed w))

    unfoldable pub drop_brief : Bool → Action (Unit {0})
    unfolding run_tasks_repo_job
    drop_brief false = pure tt
    drop_brief true = suppress (run_tasks_repo_job (drop_job queue task))

  abbrev pub go_idle : Bool → String → World → World
  go_idle false worker w = w
  go_idle true worker w = record w { workers = set_idle out.now worker w.workers }

  -- `zip(event_ids, t.events, strict=True)`
  unfoldable pub broadcast_all : List ℕ → List TransitionEvent → Action (Unit {0})
  broadcast_all [] [] = pure tt
  broadcast_all (id ∷ ids) (event ∷ events) = modify (send id event) >> broadcast_all ids events
  broadcast_all _ _ = from_result (err zip_error)

  unfoldable pub escalate :
      ManagerConfig → SubmitBody → Option String → Option String → Transition → Action (Dict Json)
  unfolding start_resolve insert
  escalate cfg body queue repo t =
      if t.effects.start_resolve
      then (start_resolve cfg queue body.task repo body.title >>= λ started.
          pure (insert "resolving" (bool started) t.response))
      else pure t.response

  module _ (cfg : ManagerConfig) (body : SubmitBody) (queue repo : Option String) where
    -- What follows the commit of a transition, in its order.
    unfoldable pub after_commit : Transition → Bool → List ℕ → Action (Dict Json)
    unfolding content_effects queue_effects drop_brief set_idle broadcast_all escalate
    after_commit t idle ids =
        content_effects queue body.task t.effects
        >> modify (queue_effects queue body.task t.effects body.worker_id)
        >> drop_brief queue body.task t.effects.drop_brief
        >> modify (go_idle idle body.worker_id)
        >> broadcast_all ids t.events
        >> escalate cfg body queue repo t

    abbrev pub after_cas : Transition → Bool → Option (List ℕ) → Action (Option (Dict Json))
    after_cas t idle none = pure none
    after_cas t idle (some ids) = after_commit t idle ids >>= λ response. pure (some response)

    -- `_finish`
    unfoldable pub finish : Transition → Bool → AttemptState → Action (Option (Dict Json))
    unfolding apply_transition after_commit
    finish t idle expected =
        on_store (apply_transition out.now t expected (some body.worker_id)) >>= after_cas t idle
