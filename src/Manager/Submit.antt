-- ===== src/Manager/Submit.antt =====
-- `worker_submit` of src/nightshift/manager/api_worker.py, lines 766-1113. The work order that the answer to
-- a submit may carry besides is the argument `chain`, which is `_maybe_chain` of Manager/Chain.
use nightshift.Base.{
  ℕ, String, Bool, true, false, not, ◌&&◌, Option, none, some, List, [], ◌∷◌, ◌++◌, ◌==◌, fstring,
  opt_or, Dict, Json, null, bool, str, opt_json, lookup, insert, if◌then◌else◌, Result, ok, err,
  is_some,
}
use nightshift.Lifecycle.{
  AttemptState, AttemptRef, Outcome, SubmitPolicy, LandOutcome, land_value, is_land_success,
  GitPhase, Submitted, apply, phase, TransitionEvent, Transition,
}
use nightshift.Transitions.{on_submit, on_land_enqueued}
use nightshift.Queues.Frontmatter.{flagged}
use nightshift.Scheduler.{queue_label}
use nightshift.Store.{
  AttemptRow, apply_transition, cas_matches, get_task_state, queue_pauses, set_idle,
}
use nightshift.Manager.World.{
  LandRequest, harvest_job, adopt_job, land_job, World, Action, ◌>>=◌, ◌>>◌, pure, refuse,
  from_result, modify, suppress, ManagerConfig, Outside, SubmitBody,
}
use nightshift.Manager.Policy.{
  build_workflow_step_policy, capped, task_meta, task_is_evergreen, effective_mode,
  task_is_failed_in_frontmatter,
}
use nightshift.Manager.Finish.{on_store, emit, finish}
use nightshift.Manager.Verdict.{
  queue_from_label, text_column, stale_submit, true_by_default, is_pr, LandResult, crash_outcome,
  watch_of, progress_of, landed_by, split_by, retains, await, or_refuse, returned, crashed,
}

module _ (out : Outside) (cfg : ManagerConfig) (run_id : String) (body : SubmitBody) where
  abbrev pub queue_of : Option String
  queue_of = queue_from_label body.queue

  abbrev meta_of : Dict Json
  meta_of = task_meta (out.brief queue_of body.task)

  abbrev pub ref_of : AttemptRef
  ref_of = record { id = run_id; queue = queue_of; task = body.task }

  abbrev evergreen_of : Bool
  evergreen_of = task_is_evergreen meta_of body.task (out.evergreen_tasks queue_of)

  -- The SubmitPolicy of the submit.
  unfoldable pub submit_policy : AttemptRow → World → Result SubmitPolicy
  unfolding build_workflow_step_policy task_meta task_is_evergreen effective_mode flagged
      task_is_failed_in_frontmatter get_task_state queue_pauses queue_from_label queue_label lookup
  submit_policy run w =
      elim (build_workflow_step_policy out.repr out.workflows (lookup "workflow" run.columns)
        meta_of body.outcome.signal evergreen_of) [
          | err e ↦ err e
          | ok step ↦ ok (record {
            retry = record {
              quarantine_after = cfg.quarantine_threshold;
              immediate_quarantine = body.quarantine;
              backoff = record { base_seconds = cfg.retry_backoff_seconds; cap_seconds = 3600 };
            };
            attempts_without_progress = progress_of (get_task_state queue_of body.task w.store);
            was_retry = task_is_failed_in_frontmatter (out.brief queue_of body.task);
            watch_armed = watch_of (queue_label queue_of) w.watch;
            queue_paused = is_some (lookup (queue_label queue_of) (queue_pauses w.queues));
            split = flagged "split" meta_of;
            evergreen = evergreen_of;
            auto_resolve = cfg.auto_resolve;
            pr_mode = is_pr (effective_mode meta_of cfg.landing_mode);
            workflow_step = step;
          })
        ]

  abbrev pub request : AttemptRow → AttemptRow → LandRequest
  request run lease = record {
    repo = text_column "repo" run;
    task = body.task;
    title = body.title;
    queue = queue_of;
    base_ref = text_column "base_ref" lease;
    landing_mode = effective_mode meta_of cfg.landing_mode;
    automerge = true_by_default "automerge" meta_of;
    draft = flagged "draft" meta_of;
    branch_ref = none;
    head_sha = none;
    attempt_id = none;
  }

  abbrev pub land_request : AttemptRow → AttemptRow → LandRequest
  land_request run lease = record (request run lease) {
    branch_ref = body.outcome.branch_ref;
    head_sha = body.outcome.head_sha;
    attempt_id = some run_id;
  }

  -- `_with_loc`
  unfoldable pub with_loc : Option String → LandOutcome → LandOutcome
  unfolding is_land_success
  with_loc repo result =
      if is_land_success result.kind && not (opt_or result.sha "" == "")
      then elim (out.code_loc repo (opt_or result.sha "")) [
        | ok loc ↦ record result { loc = some loc }
        | err e ↦ result
      ]
      else result

  -- `_finish`, and the refusal of a stale result.
  unfoldable pub finish_or_refuse : AttemptRow → Transition → Action (Dict Json)
  unfolding finish queue_from_label lookup
  finish_or_refuse run t =
      finish out cfg body queue_of (text_column "repo" run) t true AttemptState.running
      >>= λ response. or_refuse response

  -- The land job, after which the worker is idle.
  abbrev pub enqueue_land : AttemptRow → AttemptRow → World → World
  enqueue_land run lease w = record w {
    jobs = w.jobs ++ (land_job (land_request run lease) ∷ []);
    workers = set_idle out.now body.worker_id w.workers;
  }

  unfoldable pub enqueued : AttemptRow → AttemptRow → Option (List ℕ) → Action (Dict Json)
  unfolding set_idle task_meta effective_mode flagged queue_from_label lookup
  enqueued run lease none = refuse 409 stale_submit
  enqueued run lease (some ids) =
      modify (enqueue_land run lease)
      >> pure (("landed", null) ∷ ("status", str "landing") ∷ ("queued", bool true) ∷ [])

  -- The git phases.
  unfoldable pub git_phase :
      AttemptRow → AttemptRow → Outcome → SubmitPolicy → GitPhase → Action (Dict Json)
  unfolding split_by landed_by with_loc finish_or_refuse enqueued apply_transition on_land_enqueued
      task_meta effective_mode flagged queue_from_label lookup
  git_phase run lease o policy GitPhase.harvest_split =
      await out.harvested (harvest_job (text_column "repo" run) body.task queue_of (retains policy))
      >>= λ created. from_result (split_by ref_of o policy created) >>= finish_or_refuse run
  git_phase run lease o policy GitPhase.adopt_check =
      await out.adopted (adopt_job (request run lease)) >>= λ result.
      from_result (landed_by ref_of o policy (with_loc (text_column "repo" run) result))
      >>= finish_or_refuse run
  git_phase run lease o policy GitPhase.land =
      on_store (
        apply_transition out.now (on_land_enqueued ref_of o.branch_ref o.head_sha)
          AttemptState.running (some body.worker_id))
      >>= enqueued run lease

  abbrev discarded_line : LandOutcome → String
  discarded_line result = fstring (
      "land result discarded: lease no longer live (kind="
      ∷ land_value result.kind
      ∷ ", sha="
      ∷ opt_or result.sha "-"
      ∷ ")"
      ∷ [])

  abbrev pub discarded : LandOutcome → TransitionEvent
  discarded result = record {
    kind = "task_log";
    run_id = some run_id;
    queue = queue_of;
    task = some body.task;
    payload = some (
        ("line", str (discarded_line result))
        ∷ ("land_kind", str (land_value result.kind))
        ∷ ("sha", opt_json str result.sha)
        ∷ []);
  }

  abbrev pub land_outcome : Option String → LandResult → LandOutcome
  land_outcome repo (crashed text) = crash_outcome text
  land_outcome repo (returned result) = with_loc repo result

  abbrev pub traced : LandOutcome → Option (Dict Json) → Action (Unit {0})
  traced result none = suppress (emit out (discarded result))
  traced result (some response) = pure tt

  -- `_complete_land`, when the land job has ended.
  unfoldable pub complete_land :
      Option String → Outcome → SubmitPolicy → LandResult → Action (Unit {0})
  unfolding landed_by with_loc finish emit land_value queue_from_label
  complete_land repo o policy result =
      from_result (landed_by ref_of o policy (land_outcome repo result)) >>= λ t.
      finish out cfg body queue_of repo t false AttemptState.landing
      >>= traced (land_outcome repo result)

  module _ (chain : Transition → Action (Option Json)) where
    abbrev pub with_order : Dict Json → Option Json → Dict Json
    with_order answer none = answer
    with_order answer (some order) = insert "next_order" order answer

    unfoldable pub chained : AttemptRow → Transition → Action (Dict Json)
    unfolding finish_or_refuse insert
    chained run t =
        finish_or_refuse run t >>= λ answer. chain t >>= λ order. pure (with_order answer order)

    unfoldable pub submit_step :
        AttemptRow → AttemptRow → Outcome → SubmitPolicy → Submitted → Action (Dict Json)
    unfolding chained git_phase queue_from_label
    submit_step run lease o policy (apply t) = chained run t
    submit_step run lease o policy (phase p) = git_phase run lease o policy p

    -- The submit of a run whose lease the fence has let through.
    unfoldable pub admitted : AttemptRow → AttemptRow → Action (Dict Json)
    unfolding submit_policy capped on_submit submit_step queue_from_label
    admitted run lease w =
        (from_result (submit_policy run w) >>= λ policy.
        from_result (on_submit ref_of (capped body.outcome) policy)
        >>= submit_step run lease (capped body.outcome) policy)
          w

    unfoldable pub fenced : AttemptRow → Option AttemptRow → Action (Dict Json)
    unfolding admitted cas_matches
    fenced run none = refuse 409 stale_submit
    fenced run (some lease) =
        if cas_matches AttemptState.running (some body.worker_id) lease
        then admitted run lease
        else refuse 409 stale_submit

    abbrev pub looked_up : Option AttemptRow → Option AttemptRow → Action (Dict Json)
    looked_up none lease = refuse 404 "unknown run"
    looked_up (some run) lease = fenced run lease

    unfoldable pub worker_submit : Action (Dict Json)
    unfolding fenced lookup
    worker_submit w =
        looked_up (lookup run_id w.store.attempts) (lookup body.lease_id w.store.attempts) w
