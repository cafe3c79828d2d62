-- ===== src/Manager/Reconcile.antt =====
-- src/nightshift/manager/reconciler.py, lines 265-464: the recovery of the lands that a restart of the manager
-- has cut off.
use nightshift.Base.{
  String, Bool, true, false, not, ◌&&◌, ◌||◌, Option, none, some, List, [], ◌∷◌, ◌==◌, Dict, Json,
  opt_or, fstring, if◌then◌else◌, Result, ok, err, lookup,
}
use nightshift.Lifecycle.{
  RunStatus, AttemptState, state_value, AttemptRef, Telemetry, Outcome, SubmitPolicy, LandingMode,
  LandKind, LandOutcome, Transition,
}
use nightshift.Transitions.{on_land_recovered, on_land_interrupted, on_land_result}
use nightshift.Queues.Frontmatter.{flagged}
use nightshift.Store.{AttemptRow, live_attempts, get_task_state}
use nightshift.Manager.World.{
  Job, land_job, drop_job, World, Action, ◌>>=◌, ◌>>◌, pure, from_result, suppress, ManagerConfig,
  Outside,
}
use nightshift.Manager.Policy.{task_meta, task_is_evergreen, effective_mode}
use nightshift.Manager.Finish.{run_tasks_repo_job}
use nightshift.Manager.Verdict.{
  queue_from_label, text_column, crash_outcome, true_by_default, is_pr, progress_of, submitted,
}
use nightshift.Manager.Deadlines.{in_state, row_ref, apply_and_broadcast}

-- What the repositories answer: `find_landed_attempt` (after the jobs that ran before),
-- `branch_exists` of the task's branch, and the land job. Each of them may raise.
pub record Git : Type 0 where
  pub repo_available : String → Bool
  pub find_landed_attempt : List Job → String → String → Result (Option String)
  pub branch_exists : String → String → Option String → Result Bool
  pub land : List Job → Job → Result LandOutcome
  pub error_text : List Job → Job → String

module _ (out : Outside) where
  module _ (cfg : ManagerConfig) (git : Git) where
    abbrev meta_at : Option String → String → Dict Json
    meta_at queue task = task_meta (out.brief queue task)

    abbrev mode_at : Option String → String → LandingMode
    mode_at queue task = effective_mode (meta_at queue task) cfg.landing_mode

    -- `_task_evergreen`
    unfoldable pub task_evergreen : String → Option String → Bool
    unfolding task_meta task_is_evergreen
    task_evergreen task queue =
        task_is_evergreen (meta_at queue task) task (out.evergreen_tasks queue)

    -- `_drop_brief`
    unfoldable pub drop_brief_of : String → Option String → Action (Unit {0})
    unfolding run_tasks_repo_job
    drop_brief_of task queue = suppress (run_tasks_repo_job out (drop_job queue task))

    abbrev pub pr_note : Option String → String → Option String
    pr_note queue task =
        if is_pr (mode_at queue task) then some "; PR not verified — check the remote" else none

    abbrev pub recovered_transition : AttemptRef → String → Transition
    recovered_transition ref sha = on_land_recovered ref sha (pr_note ref.queue ref.task)

    abbrev pub dropped_if : Bool → AttemptRef → Action (Unit {0})
    dropped_if drop ref = if drop then drop_brief_of ref.task ref.queue else pure tt

    unfoldable pub recover_landed : AttemptRef → String → Action (Unit {0})
    unfolding apply_and_broadcast on_land_recovered task_evergreen drop_brief_of task_meta
        effective_mode
    recover_landed ref sha =
        apply_and_broadcast out (recovered_transition ref sha) AttemptState.landing >>= λ applied.
        dropped_if (applied && not (task_evergreen ref.task ref.queue)) ref

    abbrev pub land_again : AttemptRef → AttemptRow → String → Job
    land_again ref r repo = land_job (record {
      repo = some repo;
      task = ref.task;
      title = opt_or (text_column "title" r) ref.task;
      queue = ref.queue;
      base_ref = text_column "base_ref" r;
      landing_mode = mode_at ref.queue ref.task;
      automerge = true_by_default "automerge" (meta_at ref.queue ref.task);
      draft = flagged "draft" (meta_at ref.queue ref.task);
      branch_ref = text_column "branch_ref" r;
      head_sha = text_column "head_sha" r;
      attempt_id = some ref.id;
    })

    -- The policy of a recovered land never escalates.
    unfoldable pub recovery_policy : AttemptRef → World → SubmitPolicy
    unfolding task_evergreen get_task_state task_meta effective_mode
    recovery_policy ref w = record {
      retry = record {
        quarantine_after = cfg.quarantine_threshold;
        immediate_quarantine = false;
        backoff = record { base_seconds = cfg.retry_backoff_seconds; cap_seconds = 3600 };
      };
      attempts_without_progress = progress_of (get_task_state ref.queue ref.task w.store);
      was_retry = false;
      watch_armed = false;
      queue_paused = false;
      split = false;
      evergreen = task_evergreen ref.task ref.queue;
      auto_resolve = false;
      pr_mode = is_pr (mode_at ref.queue ref.task);
      workflow_step = none;
    }

    abbrev row_telemetry : AttemptRow → Telemetry
    row_telemetry r = record {
      turns = none;
      input_tokens = none;
      output_tokens = none;
      cache_read_input_tokens = none;
      cache_creation_input_tokens = none;
      usage = none;
      cost_usd = none;
      billing = none;
      validate_cmd = text_column "validate_cmd" r;
      worktree = text_column "worktree" r;
      timings = none;
    }

    -- The outcome that stands for the submit that was lost.
    unfoldable pub recovery_outcome : AttemptRow → Outcome
    unfolding lookup
    recovery_outcome r = record {
      telemetry = row_telemetry r;
      status = RunStatus.completed;
      result_line = "recovered: landed (manager restarted mid-land)";
      landable = true;
      model = text_column "model" r;
      backend = "";
      document = none;
      signal = none;
      branch_ref = none;
      head_sha = none;
      failure_kind = none;
      failure_reason = none;
    }

    abbrev crashed_again : String → LandOutcome
    crashed_again text = record (crash_outcome text) {
      detail = fstring ("recovery land job crashed: " ∷ text ∷ []);
    }

    abbrev pub land_answer : List Job → Job → LandOutcome
    land_answer before job = elim (git.land before job) [
      | ok result ↦ result
      | err e ↦ crashed_again (git.error_text before job)
    ]

    unfoldable pub apply_relanded : AttemptRef → Transition → Action (Unit {0})
    unfolding apply_and_broadcast drop_brief_of
    apply_relanded ref t = apply_and_broadcast out t AttemptState.landing >>= λ applied.
        dropped_if (applied && t.effects.drop_brief) ref

    unfoldable pub relanded : AttemptRef → AttemptRow → LandOutcome → Action (Unit {0})
    unfolding on_land_result recovery_outcome recovery_policy apply_relanded
    relanded ref r result w =
        (from_result (on_land_result ref (recovery_outcome r) result (recovery_policy ref w))
            >>= apply_relanded ref)
          w

    -- The second scan for the trailer, after a land that ended in a conflict.
    abbrev pub second_scan : AttemptRef → String → LandOutcome → List Job → Result (Option String)
    second_scan ref repo result jobs = elim result.kind [
      | LandKind.conflict ↦ git.find_landed_attempt jobs repo ref.id
      | _ ↦ ok none
    ]

    abbrev pub rescanned : AttemptRef → AttemptRow → LandOutcome → Option String → Action (Unit {0})
    rescanned ref r result none = relanded ref r result
    rescanned ref r result (some sha) =
        if sha == "" then relanded ref r result else recover_landed ref sha

    unfoldable pub reenqueue_land : AttemptRef → AttemptRow → String → Action (Unit {0})
    unfolding relanded recover_landed lookup flagged task_meta effective_mode
    reenqueue_land ref r repo w =
        let job : Job = land_again ref r repo in
        let result : LandOutcome = land_answer w.jobs job in
        (from_result (second_scan ref repo result (submitted job w).jobs)
            >>= rescanned ref r result)
          (submitted job w)

    -- `bool(repo) and repo_available(repo)`
    abbrev pub usable_repo : AttemptRow → Option String
    usable_repo r = elim (text_column "repo" r) [
      | none ↦ none
      | some repo ↦ if not (repo == "") && git.repo_available repo then some repo else none
    ]

    abbrev pub is_recoverable : AttemptRow → Bool → Bool
    is_recoverable r has_branch =
        has_branch
        || not (opt_or (text_column "branch_ref" r) "" == "")
          && not (opt_or cfg.rendezvous_remote "" == "")

    unfoldable pub park : AttemptRef → Action (Unit {0})
    unfolding apply_and_broadcast on_land_interrupted
    park ref = apply_and_broadcast out (on_land_interrupted ref) AttemptState.landing >> pure tt

    -- The rungs below the first: the land is run again, or the attempt is parked.
    abbrev pub rerun_or_park : AttemptRef → AttemptRow → String → Action (Unit {0})
    rerun_or_park ref r repo =
        from_result (git.branch_exists repo ref.task ref.queue) >>= λ has_branch.
        if is_recoverable r has_branch then reenqueue_land ref r repo else park ref

    abbrev pub first_scan : AttemptRef → AttemptRow → String → Option String → Action (Unit {0})
    first_scan ref r repo none = rerun_or_park ref r repo
    first_scan ref r repo (some sha) =
        if sha == "" then rerun_or_park ref r repo else recover_landed ref sha

    abbrev pub ladder : AttemptRef → AttemptRow → Option String → Action (Unit {0})
    ladder ref r none w = park ref w
    ladder ref r (some repo) w =
        (from_result (git.find_landed_attempt w.jobs repo ref.id) >>= first_scan ref r repo) w

    unfoldable pub recover_each : Dict AttemptRow → Action (Unit {0})
    unfolding recover_landed reenqueue_land park queue_from_label lookup state_value
    recover_each [] = pure tt
    recover_each ((id, r) ∷ rows) =
        let rest : Action (Unit {0}) = recover_each rows in
        if in_state AttemptState.landing r
        then ladder (row_ref id r) r (usable_repo r) >> rest
        else rest

    -- `_recover_interrupted_lands`
    unfoldable pub recover_interrupted_lands : Action (Unit {0})
    unfolding recover_each live_attempts
    recover_interrupted_lands w = recover_each (live_attempts w.store) w
