-- ===== src/Manager/Chain.antt =====
-- `_maybe_chain` and `_dispatch_guards_ok` of src/nightshift/manager/api_worker.py, lines 468-542: the next
-- order that rides on the answer to a submit.
use nightshift.Base.{
  String, Bool, true, false, not, ◌&&◌, Option, none, some, List, [], ◌∷◌, ◌==◌, opt_or, Json, str,
  lookup, any, contains, is_some, if◌then◌else◌, Result,
}
use nightshift.Lifecycle.{Transition}
use nightshift.Workflows.Step.{end_step}
use nightshift.Scheduler.{TaskCandidate, WorkerFilter, queue_label, owners_of, accepts}
use nightshift.Candidates.Resolver.{resolve}
use nightshift.Candidates.Build.{build_candidates}
use nightshift.Store.{TaskKey, WorkerRow, backing_off, queue_pauses, get_worker, is_offline}
use nightshift.Manager.World.{World, Action, ◌>>=◌, pure, from_result, ManagerConfig, Outside}
use nightshift.Manager.Verdict.{queue_from_label}
use nightshift.Manager.Lease.{Dispatch, given, lease_and_build}

module _ (out : Outside) (d : Dispatch) (cfg : ManagerConfig) (queue : Option String)
    (task : String) (worker_id : String) (backend : Option String) where
  abbrev pub same_queue : Option String → Option String → Bool
  same_queue none none = true
  same_queue (some a) (some b) = a == b
  same_queue _ _ = false

  abbrev pub is_this : TaskKey → Bool
  is_this k = same_queue (queue_from_label (some k.queue)) queue && k.task == task

  abbrev pub is_bound : List String → Bool
  is_bound [] = true
  is_bound (owner ∷ owners) = contains (owner ∷ owners) worker_id

  -- `_dispatch_guards_ok`
  unfoldable pub dispatch_guards_ok : Option String → World → Bool
  unfolding queue_pauses queue_label owners_of backing_off queue_from_label lookup
  dispatch_guards_ok repo w =
      if is_some (lookup (queue_label queue) (queue_pauses w.queues))
      then false
      else if not (is_bound (owners_of d.dedication (queue_label queue)))
      then false
      else if given repo && not (d.repo_available (opt_or repo ""))
      then false
      else not (any is_this (backing_off d.now w.store.tasks))

  abbrev pub candidates : World → Result (List TaskCandidate)
  candidates w =
      build_candidates out.repr
        (some (resolve out.repr out.workflows d.planner_model d.default_model)) d.default_model
        queue (d.config queue) (d.files w.jobs queue)

  unfoldable pub candidate_of_task : List TaskCandidate → Option TaskCandidate
  candidate_of_task [] = none
  candidate_of_task (c ∷ cs) = if c.task == task then some c else candidate_of_task cs

  abbrev pub filter_of : WorkerRow → WorkerFilter
  filter_of me = record {
    worker_id = worker_id;
    queues = me.queues;
    priorities = me.priorities;
    models = some me.models;
    mcps = some me.mcps;
  }

  abbrev pub may_take : TaskCandidate → Option WorkerRow → Bool
  may_take c none = false
  may_take c (some me) = not (is_offline me) && accepts d.lower d.dedication (filter_of me) c

  -- The worker takes the candidate, and the guards let it through.
  unfoldable pub may_chain : TaskCandidate → World → Bool
  unfolding accepts get_worker dispatch_guards_ok
  may_chain c w =
      not (is_some c.workflow_error)
      && (may_take c (get_worker worker_id w.workers) && dispatch_guards_ok c.repo w)

  unfoldable pub chain_candidate : Option TaskCandidate → Action (Option Json)
  unfolding may_chain lease_and_build
  chain_candidate none w = pure none w
  chain_candidate (some c) w =
      if may_chain c w
      then lease_and_build out d cfg queue task worker_id backend c.repo c.required_mcps w
      else pure none w

  -- A step that is not the end of the workflow.
  abbrev pub is_step : Option Json → Bool
  is_step (some (str step)) = not (step == "") && not (step == end_step)
  is_step _ = false

  -- `_maybe_chain`
  unfoldable pub maybe_chain : Transition → Action (Option Json)
  unfolding lookup candidate_of_task chain_candidate build_candidates resolve
  maybe_chain t w =
      if is_step (lookup "workflow_step" t.response)
      then (from_result (candidates w) >>= λ cs. chain_candidate (candidate_of_task cs)) w
      else pure none w
