-- ===== src/Manager/Chained.antt =====
-- `_maybe_chain` of src/nightshift/manager/api_worker.py leaves the row of the submitted attempt alone and
-- never answers with a refusal; so the submit with it is fenced.
use nightshift.Base.{
  String, false, Option, none, some, List, [], ◌∷◌, ◌≡◌, refl, ◌==◌, Dict, Json, lookup, if_ind,
}
use nightshift.Scheduler.{TaskCandidate}
use nightshift.Workflows.Step.{WorkflowDef}
use nightshift.Candidates.Resolver.{text_in, first_id}
use nightshift.Store.{
  AttemptRow, create_attempt, append_event, get_task_state, set_task_state, clear_task_state,
}
use nightshift.Lifecycle.{Transition, TransitionEvent}
use nightshift.Manager.World.{
  engine_meta_job, World, ◌>>=◌, ◌>>◌, pure, from_result, modify, suppress, ManagerConfig,
  SubmitBody, Outside,
}
use nightshift.Manager.Finish.{on_store, emit, run_tasks_repo_job}
use nightshift.Manager.Lease.{
  WorkOrder, OrderResult, order_built, docs_blocked, Dispatch, is_stale, clear_stale, needs_sync,
  sync, sync_main, base_ref_of, first_cursor, stamp_step, stamp_found, stamp, hold_docs, pin_value,
  keep_pin, new_attempt, start, acquired, run_started, leased, lease_order, build, dispatch,
  meta_in, lease_and_build,
}
use nightshift.Manager.Chain.{
  may_chain, candidate_of_task, candidates, is_step, chain_candidate, maybe_chain,
}
use nightshift.Manager.Quiet.{
  is_refusal, row_in, QuietAt, IsQuiet, bind-IsQuiet, then-IsQuiet, pure-IsQuiet, if-IsQuiet,
  modify-IsQuiet, suppress-IsQuiet, result-IsQuiet, on_store-IsQuiet, create_attempt-OnStore,
}
use nightshift.Manager.Submit.{queue_of, worker_submit}
use nightshift.Manager.Fenced.{IsFencedAt}
use nightshift.Manager.Once.{any_chain-IsFencedAt}

module _ (id : String) (out : Outside) (d : Dispatch) (fresh : (d.run_id == id) ≡ false)
    (cfg : ManagerConfig) (queue : Option String) (task worker_id : String)
    (backend : Option String) where
  emitted : (event : TransitionEvent) → IsQuiet id (emit out event)
  unfolding emit append_event is_refusal
  emitted event w = (refl, refl)

  stale-IsQuiet : IsQuiet id (modify (clear_stale out d cfg queue task worker_id backend))
  unfolding clear_stale clear_task_state
  stale-IsQuiet = modify-IsQuiet id (clear_stale out d cfg queue task worker_id backend) (λ w.
      if_ind (λ (x : World). row_in id x ≡ row_in id w)
        (is_stale out d cfg queue task worker_id backend (get_task_state queue task w.store)) refl
        refl)

  sync-IsQuiet : (repo : String) → IsQuiet id (sync out d cfg queue task worker_id backend repo)
  unfolding sync
  sync-IsQuiet repo w = result-IsQuiet id _ (record w { jobs = _ })

  sync_main-IsQuiet :
      (meta : Dict Json) (repo : Option String)
      → IsQuiet id (sync_main out d cfg queue task worker_id backend meta repo)
  unfolding sync_main
  sync_main-IsQuiet meta none = pure-IsQuiet id tt
  sync_main-IsQuiet meta (some repo) =
      if-IsQuiet id (needs_sync out d cfg queue task worker_id backend meta repo)
        (suppress (sync out d cfg queue task worker_id backend repo)) (pure tt)
        (suppress-IsQuiet id (sync out d cfg queue task worker_id backend repo) (sync-IsQuiet repo))
        (pure-IsQuiet id tt)

  base_ref-IsQuiet :
      (repo : Option String) → IsQuiet id (base_ref_of out d cfg queue task worker_id backend repo)
  base_ref-IsQuiet none w = pure-IsQuiet id none w
  base_ref-IsQuiet (some repo) w =
      if_ind (QuietAt id w) (repo == "") (pure-IsQuiet id none w)
        (result-IsQuiet id (d.canonical_head w.jobs repo) w)

  engine_job :
      (changes : Dict Json)
      → IsQuiet id (run_tasks_repo_job out (engine_meta_job queue task changes))
  unfolding run_tasks_repo_job
  engine_job changes w = result-IsQuiet id _ (record w { jobs = _ })

  step-IsQuiet :
      (step : String) → IsQuiet id (stamp_step out d cfg queue task worker_id backend step)
  step-IsQuiet step =
      suppress-IsQuiet id
        (run_tasks_repo_job out
          (engine_meta_job queue task (first_cursor out d cfg queue task worker_id backend step)))
        (engine_job (first_cursor out d cfg queue task worker_id backend step))

  found-IsQuiet :
      (step : String) (wf : Option WorkflowDef)
      → IsQuiet id (stamp_found out d cfg queue task worker_id backend step wf)
  found-IsQuiet step none = pure-IsQuiet id tt
  found-IsQuiet step (some wf) =
      if-IsQuiet id (step == "")
        (from_result (first_id wf.steps) >>= (stamp_step out d cfg queue task worker_id backend))
        (pure tt)
        (bind-IsQuiet id (from_result (first_id wf.steps))
          (stamp_step out d cfg queue task worker_id backend)
          (result-IsQuiet id (first_id wf.steps)) step-IsQuiet)
        (pure-IsQuiet id tt)

  stamp-IsQuiet :
      (meta : Dict Json) → IsQuiet id (stamp out d cfg queue task worker_id backend meta)
  unfolding stamp
  stamp-IsQuiet meta =
      if-IsQuiet id (text_in out.repr "workflow" meta == "") (pure tt)
        (stamp_found out d cfg queue task worker_id backend (text_in out.repr "workflow_step" meta)
          (lookup (text_in out.repr "workflow" meta) out.workflows))
        (pure-IsQuiet id tt)
        (found-IsQuiet (text_in out.repr "workflow_step" meta)
          (lookup (text_in out.repr "workflow" meta) out.workflows))

  hold_docs-IsQuiet :
      (reason : String) → IsQuiet id (hold_docs out d cfg queue task worker_id backend reason)
  unfolding hold_docs set_task_state is_refusal
  hold_docs-IsQuiet reason w = (refl, refl)

  keep_pin-IsQuiet :
      (pin : Option (Option String))
      → IsQuiet id (keep_pin out d cfg queue task worker_id backend pin)
  unfolding keep_pin
  keep_pin-IsQuiet none = pure-IsQuiet id tt
  keep_pin-IsQuiet (some pin) =
      suppress-IsQuiet id
        (run_tasks_repo_job out (
          engine_meta_job queue task
            (("docs_pin", pin_value out d cfg queue task worker_id backend pin) ∷ [])))
        (engine_job (("docs_pin", pin_value out d cfg queue task worker_id backend pin) ∷ []))

  leased-IsQuiet :
      (order : WorkOrder) (row : Option AttemptRow)
      → IsQuiet id (leased out d cfg queue task worker_id backend order row)
  unfolding leased
  leased-IsQuiet order none = pure-IsQuiet id none
  leased-IsQuiet order (some row) =
      then-IsQuiet id
        (modify (start out d cfg queue task worker_id backend)
          >> emit out (acquired out d cfg queue task worker_id backend)
          >> emit out (run_started out d cfg queue task worker_id backend order))
        (pure (some order.wire))
        (then-IsQuiet id
          (modify (start out d cfg queue task worker_id backend)
            >> emit out (acquired out d cfg queue task worker_id backend))
          (emit out (run_started out d cfg queue task worker_id backend order))
          (then-IsQuiet id (modify (start out d cfg queue task worker_id backend))
            (emit out (acquired out d cfg queue task worker_id backend))
            (modify-IsQuiet id (start out d cfg queue task worker_id backend) (λ w. refl))
            (emitted (acquired out d cfg queue task worker_id backend)))
          (emitted (run_started out d cfg queue task worker_id backend order)))
        (pure-IsQuiet id (some order.wire))

  order-IsQuiet :
      (meta : Dict Json) (repo : Option String) (mcps : List String) (base_ref : Option String)
      (r : OrderResult)
      → IsQuiet id (lease_order out d cfg queue task worker_id backend meta repo mcps base_ref r)
  unfolding lease_order new_attempt
  order-IsQuiet meta repo mcps base_ref (docs_blocked reason) =
      then-IsQuiet id (hold_docs out d cfg queue task worker_id backend reason) (pure none)
        (hold_docs-IsQuiet reason) (pure-IsQuiet id none)
  order-IsQuiet meta repo mcps base_ref (order_built order) =
      bind-IsQuiet id
        (keep_pin out d cfg queue task worker_id backend order.docs_pin
          >> on_store (
              create_attempt d.now
                (new_attempt out d cfg queue task worker_id backend meta repo mcps base_ref order)))
        (leased out d cfg queue task worker_id backend order)
        (then-IsQuiet id (keep_pin out d cfg queue task worker_id backend order.docs_pin)
          (on_store (
            create_attempt d.now
              (new_attempt out d cfg queue task worker_id backend meta repo mcps base_ref order)))
          (keep_pin-IsQuiet order.docs_pin)
          (on_store-IsQuiet id
            (create_attempt d.now
              (new_attempt out d cfg queue task worker_id backend meta repo mcps base_ref order))
            (λ s.
              create_attempt-OnStore id d.now
                (new_attempt out d cfg queue task worker_id backend meta repo mcps base_ref order) s
                fresh)))
        (leased-IsQuiet order)

  build-IsQuiet :
      (repo base_ref : Option String)
      → IsQuiet id (build out d cfg queue task worker_id backend repo base_ref)
  build-IsQuiet repo base_ref w =
      result-IsQuiet id (d.build_work_order w.jobs queue task repo d.run_id base_ref) w

  dispatch-IsQuiet :
      (repo : Option String) (mcps : List String) (meta : Dict Json)
      → IsQuiet id (dispatch out d cfg queue task worker_id backend repo mcps meta)
  unfolding dispatch
  dispatch-IsQuiet repo mcps meta =
      bind-IsQuiet id
        (sync_main out d cfg queue task worker_id backend meta repo
          >> base_ref_of out d cfg queue task worker_id backend repo)
        (λ base_ref.
          stamp out d cfg queue task worker_id backend meta
          >> build out d cfg queue task worker_id backend repo base_ref
          >>= lease_order out d cfg queue task worker_id backend meta repo mcps base_ref)
        (then-IsQuiet id (sync_main out d cfg queue task worker_id backend meta repo)
          (base_ref_of out d cfg queue task worker_id backend repo) (sync_main-IsQuiet meta repo)
          (base_ref-IsQuiet repo))
        (λ base_ref.
          bind-IsQuiet id
            (stamp out d cfg queue task worker_id backend meta
              >> build out d cfg queue task worker_id backend repo base_ref)
            (lease_order out d cfg queue task worker_id backend meta repo mcps base_ref)
            (then-IsQuiet id (stamp out d cfg queue task worker_id backend meta)
              (build out d cfg queue task worker_id backend repo base_ref) (stamp-IsQuiet meta)
              (build-IsQuiet repo base_ref))
            (order-IsQuiet meta repo mcps base_ref))

  lease-IsQuiet :
      (repo : Option String) (mcps : List String)
      → IsQuiet id (lease_and_build out d cfg queue task worker_id backend repo mcps)
  unfolding lease_and_build
  lease-IsQuiet repo mcps w =
      then-IsQuiet id (modify (clear_stale out d cfg queue task worker_id backend))
        (dispatch out d cfg queue task worker_id backend repo mcps
          (meta_in out d cfg queue task worker_id backend w))
        stale-IsQuiet
        (dispatch-IsQuiet repo mcps (meta_in out d cfg queue task worker_id backend w)) w

  candidate-IsQuiet :
      (c : Option TaskCandidate)
      → IsQuiet id (chain_candidate out d cfg queue task worker_id backend c)
  unfolding chain_candidate
  candidate-IsQuiet none w = pure-IsQuiet id none w
  candidate-IsQuiet (some c) w =
      if_ind (QuietAt id w) (may_chain out d cfg queue task worker_id backend c w)
        (lease-IsQuiet c.repo c.required_mcps w) (pure-IsQuiet id none w)

  -- The chaining of an order leaves the row of an attempt with another id and refuses nothing.
  pub maybe_chain-IsQuiet :
      (t : Transition) → IsQuiet id (maybe_chain out d cfg queue task worker_id backend t)
  unfolding maybe_chain
  maybe_chain-IsQuiet t w =
      if_ind (QuietAt id w)
        (is_step out d cfg queue task worker_id backend (lookup "workflow_step" t.response))
        (bind-IsQuiet id (from_result (candidates out d cfg queue task worker_id backend w))
          (λ cs.
            chain_candidate out d cfg queue task worker_id backend
              (candidate_of_task out d cfg queue task worker_id backend cs))
          (result-IsQuiet id (candidates out d cfg queue task worker_id backend w))
          (λ cs. candidate-IsQuiet (candidate_of_task out d cfg queue task worker_id backend cs)) w)
        (pure-IsQuiet id none w)

-- A submit that is refused has changed nothing but the list of submitted jobs; after a submit that is
-- answered, with the next order chained to it or not, the attempt is no longer a running one of the
-- worker. The ids that the manager makes up for a resolve and for the next lease differ from the run's.
pub worker_submit-IsFencedAt :
    (out : Outside) (d : Dispatch) (cfg : ManagerConfig) (run_id : String) (body : SubmitBody)
    (backend : Option String) (w : World)
    → (out.new_run_id == run_id) ≡ false
    → (d.run_id == run_id) ≡ false
    → IsFencedAt run_id body.worker_id (Dict Json) w (
        worker_submit out cfg run_id body
          (maybe_chain out d cfg (queue_of out cfg run_id body) body.task body.worker_id backend)
          w)
worker_submit-IsFencedAt out d cfg run_id body backend w fresh new =
    any_chain-IsFencedAt out cfg run_id body fresh
      (maybe_chain out d cfg (queue_of out cfg run_id body) body.task body.worker_id backend)
      (maybe_chain-IsQuiet run_id out d new cfg (queue_of out cfg run_id body) body.task
        body.worker_id backend)
      w
