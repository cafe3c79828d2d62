-- ===== src/Manager/Committed.antt =====
-- The steps after a commit of src/nightshift/manager/api_worker.py and app.py leave the row of the submitted
-- attempt alone and never answer with a refusal.
use nightshift.Base.{
  ℕ, String, Bool, true, false, Option, none, some, List, [], ◌∷◌, ◌≡◌, refl, ◌==◌, Dict, Json,
  bool, if_ind, lookup, insert, err, arith, Option-cases, inl, inr,
}
use nightshift.Lifecycle.{AttemptState, FrontmatterFlag, TaskEffects, TransitionEvent, Transition}
use nightshift.Store.{
  AttemptRow, Store, create_attempt, update_attempt, write_update, check_attempt_fields,
  unknown_fields, updated_row, write_attempt, append_event,
}
use nightshift.Manager.World.{
  Job, flag_job, artifact_job, reset_job, engine_meta_job, drop_job, ◌>>=◌, ◌>>◌, pure, modify,
  ManagerConfig, Outside, SubmitBody,
}
use nightshift.Manager.Finish.{
  on_store, launch_fields, send, zip_error, launch_failed, emit, run_tasks_repo_job, start_resolve,
  set_flags, content_effects, write_artifact, write_engine_meta, drop_brief, escalate, create_child,
  resolve_child, spawned_or_failed, spawn_resolve, resolve_started, reap, at_cap, go_idle,
  queue_effects, broadcast_all, after_commit,
}
use nightshift.Manager.Quiet.{
  is_refusal, QuietAt, IsQuiet, OnStore, bind-IsQuiet, then-IsQuiet, pure-IsQuiet, if-IsQuiet,
  modify-IsQuiet, suppress-IsQuiet, result-IsQuiet, on_store-IsQuiet, create_attempt-OnStore,
  write_attempt-OnTable, stored-OnStore,
}

module _ (id : String) where
  module _ (out : Outside) (fresh : (out.new_run_id == id) ≡ false) where
    pub emit-IsQuiet : (event : TransitionEvent) → IsQuiet id (emit out event)
    unfolding emit append_event is_refusal
    emit-IsQuiet event w = (refl, refl)

    pub job-IsQuiet : (job : Job) → IsQuiet id (run_tasks_repo_job out job)
    unfolding run_tasks_repo_job
    job-IsQuiet job w = result-IsQuiet id (out.run_job w.jobs job) (record w { jobs = _ })

    abbrev failed_child : AttemptRow → AttemptRow
    failed_child r = updated_row out.now launch_fields (some AttemptState.failed) r

    launch_failed-OnStore : (s : Store) → OnStore id s (launch_failed out s)
    unfolding launch_failed update_attempt write_update check_attempt_fields unknown_fields
        updated_row
    launch_failed-OnStore s = elim (Option-cases (lookup out.new_run_id s.attempts)) [
      | inl absent ↦ rw absent refl
      | inr (r, found) ↦ rw found (
          stored-OnStore id s (write_attempt out.new_run_id (failed_child r) s.attempts)
            (write_attempt-OnTable id out.new_run_id (failed_child r) s.attempts fresh))
    ]

    module _ (queue : Option String) (task : String) where
      spawned_or_failed-IsQuiet :
          (repo : Option String) → IsQuiet id (spawned_or_failed out queue task repo)
      unfolding spawned_or_failed
      spawned_or_failed-IsQuiet repo =
          if-IsQuiet id (out.spawned out.new_run_id)
            (modify (spawn_resolve out repo)
              >> emit out (resolve_started out queue task)
              >> pure true)
            (on_store (launch_failed out) >> pure false)
            (then-IsQuiet id
              (modify (spawn_resolve out repo) >> emit out (resolve_started out queue task))
              (pure true)
              (then-IsQuiet id (modify (spawn_resolve out repo))
                (emit out (resolve_started out queue task))
                (modify-IsQuiet id (spawn_resolve out repo) (λ x. refl))
                (emit-IsQuiet (resolve_started out queue task)))
              (pure-IsQuiet id true))
            (then-IsQuiet id (on_store (launch_failed out)) (pure false)
              (on_store-IsQuiet id (launch_failed out) launch_failed-OnStore)
              (pure-IsQuiet id false))

      start_resolve-IsQuiet :
          (cfg : ManagerConfig) (repo : Option String) (title : String)
          → IsQuiet id (start_resolve out cfg queue task repo title)
      unfolding start_resolve create_child is_refusal
      start_resolve-IsQuiet cfg repo title w =
          if_ind (QuietAt id w) (at_cap out cfg repo (reap out w)) (refl, refl)
            (then-IsQuiet id (create_child out cfg queue task repo title)
              (spawned_or_failed out queue task repo)
              (on_store-IsQuiet id
                (create_attempt out.now (resolve_child out cfg queue task repo title))
                (λ s.
                  create_attempt-OnStore id out.now (resolve_child out cfg queue task repo title) s
                    fresh))
              (spawned_or_failed-IsQuiet repo) (reap out w))

      set_flags-IsQuiet :
          (flags : List FrontmatterFlag) → IsQuiet id (set_flags out queue task flags)
      unfolding set_flags
      set_flags-IsQuiet [] = pure-IsQuiet id tt
      set_flags-IsQuiet (flag ∷ flags) =
          then-IsQuiet id (run_tasks_repo_job out (flag_job queue task flag))
            (set_flags out queue task flags) (job-IsQuiet (flag_job queue task flag))
            (set_flags-IsQuiet flags)

      write_artifact-IsQuiet :
          (artifact : Option (String × String))
          → IsQuiet id (write_artifact out queue task artifact)
      unfolding write_artifact
      write_artifact-IsQuiet none = pure-IsQuiet id tt
      write_artifact-IsQuiet (some (name, text)) = job-IsQuiet (artifact_job queue task name text)

      engine_meta-IsQuiet :
          (reset : Bool) (changes : Option (Dict Json))
          → IsQuiet id (write_engine_meta out queue task reset changes)
      unfolding write_engine_meta
      engine_meta-IsQuiet true changes = job-IsQuiet (reset_job queue task)
      engine_meta-IsQuiet false none = pure-IsQuiet id tt
      engine_meta-IsQuiet false (some changes) = job-IsQuiet (engine_meta_job queue task changes)

      content-IsQuiet : (e : TaskEffects) → IsQuiet id (content_effects out queue task e)
      unfolding content_effects
      content-IsQuiet e =
          then-IsQuiet id
            (set_flags out queue task e.frontmatter
              >> write_artifact out queue task e.write_artifact)
            (write_engine_meta out queue task e.workflow_reset e.engine_meta)
            (then-IsQuiet id (set_flags out queue task e.frontmatter)
              (write_artifact out queue task e.write_artifact) (set_flags-IsQuiet e.frontmatter)
              (write_artifact-IsQuiet e.write_artifact))
            (engine_meta-IsQuiet e.workflow_reset e.engine_meta)

      drop_brief-IsQuiet : (drop : Bool) → IsQuiet id (drop_brief out queue task drop)
      unfolding drop_brief
      drop_brief-IsQuiet false = pure-IsQuiet id tt
      drop_brief-IsQuiet true =
          suppress-IsQuiet id (run_tasks_repo_job out (drop_job queue task))
            (job-IsQuiet (drop_job queue task))

    broadcast_all-IsQuiet :
        (ids : List ℕ) (events : List TransitionEvent) → IsQuiet id (broadcast_all out ids events)
    unfolding broadcast_all
    broadcast_all-IsQuiet [] [] = pure-IsQuiet id tt
    broadcast_all-IsQuiet (i ∷ ids) (event ∷ events) =
        then-IsQuiet id (modify (send i event)) (broadcast_all out ids events)
          (modify-IsQuiet id (send i event) (λ w. refl)) (broadcast_all-IsQuiet ids events)
    broadcast_all-IsQuiet [] (event ∷ events) = result-IsQuiet id (err zip_error)
    broadcast_all-IsQuiet (i ∷ ids) [] = result-IsQuiet id (err zip_error)

    module _ (cfg : ManagerConfig) (body : SubmitBody) (queue repo : Option String) where
      escalate-IsQuiet : (t : Transition) → IsQuiet id (escalate out cfg body queue repo t)
      unfolding escalate
      escalate-IsQuiet t =
          if-IsQuiet id t.effects.start_resolve
            (start_resolve out cfg queue body.task repo body.title >>= λ started.
              pure (insert "resolving" (bool started) t.response))
            (pure t.response)
            (bind-IsQuiet id (start_resolve out cfg queue body.task repo body.title)
              (λ started. pure (insert "resolving" (bool started) t.response))
              (start_resolve-IsQuiet queue body.task cfg repo body.title)
              (λ started. pure-IsQuiet id (insert "resolving" (bool started) t.response)))
            (pure-IsQuiet id t.response)

      effects-IsQuiet :
          (e : TaskEffects)
          → IsQuiet id (modify (queue_effects out queue body.task e body.worker_id))
      unfolding queue_effects
      effects-IsQuiet e =
          modify-IsQuiet id (queue_effects out queue body.task e body.worker_id) (λ w. ground arith)

      go_idle-IsQuiet : (idle : Bool) → IsQuiet id (modify (go_idle out idle body.worker_id))
      go_idle-IsQuiet true = modify-IsQuiet id (go_idle out true body.worker_id) (λ w. refl)
      go_idle-IsQuiet false = modify-IsQuiet id (go_idle out false body.worker_id) (λ w. refl)

      pub after_commit-IsQuiet :
          (t : Transition) (idle : Bool) (ids : List ℕ)
          → IsQuiet id (after_commit out cfg body queue repo t idle ids)
      unfolding after_commit
      after_commit-IsQuiet t idle ids =
          then-IsQuiet id _ (escalate out cfg body queue repo t)
            (then-IsQuiet id _ (broadcast_all out ids t.events)
              (then-IsQuiet id _ (modify (go_idle out idle body.worker_id))
                (then-IsQuiet id _ (drop_brief out queue body.task t.effects.drop_brief)
                  (then-IsQuiet id (content_effects out queue body.task t.effects)
                    (modify (queue_effects out queue body.task t.effects body.worker_id))
                    (content-IsQuiet queue body.task t.effects) (effects-IsQuiet t.effects))
                  (drop_brief-IsQuiet queue body.task t.effects.drop_brief))
                (go_idle-IsQuiet idle))
              (broadcast_all-IsQuiet ids t.events))
            (escalate-IsQuiet t)
