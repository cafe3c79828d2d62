-- ===== src/Manager/Once.antt =====
-- `worker_submit` of src/nightshift/manager/api_worker.py as a whole: who may write, and how often.
use nightshift.Base.{
  ℕ, String, Bool, true, false, Option, none, some, List, [], ◌∷◌, ◌++◌, ◌≡◌, refl, sym, ap, ◌==◌,
  Dict, Json, lookup, Result, ok, err, inr, is_some, if◌then◌else◌,
}
use nightshift.Lifecycle.{
  AttemptRef, AttemptState, Transition, Outcome, SubmitPolicy, GitPhase, LandOutcome, Submitted,
  apply, phase,
}
use nightshift.Transitions.{
  on_submit, on_land_enqueued, on_land_result, on_split_result, on_workflow_land, on_workflow_split,
}
use nightshift.Transitions.Issued.{
  Issued, by_submit, by_land, by_split, by_workflow_land, by_workflow_split,
}
use nightshift.Transitions.States.{Issued-IsSettled}
use nightshift.Transitions.Addressed.{
  on_submit_ref, on_land_result_ref, on_workflow_land_ref, on_workflow_split_ref,
}
use nightshift.Store.{AttemptRow, Store, apply_transition, cas_matches}
use nightshift.Store.Cas.{apply_transition_stale}
use nightshift.Manager.World.{
  Job, harvest_job, adopt_job, refuse, World, Reply, Action, ◌>>=◌, pure, from_result,
  ManagerConfig, Outside, SubmitBody,
}
use nightshift.Manager.Finish.{on_store}
use nightshift.Manager.Verdict.{stale_submit, landed_by, split_by, text_column, retains, submitted}
use nightshift.Manager.Submit.{
  queue_of, ref_of, with_loc, request, enqueued, finish_or_refuse, git_phase, with_order, chained,
  submit_policy, submit_step, admitted, fenced, looked_up, worker_submit,
}
use nightshift.Manager.Policy.{capped}
use nightshift.Manager.Quiet.{is_refusal, IsQuiet, bind-IsQuiet, pure-IsQuiet}
use nightshift.Manager.Fenced.{
  OnlyJobs, IsFencedAt, after_consumed, raised_fenced, refused_fenced, bind_fenced, same_jobs,
  Settles, apply-IsConsumed, finish_or_refuse-fenced,
}

ok_injective : {t u : Transition} → ok t ≡ ok u → t ≡ u
ok_injective h = cc

-- What the land tables answer is one of the transitions, for this attempt.
pub landed_by-Issued :
    (ref : AttemptRef) (o : Outcome) (p : SubmitPolicy) (l : LandOutcome) (t : Transition)
    → landed_by ref o p l ≡ ok t
    → (t.ref ≡ ref) × Issued t
unfolding landed_by
landed_by-Issued ref o p l t e = by_step (is_some p.workflow_step) e
  where
    by_step :
        (b : Bool)
        → (if b then on_workflow_land ref o l p else on_land_result ref o l p) ≡ ok t
        → (t.ref ≡ ref) × Issued t
    by_step true h = (on_workflow_land_ref ref o p l h, by_workflow_land ref o l p h)
    by_step false h = (on_land_result_ref ref o p l h, by_land ref o l p h)

module _ (out : Outside) (cfg : ManagerConfig) (run_id : String) (body : SubmitBody)
    (fresh : (out.new_run_id == run_id) ≡ false) where
  abbrev Fenced : World → Reply (Dict Json) × World → Type 0
  Fenced w p = IsFencedAt run_id body.worker_id (Dict Json) w p

  abbrev Same : World → World → Type 0
  Same w w' = OnlyJobs run_id body.worker_id w w'

  abbrev IsSettling : Transition → Type 0
  IsSettling t = Settles out cfg body run_id fresh t

  abbrev queue : Option String
  queue = queue_of out cfg run_id body

  abbrev ref : AttemptRef
  ref = ref_of out cfg run_id body

  settling : (t : Transition) → t.ref ≡ ref → Issued t → IsSettling t
  settling t this i = record { this = ap (λ r. r.id) this; settled = Issued-IsSettled t i }

  landed-Settles :
      (o : Outcome) (p : SubmitPolicy) (l : LandOutcome) (t : Transition)
      → landed_by ref o p l ≡ ok t
      → IsSettling t
  landed-Settles o p l t e = let (this, i) = landed_by-Issued ref o p l t e in settling t this i

  split_ref :
      (o : Outcome) (created : List String) (t : Transition)
      → ok (on_split_result ref o created) ≡ ok t
      → t.ref ≡ ref
  unfolding on_split_result
  split_ref o created t h = ap (λ u. u.ref) (sym (ok_injective h))

  split-Settles :
      (o : Outcome) (p : SubmitPolicy) (created : List String) (t : Transition)
      → split_by ref o p created ≡ ok t
      → IsSettling t
  unfolding split_by
  split-Settles o p created t e = by_step (is_some p.workflow_step) e
    where
      by_step :
          (b : Bool)
          → (if b then on_workflow_split ref o created p else ok (on_split_result ref o created))
            ≡ ok t
          → IsSettling t
      by_step true h =
          settling t (on_workflow_split_ref ref o p created h) (by_workflow_split ref o created p h)
      by_step false h =
          settling t (split_ref o created t h) (by_split ref o created (ok_injective h))

  module _ (run lease : AttemptRow) (o : Outcome) (p : SubmitPolicy) (w0 : World) where
    transition-Fenced :
        (r : Result Transition) (w : World)
        → Same w0 w
        → ((t : Transition) → r ≡ ok t → IsSettling t)
        → Fenced w0 ((from_result r >>= finish_or_refuse out cfg run_id body run) w)
    transition-Fenced (ok t) w same h =
        finish_or_refuse-fenced out cfg body run_id fresh run t (h t refl) w0 w same
    transition-Fenced (err e) w same h = raised_fenced run_id body.worker_id w0 w e

    harvest-Fenced :
        (r : Result (List String)) (w : World)
        → Same w0 w
        → Fenced w0 (
            (from_result r >>= λ created.
            from_result (split_by ref o p created) >>= finish_or_refuse out cfg run_id body run)
              w)
    harvest-Fenced (ok created) w same =
        transition-Fenced (split_by ref o p created) w same (split-Settles o p created)
    harvest-Fenced (err e) w same = raised_fenced run_id body.worker_id w0 w e

    abbrev located : LandOutcome → LandOutcome
    located result = with_loc out cfg run_id body (text_column "repo" run) result

    adopt-Fenced :
        (r : Result LandOutcome) (w : World)
        → Same w0 w
        → Fenced w0 (
            (from_result r >>= λ result.
            from_result (landed_by ref o p (located result))
            >>= finish_or_refuse out cfg run_id body run)
              w)
    adopt-Fenced (ok result) w same =
        transition-Fenced (landed_by ref o p (located result)) w same
          (landed-Settles o p (located result))
    adopt-Fenced (err e) w same = raised_fenced run_id body.worker_id w0 w e

    abbrev enqueue : Transition
    enqueue = on_land_enqueued ref o.branch_ref o.head_sha

    enqueue_settles : IsSettling enqueue
    unfolding on_land_enqueued
    enqueue_settles = record { this = refl; settled = inr refl }

    land-Fenced :
        (r : Result (Option (List ℕ) × Store)) (w : World)
        → Same w0 w
        → apply_transition out.now enqueue AttemptState.running (some body.worker_id) w.store ≡ r
        → Fenced w0 ((on_store (λ s. r) >>= enqueued out cfg run_id body run lease) w)
    unfolding enqueued is_refusal
    land-Fenced (err e) w same h = raised_fenced run_id body.worker_id w0 w e
    land-Fenced (ok (none, s')) w same h =
        refused_fenced run_id body.worker_id w0 (record w { store = s' }) 409 stale_submit
          (same_jobs out cfg body run_id fresh w0 w s' same (
            apply_transition_stale out.now enqueue AttemptState.running (some body.worker_id)
              w.store s' h))
    land-Fenced (ok (some ids, s')) w same h =
        after_consumed run_id body.worker_id w0 (record w { store = s' })
          (enqueued out cfg run_id body run lease (some ids) (record w { store = s' }))
          (apply-IsConsumed out cfg body run_id fresh enqueue w AttemptState.running ids s'
            enqueue_settles h)
          (refl, refl)

    abbrev harvest : Job
    harvest = harvest_job (text_column "repo" run) body.task queue (retains p)

    abbrev adopt : Job
    adopt = adopt_job (request out cfg run_id body run lease)

    more_jobs : (job : Job) (w : World) → Same w0 w → Same w0 (submitted job w)
    more_jobs job w same = ap (λ (x : World). record x { jobs = w.jobs ++ (job ∷ []) }) same

    git_phase-Fenced :
        (g : GitPhase) (w : World)
        → Same w0 w
        → Fenced w0 (git_phase out cfg run_id body run lease o p g w)
    unfolding git_phase
    git_phase-Fenced GitPhase.harvest_split w same =
        harvest-Fenced (out.harvested w.jobs harvest) (submitted harvest w)
          (more_jobs harvest w same)
    git_phase-Fenced GitPhase.adopt_check w same =
        adopt-Fenced (out.adopted w.jobs adopt) (submitted adopt w) (more_jobs adopt w same)
    git_phase-Fenced GitPhase.land w same =
        land-Fenced
          (apply_transition out.now enqueue AttemptState.running (some body.worker_id) w.store) w
          same refl

  module _ (chain : Transition → Action (Option Json))
      (quiet : (t : Transition) → IsQuiet run_id (chain t)) where
    chained-Fenced :
        (run : AttemptRow) (t : Transition) (w : World)
        → IsSettling t
        → Fenced w (chained out cfg run_id body chain run t w)
    unfolding chained
    chained-Fenced run t w settles =
        bind_fenced run_id body.worker_id
          (λ answer. chain t >>= λ order. pure (with_order out cfg run_id body chain answer order))
          w (finish_or_refuse out cfg run_id body run t w)
          (finish_or_refuse-fenced out cfg body run_id fresh run t settles w w refl)
          (λ answer.
            bind-IsQuiet run_id (chain t)
              (λ order. pure (with_order out cfg run_id body chain answer order)) (quiet t)
              (λ order. pure-IsQuiet run_id (with_order out cfg run_id body chain answer order)))

    step-Fenced :
        (run lease : AttemptRow) (o : Outcome) (p : SubmitPolicy) (r : Result Submitted) (w : World)
        → on_submit ref o p ≡ r
        → Fenced w ((from_result r >>= submit_step out cfg run_id body chain run lease o p) w)
    unfolding submit_step
    step-Fenced run lease o p (ok (apply t)) w e =
        chained-Fenced run t w (settling t (on_submit_ref ref o p e) (by_submit ref o p e))
    step-Fenced run lease o p (ok (phase g)) w e = git_phase-Fenced run lease o p w g w refl
    step-Fenced run lease o p (err x) w e = raised_fenced run_id body.worker_id w w x

    policy-Fenced :
        (run lease : AttemptRow) (r : Result SubmitPolicy) (w : World)
        → Fenced w (
            (from_result r >>= λ policy.
            from_result (on_submit ref (capped body.outcome) policy)
            >>= submit_step out cfg run_id body chain run lease (capped body.outcome) policy)
              w)
    policy-Fenced run lease (ok p) w =
        step-Fenced run lease (capped body.outcome) p (on_submit ref (capped body.outcome) p) w refl
    policy-Fenced run lease (err x) w = raised_fenced run_id body.worker_id w w x

    lease_fenced :
        (run : AttemptRow) (lease : Option AttemptRow) (w : World)
        → Fenced w (fenced out cfg run_id body chain run lease w)
    unfolding fenced admitted
    lease_fenced run none w = refused_fenced run_id body.worker_id w w 409 stale_submit refl
    lease_fenced run (some lease) w =
        by_match (cas_matches AttemptState.running (some body.worker_id) lease)
      where
        by_match :
            (b : Bool)
            → Fenced w (
                (if b
                    then admitted out cfg run_id body chain run lease
                    else refuse 409 stale_submit)
                  w)
        by_match true = policy-Fenced run lease (submit_policy out cfg run_id body run w) w
        by_match false = refused_fenced run_id body.worker_id w w 409 stale_submit refl

    -- With any chaining of orders that leaves the attempt alone.
    pub any_chain-IsFencedAt :
        (w : World)
        → IsFencedAt run_id body.worker_id (Dict Json) w (worker_submit out cfg run_id body chain w)
    unfolding worker_submit
    any_chain-IsFencedAt w =
        by_run (lookup run_id w.store.attempts) (lookup body.lease_id w.store.attempts)
      where
        by_run :
            (found lease : Option AttemptRow)
            → Fenced w (looked_up out cfg run_id body chain found lease w)
        by_run none lease = refused_fenced run_id body.worker_id w w 404 "unknown run" refl
        by_run (some run) lease = lease_fenced run lease w
