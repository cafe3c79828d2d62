-- ===== src/Manager/Discarded.antt =====
-- `_complete_land` of src/nightshift/manager/api_worker.py: a land whose attempt was consumed meanwhile.
use nightshift.Base.{
  ℕ, String, Bool, false, Option, none, some, ◌≡◌, refl, ◌∙◌, ap, lookup, Result, ok, err,
  if◌then◌else◌, is_some, arith, Option-cases, inl, inr,
}
use nightshift.Lifecycle.{AttemptState, AttemptRef, Outcome, SubmitPolicy, LandOutcome, Transition}
use nightshift.Transitions.{on_land_result, on_workflow_land}
use nightshift.Transitions.Built.{Built, Returns, on_land_result_total, on_workflow_land_total}
use nightshift.Transitions.Issued.{Issued, by_land, by_workflow_land}
use nightshift.Store.{AttemptRow, Store, apply_transition, cas_matches, check_attempt_fields}
use nightshift.Store.Cas.{rejected, stale, matched, ending}
use nightshift.Store.Fields.{Issued-IsStorable}
use nightshift.Manager.World.{World, done, ◌>>=◌, from_result, ManagerConfig, Outside, SubmitBody}
use nightshift.Manager.Finish.{on_store, after_cas, emit, finish}
use nightshift.Manager.Once.{landed_by-Issued}
use nightshift.Manager.Verdict.{landed_by, LandResult}
use nightshift.Manager.Submit.{queue_of, ref_of, land_outcome, discarded, traced, complete_land}

-- The attempt is in the state and the worker's.
abbrev pub holds_state : AttemptState → String → Option AttemptRow → Bool
holds_state e worker none = false
holds_state e worker (some r) = cas_matches e (some worker) r

pub returned_value : (r : Result Transition) → Returns Built r → (t : Transition) × (r ≡ ok t)
returned_value (ok t) h = (t, refl)
returned_value (err e) h = absurd h

module _ (ref : AttemptRef) (o : Outcome) (p : SubmitPolicy) (l : LandOutcome) where
  abbrev land_table : Bool → Result Transition
  land_table b = if b then on_workflow_land ref o l p else on_land_result ref o l p

  landed_by_total : (t : Transition) × (landed_by ref o p l ≡ ok t) × Issued t
  unfolding landed_by
  landed_by_total = elim (Option-cases p.workflow_step) [
    | inl absent ↦
        let (t, e) = returned_value (on_land_result ref o l p) (on_land_result_total ref o l p) in
        (t, ap (λ s. land_table (is_some s)) absent ∙ e, by_land ref o l p e)
    | inr (s, given) ↦
        let (t, e) =
          returned_value (on_workflow_land ref o l p) (on_workflow_land_total ref o l p s given) in
        (t, ap (λ s. land_table (is_some s)) given ∙ e, by_workflow_land ref o l p e)
  ]

unmatched :
    (now : ℕ) (t : Transition) (e : AttemptState) (worker : String) (s : Store)
    → check_attempt_fields t.fields ≡ ok tt
    → holds_state e worker (lookup t.ref.id s.attempts) ≡ false
    → apply_transition now t e (some worker) s ≡ ok (none, s)
unmatched now t e worker s fits h = elim (ending now t s e (some worker)) [
  | rejected x bad k ↦ cc
  | stale k ↦ k
  | matched r found same k ↦ absurd (ground (arith, found, same))
]

module _ (out : Outside) (cfg : ManagerConfig) (run_id : String) (body : SubmitBody) where
  abbrev ref_here : AttemptRef
  ref_here = ref_of out cfg run_id body

  -- A land that comes back when its attempt is no longer a landing one of the worker answers
  -- without an exception and does one thing: it adds the `task_log` event of the discarded result
  -- to the event log and sends it. Attempts, tasks and everything else stay as they are.
  pub complete_land-discarded :
      (repo : Option String) (o : Outcome) (p : SubmitPolicy) (l : LandResult) (w : World)
      → holds_state AttemptState.landing body.worker_id (lookup run_id w.store.attempts) ≡ false
      → complete_land out cfg run_id body repo o p l w ≡ (
        done tt,
        (emit out (discarded out cfg run_id body (land_outcome out cfg run_id body repo l)) w).1,
      )
  unfolding complete_land finish
  complete_land-discarded repo o p l w gone =
      let result : LandOutcome = land_outcome out cfg run_id body repo l in
      let (t, e, i) = landed_by_total ref_here o p result in
      ap
        (λ r.
          (from_result r >>= λ t.
          finish out cfg body (queue_of out cfg run_id body) repo t false AttemptState.landing
          >>= traced out cfg run_id body result)
            w)
        e
      ∙ ap
          (λ r.
            ((on_store (λ s. r)
                  >>= after_cas out cfg body (queue_of out cfg run_id body) repo t false)
                >>= traced out cfg run_id body result)
              w)
          (unmatched out.now t AttemptState.landing body.worker_id w.store (Issued-IsStorable t i) (
            ap (λ id. holds_state AttemptState.landing body.worker_id (lookup id w.store.attempts))
              (ap (λ (r : AttemptRef). r.id) (landed_by-Issued ref_here o p result t e).0)
            ∙ gone))
