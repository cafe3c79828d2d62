-- ===== src/Manager/Recovered.antt =====
-- `_recover_interrupted_lands` of src/nightshift/manager/reconciler.py.
use nightshift.Base.{
  ℕ, String, Bool, true, false, Option, none, some, List, [], ◌∷◌, ◌++◌, ◌≡◌, refl, ◌∙◌, ap, subst,
  ◌==◌, lookup, if◌then◌else◌, arith, eq_iff, Bool-cases, Result-cases, inl, inr, Result, ok, err,
}
use nightshift.Lifecycle.{
  AttemptState, AttemptRef, Outcome, SubmitPolicy, FailureKind, LandKind, LandOutcome, Transition,
  is_live, state_value, error_state_for, land_failure_kind,
}
use nightshift.Transitions.{
  on_land_result, land_by, no_change_transition, landed_transition, refused_transition,
  land_failed_transition,
}
use nightshift.Transitions.Built.{on_land_result_total}
use nightshift.Transitions.Issued.{by_land}
use nightshift.Transitions.Addressed.{OnOk, on_land_result_ref}
use nightshift.Store.{AttemptRow, cas_matches, set_attempt}
use nightshift.Store.Fields.{Issued-IsStorable}
use nightshift.Manager.World.{
  Job, World, Reply, done, Action, ◌>>=◌, suppress, drop_job, from_result, ManagerConfig, Outside,
}
use nightshift.Manager.Finish.{run_tasks_repo_job}
use nightshift.Manager.Deadlines.{in_state, apply_and_broadcast}
use nightshift.Manager.Reconcile.{Git, dropped_if, drop_brief_of}
use nightshift.Manager.Discarded.{returned_value}
use nightshift.Manager.Moved.{IsEnding, moved, apply_and_broadcast-IsMoved}

module _ (ref : AttemptRef) (o : Outcome) (p : SubmitPolicy) (l : LandOutcome) where
  abbrev Ends : Transition → Type 0
  Ends t = is_live t.state ≡ false

  refused-Ends : (k : FailureKind) → Ends (refused_transition ref o l p k)
  unfolding refused_transition error_state_for is_live
  refused-Ends k = ground arith

  failed-Ends : OnOk Ends (land_failed_transition ref o l p)
  unfolding land_failed_transition
  failed-Ends = elim (Result-cases (land_failure_kind l.kind)) [
    | inl (k, e) ↦ rw e (refused-Ends k)
    | inr (x, e) ↦ rw e tt
  ]

  land_by-Ends : (k : LandKind) → OnOk Ends (land_by k ref o l p)
  unfolding land_by no_change_transition landed_transition is_live
  land_by-Ends LandKind.landed = refl
  land_by-Ends LandKind.no_changes = refl
  land_by-Ends LandKind.adopted = refl
  land_by-Ends LandKind.checkout_behind = refl
  land_by-Ends _ = failed-Ends

  -- The table of a land's results answers with a transition that ends the attempt.
  pub land_result-IsEnding :
      (t : Transition) × (on_land_result ref o l p ≡ ok t) × IsEnding t × (t.ref ≡ ref)
  unfolding on_land_result
  land_result-IsEnding =
      let (t, e) = returned_value (on_land_result ref o l p) (on_land_result_total ref o l p) in
      (
        t,
        e,
        record {
          fits = Issued-IsStorable t (by_land ref o l p e);
          ends = subst (OnOk Ends) e (land_by-Ends l.kind);
        },
        on_land_result_ref ref o p l e,
      )

abbrev pub landing_row : Option AttemptRow → Bool
landing_row none = false
landing_row (some r) = in_state AttemptState.landing r

-- The attempt is in the land phase.
abbrev pub is_landing_at : String → World → Bool
is_landing_at j w = landing_row (lookup j w.store.attempts)

-- After the step the attempt is not in the land phase, and no other has come into it.
pub record IsOut (id : String) (w : World) (p : Reply (Unit {0}) × World) : Type 0 where
  pub after : World
  pub returned : p ≡ (done tt, after)
  pub cleared : is_landing_at id after ≡ false
  pub kept : (j : String) → is_landing_at j w ≡ false → is_landing_at j after ≡ false

-- The step answers, and leaves the rows of the attempts.
pub record IsSilent (w : World) (p : Reply (Unit {0}) × World) : Type 0 where
  pub after : World
  pub returned : p ≡ (done tt, after)
  pub same : (j : String) → lookup j after.store.attempts ≡ lookup j w.store.attempts

dead-landing :
    (a : AttemptState)
    → is_live a ≡ false
    → (state_value a == state_value AttemptState.landing) ≡ false
unfolding is_live state_value
dead-landing AttemptState.landing h = absurd (ground arith)
dead-landing AttemptState.running h = refl
dead-landing _ h = refl

unmatched_landing :
    (now : ℕ) (t : Transition) (o : Option AttemptRow)
    → is_live t.state ≡ false
    → landing_row (moved now t AttemptState.landing o) ≡ false
unfolding moved cas_matches set_attempt
unmatched_landing now t none h = refl
unmatched_landing now t (some r) h = elim (Bool-cases (cas_matches AttemptState.landing none r)) [
  | inl same ↦ rw same (dead-landing t.state h)
  | inr other ↦ rw other (ground arith)
]

module _ (out : Outside) where
  pub applied-IsOut :
      (t : Transition) (id : String) (w : World) (f : Bool → Action (Unit {0}))
      → IsEnding t
      → t.ref.id ≡ id
      → ((b : Bool) (x : World) → IsSilent x (f b x))
      → IsOut id w ((apply_and_broadcast out t AttemptState.landing >>= f) w)
  applied-IsOut t id w f i this silent =
      let m = apply_and_broadcast-IsMoved out t AttemptState.landing w i in
      let s = silent m.applied m.after in
      record {
        after = s.after;
        returned = ap (λ p. ((λ x. p) >>= f) w) m.returned ∙ s.returned;
        cleared = ap landing_row (s.same id ∙ m.rows id) ∙ moved_row id this;
        kept = λ j h. ap landing_row (s.same j ∙ m.rows j) ∙ kept_row j h;
      }
    where
      here : String → Option AttemptRow
      here j =
          if t.ref.id == j
          then moved out.now t AttemptState.landing (lookup t.ref.id w.store.attempts)
          else lookup j w.store.attempts

      gone :
          landing_row (moved out.now t AttemptState.landing (lookup t.ref.id w.store.attempts))
          ≡ false
      gone = unmatched_landing out.now t (lookup t.ref.id w.store.attempts) i.ends

      moved_row : (j : String) → t.ref.id ≡ j → landing_row (here j) ≡ false
      moved_row j e = ground (arith, eq_iff t.ref.id j, gone)

      kept_row : (j : String) → is_landing_at j w ≡ false → landing_row (here j) ≡ false
      kept_row j h = ground (arith, h, gone)

  suppressed-IsSilent :
      (w : World) (jobs : List Job) (r : Result (Unit {0}))
      → IsSilent w (suppress (λ x. from_result r (record x { jobs = jobs })) w)
  suppressed-IsSilent w jobs (ok a) = record {
    after = record w { jobs = jobs };
    returned = refl;
    same = λ j. refl;
  }
  suppressed-IsSilent w jobs (err e) = record {
    after = record w { jobs = jobs };
    returned = refl;
    same = λ j. refl;
  }

  module _ (cfg : ManagerConfig) (git : Git) where
    pub dropped-IsSilent :
        (drop : Bool) (ref : AttemptRef) (w : World)
        → IsSilent w (dropped_if out cfg git drop ref w)
    unfolding drop_brief_of run_tasks_repo_job
    dropped-IsSilent true ref w =
        suppressed-IsSilent w (w.jobs ++ (drop_job ref.queue ref.task ∷ []))
          (out.run_job w.jobs (drop_job ref.queue ref.task))
    dropped-IsSilent false ref w = record { after = w; returned = refl; same = λ j. refl }
