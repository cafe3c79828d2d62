-- ===== src/Transitions/Cursor.antt =====
-- The workflow cursor in src/nightshift/transitions.py: what moves it, and how entries are counted.
use nightshift.Base.{
  String, true, false, Option, none, some, ◌≡◌, ◌≢◌, refl, sym, ◌∙◌, ap, subst, ◌==◌, eq_iff,
  is_some, lookup-insert, succ_ℤ, if◌then◌else◌, ok, arith, Option-cases, Bool-cases, ◌⊎◌, inl, inr,
}
use nightshift.Workflows.Step.{StepKind, end_step}
use nightshift.Lifecycle.{
  RunStatus, FailureKind, RetryAction, Outcome, AttemptRef, SubmitPolicy, WorkflowStepPolicy,
  Transition, apply,
}
use nightshift.Transitions.Rungs.{failure_ladder}
use nightshift.Transitions.Failures.{
  blocked_transition, error_by, error_transition, neutral_transition,
}
use nightshift.Transitions.Steps.{
  workflow_end, workflow_budget_quarantine, workflow_doc_advance, get_visits, next_visits,
  advance_visits, no_document, produced_step, doc_step, completed_step, step_by,
}
use nightshift.Transitions.Built.{OnApply, on_submit-none, on_submit-some}
use nightshift.Transitions.Issued.{apply_of}
use nightshift.Transitions.Submit.{submit_by, on_submit}

abbrev pub without_step : SubmitPolicy → SubmitPolicy
without_step p = record p { workflow_step = none }

module _ (ref : AttemptRef) (o : Outcome) (p : SubmitPolicy) where
  error_by-without_step :
      (a : RetryAction) (k : FailureKind)
      → error_by a k ref o p ≡ error_by a k ref o (without_step p)
  unfolding error_by failure_ladder
  error_by-without_step RetryAction.retry_elsewhere k = refl
  error_by-without_step _ k = refl

  error-without_step : error_transition ref o p ≡ error_transition ref o (without_step p)
  unfolding error_transition
  error-without_step = error_by-without_step _ _

  step_by-without_step :
      (r : RunStatus) (s : WorkflowStepPolicy)
      → r ≢ RunStatus.completed
      → step_by r ref o p s ≡ submit_by r ref o (without_step p)
  unfolding step_by submit_by
  step_by-without_step RunStatus.blocked s h = refl
  step_by-without_step RunStatus.error s h = ap apply error-without_step
  step_by-without_step RunStatus.completed s h = absurd (h refl)
  step_by-without_step _ s h = refl

  submit_by-without_step :
      (r : RunStatus)
      → r ≢ RunStatus.completed
      → submit_by r ref o p ≡ submit_by r ref o (without_step p)
  unfolding submit_by
  submit_by-without_step RunStatus.blocked h = refl
  submit_by-without_step RunStatus.error h = ap apply error-without_step
  submit_by-without_step RunStatus.completed h = absurd (h refl)
  submit_by-without_step _ h = refl

-- A submit that is not completed is handled exactly as for a task without a workflow: the cursor
-- and the visit counters stay as they are.
on_submit-without_step :
    (ref : AttemptRef) (o : Outcome) (p : SubmitPolicy)
    → o.status ≢ RunStatus.completed
    → on_submit ref o p ≡ on_submit ref o (without_step p)
on_submit-without_step ref o p h = elim (Option-cases p.workflow_step) [
  | inl e ↦ on_submit-none ref o p e ∙ ap ok (submit_by-without_step ref o p o.status h) ∙ plain
  | inr (s, e) ↦
      on_submit-some ref o p s e ∙ ap ok (step_by-without_step ref o p o.status s h) ∙ plain
]
  where
    plain : ok (submit_by o.status ref o (without_step p)) ≡ on_submit ref o (without_step p)
    plain = sym (on_submit-none ref o (without_step p) refl)

-- What a submit that moves the cursor must have been.
pub record IsRouted (o : Outcome) (p : SubmitPolicy) (t : Transition) : Type 0 where
  pub step : WorkflowStepPolicy
  pub given : p.workflow_step ≡ some step
  pub completed : o.status ≡ RunStatus.completed
  pub is_doc : step.kind ≡ StepKind.doc
  pub produced : is_some o.document ≡ true
  pub onward : step.route_to ≢ end_step
  pub within_budget : step.dest_visits_exhausted ≡ false
  pub cursor : t.effects.engine_meta ≡ some (advance_visits step)

module _ (ref : AttemptRef) (o : Outcome) (p : SubmitPolicy) where
  abbrev Keeps : Transition → Type 0
  Keeps t = t.effects.engine_meta ≡ none

  error_by-Keeps : (a : RetryAction) (k : FailureKind) (q : Outcome) → Keeps (error_by a k ref q p)
  unfolding error_by
  error_by-Keeps RetryAction.retry_elsewhere k q = refl
  error_by-Keeps _ k q = refl

  error-Keeps : (q : Outcome) → Keeps (error_transition ref q p)
  unfolding error_transition
  error-Keeps q = error_by-Keeps _ _ q

  abbrev Moves : Transition → Type 0
  Moves t = Keeps t ⊎ IsRouted o p t

  module _ (s : WorkflowStepPolicy) (given : p.workflow_step ≡ some s)
      (done : o.status ≡ RunStatus.completed) (is_doc : s.kind ≡ StepKind.doc) where
    produced-Moves :
        (a : Option (String × String)) → is_some o.document ≡ true → Moves (produced_step ref o s a)
    unfolding produced_step workflow_end workflow_budget_quarantine workflow_doc_advance
    produced-Moves a d = elim (Bool-cases (s.route_to == end_step)) [
      | inl ends ↦ rw ends (inl refl)
      | inr onward ↦ rw onward (elim (Bool-cases s.dest_visits_exhausted) [
        | inl spent ↦ rw spent (inl refl)
        | inr left ↦ rw left (
            inr (record {
              step = s;
              given = given;
              completed = done;
              is_doc = is_doc;
              produced = d;
              onward = λ e. ground (arith, eq_iff s.route_to end_step);
              within_budget = left;
              cursor = refl;
            }))
      ])
    ]

    doc_step-Moves : (d : Option String) → o.document ≡ d → Moves (doc_step d ref o p s)
    unfolding doc_step
    doc_step-Moves none e = inl (error-Keeps (no_document o))
    doc_step-Moves (some d) e = produced-Moves _ (ap is_some e)

  completed_step-Moves :
      (s : WorkflowStepPolicy) (k : StepKind)
      → p.workflow_step ≡ some s
      → o.status ≡ RunStatus.completed
      → s.kind ≡ k
      → OnApply Moves (completed_step k ref o p s)
  unfolding completed_step
  completed_step-Moves s StepKind.doc g c e = doc_step-Moves s g c e o.document refl
  completed_step-Moves s _ g c e = tt

  step_by-Moves :
      (s : WorkflowStepPolicy) (r : RunStatus)
      → p.workflow_step ≡ some s
      → o.status ≡ r
      → OnApply Moves (step_by r ref o p s)
  unfolding step_by blocked_transition neutral_transition
  step_by-Moves s RunStatus.error g e = inl (error-Keeps o)
  step_by-Moves s RunStatus.completed g e = completed_step-Moves s s.kind g e refl
  step_by-Moves s _ g e = inl refl

  submit_by-Moves : (r : RunStatus) → OnApply Moves (submit_by r ref o p)
  unfolding submit_by blocked_transition neutral_transition
  submit_by-Moves RunStatus.error = inl (error-Keeps o)
  submit_by-Moves RunStatus.completed = tt
  submit_by-Moves _ = inl refl

  submit-Moves : {t : Transition} → on_submit ref o p ≡ ok (apply t) → Moves t
  submit-Moves e = elim (Option-cases p.workflow_step) [
    | inl absent ↦
        subst (OnApply Moves) (apply_of (on_submit-none ref o p absent) e)
          (submit_by-Moves o.status)
    | inr (s, given) ↦
        subst (OnApply Moves) (apply_of (on_submit-some ref o p s given) e)
          (step_by-Moves s o.status given refl)
  ]

-- A submit moves the workflow's cursor only if it completed a doc step with a document and the
-- step routes on to another step whose budget is not exhausted; the cursor is then written with
-- the destination and its counters.
pub on_submit-IsRouted :
    (ref : AttemptRef) (o : Outcome) (p : SubmitPolicy) (t : Transition)
    → on_submit ref o p ≡ ok (apply t)
    → t.effects.engine_meta ≢ none
    → IsRouted o p t
on_submit-IsRouted ref o p t e moved = elim (submit-Moves ref o p e) [
  | inl kept ↦ absurd (moved kept)
  | inr routed ↦ routed
]

-- Entering a step adds one to its counter and leaves the other counters alone.
next_visits_lem :
    (s : WorkflowStepPolicy) (step : String)
    → get_visits (next_visits s) step
      ≡ (if s.route_to == step then succ_ℤ (get_visits s.visits step) else get_visits s.visits step)
unfolding next_visits
next_visits_lem s step =
    let entered = succ_ℤ (get_visits s.visits s.route_to) in
    ground (arith, lookup-insert s.route_to step entered s.visits, eq_iff s.route_to step)
