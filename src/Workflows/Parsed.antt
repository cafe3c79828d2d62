-- ===== src/Workflows/Parsed.antt =====
-- What holds of every definition that `parse_workflow` of src/nightshift/workflows.py gives.
use nightshift.Base.{
  String, true, Option, ◌||◌, ◌==◌, ◌≡◌, refl, ap, sym, ◌∙◌, subst, arith, Json, null, bool, int,
  float, str, arr, obj, find_member, Result, ok, err, ◌>>=◌, ◌>>◌,
}
use mathlib.Core.List.{Memᴰ}
use nightshift.Workflows.Step.{end_step, WorkflowStep, WorkflowDef, has_step, route}
use nightshift.Workflows.Validate.{validate_steps}
use nightshift.Workflows.Paths.{
  validate, check_default_path_terminates, check_cycles_declare_visits,
}
use nightshift.Workflows.Parse.{
  parse_workflow, parse_name, named_workflow, items, steps_workflow, parse_steps, count,
  resolved_workflow, resolve_next, validated,
}
use nightshift.Workflows.Routed.{validated-route, first-ok, second-ok}
use nightshift.Workflows.DefaultPath.{ReachesWork, check_default_path_terminates_iff}

-- A chain that returned has a first call that returned.
bind-ok {ℓ κ} :
    {A : Type ℓ} {B : Type κ} (m : Result A) (f : A → Result B) (b : B)
    → (m >>= f) ≡ ok b
    → (a : A) × (f a ≡ ok b)
bind-ok (ok a) f b h = (a, h)
bind-ok (err e) f b h = ground arith

checked : (w wf : WorkflowDef) → (validate w >> ok w) ≡ ok wf → validate wf ≡ ok tt
checked w wf h =
    subst (λ x. validate x ≡ ok tt) (ok_inj (sym (ap (λ m. m >> ok w) valid) ∙ h)) valid
  where
    ok_inj : {x y : WorkflowDef} → ok x ≡ ok y → x ≡ y
    ok_inj e = cc

    valid : validate w ≡ ok tt
    valid = passes (validate w) h
      where
        passes : (m : Result (Unit {0})) → (m >> ok w) ≡ ok wf → m ≡ ok tt
        passes (ok tt) e = refl
        passes (err raised) e = ground arith

parse_workflow-validate :
    (raw : Json) (wf : WorkflowDef) → parse_workflow raw ≡ ok wf → validate wf ≡ ok tt
unfolding parse_workflow named_workflow steps_workflow resolved_workflow validated
parse_workflow-validate (obj raw) wf h =
    let (name, named) = bind-ok (parse_name raw) (named_workflow raw) wf h in
    let (raws, listed) = bind-ok (items (find_member "steps" raw)) (steps_workflow name) wf named in
    let (parsed, read) =
      bind-ok (parse_steps 0 (count raws) raws) (resolved_workflow name) wf listed in
    let (steps, last) = bind-ok (resolve_next parsed) (validated name) wf read in
    checked (record { name = name; steps = steps }) wf last
parse_workflow-validate null wf h = ground arith
parse_workflow-validate (bool b) wf h = ground arith
parse_workflow-validate (int n) wf h = ground arith
parse_workflow-validate (float x) wf h = ground arith
parse_workflow-validate (str s) wf h = ground arith
parse_workflow-validate (arr vs) wf h = ground arith

-- A definition that was parsed leads from its first step along `next` to a code or split step, and
-- each of its steps routes, whatever signal it gets, to the end or to a step that it has.
pub parse_workflow-routed :
    (raw : Json) (wf : WorkflowDef) (s : WorkflowStep) (signal : Option String)
    → parse_workflow raw ≡ ok wf
    → Memᴰ s wf.steps
    → ReachesWork wf.steps × ((route s signal == end_step || has_step wf (route s signal)) ≡ true)
unfolding validate
parse_workflow-routed raw wf s signal h m =
    let valid : validate wf ≡ ok tt = parse_workflow-validate raw wf h in
    let front : (validate_steps wf >> check_default_path_terminates wf) ≡ ok tt =
      first-ok _ (check_cycles_declare_visits wf) valid in
    (
      (check_default_path_terminates_iff wf.name wf.steps).0
          (second-ok (validate_steps wf) (check_default_path_terminates wf) front),
      validated-route wf s signal (first-ok _ (check_default_path_terminates wf) front) m,
    )
