-- ===== src/Workflows/Examples.antt =====
-- A workflow of two steps that src/nightshift/workflows.py validates.
use nightshift.Base.{
  Json, obj, arr, str, int, member, end, cons, nil, String, List, true, false, ◌||◌, none, some, [],
  ◌∷◌, ◌==◌, ◌≡◌, ◌↔◌, refl, ok, pos, Dict,
}
use mathlib.Core.List.Memᴰ as M
use nightshift.Workflows.Step.{
  StepKind, inherit, end_step, WorkflowStep, WorkflowDef, has_step, route,
}
use nightshift.Workflows.Validate.{validate_steps}
use nightshift.Workflows.Paths.{check_default_path_terminates, validate}
use nightshift.Workflows.DefaultPath.{ReachesWork, check_default_path_terminates_iff}
use nightshift.Workflows.Parse.{parse_workflow}
use nightshift.Workflows.Parsed.{parse_workflow-routed}
use nightshift.Workflows.Cycles.{CanReach, move, validated-cycle}

abbrev draft : WorkflowStep
draft = record {
  id = "draft";
  kind = StepKind.doc;
  role = "planner";
  inputs = "brief" ∷ [];
  prompt = some "draft.md";
  output = some "design";
  max_turns = inherit;
  signals = ("again", "draft") ∷ [];
  next = "cut";
  max_visits = pos 3;
  max_visits_declared = true;
}

abbrev cut : WorkflowStep
cut = record {
  id = "cut";
  kind = StepKind.split;
  role = "planner";
  inputs = "design" ∷ [];
  prompt = none;
  output = none;
  max_turns = inherit;
  signals = [];
  next = "$end";
  max_visits = pos 1;
  max_visits_declared = false;
}

abbrev plan : WorkflowDef
plan = record { name = "plan"; steps = draft ∷ cut ∷ [] }

plan_validates : validate_steps plan ≡ ok tt
unfolding validate_steps
plan_validates = refl

check_default_path_terminates_iff_example :
    (check_default_path_terminates plan ≡ ok tt) ↔ ReachesWork (draft ∷ cut ∷ [])
check_default_path_terminates_iff_example =
    check_default_path_terminates_iff "plan" (draft ∷ cut ∷ [])

abbrev plan_edges : Dict (List String)
plan_edges = ("draft", "draft" ∷ "cut" ∷ []) ∷ ("cut", []) ∷ []

plan_passes : validate plan ≡ ok tt
unfolding validate
plan_passes = refl

draft_again : CanReach (draft ∷ cut ∷ []) "draft" "draft"
unfolding route
draft_again = move draft (some "again") (M.head refl) refl

validated-cycle_example : draft.max_visits_declared ≡ true
validated-cycle_example = validated-cycle plan draft plan_passes (M.head refl) draft_again

-- The definition as it stands in a file.
abbrev raw_plan : Json
raw_plan = obj (
    member "name" (str "plan") (
      member "steps"
        (arr (
          cons
            (obj (
              member "id" (str "draft") (
                member "kind" (str "doc") (
                  member "role" (str "planner") (
                    member "inputs" (arr (cons (str "brief") nil)) (
                      member "prompt" (str "draft.md") (
                        member "output" (str "design") (
                          member "signals" (obj (member "again" (str "draft") end))
                            (member "max_visits" (int (pos 3)) end)))))))))
            (cons
              (obj (
                member "id" (str "cut") (
                  member "kind" (str "split") (
                    member "role" (str "planner")
                      (member "inputs" (arr (cons (str "design") nil)) end)))))
              nil)))
        end))

plan_parses : parse_workflow raw_plan ≡ ok plan
unfolding parse_workflow
plan_parses = refl

parse_workflow-routed_example :
    ReachesWork (draft ∷ cut ∷ [])
    × ((route draft (some "again") == end_step || has_step plan (route draft (some "again")))
        ≡ true)
parse_workflow-routed_example =
    parse_workflow-routed raw_plan plan draft (some "again") plan_parses (M.head refl)
