-- ===== src/Workflows/Roles.antt =====
-- The models of the roles in src/nightshift/workflows.py.
use nightshift.Base.{String, true, false, Option, ◌==◌, ◌≡◌, arith, strip, is_some}
use nightshift.Workflows.Step.{resolve_role_model, first_named}

-- Where a default model is set, every role has a model.
resolve_role_model_named :
    (role : String) (model planner queue_pin : Option String) (planner_model default_model : String)
    → (strip default_model == "") ≡ false
    → is_some (resolve_role_model role model planner queue_pin planner_model default_model) ≡ true
unfolding resolve_role_model first_named
resolve_role_model_named role model planner queue_pin planner_model default_model h = ground arith
