-- ===== src/Workflows/Step.antt =====
-- src/nightshift/workflows.py, lines 22-75 and 494-530: steps, definitions, routing, and the visit
-- counters' text.
use nightshift.Base.{
  String, Bool, Option, none, some, List, [], ◌∷◌, ◌==◌, map, any, Dict, lookup, if◌then◌else◌, ℤ,
  show_ℤ, fstring, join, strip, Result, ok, err, workflow_error,
}

pub data StepKind : Type 0 where
  doc code split : StepKind

-- END
abbrev pub end_step : String
end_step = "$end"

-- The three readings of `max_turns`: the key is absent, or it is null or a number.
pub data MaxTurns : Type 0 where
  inherit : MaxTurns
  turns : Option ℤ → MaxTurns

pub record WorkflowStep : Type 0 where
  pub id : String
  pub kind : StepKind
  pub role : String
  pub inputs : List String
  pub prompt : Option String
  pub output : Option String
  pub max_turns : MaxTurns
  pub signals : Dict String
  pub next : String
  pub max_visits : ℤ
  pub max_visits_declared : Bool

pub record WorkflowDef : Type 0 where
  pub name : String
  pub steps : List WorkflowStep

-- The search of `WorkflowDef.step`; the names that its message shows are left out.
unfoldable pub find_step : List WorkflowStep → String → Result WorkflowStep
find_step [] step_id = err (workflow_error "no step")
find_step (s ∷ steps) step_id =
    let rest = find_step steps step_id in if s.id == step_id then ok s else rest

-- `WorkflowDef.has_step`
unfoldable pub has_step : WorkflowDef → String → Bool
has_step wf step_id = any (λ s. s.id == step_id) wf.steps

unfoldable pub step_max_turns : WorkflowStep → Option ℤ → Option ℤ
step_max_turns step inherited = elim step.max_turns [ inherit ↦ inherited | turns limit ↦ limit ]

-- A declared signal wins; otherwise `next`.
unfoldable pub route : WorkflowStep → Option String → String
unfolding lookup
route step signal = elim signal [
  | none ↦ step.next
  | some token ↦ elim (lookup token step.signals) [ none ↦ step.next | some dest ↦ dest ]
]

unfoldable pub format_visits : Dict ℤ → String
format_visits visits = join "," (map (λ kv. fstring (kv.0 ∷ ":" ∷ show_ℤ kv.1 ∷ [])) visits)

-- `_clean` of a text that may be missing.
abbrev clean : Option String → String
clean none = ""
clean (some v) = strip v

-- The first candidate that is not empty.
unfoldable pub first_named : List String → Option String
first_named [] = none
first_named (c ∷ candidates) = let rest = first_named candidates in if c == "" then rest else some c

-- The arguments: the role, the brief's `model` and `planner_model`, the queue's model for the role,
-- and the two models of the manager's configuration.
unfoldable pub resolve_role_model :
    String → Option String → Option String → Option String → String → String → Option String
unfolding first_named
resolve_role_model role model planner queue_pin planner_model default_model =
    if role == "implementor"
    then first_named (clean model ∷ clean queue_pin ∷ strip default_model ∷ [])
    else if role == "planner"
    then first_named
        (clean planner ∷ clean queue_pin ∷ strip planner_model ∷ strip default_model ∷ [])
    else first_named (clean queue_pin ∷ strip default_model ∷ [])
