-- ===== src/Candidates/Examples.antt =====
-- The candidates of a queue of two tasks in src/nightshift/manager/scheduler.py.
use nightshift.Base.{
  String, List, true, none, some, [], ◌∷◌, ◌≡◌, refl, Dict, Json, str, ok, err, attribute_error,
  map, all, leb, lookup, pos, false,
}
use nightshift.Workflows.Step.{StepKind, inherit, end_step, WorkflowStep, WorkflowDef}
use nightshift.Scheduler.{TaskCandidate}
use nightshift.Queues.Config.{ConfigFile, settings}
use nightshift.Queues.Frontmatter.{max_priority}
use nightshift.Queues.Scan.{live_ordered_queue}
use nightshift.Candidates.Resolver.{resolve}
use nightshift.Candidates.Build.{build_candidates, meta_at}
use nightshift.Candidates.Built.{build_candidates_total}

abbrev no_repr : Json → String
no_repr v = ""

abbrev at_home : ConfigFile
at_home = settings (("repo", str "home") ∷ [])

abbrev briefs : Dict String
briefs =
    ("a", "---\npriority: 9\nafter: b.md, c\nmcp: [slack, 'github']\n---\nFix it.")
    ∷ ("b", "---\nworkflow: review\nrepo: other\n---\nFix that.")
    ∷ []

abbrev a_step : WorkflowStep
a_step = record {
  id = "read";
  kind = StepKind.doc;
  role = "planner";
  inputs = "brief" ∷ [];
  prompt = some "read.md";
  output = some "notes";
  max_turns = inherit;
  signals = [];
  next = end_step;
  max_visits = pos 1;
  max_visits_declared = false;
}

abbrev review : Dict WorkflowDef
review = ("review", record { name = "review"; steps = a_step ∷ [] }) ∷ []

build_candidates_total_example :
    (cs : List TaskCandidate) × (build_candidates no_repr
        (some (resolve no_repr review "" "auto"))
        "auto"
        none
        at_home
        briefs
      ≡ ok cs)
    × (map (λ (c : TaskCandidate). c.task) cs ≡ live_ordered_queue no_repr at_home briefs)
    × (all (λ c. leb c.priority max_priority) cs ≡ true)
unfolding live_ordered_queue meta_at lookup resolve
build_candidates_total_example =
    build_candidates_total no_repr review "" "auto" none at_home briefs refl refl refl

-- A repository whose name is a number is read as a number, on which `strip` raises.
numbered :
    build_candidates no_repr none "auto" none at_home (("a", "---\nrepo: 2048\n---\nFix it.") ∷ [])
    ≡ err (attribute_error "strip")
unfolding build_candidates
numbered = refl
