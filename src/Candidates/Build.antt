-- ===== src/Candidates/Build.antt =====
-- src/nightshift/manager/scheduler.py, lines 184-296: the candidates of a queue, in the order in which
-- its tasks run. `repr` is that of the queues, `default_model` the manager's.
use nightshift.Base.{
  String, Option, none, some, List, [], ◌∷◌, ◌==◌, Dict, lookup, if◌then◌else◌, Json, null, strip,
  strip_of, split_commas, remove_suffix, Result, ok, err, ◌>>=◌, repo_config_error,
}
use nightshift.Scheduler.{TaskCandidate}
use nightshift.Queues.Config.{ConfigFile, loaded, text_of, truth}
use nightshift.Queues.Frontmatter.{split_frontmatter, task_priority}
use nightshift.Queues.Scan.{live_ordered_queue}
use nightshift.Candidates.Repos.{resolve_repo}
use nightshift.Candidates.Resolver.{Resolved, text_in}

unfoldable pub stems_of : List String → List String
unfolding strip remove_suffix
stems_of [] = []
stems_of (part ∷ parts) =
    let rest = stems_of parts in
    if remove_suffix ".md" (strip part) == "" then rest else remove_suffix ".md" (strip part) ∷ rest

unfoldable pub after_deps : (Json → String) → Dict Json → List String
unfolding stems_of split_commas lookup truth text_of
after_deps repr meta = elim (lookup "after" meta) [
  | none ↦ []
  | some raw ↦ if truth raw then stems_of (split_commas (text_of repr raw)) else []
]

unfoldable pub normalize_model : (Json → String) → Dict Json → String → String
unfolding lookup text_of strip
normalize_model repr meta default_model = elim (lookup "model" meta) [
  | none ↦ default_model
  | some null ↦ default_model
  | some v ↦ if strip (text_of repr v) == "" then default_model else strip (text_of repr v)
]

abbrev unquoted : String → String
unfolding strip strip_of
unquoted part = strip (strip_of "'\"" (strip part))

unfoldable pub items_of : List String → List String
unfolding strip strip_of
items_of [] = []
items_of (part ∷ parts) =
    let rest = items_of parts in if unquoted part == "" then rest else unquoted part ∷ rest

unfoldable pub parse_required_mcps : (Json → String) → Dict Json → List String
unfolding lookup items_of split_commas text_of strip strip_of
parse_required_mcps repr meta = elim (lookup "mcp" meta) [
  | none ↦ []
  | some null ↦ []
  | some raw ↦ items_of (split_commas (strip_of "[]" (strip (text_of repr raw))))
]

-- The resolver of the workflows, if there is one.
abbrev pub Resolver : Type 0
Resolver = Option (Dict Json → Dict Json → Result Resolved)

-- `workflow`, `workflow_step`, `workflow_error` and the model.
pub record Routing : Type 0 where
  pub workflow : Option String
  pub workflow_step : Option String
  pub workflow_error : Option String
  pub model : String

abbrev pub routing_of : String → Resolved → Routing
routing_of model (none, message) = record {
  workflow = none;
  workflow_step = none;
  workflow_error = some message;
  model = model;
}
routing_of model (some (wf, step), resolved_model) = record {
  workflow = some wf;
  workflow_step = some step;
  workflow_error = none;
  model = resolved_model;
}

abbrev pub plain : String → Routing
plain model = record { workflow = none; workflow_step = none; workflow_error = none; model = model }

unfoldable pub routing :
    (Json → String) → Resolver → Dict Json → Dict Json → String → Result Routing
unfolding text_in
routing repr none meta config model = ok (plain model)
routing repr (some resolve) meta config model =
    if text_in repr "workflow" meta == ""
    then ok (plain model)
    else resolve meta config >>= λ resolved. ok (routing_of model resolved)

-- The repository, or the message of the RepoConfigError that was caught.
unfoldable pub caught : Result String → Result (Option String × Option String)
caught (ok repo) = ok (some repo, none)
caught (err (repo_config_error message)) = ok (none, some message)
caught (err raised) = err raised

unfoldable pub meta_at : Dict String → String → Dict Json
unfolding lookup split_frontmatter
meta_at files stem = elim (lookup stem files) [ none ↦ [] | some text ↦ (split_frontmatter text).0 ]

unfoldable pub candidate_of :
    (Json → String)
    → Option String
    → Dict Json
    → String
    → Option String × Option String
    → Routing
    → TaskCandidate
unfolding task_priority parse_required_mcps after_deps
candidate_of repr queue meta stem (repo, repo_error) r = record {
  queue = queue;
  task = stem;
  priority = task_priority meta;
  model = r.model;
  required_mcps = parse_required_mcps repr meta;
  after = after_deps repr meta;
  repo = repo;
  repo_error = repo_error;
  workflow = r.workflow;
  workflow_step = r.workflow_step;
  workflow_error = r.workflow_error;
}

-- One round of the loop.
unfoldable pub candidate :
    (Json → String)
    → Resolver
    → String
    → Option String
    → Dict Json
    → Dict String
    → String
    → Result TaskCandidate
unfolding caught resolve_repo lookup routing normalize_model candidate_of meta_at
candidate repr resolver default_model queue config files stem =
    let meta = meta_at files stem in
    caught (resolve_repo (lookup "repo" meta) (lookup "repo" config)) >>= λ repo.
    routing repr resolver meta config (normalize_model repr meta default_model) >>= λ r.
    ok (candidate_of repr queue meta stem repo r)

unfoldable pub candidates_of :
    (Json → String)
    → Resolver
    → String
    → Option String
    → Dict Json
    → Dict String
    → List String
    → Result (List TaskCandidate)
unfolding candidate
candidates_of repr resolver default_model queue config files [] = ok []
candidates_of repr resolver default_model queue config files (stem ∷ stems) =
    candidate repr resolver default_model queue config files stem >>= λ c.
    candidates_of repr resolver default_model queue config files stems >>= λ cs. ok (c ∷ cs)

unfoldable pub build_candidates :
    (Json → String)
    → Resolver
    → String
    → Option String
    → ConfigFile
    → Dict String
    → Result (List TaskCandidate)
unfolding candidates_of loaded live_ordered_queue
build_candidates repr resolver default_model queue file files =
    candidates_of repr resolver default_model queue (loaded file) files
      (live_ordered_queue repr file files)
