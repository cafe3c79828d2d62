-- ===== src/Manager/Policy.antt =====
-- src/nightshift/manager/api_worker.py, lines 167-236, and `parse_visits` of src/nightshift/workflows.py: what the
-- submit handler computes for the transition functions.
use nightshift.Base.{
  ℕ, suc, ◌+◌, ◌*◌, String, Bool, true, false, not, ◌||◌, Option, none, some, List, [], ◌∷◌, ◌==◌,
  ltb, leb, ℤ, pos, negsuc, succ_ℤ, show_ℤ, show_nat, fstring, strip, split_commas, int_of_text,
  contains, Dict, Json, obj, lookup, insert, find_member, if◌then◌else◌, Result, ok, ◌>>=◌,
}
use Prim.Native.Char.{code}
use nightshift.Lifecycle.{RunStatus, FailureKind, Outcome, WorkflowStepPolicy, LandingMode}
use nightshift.Workflows.Step.{WorkflowDef, WorkflowStep, end_step, find_step, has_step, route}
use nightshift.Queues.Config.{truth, text_of}
use nightshift.Queues.Frontmatter.{cut, flagged, is_failed, split_frontmatter}

-- One `step:count`; a chunk without a count that `int` reads is passed over.
unfoldable pub read_visit : String → Dict ℤ → Dict ℤ
unfolding cut strip insert int_of_text
read_visit chunk out = elim (cut ":" (strip chunk)) [
  | none ↦ out
  | some (key, value) ↦
      if strip key == ""
      then out
      else elim (int_of_text (strip value)) [ none ↦ out | some n ↦ insert (strip key) n out ]
]

unfoldable pub read_visits : List String → Dict ℤ → Dict ℤ
unfolding read_visit
read_visits [] out = out
read_visits (chunk ∷ chunks) out = read_visits chunks (read_visit chunk out)

unfoldable pub parse_visits : String → Dict ℤ
unfolding read_visits split_commas
parse_visits raw = if raw == "" then [] else read_visits (split_commas raw) []

-- `a < b` on ℤ
abbrev pub lt_ℤ : ℤ → ℤ → Bool
lt_ℤ (pos m) (pos n) = ltb m n
lt_ℤ (pos m) (negsuc n) = false
lt_ℤ (negsuc m) (pos n) = true
lt_ℤ (negsuc m) (negsuc n) = ltb n m

-- `visits.get(step_id, 0)`
abbrev pub visits_at : String → Dict ℤ → ℤ
visits_at step_id visits = elim (lookup step_id visits) [ none ↦ pos 0 | some n ↦ n ]

-- `str(value or "")` of a key that may be missing.
abbrev text_or_empty : (Json → String) → Option Json → String
text_or_empty repr none = ""
text_or_empty repr (some v) = if truth v then text_of repr v else ""

abbrev exhausted_line : String → String → ℤ → String
exhausted_line name step_id limit = fstring (
    "workflow '"
    ∷ name
    ∷ "' budget exhausted at step '"
    ∷ step_id
    ∷ "' (max_visits="
    ∷ show_ℤ limit
    ∷ ")"
    ∷ [])

-- The policy of a step that routes to the workflow's end.
abbrev pub end_policy : String → String → WorkflowStep → String → Dict ℤ → Bool → WorkflowStepPolicy
end_policy name step_id step route_to visits evergreen = record {
  workflow = name;
  step_id = step_id;
  kind = step.kind;
  output = step.output;
  route_to = route_to;
  dest_kind = none;
  dest_visits_exhausted = false;
  evergreen = evergreen;
  visits = visits;
  exhausted_reason = "";
}

-- The policy of a step that routes to the step `dest`, which it would enter once more.
abbrev pub step_into :
    String → String → WorkflowStep → String → Dict ℤ → Bool → WorkflowStep → WorkflowStepPolicy
step_into name step_id step route_to visits evergreen dest =
    let over = lt_ℤ dest.max_visits (succ_ℤ (visits_at route_to visits)) in
    record (end_policy name step_id step route_to visits evergreen) {
      dest_kind = some dest.kind;
      dest_visits_exhausted = over;
      exhausted_reason = if over then exhausted_line name route_to dest.max_visits else "";
    }

unfoldable pub policy_at :
    WorkflowDef → String → String → Dict ℤ → Option String → Bool → Result WorkflowStepPolicy
unfolding find_step route
policy_at wf name step_id visits signal evergreen = find_step wf.steps step_id >>= λ step.
    let route_to = route step signal in
    if route_to == end_step
    then ok (end_policy name step_id step route_to visits evergreen)
    else find_step wf.steps route_to >>= λ dest.
        ok (step_into name step_id step route_to visits evergreen dest)

-- `_build_workflow_step_policy`
unfoldable pub build_workflow_step_policy :
    (Json → String)
    → Dict WorkflowDef
    → Option Json
    → Dict Json
    → Option String
    → Bool
    → Result (Option WorkflowStepPolicy)
unfolding policy_at parse_visits lookup find_member strip has_step truth
build_workflow_step_policy repr workflows attempt_workflow meta signal evergreen =
    elim attempt_workflow [
      | some (obj block) ↦
          let name = strip (text_or_empty repr (find_member "name" block)) in
          let step_id = strip (text_or_empty repr (find_member "step" block)) in
          elim (lookup name workflows) [
            | none ↦ ok none
            | some wf ↦
                if step_id == "" || not (has_step wf step_id)
                then ok none
                else policy_at wf name step_id
                    (parse_visits (text_or_empty repr (lookup "workflow_visits" meta))) signal
                    evergreen
                  >>= λ policy. ok (some policy)
          ]
      | _ ↦ ok none
    ]

-- `_cooldown_exclusions`: the queues in which the worker cools down, and the cooldowns that are left.
unfoldable pub cooldown_exclusions :
    ℕ → String → List ((String × String) × ℕ) → List String × List ((String × String) × ℕ)
cooldown_exclusions now worker_id [] = ([], [])
cooldown_exclusions now worker_id (((w, label), expiry) ∷ cooldowns) =
    let (excluded, rest) = cooldown_exclusions now worker_id cooldowns in
    if leb expiry now
    then (excluded, rest)
    else (if w == worker_id then label ∷ excluded else excluded, ((w, label), expiry) ∷ rest)

-- `len(text.encode("utf-8"))`
unfoldable pub utf8_length : String → ℕ
utf8_length String.[] = 0
utf8_length (String.◌∷◌ c s) =
    let rest = utf8_length s in
    if leb (code c) 127
    then suc rest
    else if leb (code c) 2047
    then 2 + rest
    else if leb (code c) 65535
    then 3 + rest
    else 4 + rest

abbrev pub document_max_bytes : ℕ
document_max_bytes = 256 * 1024

abbrev pub over_cap : Outcome → String → Outcome
over_cap o document =
    let over = fstring (
      "doc step document exceeds "
      ∷ show_nat document_max_bytes
      ∷ " bytes ("
      ∷ show_nat (utf8_length document)
      ∷ " bytes)"
      ∷ []) in
    record o {
      status = RunStatus.error;
      failure_kind = some FailureKind.worker_error;
      failure_reason = some over;
      result_line = over;
      document = none;
    }

-- The outcome that the transition functions see: a document over the cap is an error.
unfoldable pub capped : Outcome → Outcome
unfolding utf8_length show_nat
capped o = elim o.document [
  | none ↦ o
  | some document ↦ if ltb document_max_bytes (utf8_length document) then over_cap o document else o
]

-- `task_meta`: the frontmatter of the brief, where there is one.
unfoldable pub task_meta : Option String → Dict Json
unfolding split_frontmatter
task_meta none = []
task_meta (some text) = (split_frontmatter text).0

unfoldable pub task_is_evergreen : Dict Json → String → List String → Bool
unfolding flagged
task_is_evergreen meta task evergreen_tasks =
    flagged "evergreen" meta || contains evergreen_tasks task

unfoldable pub effective_mode : Dict Json → LandingMode → LandingMode
unfolding flagged
effective_mode meta configured = if flagged "make_pr" meta then LandingMode.pr else configured

-- `_task_is_failed_in_frontmatter`
unfoldable pub task_is_failed_in_frontmatter : Option String → Bool
unfolding task_meta is_failed
task_is_failed_in_frontmatter brief = is_failed (task_meta brief)
