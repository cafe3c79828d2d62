-- ===== src/Manager/Holds.antt =====
-- `_reconcile_holds` of src/nightshift/manager/reconciler.py, and `is_ci_fix_task` of
-- src/nightshift/manager/work_orders.py.
use nightshift.Base.{
  String, Bool, true, false, not, ◌&&◌, ◌||◌, Option, none, some, List, [], ◌∷◌, ◌++◌, ◌==◌, any,
  contains, Dict, Json, str, lookup, opt_or, if◌then◌else◌,
}
use text.Mathlib.Text.{starts_with}
use nightshift.Lifecycle.{TaskHoldKind, TransitionEvent}
use nightshift.Scheduler.{
  TaskCandidate, Dedication, TaskSet, in_set, unroutable, no_capable_worker_prefix,
  dedicated_offline_prefix,
}
use nightshift.Store.{
  TaskKey, TaskRow, TaskTable, RepoCi, get_task_state, set_task_state, clear_task_state,
  tasks_in_state, hold_value, has_state, available_models, available_mcps, online_worker_ids,
}
use nightshift.Manager.World.{World, Action, done, ◌>>◌, pure, modify, Outside}
use nightshift.Manager.Policy.{task_meta}
use nightshift.Manager.Finish.{emit}
use nightshift.Manager.Verdict.{queue_from_label}

-- What the pass reads of the task files and the configuration: the candidates of the queues that
-- are not paused, the tasks whose frontmatter quarantines them, the repositories that a queue
-- monitors, the CI states and the dedication; and whether a repository is there.
pub record HoldInputs : Type 0 where
  pub candidates : List (Option String × List TaskCandidate)
  pub quarantined : TaskSet
  pub monitored : List String
  pub repo_ci : Dict RepoCi
  pub dedication : Dedication
  pub repo_available : String → Bool

abbrev pub hold_of : TaskHoldKind → Option TaskRow → Bool
hold_of state none = false
hold_of state (some r) = has_state state r

abbrev pub task_blocked_by : TaskCandidate → String → TransitionEvent
task_blocked_by c reason = record {
  kind = "task_blocked";
  run_id = none;
  queue = c.queue;
  task = some c.task;
  payload = some (("reason", str reason) ∷ []);
}

abbrev pub repo_missing : TaskCandidate → String → TransitionEvent
repo_missing c repo = record {
  kind = "repo_unavailable";
  run_id = none;
  queue = c.queue;
  task = some c.task;
  payload = some (("repo", str repo) ∷ []);
}

abbrev pub named : Option String → Option String
named none = none
named (some repo) = if repo == "" then none else some repo

abbrev same_label : Option String → Option String → Bool
same_label none none = true
same_label (some a) (some b) = a == b
same_label _ _ = false

-- `meta.get(key) == value`
abbrev meta_is : String → String → Dict Json → Bool
meta_is key value meta = elim (lookup key meta) [ some (str v) ↦ v == value | _ ↦ false ]

-- No row, or a row that is a bare counter.
abbrev pub is_free : Option TaskRow → Bool
is_free none = true
is_free (some r) = elim r.state [ none ↦ true | some k ↦ false ]

-- The repositories whose main is red and which a queue monitors.
unfoldable pub red_repos : List String → Dict RepoCi → List String
red_repos monitored [] = []
red_repos monitored ((repo, row) ∷ rows) =
    let rest = red_repos monitored rows in
    if row.state == "red" && contains monitored repo then repo ∷ rest else rest

module _ (out : Outside) where
  -- `is_ci_fix_task`
  unfoldable pub is_ci_fix_task : Dict RepoCi → TaskCandidate → Bool
  unfolding lookup task_meta
  is_ci_fix_task rows c = elim (named c.repo) [
    | none ↦ false
    | some repo ↦ elim (lookup repo rows) [
      | none ↦ false
      | some row ↦
          not (opt_or row.fix_task "" == "")
          && c.task == opt_or row.fix_task ""
          && meta_is "kind" "ci_resolution" (task_meta (out.brief c.queue c.task))
          && meta_is "repo" repo (task_meta (out.brief c.queue c.task))
    ]
  ]

  -- `set_task_state` as the pass calls it.
  abbrev pub put_hold : TaskCandidate → TaskHoldKind → Option String → Option String → World → World
  put_hold c state reason repo w = record w {
    store = set_task_state out.now c.queue c.task state reason repo false w.store;
  }

  -- A BLOCKED hold with its event, where the task has none.
  unfoldable pub block : TaskCandidate → String → Action (Unit {0})
  unfolding get_task_state set_task_state emit hold_value
  block c reason w =
      if hold_of TaskHoldKind.blocked (get_task_state c.queue c.task w.store)
      then pure tt w
      else (modify (put_hold c TaskHoldKind.blocked (some reason) none)
            >> emit out (task_blocked_by c reason))
          w

  unfoldable pub mark_unroutable : TaskSet → List (TaskCandidate × String) → Action (Unit {0})
  unfolding block in_set
  mark_unroutable quarantined [] = pure tt
  mark_unroutable quarantined ((c, reason) ∷ pairs) =
      let rest : Action (Unit {0}) = mark_unroutable quarantined pairs in
      if in_set quarantined c then rest else block c reason >> rest

  abbrev pub warned : TaskCandidate → World → Bool
  warned c w = any (same_label c.queue) w.repo_warnings

  unfoldable pub warn_once : TaskCandidate → String → Action (Unit {0})
  unfolding emit
  warn_once c repo w =
      if warned c w
      then pure tt w
      else (modify (λ x. record x { repo_warnings = x.repo_warnings ++ (c.queue ∷ []) })
            >> emit out (repo_missing c repo))
          w

  -- The hold of a task whose repository is absent.
  unfoldable pub hold_outage : TaskCandidate → String → Action (Unit {0})
  unfolding get_task_state set_task_state warn_once hold_value
  hold_outage c repo w =
      if hold_of TaskHoldKind.repo_unavailable (get_task_state c.queue c.task w.store)
      then warn_once c repo w
      else warn_once c repo (put_hold c TaskHoldKind.repo_unavailable none (some repo) w)

  unfoldable pub hold_red : TaskCandidate → String → Action (Unit {0})
  unfolding get_task_state set_task_state
  hold_red c repo w =
      if is_free (get_task_state c.queue c.task w.store)
      then (done tt, put_hold c TaskHoldKind.ci_red none (some repo) w)
      else pure tt w

  module _ (i : HoldInputs) where
    abbrev pub outage : TaskCandidate → Bool
    outage c = elim (named c.repo) [ none ↦ false | some repo ↦ not (i.repo_available repo) ]

    abbrev pub gate : List String → TaskCandidate → String → Action (Unit {0})
    gate red c repo =
        if contains red repo
        then if is_ci_fix_task i.repo_ci c then pure tt else hold_red c repo
        else pure tt

    abbrev pub hold_by_repo : List String → TaskCandidate → Option String → Action (Unit {0})
    hold_by_repo red c none = pure tt
    hold_by_repo red c (some repo) =
        if not (i.repo_available repo) then hold_outage c repo else gate red c repo

    -- The arms for one candidate: its reference, its repository, its repository's CI.
    abbrev pub hold_by_ref : List String → TaskCandidate → Option String → Action (Unit {0})
    hold_by_ref red c (some reason) = block c reason
    hold_by_ref red c none = hold_by_repo red c (named c.repo)

    unfoldable pub hold_each : List String → List TaskCandidate → Action (Unit {0})
    unfolding block hold_outage hold_red is_ci_fix_task in_set
    hold_each red [] = pure tt
    hold_each red (c ∷ cands) =
        let rest : Action (Unit {0}) = hold_each red cands in
        if in_set i.quarantined c then rest else hold_by_ref red c c.repo_error >> rest

    unfoldable pub all_candidates : List (Option String × List TaskCandidate) → List TaskCandidate
    all_candidates [] = []
    all_candidates ((queue, cands) ∷ queues) = cands ++ all_candidates queues

    -- The holds that the pass sets.
    unfoldable pub set_holds : List (TaskCandidate × String) → Action (Unit {0})
    unfolding mark_unroutable hold_each all_candidates red_repos
    set_holds pairs =
        mark_unroutable i.quarantined pairs
        >> hold_each (red_repos i.monitored i.repo_ci) (all_candidates i.candidates)

    abbrev clear : TaskKey → World → World
    clear k w = record w {
      store = clear_task_state out.now (queue_from_label (some k.queue)) k.task false w.store;
    }

    abbrev pub is_back : TaskRow → Bool
    is_back r = elim (named r.repo) [ none ↦ false | some repo ↦ i.repo_available repo ]

    abbrev is_green : List String → TaskRow → Bool
    is_green red r = elim (named r.repo) [ none ↦ true | some repo ↦ not (contains red repo) ]

    abbrev key_in : TaskKey → List TaskCandidate → Bool
    key_in k = any (λ (c : TaskCandidate).
        same_label c.queue (queue_from_label (some k.queue)) && c.task == k.task)

    -- The reason is one that this loop writes.
    abbrev pub is_own : TaskRow → Bool
    is_own r =
        starts_with (opt_or r.blocked_reason "") no_capable_worker_prefix
        || starts_with (opt_or r.blocked_reason "") dedicated_offline_prefix

    abbrev first_of : List (TaskCandidate × String) → List TaskCandidate
    first_of [] = []
    first_of ((c, reason) ∷ pairs) = c ∷ first_of pairs

    abbrev is_served : List TaskCandidate → List TaskCandidate → TaskKey → TaskRow → Bool
    is_served cands unserved k r = is_own r && key_in k cands && not (key_in k unserved)

    unfoldable pub clear_where : (TaskKey → TaskRow → Bool) → TaskTable → World → World
    unfolding clear_task_state queue_from_label
    clear_where p [] w = w
    clear_where p ((k, r) ∷ rows) w = clear_where p rows (if p k r then clear k w else w)

    abbrev clear_state : TaskHoldKind → (TaskKey → TaskRow → Bool) → World → World
    clear_state state p w = clear_where p (tasks_in_state state w.store) w

    -- The holds that the pass lifts.
    unfoldable pub clear_holds : List (TaskCandidate × String) → World → World
    unfolding clear_where tasks_in_state red_repos all_candidates queue_from_label
    clear_holds pairs w =
        clear_state TaskHoldKind.blocked (is_served (all_candidates i.candidates) (first_of pairs))
          (clear_state TaskHoldKind.ci_red (λ k r. is_green (red_repos i.monitored i.repo_ci) r)
            (clear_state TaskHoldKind.repo_unavailable (λ k r. is_back r) w))

    -- `_reconcile_holds`; `lower` is `str.lower`.
    unfoldable pub reconcile_holds : (String → String) → Action (Unit {0})
    unfolding unroutable available_models available_mcps online_worker_ids set_holds clear_holds
    reconcile_holds lower w =
        let pairs =
          unroutable lower i.candidates (available_models w.workers) (available_mcps w.workers)
            i.dedication (online_worker_ids w.workers) in
        (set_holds pairs >> modify (clear_holds pairs)) w
