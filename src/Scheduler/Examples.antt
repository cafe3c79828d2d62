-- ===== src/Scheduler/Examples.antt =====
-- Polls of src/nightshift/manager/scheduler.py on two queues; the texts are in lower case.
use nightshift.Base.{strip, String, ℕ, true, false, Option, none, some, List, [], ◌∷◌, ◌≡◌, refl}
use mathlib.Core.List.{Memᴰ}
use mathlib.Core.List.Memᴰ as M
use nightshift.Scheduler.Workers.{norm_set, TaskCandidate, WorkerFilter, accepts}
use nightshift.Scheduler.Heads.{pick_next, all_tasks}
use nightshift.Scheduler.Unroutable.{unroutable}
use nightshift.Scheduler.Picked.{
  Queues, IsQueued, here, is_runnable, pick_next_runnable, pick_next-none,
}
use nightshift.Scheduler.Unserved.{unroutable_sound}

abbrev lower : String → String
lower s = s

abbrev a_task : Option String → String → ℕ → String → TaskCandidate
a_task queue task priority model = record {
  queue = queue;
  task = task;
  priority = priority;
  model = model;
  required_mcps = [];
  after = [];
  repo = some "app";
  repo_error = none;
  workflow = none;
  workflow_step = none;
  workflow_error = none;
}

abbrev urgent : TaskCandidate
urgent = a_task (some "docs") "a" 1 "auto"

abbrev pinned : TaskCandidate
pinned = a_task none "b" 0 "opus"

abbrev queues : Queues
queues = (some "docs", urgent ∷ []) ∷ (none, pinned ∷ []) ∷ []

abbrev worker : WorkerFilter
worker = record {
  worker_id = "w1";
  queues = none;
  priorities = none;
  models = some ("haiku" ∷ []);
  mcps = none;
}

picks_urgent : (pick_next lower queues worker [] [] [] none).0 ≡ some urgent
unfolding pick_next strip
picks_urgent = refl

pick_next_runnable_example :
    IsQueued urgent queues
    × (is_runnable lower worker [] [] none (all_tasks lower queues) urgent ≡ true)
pick_next_runnable_example =
    pick_next_runnable lower worker [] [] none [] queues urgent picks_urgent

abbrev leased : List (Option String × String)
leased = (some "docs", "a") ∷ []

picks_none : (pick_next lower queues worker leased [] [] none).0 ≡ none
unfolding pick_next strip
picks_none = refl

pick_next-none_example :
    is_runnable lower worker leased [] none (all_tasks lower queues) urgent ≡ false
pick_next-none_example =
    pick_next-none lower worker leased [] none [] queues urgent picks_none (here (M.head refl))

abbrev reason : String
reason = "no live worker provides model 'opus'"

reported : Memᴰ (pinned, reason) (unroutable lower queues ("haiku" ∷ []) [] none ("w1" ∷ []))
unfolding unroutable strip
reported = M.head refl

unroutable_sound_example : accepts lower none worker pinned ≡ false
unfolding norm_set strip
unroutable_sound_example =
    unroutable_sound lower queues ("haiku" ∷ []) [] none ("w1" ∷ []) worker pinned reason reported
      refl refl refl refl
