-- ===== src/Scheduler/Heads.antt =====
-- src/nightshift/manager/scheduler.py, lines 187-194 and 314-388: the heads and the arbitration.
use nightshift.Base.{
  text_lt, ℕ, suc, String, Bool, true, false, ◌&&◌, ◌||◌, Option, none, some, List, [], ◌∷◌, ◌++◌,
  ◌==◌, Dict, lookup, insert, contains, any, map, if◌then◌else◌, ltb, leb,
}
use nightshift.Scheduler.Workers.{
  TaskCandidate, WorkerFilter, Dedication, queue_label, label, accepts,
}

-- A set of tasks, each with its queue.
abbrev pub TaskSet : Type 0
TaskSet = List (Option String × String)

abbrev same_queue : Option String → Option String → Bool
same_queue none none = true
same_queue (some a) (some b) = a == b
same_queue _ _ = false

-- `(cand.queue, cand.task) in keys`
unfoldable pub in_set : TaskSet → TaskCandidate → Bool
in_set [] c = false
in_set ((queue, task) ∷ keys) c = same_queue queue c.queue && task == c.task || in_set keys c

-- The order of the keys `(c.priority, state.served.get(c.label, 0), c.label)`.
abbrev pub Key : Type 0
Key = ℕ × (ℕ × String)

unfoldable pub key_lt : Key → Key → Bool
unfolding text_lt
key_lt (p, (n, a)) (q, (m, b)) = ltb p q || leb p q && (ltb n m || leb n m && text_lt a b)

-- SchedulerState: how often each queue was served.
abbrev pub SchedulerState : Type 0
SchedulerState = Dict ℕ

-- `state.served.get(label, 0)`
unfoldable pub served : SchedulerState → String → ℕ
unfolding lookup
served state l = elim (lookup l state) [ none ↦ 0 | some n ↦ n ]

unfoldable pub record_served : Option String → SchedulerState → SchedulerState
unfolding queue_label served insert
record_served queue state =
    insert (queue_label queue) (suc (served state (queue_label queue))) state

unfoldable pub key_of : SchedulerState → TaskCandidate → Key
unfolding served label
key_of state c = (c.priority, (served state (label c), label c))

-- `min(best, *heads)` by the key: the first of the least.
unfoldable pub least : SchedulerState → TaskCandidate → List TaskCandidate → TaskCandidate
unfolding key_lt key_of
least state best [] = best
least state best (c ∷ heads) =
    least state (if key_lt (key_of state c) (key_of state best) then c else best) heads

unfoldable pub arbitrate : List TaskCandidate → SchedulerState → Option TaskCandidate
unfolding least
arbitrate [] state = none
arbitrate (c ∷ heads) state = some (least state c heads)

module _ (lower : String → String) where
  module _ (worker : WorkerFilter) (leased blocked : TaskSet) where
    module _ (present_tasks : List String) (dedication : Dedication) where
      unfoldable pub queue_head : List TaskCandidate → Option TaskCandidate
      unfolding in_set accepts
      queue_head [] = none
      queue_head (c ∷ candidates) =
          let rest = queue_head candidates in
          if in_set leased c || in_set blocked c
          then rest
          else if any (contains present_tasks) c.after
          then rest
          else if accepts lower dedication worker c
          then some c
          else rest

    -- The heads of the queues that have one.
    unfoldable pub queue_heads :
        List String → Dedication → List (Option String × List TaskCandidate) → List TaskCandidate
    unfolding queue_head
    queue_heads present_tasks dedication [] = []
    queue_heads present_tasks dedication ((queue, cands) ∷ queues) =
        let rest = queue_heads present_tasks dedication queues in
        elim (queue_head present_tasks dedication cands) [ none ↦ rest | some c ↦ c ∷ rest ]

  unfoldable pub all_tasks : List (Option String × List TaskCandidate) → List String
  all_tasks [] = []
  all_tasks ((queue, cands) ∷ queues) =
      map (λ (c : TaskCandidate). c.task) cands ++ all_tasks queues

  -- The chosen task, and the state with its queue served once more.
  unfoldable pub pick_next :
      List (Option String × List TaskCandidate)
      → WorkerFilter
      → TaskSet
      → TaskSet
      → SchedulerState
      → Dedication
      → Option TaskCandidate × SchedulerState
  unfolding queue_heads arbitrate all_tasks record_served
  pick_next queues worker leased blocked state dedication =
      let heads = queue_heads worker leased blocked (all_tasks queues) dedication queues in
      elim (arbitrate heads state) [
        | none ↦ (none, state)
        | some c ↦ (some c, record_served c.queue state)
      ]
