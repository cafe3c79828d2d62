-- ===== src/FailurePolicy/Pick.antt =====
-- src/nightshift/manager/failure_policy.py: `pick_retry`. Of a row only the task is read.
use nightshift.Base.{
  ℕ, suc, String, Option, none, some, List, [], ◌∷◌, Dict, lookup, insert, length, ltb,
  if◌then◌else◌,
}

-- `{task: i for i, task in enumerate(order)}`, the indices from `i` on.
unfoldable pub ranks_from : ℕ → List String → Dict ℕ → Dict ℕ
unfolding insert
ranks_from i [] rank = rank
ranks_from i (task ∷ order) rank = ranks_from (suc i) order (insert task i rank)

unfoldable pub ranks : List String → Dict ℕ
unfolding ranks_from
ranks order = ranks_from 0 order []

-- `rank.get(task, len(rank))`
unfoldable pub rank_of : Dict ℕ → String → ℕ
unfolding lookup
rank_of rank task = elim (lookup task rank) [ none ↦ length rank | some i ↦ i ]

-- The head of the stable sort: the first of the tasks with the least rank.
unfoldable pub first_ranked : Dict ℕ → String → List String → String
unfolding rank_of
first_ranked rank best [] = best
first_ranked rank best (task ∷ rest) =
    first_ranked rank (if ltb (rank_of rank task) (rank_of rank best) then task else best) rest

unfoldable pub pick_retry : List String → List String → Option String
unfolding first_ranked ranks
pick_retry [] order = none
pick_retry (task ∷ retryable) order = some (first_ranked (ranks order) task retryable)
