-- ===== src/Scheduler/Unroutable.antt =====
-- src/nightshift/manager/scheduler.py, lines 46-68 and 391-433: the tasks that nobody can serve.
-- `lower` stands for `str.lower`.
use nightshift.Base.{
  String, not, ◌||◌, Option, none, some, List, [], ◌∷◌, ◌++◌, contains, any, map, fstring, join,
  if◌then◌else◌,
}
use nightshift.Scheduler.Workers.{
  TaskCandidate, Dedication, label, owners_of, norm, is_agnostic_model,
}

abbrev pub no_capable_worker_prefix : String
no_capable_worker_prefix = "no live worker provides "

abbrev pub dedicated_offline_prefix : String
dedicated_offline_prefix = "queue '"

unfoldable pub no_capable_worker_reason : String → String → String
unfolding fstring
no_capable_worker_reason kind name =
    fstring (no_capable_worker_prefix ∷ kind ∷ " '" ∷ name ∷ "'" ∷ [])

unfoldable pub dedicated_offline_reason : String → List String → String
unfolding fstring join
dedicated_offline_reason l owners =
    fstring (
      dedicated_offline_prefix ∷ l ∷ "' is dedicated to offline worker(s) " ∷ join ", " owners ∷ [])

module _ (lower : String → String) where
  -- The first of the connectors that nobody provides.
  unfoldable pub first_missing : List String → List String → Option String
  unfolding norm
  first_missing available [] = none
  first_missing available (m ∷ ms) =
      let rest = first_missing available ms in
      if contains available (norm lower m) then rest else some m

  abbrev pub offline_reason : List String → String → List String → Option String
  offline_reason online l [] = none
  offline_reason online l (o ∷ owners) =
      if any (contains online) (o ∷ owners)
      then none
      else some (dedicated_offline_reason l (o ∷ owners))

  module _ (models mcps : List String) (dedication : Dedication) (online : List String) where
    -- Why nobody can serve the task, where nobody can; the sets of models and connectors are
    -- normalised.
    unfoldable pub unroutable_reason : TaskCandidate → Option String
    unfolding norm is_agnostic_model label owners_of first_missing no_capable_worker_reason
        dedicated_offline_reason
    unroutable_reason c =
        if not (is_agnostic_model lower c.model || contains models (norm lower c.model))
        then some (no_capable_worker_reason "model" c.model)
        else elim (first_missing mcps c.required_mcps) [
          | some m ↦ some (no_capable_worker_reason "connector" m)
          | none ↦ offline_reason online (label c) (owners_of dedication (label c))
        ]

    unfoldable pub unroutable_of : List TaskCandidate → List (TaskCandidate × String)
    unfolding unroutable_reason
    unroutable_of [] = []
    unroutable_of (c ∷ cands) =
        let rest = unroutable_of cands in
        elim (unroutable_reason c) [ none ↦ rest | some reason ↦ (c, reason) ∷ rest ]

    unfoldable pub unroutable_queues :
        List (Option String × List TaskCandidate) → List (TaskCandidate × String)
    unfolding unroutable_of
    unroutable_queues [] = []
    unroutable_queues ((queue, cands) ∷ queues) = unroutable_of cands ++ unroutable_queues queues

  -- The arguments: the queues, the models and the connectors that live workers advertise, the
  -- dedication, and the workers that are online.
  unfoldable pub unroutable :
      List (Option String × List TaskCandidate)
      → List String
      → List String
      → Dedication
      → List String
      → List (TaskCandidate × String)
  unfolding unroutable_queues norm
  unroutable queues available_models available_mcps dedication online =
      unroutable_queues (map (norm lower) available_models) (map (norm lower) available_mcps)
        dedication online queues
