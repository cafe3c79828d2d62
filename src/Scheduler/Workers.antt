-- ===== src/Scheduler/Workers.antt =====
-- src/nightshift/manager/scheduler.py, lines 70-184: candidates, and what a worker accepts.
-- `lower` stands for `str.lower`.
use nightshift.Base.{
  ℕ, String, Bool, true, false, not, ◌&&◌, ◌||◌, Option, none, some, List, [], ◌∷◌, ◌==◌, Dict,
  lookup, contains, any, all, strip, opt_or, if◌then◌else◌, leb,
}

pub record TaskCandidate : Type 0 where
  pub queue : Option String
  pub task : String
  pub priority : ℕ
  pub model : String
  pub required_mcps : List String
  pub after : List String
  pub repo : Option String
  pub repo_error : Option String
  pub workflow : Option String
  pub workflow_step : Option String
  pub workflow_error : Option String

pub record WorkerFilter : Type 0 where
  pub worker_id : String
  pub queues : Option (List String)
  pub priorities : Option (List ℕ)
  pub models : Option (List String)
  pub mcps : Option (List String)

abbrev pub Dedication : Type 0
Dedication = Option (Dict (List String))

unfoldable pub queue_label : Option String → String
queue_label queue = opt_or queue "main"

unfoldable pub label : TaskCandidate → String
unfolding queue_label
label c = queue_label c.queue

-- The dedicated owners of a queue; none where the queue is not dedicated.
unfoldable pub owners_of : Dedication → String → List String
unfolding lookup
owners_of none l = []
owners_of (some d) l = elim (lookup l d) [ none ↦ [] | some owners ↦ owners ]

abbrev is_empty {ℓ} : {A : Type ℓ} → List A → Bool
is_empty [] = true
is_empty (x ∷ xs) = false

abbrev number_in : ℕ → List ℕ → Bool
number_in n = any (λ m. leb m n && leb n m)

-- AGNOSTIC_MODELS
abbrev agnostic_models : List String
agnostic_models = "auto" ∷ "max" ∷ "" ∷ "default" ∷ []

module _ (lower : String → String) where
  -- `v.strip().lower()`
  unfoldable pub norm : String → String
  norm v = lower (strip v)

  unfoldable pub is_agnostic_model : String → Bool
  unfolding norm
  is_agnostic_model model = contains agnostic_models (norm model)

  -- `_norm_set` of a list; the set is the list of its members.
  unfoldable pub norm_list : List String → List String
  unfolding norm
  norm_list [] = []
  norm_list (v ∷ vs) = let rest = norm_list vs in if strip v == "" then rest else norm v ∷ rest

  unfoldable pub norm_set : Option (List String) → List String
  unfolding norm_list
  norm_set none = []
  norm_set (some vs) = norm_list vs

  unfoldable pub model_ok : WorkerFilter → TaskCandidate → Bool
  unfolding is_agnostic_model norm_set norm
  model_ok w c =
      if is_agnostic_model c.model then true else contains (norm_set w.models) (norm c.model)

  unfoldable pub mcps_ok : WorkerFilter → TaskCandidate → Bool
  unfolding norm_set norm_list
  mcps_ok w c =
      if is_empty c.required_mcps
      then true
      else all (contains (norm_set w.mcps)) (norm_list c.required_mcps)

  abbrev queues_ok : WorkerFilter → TaskCandidate → Bool
  queues_ok w c = elim w.queues [ none ↦ true | some names ↦ contains names (label c) ]

  abbrev pub owner_ok : WorkerFilter → TaskCandidate → List String → Bool
  owner_ok w c owners = is_empty owners || contains owners w.worker_id

  abbrev priority_ok : WorkerFilter → TaskCandidate → Bool
  priority_ok w c = elim w.priorities [ none ↦ true | some levels ↦ number_in c.priority levels ]

  -- `WorkerFilter.accepts`
  unfoldable pub accepts : Dedication → WorkerFilter → TaskCandidate → Bool
  unfolding label owners_of model_ok mcps_ok
  accepts dedication w c =
      if not (queues_ok w c)
      then false
      else if not (owner_ok w c (owners_of dedication (label c)))
      then false
      else if not (priority_ok w c)
      then false
      else if not (model_ok w c)
      then false
      else mcps_ok w c
