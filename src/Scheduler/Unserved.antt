-- ===== src/Scheduler/Unserved.antt =====
-- What the reasons of `unroutable` in src/nightshift/manager/scheduler.py mean.
use nightshift.Base.{
  String, Bool, true, false, not, ◌&&◌, ◌||◌, Option, some, List, [], ◌∷◌, ◌≡◌, refl, arith, ap,
  sym, subst, ◌∙◌, contains, any, all, ◌==◌, Option-cases, inl, inr, eq_iff, map, strip, Bool-cases,
}
use mathlib.Core.List.{Memᴰ}
use mathlib.Core.List.Memᴰ as M
use nightshift.Scheduler.Workers.{
  TaskCandidate, WorkerFilter, Dedication, accepts, owner_ok, label, owners_of, norm, norm_set,
  norm_list, is_agnostic_model, model_ok, mcps_ok,
}
use nightshift.Scheduler.Unroutable.{
  first_missing, offline_reason, unroutable_reason, unroutable_of, unroutable_queues, unroutable,
}

all-contains :
    (xs ys : List String) (x : String)
    → all (contains ys) xs ≡ true
    → contains ys x ≡ false
    → contains xs x ≡ false
all-contains [] ys x h k = refl
all-contains (z ∷ xs) ys x h k = ground (arith, all-contains xs ys x, eq_iff z x)

offline-owners :
    (online owners : List String) (w : String)
    → contains online w ≡ true
    → any (contains online) owners ≡ false
    → contains owners w ≡ false
offline-owners online [] w h k = refl
offline-owners online (o ∷ owners) w h k =
    ground (arith, offline-owners online owners w, eq_iff o w)

module _ (lower : String → String) where
  abbrev pub has_names : List String → Bool
  has_names = all (λ m. not (strip m == ""))

  missing-refused :
      (available advertised ms : List String) (m : String)
      → has_names ms ≡ true
      → all (contains available) advertised ≡ true
      → first_missing lower available ms ≡ some m
      → all (contains advertised) (norm_list lower ms) ≡ false
  unfolding first_missing norm_list
  missing-refused available advertised [] m names known h = ground arith
  missing-refused available advertised (x ∷ ms) m names known h = ground (
    arith,
    missing-refused available advertised ms m,
    all-contains advertised available (norm lower x) known,
  )

  missing-mcps :
      (available : List String) (w : WorkerFilter) (c : TaskCandidate) (m : String)
      → has_names c.required_mcps ≡ true
      → all (contains available) (norm_set lower w.mcps) ≡ true
      → first_missing lower available c.required_mcps ≡ some m
      → mcps_ok lower w c ≡ false
  unfolding mcps_ok first_missing
  missing-mcps available w c m names known h =
      ground
        (arith, missing-refused available (norm_set lower w.mcps) c.required_mcps m names known h)

  -- A worker that one of the tests refuses does not accept.
  accepts-false :
      (dedication : Dedication) (w : WorkerFilter) (c : TaskCandidate)
      → (owner_ok lower w c (owners_of dedication (label c))
          && (model_ok lower w c && mcps_ok lower w c))
        ≡ false
      → accepts lower dedication w c ≡ false
  unfolding accepts
  accepts-false dedication w c h = ground arith

  model_ok-false :
      (models : List String) (w : WorkerFilter) (c : TaskCandidate)
      → all (contains models) (norm_set lower w.models) ≡ true
      → (is_agnostic_model lower c.model || contains models (norm lower c.model)) ≡ false
      → model_ok lower w c ≡ false
  unfolding model_ok
  model_ok-false models w c known h =
      ground (arith, all-contains (norm_set lower w.models) models (norm lower c.model) known)

  owner_ok-false :
      (online owners : List String) (w : WorkerFilter) (c : TaskCandidate) (l reason : String)
      → contains online w.worker_id ≡ true
      → offline_reason lower online l owners ≡ some reason
      → owner_ok lower w c owners ≡ false
  owner_ok-false online [] w c l reason h k = ground arith
  owner_ok-false online (o ∷ owners) w c l reason h k =
      ground (arith, offline-owners online (o ∷ owners) w.worker_id h)

  module _ (models mcps : List String) (dedication : Dedication) (online : List String) where
    module _ (w : WorkerFilter) (c : TaskCandidate) (reason : String) where
      -- A task with a reason is one that no worker accepts whose models and connectors are among
      -- the available ones and who is online.
      reason-refused :
          has_names c.required_mcps ≡ true
          → all (contains models) (norm_set lower w.models) ≡ true
          → all (contains mcps) (norm_set lower w.mcps) ≡ true
          → contains online w.worker_id ≡ true
          → unroutable_reason lower models mcps dedication online c ≡ some reason
          → accepts lower dedication w c ≡ false
      unfolding unroutable_reason
      reason-refused names known_models known_mcps is_online h = accepts-false dedication w c step
        where
          step :
              (owner_ok lower w c (owners_of dedication (label c))
                && (model_ok lower w c && mcps_ok lower w c))
              ≡ false
          step =
              elim (Bool-cases
                (is_agnostic_model lower c.model || contains models (norm lower c.model))) [
                  | inr unknown ↦ ground (arith, model_ok-false models w c known_models unknown)
                  | inl known ↦ elim (Option-cases (first_missing lower mcps c.required_mcps)) [
                    | inr (m, missing) ↦
                        ground (arith, missing-mcps mcps w c m names known_mcps missing)
                    | inl none_missing ↦ ground (
                      arith,
                      owner_ok-false online (owners_of dedication (label c)) w c (label c) reason
                          is_online,
                    )
                  ]
                ]

    listed_add :
        (x : TaskCandidate) (cands : List TaskCandidate) (r : String)
        → unroutable_reason lower models mcps dedication online x ≡ some r
        → unroutable_of lower models mcps dedication online (x ∷ cands)
          ≡ (x, r) ∷ unroutable_of lower models mcps dedication online cands
    unfolding unroutable_of
    listed_add x cands r h = ground arith

    listed-reason :
        (cands : List TaskCandidate) (c : TaskCandidate) (reason : String)
        → Memᴰ (c, reason) (unroutable_of lower models mcps dedication online cands)
        → unroutable_reason lower models mcps dedication online c ≡ some reason
    unfolding unroutable_of
    listed-reason [] c reason m = elim m [ ]
    listed-reason (x ∷ cands) c reason m =
        elim (Option-cases (unroutable_reason lower models mcps dedication online x)) [
          | inl h ↦ listed-reason cands c reason (subst (Memᴰ (c, reason)) (ground arith) m)
          | inr (r, h) ↦ elim (subst (Memᴰ (c, reason)) (listed_add x cands r h) m) [
            | M.head e ↦
                ap (λ p. unroutable_reason lower models mcps dedication online p.0) e
                ∙ h
                ∙ ap (λ p. some p.1) (sym e)
            | M.tail k ↦ listed-reason cands c reason k
          ]
        ]

    pub queued-reason :
        (queues : List (Option String × List TaskCandidate)) (c : TaskCandidate) (reason : String)
        → Memᴰ (c, reason) (unroutable_queues lower models mcps dedication online queues)
        → unroutable_reason lower models mcps dedication online c ≡ some reason
    unfolding unroutable_queues
    queued-reason [] c reason m = elim m [ ]
    queued-reason ((q, cands) ∷ queues) c reason m =
        elim (M.append_cases (unroutable_of lower models mcps dedication online cands) m) [
          | inl k ↦ listed-reason cands c reason k
          | inr k ↦ queued-reason queues c reason k
        ]

  -- A task that is reported is accepted by no live worker: by none that is online and advertises
  -- only models and connectors that are available, where the task names no blank connector.
  pub unroutable_sound :
      (queues : List (Option String × List TaskCandidate)) (models mcps : List String)
      (dedication : Dedication) (online : List String) (w : WorkerFilter) (c : TaskCandidate)
      (reason : String)
      → Memᴰ (c, reason) (unroutable lower queues models mcps dedication online)
      → has_names c.required_mcps ≡ true
      → all (contains (map (norm lower) models)) (norm_set lower w.models) ≡ true
      → all (contains (map (norm lower) mcps)) (norm_set lower w.mcps) ≡ true
      → contains online w.worker_id ≡ true
      → accepts lower dedication w c ≡ false
  unfolding unroutable
  unroutable_sound queues models mcps dedication online w c reason m names ms cs o =
      reason-refused (map (norm lower) models) (map (norm lower) mcps) dedication online w c reason
        names ms cs o (queued-reason _ _ dedication online queues c reason m)
