-- ===== src/Candidates/Built.antt =====
-- When `build_candidates` of src/nightshift/manager/scheduler.py succeeds, and what it gives.
use nightshift.Base.{
  String, Bool, true, false, Option, none, some, List, [], ◌∷◌, ◌≡◌, refl, ap, ◌∙◌, arith, inl, inr,
  map, all, leb, Dict, lookup, Json, Result, ok, err, ◌>>=◌, Option-cases, ℤ, pos, negsuc, int_of,
  str, null, bool, int, float, arr, obj, if◌then◌else◌, strip, ◌==◌, Bool-cases,
}
use nightshift.Scheduler.{TaskCandidate}
use nightshift.Workflows.Step.{WorkflowDef}
use nightshift.Queues.Config.{ConfigFile, loaded}
use nightshift.Queues.Frontmatter.{task_priority, clamped, max_priority}
use nightshift.Queues.Scan.{live_ordered_queue}
use nightshift.Candidates.Repos.{resolve_repo, stripped, checked_ref, no_repo, is_valid_repo_ref}
use nightshift.Candidates.Resolver.{Resolved, text_in, resolve}
use nightshift.Candidates.Build.{
  routing, caught, candidate, candidates_of, build_candidates, meta_at, normalize_model,
  candidate_of, routing_of, plain, Routing,
}

clamped_bound : (n : ℤ) → leb (clamped n) max_priority ≡ true
unfolding clamped
clamped_bound (pos n) = ground arith
clamped_bound (negsuc n) = ground arith

task_priority_bound : (meta : Dict Json) → leb (task_priority meta) max_priority ≡ true
unfolding task_priority
task_priority_bound meta = elim (Option-cases (lookup "priority" meta)) [
  | inl absent ↦ ground (arith, clamped_bound (pos 5))
  | inr (raw, there) ↦ elim (Option-cases (int_of raw)) [
    | inl no_number ↦ ground arith
    | inr (n, number) ↦ ground (arith, clamped_bound n)
  ]
]

-- A value that `strip` accepts: a text, or none.
abbrev pub is_text : Option Json → Bool
is_text none = true
is_text (some (str s)) = true
is_text (some v) = false

-- A call that returned.
IsOk {ℓ} : {A : Type ℓ} → Result A → Type ℓ
IsOk {A = A} r = (a : A) × (r ≡ ok a)

checked-caught : (ref : String) → IsOk (caught (checked_ref ref))
unfolding IsOk checked_ref caught
checked-caught ref = elim (Bool-cases (ref == "")) [
  | inl empty ↦ ((none, some no_repo), ground arith)
  | inr named ↦ elim (Bool-cases (is_valid_repo_ref (some ref))) [
    | inl valid ↦ ((some ref, none), ground arith)
    | inr invalid ↦ ((none, some "invalid repo reference"), ground arith)
  ]
]

stripped-text : (v : Option Json) → is_text v ≡ true → IsOk (stripped v)
unfolding IsOk stripped
stripped-text none h = ("", refl)
stripped-text (some (str s)) h = (strip s, refl)
stripped-text (some null) h = ground arith
stripped-text (some (bool b)) h = ground arith
stripped-text (some (int n)) h = ground arith
stripped-text (some (float x)) h = ground arith
stripped-text (some (arr vs)) h = ground arith
stripped-text (some (obj ms)) h = ground arith

repo-caught :
    (task_repo queue_repo : Option Json)
    → is_text task_repo ≡ true
    → is_text queue_repo ≡ true
    → IsOk (caught (resolve_repo task_repo queue_repo))
unfolding IsOk resolve_repo
repo-caught task_repo queue_repo h k =
    let (ref, read) = stripped-text task_repo h in
    let (other, read_other) = stripped-text queue_repo k in
    elim (Bool-cases (ref == "")) [
      | inl empty ↦
          let (r, e) = checked-caught other in
          (
            r,
            ap (λ m. caught (m >>= next)) read
                ∙ ap
                    (λ b.
                      caught (if b then stripped queue_repo >>= checked_ref else checked_ref ref))
                    empty
                ∙ ap (λ m. caught (m >>= checked_ref)) read_other
                ∙ e,
          )
      | inr named ↦
          let (r, e) = checked-caught ref in
          (
            r,
            ap (λ m. caught (m >>= next)) read
                ∙ ap
                    (λ b.
                      caught (if b then stripped queue_repo >>= checked_ref else checked_ref ref))
                    named
                ∙ e,
          )
    ]
  where
    next : String → Result String
    next ref = if ref == "" then stripped queue_repo >>= checked_ref else checked_ref ref

abbrev pub returns {ℓ} : {A : Type ℓ} → Result A → Bool
returns (ok a) = true
returns (err e) = false

returned {ℓ} : {A : Type ℓ} (r : Result A) → returns r ≡ true → IsOk r
unfolding IsOk
returned (ok a) h = (a, refl)
returned (err e) h = ground arith

module _ (repr : Json → String) (resolver : Dict Json → Dict Json → Result Resolved)
    (default_model : String) (queue : Option String) where
  routing-total :
      (meta config : Dict Json) (model : String)
      → returns (resolver meta config) ≡ true
      → IsOk (routing repr (some resolver) meta config model)
  unfolding IsOk routing
  routing-total meta config model t = elim (Bool-cases (text_in repr "workflow" meta == "")) [
    | inl free ↦ (plain model, ground arith)
    | inr named ↦
        let (r, e) = returned (resolver meta config) t in
        (
          routing_of model r,
          ap
                (λ b.
                  if b
                  then ok (plain model)
                  else resolver meta config >>= λ x. ok (routing_of model x))
                named
              ∙ ap (λ m. m >>= λ x. ok (routing_of model x)) e,
        )
  ]

  -- A candidate of the task with a priority in range.
  candidate-total :
      (config : Dict Json) (files : Dict String) (stem : String)
      → is_text (lookup "repo" (meta_at files stem)) ≡ true
      → is_text (lookup "repo" config) ≡ true
      → returns (resolver (meta_at files stem) config) ≡ true
      → (c : TaskCandidate) × (candidate repr (some resolver) default_model queue config files stem
          ≡ ok c)
        × (c.task ≡ stem)
        × (leb c.priority max_priority ≡ true)
  unfolding candidate candidate_of IsOk
  candidate-total config files stem h k t =
      let (repo, e) = repo-caught (lookup "repo" (meta_at files stem)) (lookup "repo" config) h k in
      let (r, f) =
        routing-total (meta_at files stem) config
          (normalize_model repr (meta_at files stem) default_model) t in
      (
        candidate_of repr queue (meta_at files stem) stem repo r,
        ap
              (λ m. m >>= λ x.
                route >>= λ y. ok (candidate_of repr queue (meta_at files stem) stem x y))
              e
            ∙ ap (λ m. m >>= λ y. ok (candidate_of repr queue (meta_at files stem) stem repo y)) f,
        refl,
        task_priority_bound (meta_at files stem),
      )
    where
      route : Result Routing
      route =
          routing repr (some resolver) (meta_at files stem) config
            (normalize_model repr (meta_at files stem) default_model)

  candidates_of-total :
      (config : Dict Json) (files : Dict String) (stems : List String)
      → all (λ stem. is_text (lookup "repo" (meta_at files stem))) stems ≡ true
      → is_text (lookup "repo" config) ≡ true
      → all (λ stem. returns (resolver (meta_at files stem) config)) stems ≡ true
      → (cs : List TaskCandidate) × (candidates_of repr
            (some resolver)
            default_model
            queue
            config
            files
            stems
          ≡ ok cs)
        × (map (λ (c : TaskCandidate). c.task) cs ≡ stems)
        × (all (λ c. leb c.priority max_priority) cs ≡ true)
  unfolding candidates_of
  candidates_of-total config files [] h k t = ([], refl, refl, refl)
  candidates_of-total config files (stem ∷ stems) h k t =
      let (c, read, same, bound) =
        candidate-total config files stem (ground (arith, h)) k (ground (arith, t)) in
      let (cs, reads, names, bounds) =
        candidates_of-total config files stems (ground (arith, h)) k (ground (arith, t)) in
      (
        c ∷ cs,
        ap (λ m. m >>= λ x. rest >>= λ xs. ok (x ∷ xs)) read
            ∙ ap (λ m. m >>= λ xs. ok (c ∷ xs)) reads,
        ap (◌∷◌ c.task) names ∙ ap (λ s. s ∷ stems) same,
        ground arith,
      )
    where
      rest : Result (List TaskCandidate)
      rest = candidates_of repr (some resolver) default_model queue config files stems

-- Where the repositories named by the queue and by its live tasks are texts, and the workflow resolver
-- returns for the live tasks under the queue's configuration, the candidates of the queue are built: they
-- are the tasks of the live queue in its order, each with a priority of at most 5. The digits of the
-- frontmatter are those of ASCII.
pub build_candidates_total :
    (repr : Json → String) (defs : Dict WorkflowDef) (planner_model default_model : String)
    (queue : Option String) (file : ConfigFile) (files : Dict String)
    → all
        (λ stem. is_text (lookup "repo" (meta_at files stem)))
        (live_ordered_queue repr file files)
      ≡ true
    → is_text (lookup "repo" (loaded file)) ≡ true
    → all
        (λ stem.
          returns
            (resolve repr defs planner_model default_model (meta_at files stem) (loaded file)))
        (live_ordered_queue repr file files)
      ≡ true
    → (cs : List TaskCandidate) × (build_candidates repr
          (some (resolve repr defs planner_model default_model))
          default_model
          queue
          file
          files
        ≡ ok cs)
      × (map (λ (c : TaskCandidate). c.task) cs ≡ live_ordered_queue repr file files)
      × (all (λ c. leb c.priority max_priority) cs ≡ true)
unfolding build_candidates
build_candidates_total repr defs planner_model default_model queue file files h k t =
    candidates_of-total repr (resolve repr defs planner_model default_model) default_model queue
      (loaded file) files (live_ordered_queue repr file files) h k t
