-- ===== src/Scheduler/Reasons.antt =====
-- The wording of `unroutable` in src/nightshift/manager/scheduler.py.
use nightshift.Base.{
  String, Bool, true, ◌||◌, Option, some, List, [], ◌∷◌, ◌≡◌, arith, sym, ap, ◌∙◌, refl, contains,
  inl, inr, Bool-cases, Option-cases, fstring, join,
}
use Prim.Native.String as S
use mathlib.Core.List.{Memᴰ}
use text.Mathlib.Text.{starts_with}
use text.Mathlib.TextPositions.{starts_with-append}
use nightshift.Scheduler.Workers.{
  TaskCandidate, Dedication, label, owners_of, norm, is_agnostic_model,
}
use nightshift.Scheduler.Unroutable.{
  no_capable_worker_prefix, dedicated_offline_prefix, no_capable_worker_reason,
  dedicated_offline_reason, first_missing, offline_reason, unroutable_reason, unroutable,
}
use nightshift.Scheduler.Unserved.{queued-reason}

-- `reason.startswith(UNROUTABLE_REASON_PREFIXES)`
abbrev pub has_prefix : String → Bool
has_prefix reason =
    starts_with reason no_capable_worker_prefix || starts_with reason dedicated_offline_prefix

first-prefix : (r s : String) → r ≡ S.◌++◌ no_capable_worker_prefix s → has_prefix r ≡ true
first-prefix r s e = ground (arith, e, starts_with-append no_capable_worker_prefix s)

second-prefix : (r s : String) → r ≡ S.◌++◌ dedicated_offline_prefix s → has_prefix r ≡ true
second-prefix r s e = ground (arith, e, starts_with-append dedicated_offline_prefix s)

capable-prefix : (kind name : String) → has_prefix (no_capable_worker_reason kind name) ≡ true
unfolding no_capable_worker_reason fstring
capable-prefix kind name = first-prefix _ (fstring (kind ∷ " '" ∷ name ∷ "'" ∷ [])) refl

offline-prefix :
    (l : String) (owners : List String) → has_prefix (dedicated_offline_reason l owners) ≡ true
unfolding dedicated_offline_reason fstring
offline-prefix l owners =
    second-prefix _ (fstring (l ∷ "' is dedicated to offline worker(s) " ∷ join ", " owners ∷ []))
      refl

some_text : {x y : String} → some x ≡ some y → x ≡ y
some_text h = cc

module _ (lower : String → String) where
  module _ (models mcps : List String) (dedication : Dedication) (online : List String) where
    some-prefix :
        (r reason : String) → some r ≡ some reason → has_prefix r ≡ true → has_prefix reason ≡ true
    some-prefix r reason h k = ap has_prefix (sym (some_text h)) ∙ k

    owners-prefix :
        (l : String) (owners : List String) (reason : String)
        → offline_reason lower online l owners ≡ some reason
        → has_prefix reason ≡ true
    owners-prefix l [] reason h = ground arith
    owners-prefix l (o ∷ owners) reason h =
        some-prefix (dedicated_offline_reason l (o ∷ owners)) reason (ground arith)
          (offline-prefix l (o ∷ owners))

    reason-prefix :
        (c : TaskCandidate) (reason : String)
        → unroutable_reason lower models mcps dedication online c ≡ some reason
        → has_prefix reason ≡ true
    unfolding unroutable_reason
    reason-prefix c reason h =
        elim (Bool-cases
          (is_agnostic_model lower c.model || contains models (norm lower c.model))) [
            | inr unknown ↦
                some-prefix (no_capable_worker_reason "model" c.model) reason (ground arith)
                  (capable-prefix "model" c.model)
            | inl known ↦ elim (Option-cases (first_missing lower mcps c.required_mcps)) [
              | inr (m, missing) ↦
                  some-prefix (no_capable_worker_reason "connector" m) reason (ground arith)
                    (capable-prefix "connector" m)
              | inl none_missing ↦
                  owners-prefix (label c) (owners_of dedication (label c)) reason (ground arith)
            ]
          ]

  -- Every reason that is reported starts with one of the two prefixes by which such a hold is
  -- recognised when it is cleared.
  unroutable_prefix :
      (queues : List (Option String × List TaskCandidate)) (models mcps : List String)
      (dedication : Dedication) (online : List String) (c : TaskCandidate) (reason : String)
      → Memᴰ (c, reason) (unroutable lower queues models mcps dedication online)
      → has_prefix reason ≡ true
  unfolding unroutable
  unroutable_prefix queues models mcps dedication online c reason m =
      reason-prefix _ _ dedication online c reason
        (queued-reason lower _ _ dedication online queues c reason m)
