-- ===== src/Store/Standing.antt =====
-- What the writes of `apply_transition` to `tasks` in src/nightshift/manager/store.py mean for a task, whatever
-- row is kept for it.
use nightshift.Base.{
  ℕ, ◌+◌, String, Bool, true, false, Option, none, some, ◌≡◌, refl, if◌then◌else◌, arith, ◌∙◌, ap,
}
use nightshift.Lifecycle.{TaskHold, TaskHoldKind, Progress, TaskEffects}
use nightshift.Store.Rows.{TaskKey, TaskTable, same_key, lookup_task}
use nightshift.Store.Tasks.{apply_effects}
use nightshift.Store.Overlay.{
  Overlay, hold_row, count_row, clear_row, effects_row, lookup-apply_effects, reads_self,
  same_key_refl,
}

-- What a task's row stands for, where a missing row is a task that nothing is recorded of.
pub record Standing : Type 0 where
  pub hold : Option (TaskHoldKind × Option String × Option String × Bool)
  pub failures : ℕ
  pub not_before : Option ℕ

abbrev pub standing : Overlay → Standing
standing none = record { hold = none; failures = 0; not_before = none }
standing (some r) = record {
  hold = elim r.state [
    | none ↦ none
    | some kind ↦ some (kind, r.blocked_reason, r.repo, r.retry_eligible)
  ];
  failures = r.attempts_without_progress;
  not_before = r.next_eligible_at;
}

abbrev pub failures_after : Progress → ℕ → ℕ
failures_after Progress.unchanged n = n
failures_after Progress.reset n = 0
failures_after Progress.increment n = n + 1

module _ (now : ℕ) where
  abbrev pub not_before_after : Progress → Option ℕ → Option ℕ → Option ℕ
  not_before_after Progress.unchanged secs at = at
  not_before_after Progress.reset secs at = none
  not_before_after Progress.increment none at = none
  not_before_after Progress.increment (some secs) at = some (now + secs)

  -- What the effects ask for.
  abbrev pub asked : TaskEffects → Standing → Standing
  asked e s = record {
    hold = elim e.hold [
      | some h ↦ some (h.kind, h.reason, none, h.retry_eligible)
      | none ↦ if e.clear_hold then none else s.hold
    ];
    failures = failures_after e.progress s.failures;
    not_before = not_before_after e.progress e.next_eligible_in s.not_before;
  }

  abbrev placed : Option TaskHold → Standing → Standing
  placed none s = s
  placed (some h) s = record s { hold = some (h.kind, h.reason, none, h.retry_eligible) }

  abbrev counted : Progress → Option ℕ → Standing → Standing
  counted p secs s = record s {
    failures = failures_after p s.failures;
    not_before = not_before_after p secs s.not_before;
  }

  abbrev lifted : Option TaskHold → Bool → Standing → Standing
  lifted none true s = record s { hold = none }
  lifted _ _ s = s

  standing-hold_row :
      (h : Option TaskHold) (o : Overlay) → standing (hold_row now h o) ≡ placed h (standing o)
  standing-hold_row none o = refl
  standing-hold_row (some h) none = refl
  standing-hold_row (some h) (some r) = refl

  standing-count_row :
      (p : Progress) (secs : Option ℕ) (o : Overlay)
      → standing (count_row now p secs o) ≡ counted p secs (standing o)
  standing-count_row Progress.unchanged secs o = refl
  standing-count_row Progress.reset secs none = refl
  standing-count_row Progress.reset secs (some r) = refl
  standing-count_row Progress.increment none none = refl
  standing-count_row Progress.increment (some n) none = refl
  standing-count_row Progress.increment none (some r) = refl
  standing-count_row Progress.increment (some n) (some r) = refl

  standing-clear_row :
      (h : Option TaskHold) (clear : Bool) (o : Overlay)
      → standing (clear_row now h clear o) ≡ lifted h clear (standing o)
  standing-clear_row none true none = refl
  standing-clear_row none true (some r) = ground arith
  standing-clear_row none false o = refl
  standing-clear_row (some h) clear o = refl

  asked_lem :
      (h : Option TaskHold) (e : TaskEffects) (s : Standing)
      → e.hold ≡ h
      → lifted h e.clear_hold (counted e.progress e.next_eligible_in (placed h s)) ≡ asked e s
  asked_lem none e s i = ground (arith, i)
  asked_lem (some h) e s i = ground (arith, i)

  standing-effects_row :
      (e : TaskEffects) (o : Overlay) → standing (effects_row now e o) ≡ asked e (standing o)
  standing-effects_row e o =
      standing-clear_row e.hold e.clear_hold _
      ∙ ap (lifted e.hold e.clear_hold) (
          standing-count_row e.progress e.next_eligible_in (hold_row now e.hold o)
          ∙ ap (counted e.progress e.next_eligible_in) (standing-hold_row e.hold o))
      ∙ asked_lem e.hold e (standing o) refl

  -- For the task of a transition its writes do what the effects ask for: the hold that they set
  -- replaces any other, or else a cleared hold is gone and any other stays; the failures are counted
  -- up, reset or kept; the backoff is set with a count, gone with a reset and else kept. That a row
  -- without a hold, a failure and a backoff is deleted is not seen. The rows of other tasks are left.
  pub standing-apply_effects :
      (k j : TaskKey) (e : TaskEffects) (t : TaskTable)
      → (standing (lookup_task k (apply_effects now k e t)) ≡ asked e (standing (lookup_task k t)))
        × (lookup_task j (apply_effects now k e t)
            ≡ (if same_key k j then lookup_task k (apply_effects now k e t) else lookup_task j t))
  standing-apply_effects k j e t = (
    ap standing (
          lookup-apply_effects now k k e t
          ∙ reads_self now k (effects_row now e (lookup_task k t)) t)
        ∙ standing-effects_row e (lookup_task k t),
    ground (
      arith,
      lookup-apply_effects now k j e t,
      lookup-apply_effects now k k e t,
      same_key_refl now k,
    ),
  )
