-- ===== src/Transitions/Quarantine.antt =====
-- The failure ladder of src/nightshift/transitions.py: when a task is quarantined.
use nightshift.Base.{◌+◌, ◌<◌, ◌≤◌, String, Bool, true, false, none, ◌≡◌, ◌⊎◌, arith}
use nightshift.Lifecycle.{AttemptRef, SubmitPolicy}
use nightshift.Transitions.Rungs.{Ladder, failure_ladder}
use nightshift.Transitions.Outbox.{flags, announces}

-- Quarantine on the first counted failure is switched on, or the counter has come to a threshold
-- that is set.
abbrev pub IsDue : SubmitPolicy → Type 0
IsDue p =
    (p.retry.immediate_quarantine ≡ true)
    ⊎ ((0 < p.retry.quarantine_after)
        × (p.retry.quarantine_after ≤ p.attempts_without_progress + 1))

module _ (ref : AttemptRef) (p : SubmitPolicy) (detail reason : String) (pauses : Bool) where
  abbrev rung : Ladder
  rung = failure_ladder ref p detail reason pauses

  -- Where a quarantine is due, the ladder quarantines the task: the flag is written and announced,
  -- the task is not flagged failed, no backoff is set and the watch is left alone.
  pub failure_ladder_due :
      IsDue p
      → (rung.quarantined ≡ true)
        × (flags "quarantined" rung.frontmatter ≡ true)
        × (announces "task_quarantined" rung.events ≡ true)
        × (flags "failed" rung.frontmatter ≡ false)
        × (rung.backoff ≡ none)
        × (rung.watch ≡ none)
  unfolding failure_ladder
  failure_ladder_due h =
      (ground arith, ground arith, ground arith, ground arith, ground arith, ground arith)
