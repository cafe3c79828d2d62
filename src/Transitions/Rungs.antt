-- ===== src/Transitions/Rungs.antt =====
-- src/nightshift/transitions.py, lines 48-172: the watch, the quarantines and the failure ladder.
use nightshift.Base.{
  ℕ, ◌+◌, String, Bool, true, false, not, ◌&&◌, Option, none, some, List, [], ◌∷◌, ◌++◌, pos, int,
  str, ltb, leb, if◌then◌else◌, fstring, show_nat,
}
use nightshift.Lifecycle.{AttemptRef, SubmitPolicy, FrontmatterFlag, TransitionEvent, delay}
use nightshift.Transitions.Fields.{task_quarantined, queue_paused, quarantine_flag, failed_flag}

unfoldable pub watch_failure : AttemptRef → SubmitPolicy → Option String × List TransitionEvent
watch_failure ref policy =
    if policy.watch_armed && not policy.queue_paused
    then (some "consecutive_failures", queue_paused ref "consecutive_failures" ∷ [])
    else (none, [])

abbrev pub retry_reason : String → String
retry_reason detail = fstring (
    "quarantined after failing again on retry (" ∷ detail
    ∷ "); review the run logs and edit or delete the task to release it" ∷ [])

unfoldable pub retry_quarantine : AttemptRef → String → FrontmatterFlag × List TransitionEvent
retry_quarantine ref detail =
    let reason = retry_reason detail in
    (
      quarantine_flag reason,
      task_quarantined ref (("reason", str reason) ∷ ("streak", int (pos 2)) ∷ [])
          ∷ queue_paused ref "retry_failed"
          ∷ [],
    )

unfoldable pub immediate_quarantine : AttemptRef → String → FrontmatterFlag × List TransitionEvent
immediate_quarantine ref detail =
    let reason = fstring (
      "quarantined by worker on first failure (" ∷ detail
      ∷ "); review the run logs and edit or delete the task to release it" ∷ []) in
    (
      quarantine_flag reason,
      task_quarantined ref (("reason", str reason) ∷ ("streak", int (pos 1)) ∷ []) ∷ [],
    )

unfoldable pub looping_quarantine : AttemptRef → ℕ → String → FrontmatterFlag × List TransitionEvent
looping_quarantine ref attempts detail =
    let reason = fstring (
      "quarantined after "
      ∷ show_nat attempts
      ∷ " consecutive runs with no progress ("
      ∷ detail
      ∷ "); execution halted to protect budget — review the run "
      ∷ "logs and edit or delete the task to release it"
      ∷ []) in
    (
      quarantine_flag reason,
      task_quarantined ref (("reason", str reason) ∷ ("streak", int (pos attempts)) ∷ []) ∷ [],
    )

-- The tuple that the ladder returns.
pub record Ladder : Type 0 where
  pub quarantined : Bool
  pub frontmatter : List FrontmatterFlag
  pub events : List TransitionEvent
  pub pause : Option String
  pub watch : Option Bool
  pub backoff : Option ℕ

-- The first rung: quarantine on the first failure.
unfoldable pub immediate_rung : AttemptRef → String → Ladder
unfolding immediate_quarantine
immediate_rung ref detail =
    let (flag, evs) = immediate_quarantine ref detail in
    record {
      quarantined = true;
      frontmatter = flag ∷ [];
      events = evs;
      pause = none;
      watch = none;
      backoff = none;
    }

-- The second rung: the counter has reached the threshold.
unfoldable pub looping_rung : AttemptRef → ℕ → String → Bool → Ladder
unfolding looping_quarantine
looping_rung ref attempts detail pauses =
    let (flag, evs) = looping_quarantine ref attempts detail in
    record {
      quarantined = true;
      frontmatter = flag ∷ [];
      events = if pauses then evs ++ (queue_paused ref "retry_failed" ∷ []) else evs;
      pause = if pauses then some "retry_failed" else none;
      watch = none;
      backoff = none;
    }

-- The last rung: the failed flag, the watch and the backoff, and a retry's quarantine.
unfoldable pub failed_rung : AttemptRef → SubmitPolicy → ℕ → String → Ladder
unfolding watch_failure retry_quarantine
failed_rung ref policy attempts reason =
    let (pause, watch_events) = watch_failure ref policy in
    let (flag, retry_events) = retry_quarantine ref reason in
    record {
      quarantined = false;
      frontmatter =
          if policy.was_retry then failed_flag reason ∷ flag ∷ [] else failed_flag reason ∷ [];
      events = if policy.was_retry then watch_events ++ retry_events else watch_events;
      pause = if policy.was_retry then some "retry_failed" else pause;
      watch = some true;
      backoff = some (delay policy.retry.backoff attempts);
    }

abbrev pub threshold_reached : SubmitPolicy → ℕ → Bool
threshold_reached policy attempts =
    ltb 0 policy.retry.quarantine_after && leb policy.retry.quarantine_after attempts

unfoldable pub failure_ladder :
    (ref : AttemptRef) (policy : SubmitPolicy) (quarantine_detail failure_reason : String)
    (retry_pause_after_quarantine : Bool)
    → Ladder
unfolding immediate_rung looping_rung failed_rung
failure_ladder ref policy quarantine_detail failure_reason retry_pause_after_quarantine =
    let attempts = policy.attempts_without_progress + 1 in
    if policy.retry.immediate_quarantine
    then immediate_rung ref quarantine_detail
    else if threshold_reached policy attempts
    then looping_rung ref attempts quarantine_detail
        (retry_pause_after_quarantine && policy.was_retry)
    else failed_rung ref policy attempts failure_reason
