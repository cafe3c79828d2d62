-- ===== src/Store/Examples.antt =====
-- Runs of src/nightshift/manager/store.py on a store with one attempt.
use nightshift.Base.{
  Dict, no_repeats, arith, true, false, none, some, [], ◌∷◌, ◌≡◌, ◌≢◌, refl, ok, insert, lookup,
}
use nightshift.Lifecycle.{AttemptState, state_value, is_live, TaskEffects, no_effects, TaskHoldKind}
use nightshift.Transitions.{on_deadline, on_operator_stop, workflow_doc_advance}
use nightshift.Transitions.Issued.{by_deadline}
use nightshift.Samples.{an_attempt, a_store, a_row, a_key, a_counter, finished, a_step}
use nightshift.Store.Rows.{Store, TaskKey, lookup_task}
use nightshift.Store.Attempts.{
  check_attempt_fields, create_attempt, NewAttempt, set_attempt, write_attempt, new_row, slot_taken,
}
use nightshift.Store.Transport.{QueueState, set_queue_pause, queue_pauses, queue_modes}
use nightshift.Store.Pruned.{IsPruned, set_queue_pause_lem}
use nightshift.Store.Tasks.{apply_effects}
use nightshift.Store.Apply.{apply_transition, append_events, commit, cas_matches}
use nightshift.Store.Recorded.{IsRecorded, apply_transition-IsRecorded, apply_transition_once}
use nightshift.Store.Fields.{Issued-IsStorable}
use nightshift.Store.Standing.{standing, asked, standing-apply_effects}
use nightshift.Store.Lifetime.{
  resets_only, is_justified, is_carried, apply_effects-IsJustified, workflow_doc_advance_leaves_row,
}
use nightshift.Store.Live.{clash, share_slot, apply_transition-one_live, create_attempt-one_live}

abbrev played : Dict QueueState
played = ("main", record { paused_reason = none; mode = some "once"; updated_at = 3 }) ∷ []

played-IsPruned : IsPruned played
unfolding no_repeats
played-IsPruned = record { carried = refl; one_row = refl }

set_queue_pause_lem_example :
    IsPruned (set_queue_pause 9 "main" (some "retry_failed") played)
    × (lookup "main" (queue_pauses (set_queue_pause 9 "main" (some "retry_failed") played))
        ≡ some "retry_failed")
    × (lookup "main" (queue_modes (set_queue_pause 9 "main" (some "retry_failed") played))
        ≡ lookup "main" (queue_modes played))
set_queue_pause_lem_example =
    set_queue_pause_lem 9 "main" "main" (some "retry_failed") played played-IsPruned

Issued-IsStorable_example : check_attempt_fields (on_deadline an_attempt).fields ≡ ok tt
Issued-IsStorable_example = Issued-IsStorable (on_deadline an_attempt) (by_deadline an_attempt refl)

-- The deadline of the running attempt passes at tick 40.
abbrev after : Store
after = record a_store {
  attempts =
      (
        "run-1",
        record (a_row AttemptState.expired) { finished_at = some 40; released_at = some 40 },
      )
      ∷ [];
}

expires :
    apply_transition 40 (on_deadline an_attempt) AttemptState.running (some "w1") a_store
    ≡ ok (some [], after)
unfolding apply_transition append_events check_attempt_fields on_deadline lookup cas_matches
    state_value commit write_attempt set_attempt is_live insert apply_effects
expires = refl

moved_on : (on_deadline an_attempt).state ≢ AttemptState.running
unfolding on_deadline
moved_on h = cc

apply_transition-IsRecorded_example :
    IsRecorded (on_deadline an_attempt) AttemptState.running a_store after
apply_transition-IsRecorded_example =
    apply_transition-IsRecorded 40 (on_deadline an_attempt) AttemptState.running (some "w1") a_store
      [] after expires

stop_fields : check_attempt_fields (on_operator_stop an_attempt).fields ≡ ok tt
unfolding check_attempt_fields on_operator_stop
stop_fields = refl

same_attempt : (on_operator_stop an_attempt).ref.id ≡ (on_deadline an_attempt).ref.id
unfolding on_operator_stop on_deadline
same_attempt = refl

apply_transition_once_example :
    apply_transition 41 (on_operator_stop an_attempt) AttemptState.running (some "w1") after
    ≡ ok (none, after)
apply_transition_once_example =
    apply_transition_once 40 41 (on_deadline an_attempt) (on_operator_stop an_attempt)
      AttemptState.running (some "w1") a_store [] after expires moved_on same_attempt stop_fields

apply_transition-one_live_example : clash "run-1" "run-2" after.attempts ≡ false
unfolding clash share_slot lookup
apply_transition-one_live_example =
    apply_transition-one_live 40 (on_deadline an_attempt) AttemptState.running (some "w1") a_store
      [] after "run-1" "run-2" expires refl

-- A second attempt at the task, while the first runs.
abbrev second : NewAttempt
second = record {
  id = "run-2";
  task = "04.1.setup";
  queue = some "docs";
  worker_id = some "w2";
  backend = none;
  model = none;
  base_ref = none;
  ttl_seconds = 30;
  title = none;
  body = none;
  notes = none;
  required_mcps = [];
  repo = none;
  validate_cmd = none;
  state = AttemptState.running;
  enhanced = false;
  workflow = none;
  kind = none;
}

not_made : create_attempt 20 second a_store ≡ ok (none, a_store)
unfolding create_attempt lookup is_live slot_taken new_row
not_made = refl

create_attempt-one_live_example : clash "run-1" "run-2" a_store.attempts ≡ false
unfolding clash share_slot lookup
create_attempt-one_live_example =
    create_attempt-one_live 20 second a_store none a_store "run-1" "run-2" not_made refl

abbrev a_hold : TaskEffects
a_hold = record no_effects {
  hold =
      some (record {
        kind = TaskHoldKind.blocked;
        reason = some "needs input";
        retry_eligible = true;
      });
}

abbrev other_key : TaskKey
other_key = record { queue = "main"; task = "05.other" }

standing-apply_effects_example :
    (standing (lookup_task a_key (apply_effects 40 a_key a_hold a_store.tasks))
      ≡ asked 40 a_hold (standing (some a_counter)))
    × (lookup_task other_key (apply_effects 40 a_key a_hold a_store.tasks)
        ≡ lookup_task other_key a_store.tasks)
unfolding lookup_task
standing-apply_effects_example = standing-apply_effects 40 a_key other_key a_hold a_store.tasks

all_justified : (i : TaskKey) → is_justified (lookup_task i a_store.tasks) ≡ true
unfolding lookup_task is_carried
all_justified i = ground arith

apply_effects-IsJustified_example :
    is_justified (lookup_task a_key (apply_effects 40 a_key a_hold a_store.tasks)) ≡ true
unfolding resets_only
apply_effects-IsJustified_example =
    apply_effects-IsJustified 40 a_key a_key a_hold a_store.tasks refl all_justified

workflow_doc_advance_leaves_row_example :
    is_justified (
      lookup_task a_key (
        apply_effects 40 a_key
          (workflow_doc_advance an_attempt finished a_step none).effects
          a_store.tasks))
    ≡ false
unfolding lookup_task
workflow_doc_advance_leaves_row_example =
    workflow_doc_advance_leaves_row 40 a_key an_attempt finished a_step none a_store.tasks a_counter
      refl refl
