-- ===== src/Transitions/Examples.antt =====
-- Runs of the functions of src/nightshift/transitions.py on concrete inputs.
use nightshift.Base.{true, false, none, some, ◌≡◌, ◌≢◌, refl, ok, is_some, inr, arith}
use nightshift.Lifecycle.{RunStatus, FailureKind, Transition, LandKind, apply, is_land_success}
use nightshift.Samples.{
  an_attempt, crashed, finished, a_policy, strict_policy, a_step, step_policy, a_land,
}
use nightshift.Transitions.Submit.{on_submit}
use nightshift.Transitions.Landing.{on_land_result, refused_transition}
use nightshift.Transitions.Failures.{error_transition}
use nightshift.Transitions.Issued.{Issued, by_submit, by_land}
use nightshift.Transitions.Outbox.{IsAnnounced, Issued-IsAnnounced, flags, announces}
use nightshift.Transitions.States.{IsSettled, Issued-IsSettled, IsLandAgreed, Issued-IsLandAgreed}
use nightshift.Transitions.Quarantine.{failure_ladder_due}
use nightshift.Transitions.Rungs.{failure_ladder}
use nightshift.Transitions.Steps.{workflow_doc_advance}
use nightshift.Transitions.Cursor.{IsRouted, on_submit-IsRouted}
use nightshift.Transitions.Refusals.{on_land_result_refused, IsRefusal}

crashed_transition : Issued (error_transition an_attempt crashed a_policy)
unfolding on_submit
crashed_transition = by_submit an_attempt crashed a_policy refl

conflict_transition : Issued (
    refused_transition an_attempt finished
      (a_land LandKind.conflict)
      a_policy
      FailureKind.merge_conflict)
unfolding on_land_result
conflict_transition = by_land an_attempt finished (a_land LandKind.conflict) a_policy refl

Issued-IsAnnounced_example : IsAnnounced (error_transition an_attempt crashed a_policy)
Issued-IsAnnounced_example =
    Issued-IsAnnounced (error_transition an_attempt crashed a_policy) crashed_transition

Issued-IsSettled_example : IsSettled (error_transition an_attempt crashed a_policy)
Issued-IsSettled_example =
    Issued-IsSettled (error_transition an_attempt crashed a_policy) crashed_transition

Issued-IsLandAgreed_example : IsLandAgreed (error_transition an_attempt crashed a_policy)
Issued-IsLandAgreed_example =
    Issued-IsLandAgreed (error_transition an_attempt crashed a_policy) crashed_transition

failure_ladder_due_example :
    ((failure_ladder an_attempt strict_policy "exit 1" "task_failed" true).quarantined ≡ true)
    × (flags "quarantined"
          (failure_ladder an_attempt strict_policy "exit 1" "task_failed" true).frontmatter
        ≡ true)
    × (announces "task_quarantined"
          (failure_ladder an_attempt strict_policy "exit 1" "task_failed" true).events
        ≡ true)
    × (flags "failed"
          (failure_ladder an_attempt strict_policy "exit 1" "task_failed" true).frontmatter
        ≡ false)
    × ((failure_ladder an_attempt strict_policy "exit 1" "task_failed" true).backoff ≡ none)
    × ((failure_ladder an_attempt strict_policy "exit 1" "task_failed" true).watch ≡ none)
failure_ladder_due_example =
    failure_ladder_due an_attempt strict_policy "exit 1" "task_failed" true
      (inr (omega arith, omega arith))

is_not_completed : RunStatus.error ≢ RunStatus.completed
is_not_completed h = cc

advances :
    on_submit an_attempt finished step_policy
    ≡ ok (apply (workflow_doc_advance an_attempt finished a_step (some ("design", "plan"))))
unfolding on_submit
advances = refl

moves :
    (workflow_doc_advance an_attempt finished a_step (some ("design", "plan"))).effects.engine_meta
    ≢ none
unfolding workflow_doc_advance
moves h = cc

on_submit-IsRouted_example :
    IsRouted finished step_policy
      (workflow_doc_advance an_attempt finished a_step (some ("design", "plan")))
on_submit-IsRouted_example =
    on_submit-IsRouted an_attempt finished step_policy
      (workflow_doc_advance an_attempt finished a_step (some ("design", "plan"))) advances moves

is_no_success : LandKind.conflict ≢ LandKind.no_changes
is_no_success h = cc

on_land_result_refused_example :
    (t : Transition) × (on_land_result an_attempt finished (a_land LandKind.conflict) a_policy
      ≡ ok t)
    × IsRefusal (a_land LandKind.conflict) a_policy t
    × (is_some t.effects.hold ≡ true)
unfolding is_land_success
on_land_result_refused_example =
    on_land_result_refused an_attempt finished (a_land LandKind.conflict) a_policy refl
      is_no_success
