-- ===== src/Transitions/Outbox.antt =====
-- The events of a transition against its effects (src/nightshift/transitions.py): what an effect
-- changes for the task or the queue is announced in the same transaction.
use nightshift.Base.{
  String, Bool, Option, none, some, List, [], ◌∷◌, ◌≡◌, refl, ◌==◌, Json, str, Dict, lookup, any,
  is_some, if◌then◌else◌, arith, true, false, ◌&&◌,
}
use nightshift.Lifecycle.{
  AttemptRef, Outcome, SubmitPolicy, FailureKind, RetryAction, TransitionEvent, FrontmatterFlag,
  Transition,
}
use nightshift.Transitions.Rungs.{failure_ladder}
use nightshift.Transitions.Failures.{
  blocked_transition, error_transition, error_by, neutral_transition,
}
use nightshift.Transitions.Landing.{
  on_split_result, no_change_transition, landed_transition, refused_transition,
}
use nightshift.Transitions.Recovery.{
  on_land_interrupted, on_land_recovered, on_land_enqueued, on_operator_stop, on_deadline,
}
use nightshift.Transitions.Steps.{workflow_end, workflow_budget_quarantine, workflow_doc_advance}
use nightshift.Transitions.StepResults.{code_step_landed, split_step_transition}
use nightshift.Transitions.Issued.{Issued, Issued-Built}
use nightshift.Transitions.Built.{Built, blocked, failed, split_harvest, step_split}

abbrev text_of : Option Json → Option String
text_of (some (str s)) = some s
text_of _ = none

abbrev reason_of : Option (Dict Json) → Option String
reason_of none = none
reason_of (some payload) = text_of (lookup "reason" payload)

-- The reasons of the `queue_paused` events, in their order.
unfoldable pub pause_reasons : List TransitionEvent → List (Option String)
unfolding lookup
pause_reasons [] = []
pause_reasons (e ∷ es) =
    let rest = pause_reasons es in
    if e.kind == "queue_paused" then reason_of e.payload ∷ rest else rest

-- The announcements of a pause: none where no pause is asked for, and else one with its reason. The
-- pause after a failed retry may follow the one of the watch, which it replaces.
abbrev pub agrees : List (Option String) → Option String → Bool
agrees [] none = true
agrees (some r ∷ []) (some pause) = r == pause
agrees (some first ∷ some r ∷ []) (some pause) =
    first == "consecutive_failures" && (r == "retry_failed" && pause == "retry_failed")
agrees _ _ = false

abbrev pub announces : String → List TransitionEvent → Bool
announces kind events = any (λ e. e.kind == kind) events

abbrev pub flags : String → List FrontmatterFlag → Bool
flags key frontmatter = any (λ f. f.key == key) frontmatter

pub record IsAnnounced (t : Transition) : Type 0 where
  pub pauses : agrees (pause_reasons t.events) t.effects.pause_queue ≡ true
  pub quarantines :
      announces "task_quarantined" t.events ≡ flags "quarantined" t.effects.frontmatter
  pub holds : announces "task_blocked" t.events ≡ is_some t.effects.hold

blocked-IsAnnounced :
    (ref : AttemptRef) (o : Outcome) (p : SubmitPolicy) → IsAnnounced (blocked_transition ref o p)
unfolding blocked_transition pause_reasons
blocked-IsAnnounced ref o p = record {
  pauses = ground arith;
  quarantines = ground arith;
  holds = ground arith;
}

error_by-IsAnnounced :
    (a : RetryAction) (k : FailureKind) (ref : AttemptRef) (o : Outcome) (p : SubmitPolicy)
    → IsAnnounced (error_by a k ref o p)
unfolding error_by pause_reasons failure_ladder
error_by-IsAnnounced RetryAction.retry_elsewhere k ref o p = record {
  pauses = refl;
  quarantines = refl;
  holds = refl;
}
error_by-IsAnnounced _ k ref o p = record {
  pauses = ground arith;
  quarantines = ground arith;
  holds = ground arith;
}

error-IsAnnounced :
    (ref : AttemptRef) (o : Outcome) (p : SubmitPolicy) → IsAnnounced (error_transition ref o p)
unfolding error_transition
error-IsAnnounced ref o p = error_by-IsAnnounced _ _ ref o p

Built-IsAnnounced : (t : Transition) → Built t → IsAnnounced t
unfolding no_change_transition landed_transition refused_transition on_split_result
    on_land_interrupted on_land_recovered on_land_enqueued on_operator_stop on_deadline workflow_end
    workflow_budget_quarantine workflow_doc_advance code_step_landed split_step_transition
    pause_reasons failure_ladder neutral_transition
Built-IsAnnounced t (blocked ref o p) = blocked-IsAnnounced ref o p
Built-IsAnnounced t (failed ref o p) = error-IsAnnounced ref o p
Built-IsAnnounced t (split_harvest ref o created) = record {
  pauses = refl;
  quarantines = refl;
  holds = refl;
}
Built-IsAnnounced t (step_split ref o [] s) = record {
  pauses = refl;
  quarantines = refl;
  holds = refl;
}
Built-IsAnnounced t (step_split ref o (c ∷ cs) s) = record {
  pauses = refl;
  quarantines = refl;
  holds = refl;
}
Built-IsAnnounced t _ = record {
  pauses = ground arith;
  quarantines = ground arith;
  holds = ground arith;
}

-- Every transition that the module computes announces a queue pause exactly if it asks for one: once,
-- with its reason, or twice, where the pause for consecutive failures is announced before that of the
-- failed retry which the transition asks for instead. It announces a quarantine exactly if it writes
-- the flag, and a block exactly if it sets a hold.
pub Issued-IsAnnounced : (t : Transition) → Issued t → IsAnnounced t
Issued-IsAnnounced t i = Built-IsAnnounced t (Issued-Built t i)
