-- ===== src/Manager/Deadlines.antt =====
-- src/nightshift/manager/reconciler.py, lines 465-525: the transitions of the loop, the deadlines of the attempts
-- and the liveness of the workers.
use nightshift.Base.{
  ℕ, String, Bool, true, false, ◌&&◌, Option, none, some, List, [], ◌∷◌, ◌==◌, ltb, Dict,
  if◌then◌else◌,
}
use nightshift.Lifecycle.{AttemptState, state_value, AttemptRef, Transition}
use nightshift.Transitions.{on_deadline}
use nightshift.Store.{AttemptRow, apply_transition, live_attempts, expire_stale_workers}
use nightshift.Manager.World.{done, Action, ◌>>=◌, ◌>>◌, pure, Outside}
use nightshift.Manager.Finish.{on_store, broadcast_all}
use nightshift.Manager.Verdict.{queue_from_label}

abbrev pub in_state : AttemptState → AttemptRow → Bool
in_state state r = state_value r.state == state_value state

-- The deadline of the row is over.
abbrev pub is_overdue : ℕ → AttemptRow → Bool
is_overdue now r = elim r.deadline_at [ none ↦ false | some at ↦ ltb at now ]

-- The attempt of a row.
abbrev pub row_ref : String → AttemptRow → AttemptRef
row_ref id r = record { id = id; queue = queue_from_label (some r.queue); task = r.task }

module _ (out : Outside) where
  unfoldable pub announced : Transition → Option (List ℕ) → Action Bool
  unfolding broadcast_all
  announced t none = pure false
  announced t (some ids) = broadcast_all out ids t.events >> pure true

  -- `_apply_and_broadcast`: unlike a submit, it executes no effects after the commit.
  unfoldable pub apply_and_broadcast : Transition → AttemptState → Action Bool
  unfolding apply_transition announced
  apply_and_broadcast t expected =
      on_store (apply_transition out.now t expected none) >>= announced t

  abbrev pub is_due : AttemptRow → Bool
  is_due r = in_state AttemptState.running r && is_overdue out.now r

  unfoldable pub expire_each : Dict AttemptRow → Action (Unit {0})
  unfolding apply_and_broadcast on_deadline queue_from_label state_value
  expire_each [] = pure tt
  expire_each ((id, r) ∷ rows) =
      let rest : Action (Unit {0}) = expire_each rows in
      if is_due r
      then apply_and_broadcast (on_deadline (row_ref id r)) AttemptState.running >> rest
      else rest

  unfoldable pub expire_deadlines : Action (Unit {0})
  unfolding expire_each live_attempts
  expire_deadlines w = expire_each (live_attempts w.store) w

  -- `_mark_workers_offline`
  unfoldable pub mark_workers_offline : ℕ → Action (List String)
  unfolding expire_stale_workers
  mark_workers_offline stale_seconds w =
      let (ids, workers) = expire_stale_workers out.now stale_seconds w.workers in
      (done ids, record w { workers = workers })
