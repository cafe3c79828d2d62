-- ===== src/Store/Apply.antt =====
-- src/nightshift/manager/store.py, lines 650-712 and 958-975: transitions and the event log.
use nightshift.Base.{
  ℕ, suc, String, Bool, true, false, ◌&&◌, Option, none, some, List, [], ◌∷◌, ◌++◌, ◌==◌, Dict,
  Json, lookup, if◌then◌else◌, Result, ok, ◌>>=◌, ◌>>◌,
}
use nightshift.Lifecycle.{AttemptState, state_value, TransitionEvent, Transition}
use nightshift.Store.Rows.{AttemptRow, EventRow, Store, TaskKey, qkey}
use nightshift.Store.Attempts.{check_attempt_fields, set_attempt, write_attempt}
use nightshift.Store.Tasks.{apply_effects}

abbrev payload_of : Option (Dict Json) → Dict Json
payload_of none = []
payload_of (some d) = d

abbrev event_row : ℕ → ℕ → TransitionEvent → EventRow
event_row now id e = record {
  id = id;
  kind = e.kind;
  run_id = e.run_id;
  queue = e.queue;
  task = e.task;
  payload = payload_of e.payload;
  ts = now;
}

-- `append_event`: the new event's id, and the store with it.
unfoldable pub append_event : ℕ → TransitionEvent → Store → ℕ × Store
append_event now e s = (
  s.next_event,
  record s {
    events = s.events ++ (event_row now s.next_event e ∷ []);
    next_event = suc s.next_event;
  },
)

-- The loop over a transition's events.
unfoldable pub append_events : ℕ → List TransitionEvent → Store → List ℕ × Store
unfolding append_event
append_events now [] s = ([], s)
append_events now (e ∷ es) s =
    let (id, after) = append_event now e s in
    let (ids, last) = append_events now es after in (id ∷ ids, last)

abbrev owned_by : Option String → AttemptRow → Bool
owned_by none r = true
owned_by (some w) r = elim r.worker_id [ none ↦ false | some v ↦ v == w ]

-- The WHERE clause of the compare-and-swap.
unfoldable pub cas_matches : AttemptState → Option String → AttemptRow → Bool
cas_matches expected worker r = state_value r.state == state_value expected && owned_by worker r

abbrev pub ref_key : Transition → TaskKey
ref_key t = record { queue = qkey t.ref.queue; task = t.ref.task }

-- The transaction behind a match of the attempt `r`.
unfoldable pub commit : ℕ → Transition → AttemptRow → Store → Result (Option (List ℕ) × Store)
commit now t r s = do
  attempts ← write_attempt t.ref.id (set_attempt now t.fields t.state r) s.attempts
  let updated = record s {
    attempts = attempts;
    tasks = apply_effects now (ref_key t) t.effects s.tasks;
  }
  let (ids, after) = append_events now t.events updated
  ok (some ids, after)

unfoldable pub apply_transition :
    ℕ → Transition → AttemptState → Option String → Store → Result (Option (List ℕ) × Store)
apply_transition now t expected worker s =
    check_attempt_fields t.fields >> elim (lookup t.ref.id s.attempts) [
      | none ↦ ok (none, s)
      | some r ↦ if cas_matches expected worker r then commit now t r s else ok (none, s)
    ]
