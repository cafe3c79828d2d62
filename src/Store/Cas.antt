-- ===== src/Store/Cas.antt =====
-- The compare-and-swap of `apply_transition` in src/nightshift/manager/store.py.
use nightshift.Base.{
  ℕ, String, Bool, true, false, ◌&&◌, Option, none, some, List, [], ◌∷◌, ◌≡◌, ◌==◌, refl, sym, ◌∙◌,
  ap, lookup, insert, if◌then◌else◌, Result, Error, ok, err, integrity_error, arith, eq_iff, inl,
  inr, Bool-cases, Option-cases, Result-cases,
}
use nightshift.Lifecycle.{AttemptState, is_live, state_value, TransitionEvent, Transition}
use nightshift.Store.Rows.{AttemptRow, Store}
use nightshift.Store.Attempts.{check_attempt_fields, set_attempt, write_attempt, slot_taken}
use nightshift.Store.Tasks.{apply_effects}
use nightshift.Store.Apply.{ref_key, append_events, cas_matches, commit, apply_transition}

-- The value of a state is read back by `AttemptState(value)`.
read_state : String → AttemptState
read_state v =
    if v == "claimed"
    then AttemptState.claimed
    else if v == "running"
    then AttemptState.running
    else if v == "submitted"
    then AttemptState.submitted
    else if v == "landing"
    then AttemptState.landing
    else if v == "resolving"
    then AttemptState.resolving
    else if v == "landed"
    then AttemptState.landed
    else if v == "no_change"
    then AttemptState.no_change
    else if v == "blocked"
    then AttemptState.blocked
    else if v == "failed"
    then AttemptState.failed
    else if v == "conflict"
    then AttemptState.conflict
    else if v == "expired"
    then AttemptState.expired
    else if v == "aborted"
    then AttemptState.aborted
    else AttemptState.skipped

read_state-state_value : (a : AttemptState) → read_state (state_value a) ≡ a
unfolding read_state state_value
read_state-state_value AttemptState.claimed = refl
read_state-state_value _ = refl

pub state_value_injective : (a b : AttemptState) → (state_value a == state_value b) ≡ true → a ≡ b
state_value_injective a b h =
    sym (read_state-state_value a)
    ∙ ap read_state ((eq_iff (state_value a) (state_value b)).0 h)
    ∙ read_state-state_value b

module _ (now : ℕ) where
  pub attempts-append_events :
      (events : List TransitionEvent) (s : Store)
      → (append_events now events s).1.attempts ≡ s.attempts
  unfolding append_events
  attempts-append_events [] s = refl
  attempts-append_events (e ∷ rest) s = attempts-append_events rest _

  pub tasks-append_events :
      (events : List TransitionEvent) (s : Store) → (append_events now events s).1.tasks ≡ s.tasks
  unfolding append_events
  tasks-append_events [] s = refl
  tasks-append_events (e ∷ rest) s = tasks-append_events rest _

-- What a transition that was applied has done.
pub record IsApplied (now : ℕ) (t : Transition) (e : AttemptState) (w : Option String)
    (s s' : Store) : Type 0 where
  pub row : AttemptRow
  pub found : lookup t.ref.id s.attempts ≡ some row
  pub expected : cas_matches e w row ≡ true
  pub free : (is_live t.state && slot_taken t.ref.id row.queue row.task s.attempts) ≡ false
  pub attempts : s'.attempts ≡ insert t.ref.id (set_attempt now t.fields t.state row) s.attempts
  pub tasks : s'.tasks ≡ apply_effects now (ref_key t) t.effects s.tasks

module _ (now : ℕ) (t : Transition) (s : Store) where
  abbrev written : AttemptRow → Store
  written r = record s {
    attempts = insert t.ref.id (set_attempt now t.fields t.state r) s.attempts;
    tasks = apply_effects now (ref_key t) t.effects s.tasks;
  }

  abbrev committed : AttemptRow → Result (Option (List ℕ) × Store)
  committed r =
      ok (
        some (append_events now t.events (written r)).0,
        (append_events now t.events (written r)).1,
      )

  abbrev blocked_by : AttemptRow → Bool
  blocked_by r = is_live t.state && slot_taken t.ref.id r.queue r.task s.attempts

  write-free :
      (r : AttemptRow)
      → blocked_by r ≡ false
      → write_attempt t.ref.id (set_attempt now t.fields t.state r) s.attempts
        ≡ ok (written r).attempts
  unfolding write_attempt set_attempt
  write-free r free = rw free

  write-blocked :
      (r : AttemptRow)
      → blocked_by r ≡ true
      → write_attempt t.ref.id (set_attempt now t.fields t.state r) s.attempts
        ≡ err (integrity_error "attempts_live_task_uniq")
  unfolding write_attempt set_attempt
  write-blocked r taken = rw taken

  pub commit-free : (r : AttemptRow) → blocked_by r ≡ false → commit now t r s ≡ committed r
  unfolding commit
  commit-free r free = rw (write-free r free)

  commit-blocked :
      (r : AttemptRow)
      → blocked_by r ≡ true
      → commit now t r s ≡ err (integrity_error "attempts_live_task_uniq")
  unfolding commit
  commit-blocked r taken = rw (write-blocked r taken)

  module _ (e : AttemptState) (w : Option String) where
    abbrev pub run : Result (Option (List ℕ) × Store)
    run = apply_transition now t e w s

    -- The three ways in which the compare-and-swap ends.
    pub data Ending : Type 0 where
      rejected : (x : Error) → check_attempt_fields t.fields ≡ err x → run ≡ err x → Ending
      stale : run ≡ ok (none, s) → Ending
      matched :
          (r : AttemptRow)
          → lookup t.ref.id s.attempts ≡ some r
          → cas_matches e w r ≡ true
          → run ≡ commit now t r s
          → Ending

    pub ending : Ending
    unfolding apply_transition
    ending = elim (Result-cases (check_attempt_fields t.fields)) [
      | inr (x, bad) ↦ rejected x bad (rw bad)
      | inl (u, fits) ↦ elim (Option-cases (lookup t.ref.id s.attempts)) [
        | inl absent ↦ stale (ground arith)
        | inr (r, found) ↦ elim (Bool-cases (cas_matches e w r)) [
          | inl same ↦ matched r found same (ground arith)
          | inr other ↦ stale (ground arith)
        ]
      ]
    ]

module _ (now : ℕ) (t : Transition) (e : AttemptState) (w : Option String) (s : Store) where
  applied-eq :
      (r : AttemptRow) {ids : List ℕ} {s' : Store}
      → committed now t s r ≡ ok (some ids, s')
      → s' ≡ (append_events now t.events (written now t s r)).1
  applied-eq r h = cc

  IsApplied-row :
      (r : AttemptRow) {s' : Store}
      → lookup t.ref.id s.attempts ≡ some r
      → cas_matches e w r ≡ true
      → blocked_by now t s r ≡ false
      → s' ≡ (append_events now t.events (written now t s r)).1
      → IsApplied now t e w s s'
  IsApplied-row r found same free h = record {
    row = r;
    found = found;
    expected = same;
    free = free;
    attempts = ap (λ (x : Store). x.attempts) h ∙ attempts-append_events now t.events _;
    tasks = ap (λ (x : Store). x.tasks) h ∙ tasks-append_events now t.events _;
  }

  pub apply_transition-IsApplied :
      (ids : List ℕ) (s' : Store)
      → apply_transition now t e w s ≡ ok (some ids, s')
      → IsApplied now t e w s s'
  apply_transition-IsApplied ids s' h = elim (ending now t s e w) [
    | rejected x bad k ↦ cc
    | stale k ↦ cc
    | matched r found same k ↦ elim (Bool-cases (blocked_by now t s r)) [
      | inl taken ↦ cc (commit-blocked now t s r taken)
      | inr free ↦
          IsApplied-row r found same free
            (applied-eq r (sym (commit-free now t s r free) ∙ sym k ∙ h))
    ]
  ]

  -- A transition that finds no matching attempt returns nothing and writes nothing.
  pub apply_transition_stale : (s' : Store) → apply_transition now t e w s ≡ ok (none, s') → s' ≡ s
  apply_transition_stale s' h = elim (ending now t s e w) [
    | rejected x bad k ↦ cc
    | stale k ↦ cc
    | matched r found same k ↦ elim (Bool-cases (blocked_by now t s r)) [
      | inl taken ↦ cc (commit-blocked now t s r taken)
      | inr free ↦ cc (commit-free now t s r free)
    ]
  ]
