-- ===== src/Store/Recorded.antt =====
-- What `apply_transition` of src/nightshift/manager/store.py leaves behind when it returns event ids.
use nightshift.Base.{
  ℕ, String, true, Option, none, some, List, ◌≡◌, ◌≢◌, ◌==◌, refl, lookup, lookup-insert,
  if◌then◌else◌, is_some, ◌||◌, ok, arith, eq_iff,
}
use mathlib.Core.Option.{get_or}
use nightshift.Lifecycle.{AttemptState, is_terminal, Transition}
use nightshift.Store.Rows.{AttemptRow, Store}
use nightshift.Store.Attempts.{check_attempt_fields, set_attempt}
use nightshift.Store.Apply.{cas_matches, apply_transition}
use nightshift.Store.Cas.{
  state_value_injective, apply_transition-IsApplied, rejected, stale, matched, ending,
}

cas-state :
    (e : AttemptState) (w : Option String) (r : AttemptRow) → cas_matches e w r ≡ true → r.state ≡ e
unfolding cas_matches
cas-state e w r h = state_value_injective r.state e (ground arith)

-- What the applied transition leaves in the table of attempts.
pub record IsRecorded (t : Transition) (e : AttemptState) (s s' : Store) : Type 0 where
  pub before : AttemptRow
  pub after : AttemptRow
  pub found : lookup t.ref.id s.attempts ≡ some before
  pub expected : before.state ≡ e
  pub reached : after.state ≡ t.state
  pub stamped : is_some after.finished_at ≡ (is_terminal t.state || is_some before.finished_at)
  pub first_stamp :
      get_or after.finished_at 0 ≡ get_or before.finished_at (get_or after.finished_at 0)
  pub kept_slot : (after.queue ≡ before.queue) × (after.task ≡ before.task)
  pub table :
      (j : String)
      → lookup j s'.attempts ≡ (if t.ref.id == j then some after else lookup j s.attempts)

-- A transition that returns event ids found its attempt in the expected state and moved it, and no
-- other attempt, to its own state. The attempt is stamped finished exactly if that state is
-- terminal or it was finished before, and an earlier stamp stays.
pub apply_transition-IsRecorded :
    (now : ℕ) (t : Transition) (e : AttemptState) (w : Option String) (s : Store) (ids : List ℕ)
    (s' : Store)
    → apply_transition now t e w s ≡ ok (some ids, s')
    → IsRecorded t e s s'
unfolding set_attempt
apply_transition-IsRecorded now t e w s ids s' h =
    let a = apply_transition-IsApplied now t e w s ids s' h in
    record {
      before = a.row;
      after = set_attempt now t.fields t.state a.row;
      found = a.found;
      expected = cas-state e w a.row a.expected;
      reached = refl;
      stamped = ground arith;
      first_stamp = ground arith;
      kept_slot = (refl, refl);
      table = λ j. rw a.attempts (lookup-insert t.ref.id j _ s.attempts);
    }

still_expected : {a r : AttemptRow} {x e : AttemptState} → a.state ≡ x → r.state ≡ e → r ≡ a → x ≡ e
still_expected reached expected same = cc

-- Once an applied transition has moved the attempt out of the expected state, the same
-- compare-and-swap finds nothing and writes nothing, for any later transition of the attempt whose
-- fields pass the check: of two submits that race, one is consumed.
pub apply_transition_once :
    (now later : ℕ) (t u : Transition) (e : AttemptState) (w : Option String) (s : Store)
    (ids : List ℕ) (s' : Store)
    → apply_transition now t e w s ≡ ok (some ids, s')
    → t.state ≢ e
    → u.ref.id ≡ t.ref.id
    → check_attempt_fields u.fields ≡ ok tt
    → apply_transition later u e w s' ≡ ok (none, s')
apply_transition_once now later t u e w s ids s' h left same fits = elim (ending later u s' e w) [
  | rejected x bad k ↦ cc
  | stale k ↦ k
  | matched r found matches k ↦
      let a = apply_transition-IsRecorded now t e w s ids s' h in
      let now_there = a.table u.ref.id in
      absurd (
        left (
          still_expected {a = a.after} {r = r} a.reached (cas-state e w r matches)
            (ground (arith, now_there, eq_iff t.ref.id u.ref.id))))
]
