-- ===== src/Manager/Expired.antt =====
-- `_expire_deadlines` of src/nightshift/manager/reconciler.py.
use nightshift.Base.{
  ℕ, String, Bool, true, false, ◌&&◌, ◌||◌, Option, none, some, [], ◌∷◌, ◌≡◌, refl, sym, ◌∙◌, ap,
  ◌==◌, Dict, lookup, if◌then◌else◌, arith, eq_iff, Bool-cases, inl, inr,
}
use nightshift.Lifecycle.{AttemptState, AttemptRef, is_live, state_value}
use nightshift.Transitions.{on_deadline}
use nightshift.Store.{AttemptRow, cas_matches, check_attempt_fields, set_attempt, live_attempts}
use nightshift.Manager.World.{World, Reply, done, Action, ◌>>◌, Outside}
use nightshift.Manager.Deadlines.{
  is_due, row_ref, apply_and_broadcast, expire_each, expire_deadlines,
}
use nightshift.Manager.Moved.{IsEnding, moved, apply_and_broadcast-IsMoved}

-- The row of a running attempt, expired.
unfoldable pub expired : ℕ → Option AttemptRow → Option AttemptRow
unfolding cas_matches set_attempt
expired now none = none
expired now (some r) =
    if cas_matches AttemptState.running none r
    then some (set_attempt now [] AttemptState.expired r)
    else some r

moved-expired :
    (now : ℕ) (ref : AttemptRef) (o : Option AttemptRow)
    → moved now (on_deadline ref) AttemptState.running o ≡ expired now o
unfolding moved expired on_deadline
moved-expired now ref none = refl
moved-expired now ref (some r) = refl

expired_twice : (now : ℕ) (o : Option AttemptRow) → expired now (expired now o) ≡ expired now o
unfolding expired cas_matches set_attempt state_value
expired_twice now none = refl
expired_twice now (some r) = elim (Bool-cases (cas_matches AttemptState.running none r)) [
  | inl same ↦ rw same refl
  | inr other ↦ rw other (rw other refl)
]

deadline-IsEnding : (ref : AttemptRef) → IsEnding (on_deadline ref)
unfolding on_deadline check_attempt_fields is_live
deadline-IsEnding ref = record { fits = refl; ends = refl }

module _ (out : Outside) where
  -- One of the rows is an overdue running attempt with this id.
  unfoldable pub due_in : String → Dict AttemptRow → Bool
  unfolding state_value
  due_in j [] = false
  due_in j ((id, r) ∷ rows) = let rest = due_in j rows in id == j && is_due out r || rest

  abbrev expected_row : Dict AttemptRow → World → String → Option AttemptRow
  expected_row rows w j =
      if due_in j rows
      then expired out.now (lookup j w.store.attempts)
      else lookup j w.store.attempts

  pub record IsExpired (rows : Dict AttemptRow) (w : World) (p : Reply (Unit {0}) × World)
      : Type 0 where
    pub after : World
    pub returned : p ≡ (done tt, after)
    pub found : (j : String) → lookup j after.store.attempts ≡ expected_row rows w j

  chained_rows :
      (id j : String) (due : Bool) (x y z : Option AttemptRow)
      → ((id == j) ≡ true → x ≡ y)
      → z ≡ (if id == j then expired out.now x else y)
      → (if due then expired out.now z else z) ≡ (if id == j || due then expired out.now y else y)
  chained_rows id j due x y z h k = ground (arith, h, k, expired_twice out.now y)

  expire_step :
      (id : String) (r : AttemptRow) (rows : Dict AttemptRow) (w : World)
      → ((x : World) → IsExpired rows x (expire_each out rows x))
      → IsExpired ((id, r) ∷ rows) w (expire_each out ((id, r) ∷ rows) w)
  unfolding expire_each due_in
  expire_step id r rows w ih = by_due (is_due out r) refl
    where
      ref : AttemptRef
      ref = row_ref id r

      expire : Action Bool
      expire = apply_and_broadcast out (on_deadline ref) AttemptState.running

      same_row :
          (j : String) → (id == j) ≡ true → lookup id w.store.attempts ≡ lookup j w.store.attempts
      same_row j h = ap (λ i. lookup i w.store.attempts) ((eq_iff id j).0 h)

      due_rows :
          (j : String) (b : Bool)
          → is_due out r ≡ b
          → (if id == j && b || due_in j rows
              then expired out.now (lookup j w.store.attempts)
              else lookup j w.store.attempts)
            ≡ expected_row ((id, r) ∷ rows) w j
      due_rows j b e =
          ap
            (λ c.
              if id == j && c || due_in j rows
              then expired out.now (lookup j w.store.attempts)
              else lookup j w.store.attempts)
            (sym e)

      shown :
          (j : String) (b : Bool)
          → is_due out r ≡ b
          → {x : Option AttemptRow}
          → x ≡ (
              if id == j && b || due_in j rows
              then expired out.now (lookup j w.store.attempts)
              else lookup j w.store.attempts)
          → x ≡ expected_row ((id, r) ∷ rows) w j
      shown j b e h = h ∙ due_rows j b e

      by_due :
          (b : Bool)
          → is_due out r ≡ b
          → IsExpired
              ((id, r) ∷ rows)
              w
              ((if b then expire >> expire_each out rows else expire_each out rows) w)
      by_due true e =
          let m =
            apply_and_broadcast-IsMoved out (on_deadline ref) AttemptState.running w
              (deadline-IsEnding ref) in
          let rest = ih m.after in
          record {
            after = rest.after;
            returned = ap (λ p. ((λ x. p) >> expire_each out rows) w) m.returned ∙ rest.returned;
            found = λ j.
                rest.found j
                ∙ chained_rows id j (due_in j rows) (lookup id w.store.attempts)
                    (lookup j w.store.attempts) (lookup j m.after.store.attempts) (same_row j)
                    (m.rows j
                      ∙ ap (λ o. if id == j then o else lookup j w.store.attempts)
                          (moved-expired out.now ref (lookup id w.store.attempts)))
                ∙ shown j true e (ground arith);
          }
      by_due false e =
          let rest = ih w in
          record {
            after = rest.after;
            returned = rest.returned;
            found = λ j. rest.found j ∙ shown j false e (ground arith);
          }

  expire_each-IsExpired :
      (rows : Dict AttemptRow) (w : World) → IsExpired rows w (expire_each out rows w)
  unfolding expire_each due_in
  expire_each-IsExpired [] w = record { after = w; returned = refl; found = λ j. refl }
  expire_each-IsExpired ((id, r) ∷ rows) w = expire_step id r rows w (expire_each-IsExpired rows)

  -- The deadline pass returns without an exception. An attempt that one of the live rows it reads
  -- shows as running and overdue ends as expired where it is running; every other attempt keeps
  -- its row.
  pub expire_deadlines-IsExpired :
      (w : World) → IsExpired (live_attempts w.store) w (expire_deadlines out w)
  unfolding expire_deadlines
  expire_deadlines-IsExpired w = expire_each-IsExpired (live_attempts w.store) w
