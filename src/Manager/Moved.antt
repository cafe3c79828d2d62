-- ===== src/Manager/Moved.antt =====
-- `_apply_and_broadcast` of src/nightshift/manager/reconciler.py on a transition that ends its attempt.
use nightshift.Base.{
  ℕ, String, Bool, true, false, Option, none, some, List, [], ◌∷◌, ◌≡◌, refl, sym, ◌∙◌, ap, subst,
  ◌==◌, lookup, lookup-insert, insert, ok, if◌then◌else◌, arith, eq_iff, Bool-cases, inl, inr,
}
use nightshift.Lifecycle.{AttemptState, is_live, TransitionEvent, Transition}
use nightshift.Store.{
  AttemptRow, Store, apply_transition, append_events, apply_effects, cas_matches,
  check_attempt_fields, set_attempt, ref_key,
}
use nightshift.Store.Cas.{commit-free, attempts-append_events}
use nightshift.Manager.World.{World, Reply, done, ◌>>=◌, ◌>>◌, pure, Outside}
use nightshift.Manager.Finish.{on_store, send, broadcast_all}
use nightshift.Manager.Deadlines.{announced, apply_and_broadcast}

-- A transition that the store can apply whenever its attempt is in the expected state.
pub record IsEnding (t : Transition) : Type 0 where
  pub fits : check_attempt_fields t.fields ≡ ok tt
  pub ends : is_live t.state ≡ false

module _ (now : ℕ) (t : Transition) (e : AttemptState) where
  -- What the transition makes of its attempt's row.
  unfoldable pub moved : Option AttemptRow → Option AttemptRow
  unfolding cas_matches set_attempt
  moved none = none
  moved (some r) =
      if cas_matches e none r then some (set_attempt now t.fields t.state r) else some r

  abbrev written : Store → AttemptRow → Store
  written s r = record s {
    attempts = insert t.ref.id (set_attempt now t.fields t.state r) s.attempts;
    tasks = apply_effects now (ref_key t) t.effects s.tasks;
  }

  abbrev committed : Store → AttemptRow → Option (List ℕ) × Store
  committed s r = let (ids, after) = append_events now t.events (written s r) in (some ids, after)

  abbrev outcome : Store → Option AttemptRow → Option (List ℕ) × Store
  outcome s none = (none, s)
  outcome s (some r) = if cas_matches e none r then committed s r else (none, s)

  apply-outcome :
      (s : Store) (o : Option AttemptRow)
      → IsEnding t
      → lookup t.ref.id s.attempts ≡ o
      → apply_transition now t e none s ≡ ok (outcome s o)
  unfolding apply_transition
  apply-outcome s none i h = ground (arith, i.fits, h)
  apply-outcome s (some r) i h = elim (Bool-cases (cas_matches e none r)) [
    | inl same ↦ ground (arith, i.fits, h, same, commit-free now t s r (ground (arith, i.ends)))
    | inr other ↦ ground (arith, i.fits, h, other)
  ]

module _ (out : Outside) where
  pub record IsSent (p : Reply (Unit {0}) × World) (s : Store) : Type 0 where
    world : World
    returned : p ≡ (done tt, world)
    kept : world.store ≡ s

  -- Each event of the log gets its broadcast.
  logged-IsSent :
      (events : List TransitionEvent) (s : Store) (w : World)
      → IsSent (broadcast_all out (append_events out.now events s).0 events w) w.store
  unfolding append_events broadcast_all
  logged-IsSent [] s w = record { world = w; returned = refl; kept = refl }
  logged-IsSent (event ∷ events) s w =
      let rest = logged-IsSent events _ (send s.next_event event w) in
      record { world = rest.world; returned = rest.returned; kept = rest.kept }

  -- What the application of an ending transition leaves behind; `applied` tells whether it was.
  pub record IsMoved (t : Transition) (e : AttemptState) (w : World) (p : Reply Bool × World)
      : Type 0 where
    pub applied : Bool
    pub after : World
    pub returned : p ≡ (done applied, after)
    pub rows :
        (j : String)
        → lookup j after.store.attempts ≡ (
            if t.ref.id == j
            then moved out.now t e (lookup t.ref.id w.store.attempts)
            else lookup j w.store.attempts)

  module _ (t : Transition) (e : AttemptState) (w : World) where
    unmoved_rows :
        (o : Option AttemptRow)
        → lookup t.ref.id w.store.attempts ≡ o
        → moved out.now t e o ≡ o
        → (j : String)
        → lookup j w.store.attempts ≡ (
            if t.ref.id == j
            then moved out.now t e (lookup t.ref.id w.store.attempts)
            else lookup j w.store.attempts)
    unmoved_rows o h k j = ground (arith, eq_iff t.ref.id j, h, k)

    applied_rows :
        (o : Option AttemptRow)
        → lookup t.ref.id w.store.attempts ≡ o
        → IsMoved t e w ((on_store (λ s. ok (outcome out.now t e w.store o)) >>= announced out t) w)
    unfolding announced moved
    applied_rows none h = record {
      applied = false;
      after = w;
      returned = refl;
      rows = unmoved_rows none h refl;
    }
    applied_rows (some r) h = by_match (cas_matches e none r) refl
      where
        s' : Store
        s' = written out.now t e w.store r

        sent :
            IsSent
              (broadcast_all out
                (append_events out.now t.events s').0
                t.events
                (record w { store = (append_events out.now t.events s').1 }))
              (append_events out.now t.events s').1
        sent =
            logged-IsSent t.events s' (record w { store = (append_events out.now t.events s').1 })

        here :
            (cas_matches e none r ≡ true)
            → moved out.now t e (some r) ≡ some (set_attempt out.now t.fields t.state r)
        here same = rw same refl

        rows :
            (cas_matches e none r ≡ true)
            → (j : String)
            → lookup j sent.world.store.attempts ≡ (
                if t.ref.id == j
                then moved out.now t e (lookup t.ref.id w.store.attempts)
                else lookup j w.store.attempts)
        rows same j =
            ap (λ (x : Store). lookup j x.attempts) sent.kept
            ∙ ap (lookup j) (attempts-append_events out.now t.events s')
            ∙ lookup-insert t.ref.id j (set_attempt out.now t.fields t.state r) w.store.attempts
            ∙ ap (λ o. if t.ref.id == j then o else lookup j w.store.attempts)
                (sym (ap (moved out.now t e) h ∙ here same))

        by_match :
            (b : Bool)
            → cas_matches e none r ≡ b
            → IsMoved t e w (
                (on_store (λ s. ok (if b then committed out.now t e w.store r else (none, w.store)))
                    >>= announced out t)
                  w)
        by_match true same = record {
          applied = true;
          after = sent.world;
          returned = ap (λ p. ((λ x. p) >> pure true) w) sent.returned;
          rows = rows same;
        }
        by_match false other = record {
          applied = false;
          after = w;
          returned = refl;
          rows = unmoved_rows (some r) h (rw other refl);
        }

    pub apply_and_broadcast-IsMoved : IsEnding t → IsMoved t e w (apply_and_broadcast out t e w)
    unfolding apply_and_broadcast
    apply_and_broadcast-IsMoved i =
        subst (λ x. IsMoved t e w ((on_store (λ s. x) >>= announced out t) w))
          (sym (apply-outcome out.now t e w.store (lookup t.ref.id w.store.attempts) i refl))
          (applied_rows (lookup t.ref.id w.store.attempts) refl)
