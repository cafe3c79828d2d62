-- ===== src/Manager/Restarted.antt =====
-- `_recover_interrupted_lands` of src/nightshift/manager/reconciler.py as a whole.
use nightshift.Base.{
  String, Bool, true, false, not, ◌&&◌, ◌||◌, [], ◌∷◌, ◌≡◌, refl, sym, ◌∙◌, ap, ◌==◌, Dict, lookup,
  if◌then◌else◌, arith, eq_iff, Bool-cases, inl, inr,
}
use nightshift.Lifecycle.{AttemptState, is_live, state_value}
use nightshift.Store.{AttemptRow, live_attempts, live_from}
use nightshift.Manager.World.{World, Reply, done, Action, ◌>>◌, ManagerConfig, Outside}
use nightshift.Manager.Deadlines.{in_state, row_ref}
use nightshift.Manager.Reconcile.{Git, ladder, usable_repo, recover_each, recover_interrupted_lands}
use nightshift.Manager.Recovered.{landing_row, is_landing_at}
use nightshift.Manager.Ladder.{IsAnswering, ladder-IsOut}

-- One of the rows shows the attempt in the land phase.
unfoldable landing_in : String → Dict AttemptRow → Bool
unfolding state_value
landing_in j [] = false
landing_in j ((id, r) ∷ rows) =
    let rest = landing_in j rows in id == j && in_state AttemptState.landing r || rest

landing-live :
    (a : AttemptState)
    → (state_value a == state_value AttemptState.landing) ≡ true
    → is_live a ≡ true
unfolding is_live state_value
landing-live AttemptState.landing h = refl
landing-live AttemptState.running h = refl
landing-live _ h = absurd (ground arith)

-- The live rows show every attempt that is in the land phase.
landing-listed :
    (j : String) (d : Dict AttemptRow)
    → (landing_row (lookup j d) && not (landing_in j (live_from d))) ≡ false
unfolding landing_in live_from lookup
landing-listed j [] = refl
landing-listed j ((id, r) ∷ d) = elim (Bool-cases (is_live r.state)) [
  | inl live ↦ rw live (ground (arith, landing-listed j d))
  | inr dead ↦ rw dead (ground (arith, landing-listed j d, landing-live r.state))
]

still_listed :
    (same before after rest row : Bool)
    → row ≡ true
    → (before ≡ false → after ≡ false)
    → (same ≡ true → after ≡ false)
    → (before && not (same && row || rest)) ≡ false
    → (after && not rest) ≡ false
still_listed true before after rest row e kept cleared h = ground (arith, cleared refl)
still_listed false true after rest row e kept cleared h = ground (arith, h)
still_listed false false after rest row e kept cleared h = ground (arith, kept refl)

module _ (out : Outside) (cfg : ManagerConfig) (git : Git) (answering : IsAnswering git) where
  record IsCleared (rows : Dict AttemptRow) (w : World) (p : Reply (Unit {0}) × World)
      : Type 0 where
    after : World
    returned : p ≡ (done tt, after)
    cleared :
        (j : String)
        → (is_landing_at j w && not (landing_in j rows)) ≡ false
        → is_landing_at j after ≡ false

  recover_step :
      (id : String) (r : AttemptRow) (rows : Dict AttemptRow) (w : World)
      → ((x : World) → IsCleared rows x (recover_each out cfg git rows x))
      → IsCleared ((id, r) ∷ rows) w (recover_each out cfg git ((id, r) ∷ rows) w)
  unfolding recover_each landing_in
  recover_step id r rows w ih = by_state (in_state AttemptState.landing r) refl
    where
      recover : Action (Unit {0})
      recover = ladder out cfg git (row_ref id r) r (usable_repo out cfg git r)

      by_state :
          (b : Bool)
          → in_state AttemptState.landing r ≡ b
          → IsCleared ((id, r) ∷ rows) w (
              (if b
                  then recover >> recover_each out cfg git rows
                  else recover_each out cfg git rows)
                w)
      by_state true e =
          let o =
            ladder-IsOut out cfg git answering (row_ref id r) r (usable_repo out cfg git r) w in
          let rest = ih o.after in
          record {
            after = rest.after;
            returned =
                ap (λ p. ((λ x. p) >> recover_each out cfg git rows) w) o.returned ∙ rest.returned;
            cleared = λ j h. rest.cleared j (
                still_listed (id == j) (is_landing_at j w) (is_landing_at j o.after)
                  (landing_in j rows) (in_state AttemptState.landing r) e (o.kept j)
                  (λ same.
                    ap (λ i. is_landing_at i o.after) (sym ((eq_iff id j).0 same)) ∙ o.cleared)
                  h);
          }
      by_state false e =
          let rest = ih w in
          record {
            after = rest.after;
            returned = rest.returned;
            cleared = λ j h. rest.cleared j (ground (arith, h, e));
          }

  recover_each-IsCleared :
      (rows : Dict AttemptRow) (w : World) → IsCleared rows w (recover_each out cfg git rows w)
  unfolding recover_each landing_in
  recover_each-IsCleared [] w = record {
    after = w;
    returned = refl;
    cleared = λ j h. ground (arith, h);
  }
  recover_each-IsCleared ((id, r) ∷ rows) w = recover_step id r rows w (recover_each-IsCleared rows)

  pub record IsRecovered (p : Reply (Unit {0}) × World) : Type 0 where
    pub after : World
    pub returned : p ≡ (done tt, after)
    pub none_landing : (j : String) → is_landing_at j after ≡ false

  -- Where the scans for the trailer and the lookups of the branches return, the recovery at the start
  -- returns, whatever they and the rerun land jobs answer, land jobs that raise included, and after it
  -- no attempt is in the land phase. The digits in the frontmatter of the briefs are those of ASCII.
  pub recover_interrupted_lands-IsRecovered :
      (w : World) → IsRecovered (recover_interrupted_lands out cfg git w)
  unfolding recover_interrupted_lands live_attempts
  recover_interrupted_lands-IsRecovered w =
      let c = recover_each-IsCleared (live_attempts w.store) w in
      record {
        after = c.after;
        returned = c.returned;
        none_landing = λ j. c.cleared j (landing-listed j w.store.attempts);
      }
