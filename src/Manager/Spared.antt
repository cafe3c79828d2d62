-- ===== src/Manager/Spared.antt =====
-- The holds that `_reconcile_holds` of src/nightshift/manager/reconciler.py leaves alone.
use nightshift.Base.{
  ℕ, String, Bool, true, false, not, Option, none, some, [], ◌∷◌, ◌++◌, ◌≡◌, refl, sym, ◌∙◌, ap,
  if◌then◌else◌, arith, eq_iff, Bool-cases, Option-cases, inl, inr,
}
use nightshift.Lifecycle.{TaskHoldKind, TransitionEvent}
use nightshift.Scheduler.{TaskCandidate}
use nightshift.Store.{
  TaskKey, TaskRow, TaskTable, same_key, qkey, lookup_task, lookup-put, upsert_hold, held_row,
  hold_over, has_state, get_task_state, set_task_state, append_event,
}
use nightshift.Manager.World.{World, Reply, done, Action, ◌>>◌, pure, modify, Outside}
use nightshift.Manager.Finish.{emit}
use nightshift.Manager.Holds.{
  hold_of, task_blocked_by, is_free, put_hold, block, warn_once, warned, repo_missing, hold_outage,
  hold_red,
}

abbrev pub key_of : TaskCandidate → TaskKey
key_of c = record { queue = qkey c.queue; task = c.task }

lookup-at :
    (a b : TaskKey) (t : TaskTable) → same_key a b ≡ true → lookup_task a t ≡ lookup_task b t
lookup-at a b t h =
    ap (λ q. lookup_task (record { queue = q; task = a.task }) t)
      ((eq_iff a.queue b.queue).0 (ground (arith, h)))
    ∙ ap (λ n. lookup_task (record { queue = b.queue; task = n }) t)
        ((eq_iff a.task b.task).0 (ground (arith, h)))

upsert-other :
    (now : ℕ) (k j : TaskKey) (s : TaskHoldKind) (reason repo : Option String) (e : Bool)
    (t : TaskTable)
    → same_key k j ≡ false
    → lookup_task j (upsert_hold now k s reason repo e t) ≡ lookup_task j t
unfolding upsert_hold
upsert-other now k j s reason repo e t h = elim (Option-cases (lookup_task k t)) [
  | inl absent ↦ ground (arith, h, absent, lookup-put k j (held_row now s reason repo e) t)
  | inr (r, found) ↦ ground (arith, h, found, lookup-put k j (hold_over now s reason repo e r) t)
]

not_fixed : (b : Bool) → b ≡ not b → ⊥
not_fixed true h = ground arith
not_fixed false h = ground arith

module _ (k : TaskKey) (r : TaskRow) where
  abbrev pub row_at : World → Option TaskRow
  row_at w = lookup_task k w.store.tasks

  -- The step answers and leaves the row of the task.
  pub record IsSpared (p : Reply (Unit {0}) × World) : Type 0 where
    pub after : World
    pub returned : p ≡ (done tt, after)
    pub kept : row_at after ≡ some r

  pub then-IsSpared :
      (m n : Action (Unit {0})) (w : World)
      → IsSpared (m w)
      → ((x : World) → row_at x ≡ some r → IsSpared (n x))
      → IsSpared ((m >> n) w)
  then-IsSpared m n w h next =
      let s = next h.after h.kept in
      record {
        after = s.after;
        returned = ap (λ p. ((λ x. p) >> n) w) h.returned ∙ s.returned;
        kept = s.kept;
      }

  pub pure-IsSpared : (w : World) → row_at w ≡ some r → IsSpared (pure tt w)
  pure-IsSpared w h = record { after = w; returned = refl; kept = h }

  if_IsSpared :
      (b : Bool) (p q : Reply (Unit {0}) × World)
      → (b ≡ true → IsSpared p)
      → (b ≡ false → IsSpared q)
      → IsSpared (if b then p else q)
  if_IsSpared true p q h l = h refl
  if_IsSpared false p q h l = l refl

  pub if_action :
      (b : Bool) (m n : Action (Unit {0})) (w : World)
      → IsSpared (m w)
      → IsSpared (n w)
      → IsSpared ((if b then m else n) w)
  if_action true m n w h l = h
  if_action false m n w h l = l

  module _ (out : Outside) where
    emit-IsSpared :
        (event : TransitionEvent) (w : World) → row_at w ≡ some r → IsSpared (emit out event w)
    unfolding emit append_event
    emit-IsSpared event w h = record { after = _; returned = refl; kept = h }

    put-other :
        (c : TaskCandidate) (s : TaskHoldKind) (reason repo : Option String) (w : World)
        → same_key (key_of c) k ≡ false
        → row_at w ≡ some r
        → row_at (put_hold out c s reason repo w) ≡ some r
    unfolding set_task_state
    put-other c s reason repo w other h =
        upsert-other out.now (key_of c) k s reason repo false w.store.tasks other ∙ h

    -- A guard that the row fails keeps the write from the row.
    other_task :
        (g : Option TaskRow → Bool) (b : Bool) (c : TaskCandidate) (w : World)
        → g (get_task_state c.queue c.task w.store) ≡ b
        → g (some r) ≡ not b
        → row_at w ≡ some r
        → same_key (key_of c) k ≡ false
    unfolding get_task_state
    other_task g b c w e f h = elim (Bool-cases (same_key (key_of c) k)) [
      | inl same ↦
          absurd (not_fixed b (sym e ∙ ap g (lookup-at (key_of c) k w.store.tasks same ∙ h) ∙ f))
      | inr other ↦ other
    ]

    module _ (blocked : has_state TaskHoldKind.blocked r ≡ true) where
      pub block-IsSpared :
          (c : TaskCandidate) (reason : String) (w : World)
          → row_at w ≡ some r
          → IsSpared (block out c reason w)
      unfolding block
      block-IsSpared c reason w h =
          if_IsSpared (hold_of TaskHoldKind.blocked (get_task_state c.queue c.task w.store)) _ _
            (λ e. pure-IsSpared w h)
            (λ e.
              then-IsSpared (modify (put_hold out c TaskHoldKind.blocked (some reason) none))
                (emit out (task_blocked_by c reason)) w
                (record {
                  after = put_hold out c TaskHoldKind.blocked (some reason) none w;
                  returned = refl;
                  kept =
                      put-other c TaskHoldKind.blocked (some reason) none w
                        (other_task (hold_of TaskHoldKind.blocked) false c w e blocked h) h;
                })
                (λ x g. emit-IsSpared (task_blocked_by c reason) x g))

      warn-IsSpared :
          (c : TaskCandidate) (repo : String) (w : World)
          → row_at w ≡ some r
          → IsSpared (warn_once out c repo w)
      unfolding warn_once
      warn-IsSpared c repo w h =
          if_IsSpared (warned out c w) _ _ (λ e. pure-IsSpared w h)
            (λ e.
              emit-IsSpared (repo_missing c repo)
                (record w { repo_warnings = w.repo_warnings ++ (c.queue ∷ []) }) h)

      pub outage-IsSpared :
          (c : TaskCandidate) (repo : String) (w : World)
          → same_key (key_of c) k ≡ false
          → row_at w ≡ some r
          → IsSpared (hold_outage out c repo w)
      unfolding hold_outage
      outage-IsSpared c repo w other h =
          if_IsSpared
            (hold_of TaskHoldKind.repo_unavailable (get_task_state c.queue c.task w.store)) _ _
            (λ e. warn-IsSpared c repo w h)
            (λ e.
              warn-IsSpared c repo (put_hold out c TaskHoldKind.repo_unavailable none (some repo) w)
                (put-other c TaskHoldKind.repo_unavailable none (some repo) w other h))

      not_free : is_free (some r) ≡ false
      not_free = ground (arith, blocked)

      pub red-IsSpared :
          (c : TaskCandidate) (repo : String) (w : World)
          → row_at w ≡ some r
          → IsSpared (hold_red out c repo w)
      unfolding hold_red
      red-IsSpared c repo w h =
          if_IsSpared (is_free (get_task_state c.queue c.task w.store)) _ _
            (λ e. record {
              after = put_hold out c TaskHoldKind.ci_red none (some repo) w;
              returned = refl;
              kept =
                  put-other c TaskHoldKind.ci_red none (some repo) w
                    (other_task is_free true c w e not_free h) h;
            })
            (λ e. pure-IsSpared w h)
