-- ===== src/Store/Pruned.antt =====
-- The pauses and modes of the queues in src/nightshift/manager/store.py.
use nightshift.Base.{
  ℕ, String, true, false, not, ◌&&◌, Option, none, some, List, [], ◌∷◌, ◌==◌, ◌≡◌, refl, ap, sym,
  ◌∙◌, subst, arith, inl, inr, eq_iff, eq_refl, all, map, contains, no_repeats, ◌||◌, Dict, lookup,
  insert, lookup-insert, Option-cases, Bool-cases, if◌then◌else◌,
}
use nightshift.Store.Transport.{
  QueueState, carries, prune, set_queue_pause, paused_row, valued, queue_pauses, queue_modes,
}

abbrev keys : Dict QueueState → List String
keys rows = map (λ kr. kr.0) rows

-- Every row carries a pause or a mode, and no queue has two rows.
pub record IsPruned (rows : Dict QueueState) : Type 0 where
  pub carried : all (λ kr. carries kr.1) rows ≡ true
  pub one_row : no_repeats (keys rows) ≡ true

prune-carried :
    (queue : String) (rows : Dict QueueState)
    → all (λ kr. carries kr.1) rows ≡ true
    → all (λ kr. carries kr.1) (prune queue rows) ≡ true
unfolding prune
prune-carried queue [] h = refl
prune-carried queue ((q, s) ∷ rows) h = ground (arith, prune-carried queue rows)

prune_inserted :
    (queue : String) (r : QueueState) (rows : Dict QueueState)
    → all (λ kr. carries kr.1) rows ≡ true
    → all (λ kr. carries kr.1) (prune queue (insert queue r rows)) ≡ true
unfolding prune insert
prune_inserted queue r [] h = ground (arith, eq_refl queue)
prune_inserted queue r ((q, s) ∷ rows) h =
    ground (arith, eq_refl queue, prune-carried queue rows, prune_inserted queue r rows)

keys-prune :
    (queue k : String) (rows : Dict QueueState)
    → contains (keys rows) k ≡ false
    → contains (keys (prune queue rows)) k ≡ false
unfolding prune
keys-prune queue k [] h = refl
keys-prune queue k ((q, s) ∷ rows) h = ground (arith, keys-prune queue k rows)

keys-insert :
    (queue k : String) (r : QueueState) (rows : Dict QueueState)
    → contains (keys (insert queue r rows)) k ≡ (queue == k || contains (keys rows) k)
unfolding insert
keys-insert queue k r [] = refl
keys-insert queue k r ((q, s) ∷ rows) =
    ground (arith, keys-insert queue k r rows, eq_iff q queue, eq_iff q k, eq_iff queue k)

prune-one_row :
    (queue : String) (rows : Dict QueueState)
    → no_repeats (keys rows) ≡ true
    → no_repeats (keys (prune queue rows)) ≡ true
unfolding prune no_repeats
prune-one_row queue [] h = refl
prune-one_row queue ((q, s) ∷ rows) h =
    ground (arith, prune-one_row queue rows, keys-prune queue q rows)

insert-one_row :
    (queue : String) (r : QueueState) (rows : Dict QueueState)
    → no_repeats (keys rows) ≡ true
    → no_repeats (keys (insert queue r rows)) ≡ true
unfolding insert no_repeats
insert-one_row queue r [] h = refl
insert-one_row queue r ((q, s) ∷ rows) h =
    ground (
      arith,
      insert-one_row queue r rows,
      keys-insert queue q r rows,
      eq_iff q queue,
      eq_iff queue q,
    )

written-IsPruned :
    (queue : String) (r : QueueState) (rows : Dict QueueState)
    → IsPruned rows
    → IsPruned (prune queue (insert queue r rows))
written-IsPruned queue r rows h = record {
  carried = prune_inserted queue r rows h.carried;
  one_row = prune-one_row queue (insert queue r rows) (insert-one_row queue r rows h.one_row);
}

-- The value that a row carries.
abbrev value_of : (QueueState → Option String) → Option QueueState → Option String
value_of f none = none
value_of f (some r) = f r

absent-valued :
    (f : QueueState → Option String) (k : String) (rows : Dict QueueState)
    → contains (keys rows) k ≡ false
    → lookup k (valued f rows) ≡ none
unfolding valued lookup
absent-valued f k [] h = refl
absent-valued f k ((q, r) ∷ rows) h = elim (Option-cases (f r)) [
  | inl nothing ↦ ground (arith, absent-valued f k rows)
  | inr (v, value) ↦ ground (arith, absent-valued f k rows)
]

lookup-valued :
    (f : QueueState → Option String) (k : String) (rows : Dict QueueState)
    → no_repeats (keys rows) ≡ true
    → lookup k (valued f rows) ≡ value_of f (lookup k rows)
unfolding valued lookup no_repeats
lookup-valued f k [] h = refl
lookup-valued f k ((q, r) ∷ rows) h = elim (Bool-cases (q == k)) [
  | inl same ↦
      let gone : contains (keys rows) k ≡ false =
        subst (λ x. contains (keys rows) x ≡ false) ((eq_iff q k).0 same) (ground arith) in
      elim (Option-cases (f r)) [
        | inl nothing ↦ ground (arith, absent-valued f k rows gone)
        | inr (v, value) ↦ ground arith
      ]
  | inr differs ↦ elim (Option-cases (f r)) [
    | inl nothing ↦ ground (arith, lookup-valued f k rows)
    | inr (v, value) ↦ ground (arith, lookup-valued f k rows)
  ]
]

absent-lookup :
    (k : String) (rows : Dict QueueState) → contains (keys rows) k ≡ false → lookup k rows ≡ none
unfolding lookup
absent-lookup k [] h = refl
absent-lookup k ((q, r) ∷ rows) h = ground (arith, absent-lookup k rows)

-- A row that is pruned carries no value.
lookup-prune :
    (f : QueueState → Option String) (queue k : String) (rows : Dict QueueState)
    → ((r : QueueState) → carries r ≡ false → f r ≡ none)
    → no_repeats (keys rows) ≡ true
    → value_of f (lookup k (prune queue rows)) ≡ value_of f (lookup k rows)
unfolding prune lookup no_repeats
lookup-prune f queue k [] e h = refl
lookup-prune f queue k ((q, r) ∷ rows) e h = elim (Bool-cases (q == queue && not (carries r))) [
  | inl pruned ↦ elim (Bool-cases (q == k)) [
    | inl same ↦
        let gone : contains (keys rows) k ≡ false =
          subst (λ x. contains (keys rows) x ≡ false) ((eq_iff q k).0 same) (ground arith) in
        let carries_none : carries r ≡ false = ground arith in
        ground (
          arith,
          e r carries_none,
          absent-lookup k (prune queue rows) (keys-prune queue k rows gone),
        )
    | inr differs ↦ ground (arith, lookup-prune f queue k rows e)
  ]
  | inr kept ↦ ground (arith, lookup-prune f queue k rows e)
]

pause_of : QueueState → Option String
pause_of r = r.paused_reason

mode_of : QueueState → Option String
mode_of r = r.mode

no_pause : (r : QueueState) → carries r ≡ false → pause_of r ≡ none
unfolding pause_of
no_pause r h = elim (Option-cases r.paused_reason) [
  | inl nothing ↦ nothing
  | inr (v, value) ↦ ground arith
]

no_mode : (r : QueueState) → carries r ≡ false → mode_of r ≡ none
unfolding mode_of
no_mode r h = elim (Option-cases r.mode) [
  | inl nothing ↦ nothing
  | inr (v, value) ↦ elim (Option-cases r.paused_reason) [
    | inl free ↦ ground arith
    | inr (reason, paused) ↦ ground arith
  ]
]

-- What one reads of a queue after a write of its row.
written :
    (f : QueueState → Option String) (queue k : String) (r : QueueState) (rows : Dict QueueState)
    → ((s : QueueState) → carries s ≡ false → f s ≡ none)
    → IsPruned rows
    → lookup k (valued f (prune queue (insert queue r rows)))
      ≡ (if queue == k then f r else lookup k (valued f rows))
written f queue k r rows e h =
    lookup-valued f k _
      (prune-one_row queue (insert queue r rows) (insert-one_row queue r rows h.one_row))
    ∙ lookup-prune f queue k (insert queue r rows) e (insert-one_row queue r rows h.one_row)
    ∙ ap (value_of f) (lookup-insert queue k r rows)
    ∙ branches
  where
    branches :
        value_of f (if queue == k then some r else lookup k rows)
        ≡ (if queue == k then f r else lookup k (valued f rows))
    branches = ground (arith, lookup-valued f k rows h.one_row)

-- A value that a write leaves alone.
kept :
    (f : QueueState → Option String) (queue k : String) (r : QueueState) (rows : Dict QueueState)
    → IsPruned rows
    → f r ≡ value_of f (lookup queue rows)
    → (if queue == k then f r else lookup k (valued f rows)) ≡ lookup k (valued f rows)
kept f queue k r rows h e = elim (Bool-cases (queue == k)) [
  | inl same ↦
      ap (λ b. if b then f r else lookup k (valued f rows)) same
      ∙ e
      ∙ sym (lookup-valued f queue rows h.one_row)
      ∙ ap (λ x. lookup x (valued f rows)) ((eq_iff queue k).0 same)
  | inr differs ↦ ap (λ b. if b then f r else lookup k (valued f rows)) differs
]

paused_reason-row :
    (now : ℕ) (reason : Option String) (o : Option QueueState)
    → pause_of (paused_row now reason o) ≡ reason
unfolding pause_of
paused_reason-row now reason none = refl
paused_reason-row now reason (some r) = refl

mode-row :
    (now : ℕ) (reason : Option String) (o : Option QueueState)
    → mode_of (paused_row now reason o) ≡ value_of mode_of o
unfolding mode_of
mode-row now reason none = refl
mode-row now reason (some r) = refl

-- What is set as the pause of a queue is what is read of it afterwards; the pauses of the other queues
-- and all modes stay, and the table keeps one row for each queue that carries a pause or a mode and
-- none for the others.
pub set_queue_pause_lem :
    (now : ℕ) (queue k : String) (reason : Option String) (rows : Dict QueueState)
    → IsPruned rows
    → IsPruned (set_queue_pause now queue reason rows)
      × (lookup k (queue_pauses (set_queue_pause now queue reason rows))
          ≡ (if queue == k then reason else lookup k (queue_pauses rows)))
      × (lookup k (queue_modes (set_queue_pause now queue reason rows))
          ≡ lookup k (queue_modes rows))
unfolding set_queue_pause queue_pauses queue_modes pause_of mode_of
set_queue_pause_lem now queue k reason rows h =
    let row : QueueState = paused_row now reason (lookup queue rows) in
    (
      written-IsPruned queue row rows h,
      written pause_of queue k row rows no_pause h
          ∙ ap (λ o. if queue == k then o else lookup k (queue_pauses rows))
              (paused_reason-row now reason (lookup queue rows)),
      written mode_of queue k row rows no_mode h
          ∙ kept mode_of queue k row rows h (mode-row now reason (lookup queue rows)),
    )
