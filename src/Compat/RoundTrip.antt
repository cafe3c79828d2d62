-- ===== src/Compat/RoundTrip.antt =====
-- The round trips between a lease with a run and an attempt in src/nightshift/lifecycle_compat.py.
use nightshift.Base.{
  String, Bool, true, false, not, Option, ◌≡◌, arith, Result, ok, ◌>>=◌, Result-cases, inl, inr, ap,
  sym, ◌∙◌, ◌&&◌,
}
use nightshift.Lifecycle.{AttemptState, resolve_worker_id}
use nightshift.Compat.Fold.{
  is_text, is_merge_value, fold_legacy, split_state, run_fold, read_status, fold_status,
}

module _ (phase kind worker : Option String) where
  -- Both migrations in a row, the columns of the row copied verbatim.
  abbrev pub refold : Result AttemptState → Result AttemptState
  refold r =
      r >>= λ state. split_state state >>= λ (lease, run). fold_legacy lease run phase kind worker

  -- What the columns of a stored attempt say of its state.
  unfoldable pub columns_agree : AttemptState → Bool
  columns_agree AttemptState.landing = is_text phase "landing"
  columns_agree AttemptState.running = not (is_text phase "landing")
  columns_agree AttemptState.conflict = is_merge_value kind
  columns_agree AttemptState.failed = not (is_merge_value kind)
  columns_agree AttemptState.resolving = is_text worker resolve_worker_id
  columns_agree _ = true

  -- The states that `split_state` takes.
  unfoldable pub is_storable : AttemptState → Bool
  is_storable AttemptState.claimed = false
  is_storable AttemptState.submitted = false
  is_storable _ = true

  -- The down migration followed by the up migration gives back the state of every stored attempt
  -- whose columns agree with it.
  pub refold-ok :
      (state : AttemptState)
      → is_storable state ≡ true
      → columns_agree state ≡ true
      → refold (ok state) ≡ ok state
  unfolding split_state fold_legacy fold_status read_status columns_agree is_storable
  refold-ok state stored agree = ground arith

  status-agrees :
      (run : String) (lease : Option String) (state : AttemptState)
      → run_fold run lease kind worker ≡ ok state
      → (columns_agree state && is_storable state) ≡ true
  unfolding fold_status read_status columns_agree is_storable
  status-agrees run lease state h = ground arith

  fold_legacy-agrees :
      (lease : Option String) (run : String) (state : AttemptState)
      → fold_legacy lease run phase kind worker ≡ ok state
      → (columns_agree state && is_storable state) ≡ true
  unfolding fold_legacy columns_agree is_storable
  fold_legacy-agrees lease run state h = ground (arith, status-agrees run lease state)

  -- Folding, splitting and folding again is folding, errors included: the canonical pair that the
  -- down migration writes for a zombie folds to the same state again.
  pub refold-fold_legacy :
      (lease : Option String) (run : String)
      → refold (fold_legacy lease run phase kind worker) ≡ fold_legacy lease run phase kind worker
  refold-fold_legacy lease run = elim (Result-cases (fold_legacy lease run phase kind worker)) [
    | inr (e, h) ↦ rw h
    | inl (state, h) ↦
        ap refold h
        ∙ refold-ok state (ground (arith, fold_legacy-agrees lease run state h))
            (ground (arith, fold_legacy-agrees lease run state h))
        ∙ sym h
  ]
