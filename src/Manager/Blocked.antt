-- ===== src/Manager/Blocked.antt =====
-- A blocked task in the pass of src/nightshift/manager/reconciler.py that sets the holds.
use nightshift.Base.{
  String, Bool, true, false, not, ◌&&◌, Option, none, some, List, [], ◌∷◌, all, contains, ◌≡◌, refl,
  if◌then◌else◌, arith,
}
use nightshift.Lifecycle.{TaskHoldKind}
use nightshift.Scheduler.{TaskCandidate, TaskSet, in_set}
use nightshift.Store.{TaskKey, TaskRow, same_key, has_state}
use nightshift.Manager.World.{World, ◌>>◌, pure, Outside}
use nightshift.Manager.Holds.{
  HoldInputs, named, block, mark_unroutable, hold_outage, hold_red, is_ci_fix_task, outage, gate,
  hold_by_repo, hold_by_ref, hold_each, all_candidates, red_repos, set_holds,
}
use nightshift.Manager.Spared.{
  key_of, row_at, IsSpared, then-IsSpared, pure-IsSpared, if_action, block-IsSpared,
  outage-IsSpared, red-IsSpared,
}

module _ (k : TaskKey) (r : TaskRow) (out : Outside)
    (blocked : has_state TaskHoldKind.blocked r ≡ true) where
  mark-IsSpared :
      (quarantined : TaskSet) (pairs : List (TaskCandidate × String)) (w : World)
      → row_at k r w ≡ some r
      → IsSpared k r (mark_unroutable out quarantined pairs w)
  unfolding mark_unroutable
  mark-IsSpared quarantined [] w h = pure-IsSpared k r w h
  mark-IsSpared quarantined ((c, reason) ∷ pairs) w h =
      if_action k r (in_set quarantined c) (mark_unroutable out quarantined pairs)
        (block out c reason >> mark_unroutable out quarantined pairs) w
        (mark-IsSpared quarantined pairs w h)
        (then-IsSpared k r (block out c reason) (mark_unroutable out quarantined pairs) w
          (block-IsSpared k r out blocked c reason w h) (mark-IsSpared quarantined pairs))

  -- No candidate for the task has its repository missing.
  abbrev pub is_present : HoldInputs → TaskCandidate → Bool
  is_present i c = not (same_key (key_of c) k && outage out i c)

  module _ (i : HoldInputs) (red : List String) where
    gate-IsSpared :
        (c : TaskCandidate) (repo : String) (w : World)
        → row_at k r w ≡ some r
        → IsSpared k r (gate out i red c repo w)
    gate-IsSpared c repo w h =
        if_action k r (contains red repo)
          (if is_ci_fix_task out i.repo_ci c then pure tt else hold_red out c repo) (pure tt) w
          (if_action k r (is_ci_fix_task out i.repo_ci c) (pure tt) (hold_red out c repo) w
            (pure-IsSpared k r w h) (red-IsSpared k r out blocked c repo w h))
          (pure-IsSpared k r w h)

    repo-IsSpared :
        (c : TaskCandidate) (repo : Option String) (w : World)
        → named c.repo ≡ repo
        → is_present i c ≡ true
        → row_at k r w ≡ some r
        → IsSpared k r (hold_by_repo out i red c repo w)
    repo-IsSpared c none w e g h = pure-IsSpared k r w h
    repo-IsSpared c (some repo) w e g h = by_presence (not (i.repo_available repo)) refl
      where
        by_presence :
            (b : Bool)
            → not (i.repo_available repo) ≡ b
            → IsSpared k r ((if b then hold_outage out c repo else gate out i red c repo) w)
        by_presence true gone =
            outage-IsSpared k r out blocked c repo w (ground (arith, e, g, gone)) h
        by_presence false there = gate-IsSpared c repo w h

    ref-IsSpared :
        (c : TaskCandidate) (reason : Option String) (w : World)
        → is_present i c ≡ true
        → row_at k r w ≡ some r
        → IsSpared k r (hold_by_ref out i red c reason w)
    ref-IsSpared c none w g h = repo-IsSpared c (named c.repo) w refl g h
    ref-IsSpared c (some reason) w g h = block-IsSpared k r out blocked c reason w h

    each-IsSpared :
        (cands : List TaskCandidate) (w : World)
        → all (is_present i) cands ≡ true
        → row_at k r w ≡ some r
        → IsSpared k r (hold_each out i red cands w)
    unfolding hold_each
    each-IsSpared [] w g h = pure-IsSpared k r w h
    each-IsSpared (c ∷ cands) w g h =
        if_action k r (in_set i.quarantined c) (hold_each out i red cands)
          (hold_by_ref out i red c c.repo_error >> hold_each out i red cands) w
          (each-IsSpared cands w (ground (arith, g)) h)
          (then-IsSpared k r (hold_by_ref out i red c c.repo_error) (hold_each out i red cands) w
            (ref-IsSpared c c.repo_error w (ground (arith, g)) h)
            (λ x e. each-IsSpared cands x (ground (arith, g)) e))

  -- The pass that sets the holds answers without an exception and leaves the row of a task that
  -- is blocked, whatever its reason, where no candidate for the task has its repository missing.
  pub set_holds-IsSpared :
      (i : HoldInputs) (pairs : List (TaskCandidate × String)) (w : World)
      → all (is_present i) (all_candidates out i i.candidates) ≡ true
      → row_at k r w ≡ some r
      → IsSpared k r (set_holds out i pairs w)
  unfolding set_holds
  set_holds-IsSpared i pairs w g h =
      let red : List String = red_repos i.monitored i.repo_ci in
      let cands : List TaskCandidate = all_candidates out i i.candidates in
      then-IsSpared k r (mark_unroutable out i.quarantined pairs) (hold_each out i red cands) w
        (mark-IsSpared i.quarantined pairs w h) (λ x e. each-IsSpared i red cands x g e)
