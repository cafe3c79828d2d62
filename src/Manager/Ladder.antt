-- ===== src/Manager/Ladder.antt =====
-- The ladder of `_recover_interrupted_lands` in src/nightshift/manager/reconciler.py, rung by rung.
use nightshift.Base.{
  String, Bool, true, false, not, ◌&&◌, Option, none, some, ◌≡◌, refl, sym, ap, subst, ◌==◌,
  if◌then◌else◌, List, arith, ok,
}
use nightshift.Lifecycle.{
  AttemptRef, Outcome, SubmitPolicy, LandOutcome, LandKind, Transition, is_live,
}
use nightshift.Transitions.{on_land_interrupted, on_land_recovered}
use nightshift.Store.{AttemptRow, check_attempt_fields}
use nightshift.Manager.World.{Job, World, Action, ◌>>=◌, pure, from_result, ManagerConfig, Outside}
use nightshift.Manager.Verdict.{submitted}
use nightshift.Manager.Reconcile.{
  Git, dropped_if, recovered_transition, recover_landed, task_evergreen, recovery_outcome,
  recovery_policy, apply_relanded, relanded, rescanned, reenqueue_land, park, rerun_or_park,
  first_scan, ladder, pr_note, is_recoverable, land_again, land_answer, second_scan,
}
use nightshift.Manager.Moved.{IsEnding}
use nightshift.Manager.Recovered.{land_result-IsEnding, IsOut, applied-IsOut, dropped-IsSilent}

if-IsOut :
    {id : String} (b : Bool) (m n : Action (Unit {0})) (w : World)
    → IsOut id w (m w)
    → IsOut id w (n w)
    → IsOut id w ((if b then m else n) w)
if-IsOut true m n w h k = h
if-IsOut false m n w h k = k

-- The queries on the repositories return.
pub record IsAnswering (git : Git) : Type 0 where
  pub scanned :
      (jobs : List Job) (repo id : String)
      → (sha : Option String) × (git.find_landed_attempt jobs repo id ≡ ok sha)
  pub looked :
      (repo task : String) (queue : Option String)
      → (found : Bool) × (git.branch_exists repo task queue ≡ ok found)

module _ (out : Outside) (cfg : ManagerConfig) (git : Git) (answering : IsAnswering git) where
  interrupted-IsEnding : (ref : AttemptRef) → IsEnding (on_land_interrupted ref)
  unfolding on_land_interrupted check_attempt_fields is_live
  interrupted-IsEnding ref = record { fits = refl; ends = refl }

  recovered-IsEnding :
      (ref : AttemptRef) (sha : String) (caveat : Option String)
      → IsEnding (on_land_recovered ref sha caveat)
  unfolding on_land_recovered check_attempt_fields is_live
  recovered-IsEnding ref sha caveat = record { fits = refl; ends = refl }

  interrupted_id : (ref : AttemptRef) → (on_land_interrupted ref).ref.id ≡ ref.id
  unfolding on_land_interrupted
  interrupted_id ref = refl

  recovered_id :
      (ref : AttemptRef) (sha : String) (caveat : Option String)
      → (on_land_recovered ref sha caveat).ref.id ≡ ref.id
  unfolding on_land_recovered
  recovered_id ref sha caveat = refl

  module _ (ref : AttemptRef) where
    park-IsOut : (w : World) → IsOut ref.id w (park out cfg git ref w)
    unfolding park
    park-IsOut w =
        applied-IsOut out (on_land_interrupted ref) ref.id w (λ b. pure tt)
          (interrupted-IsEnding ref) (interrupted_id ref)
          (λ b x. record { after = x; returned = refl; same = λ j. refl })

    recover_landed-IsOut :
        (sha : String) (w : World) → IsOut ref.id w (recover_landed out cfg git ref sha w)
    unfolding recover_landed
    recover_landed-IsOut sha w =
        applied-IsOut out (recovered_transition out cfg git ref sha) ref.id w
          (λ applied.
            dropped_if out cfg git (applied && not (task_evergreen out cfg git ref.task ref.queue))
              ref)
          (recovered-IsEnding ref sha (pr_note out cfg git ref.queue ref.task))
          (recovered_id ref sha (pr_note out cfg git ref.queue ref.task))
          (λ applied x.
            dropped-IsSilent out cfg git
              (applied && not (task_evergreen out cfg git ref.task ref.queue)) ref x)

    apply_relanded-IsOut :
        (t : Transition) (w : World)
        → IsEnding t
        → t.ref ≡ ref
        → IsOut ref.id w (apply_relanded out cfg git ref t w)
    unfolding apply_relanded
    apply_relanded-IsOut t w i this =
        applied-IsOut out t ref.id w
          (λ applied. dropped_if out cfg git (applied && t.effects.drop_brief) ref) i
          (ap (λ (r : AttemptRef). r.id) this)
          (λ applied x. dropped-IsSilent out cfg git (applied && t.effects.drop_brief) ref x)

    module _ (r : AttemptRow) where
      relanded-IsOut :
          (result : LandOutcome) (w : World) → IsOut ref.id w (relanded out cfg git ref r result w)
      unfolding relanded
      relanded-IsOut result w =
          let o : Outcome = recovery_outcome out cfg git r in
          let p : SubmitPolicy = recovery_policy out cfg git ref w in
          let (t, e, i, this) = land_result-IsEnding ref o p result in
          subst (λ x. IsOut ref.id w ((from_result x >>= apply_relanded out cfg git ref) w)) (sym e)
            (apply_relanded-IsOut t w i this)

      rescanned-IsOut :
          (result : LandOutcome) (sha : Option String) (w : World)
          → IsOut ref.id w (rescanned out cfg git ref r result sha w)
      rescanned-IsOut result none w = relanded-IsOut result w
      rescanned-IsOut result (some sha) w =
          if-IsOut (sha == "") (relanded out cfg git ref r result)
            (recover_landed out cfg git ref sha) w (relanded-IsOut result w)
            (recover_landed-IsOut sha w)

      second_scanned :
          (repo : String) (result : LandOutcome) (k : LandKind) (jobs : List Job)
          → result.kind ≡ k
          → (sha : Option String) × (second_scan out cfg git ref repo result jobs ≡ ok sha)
      second_scanned repo result LandKind.conflict jobs e =
          let (sha, h) = answering.scanned jobs repo ref.id in (sha, ground (arith, e, h))
      second_scanned repo result _ jobs e = (none, ground (arith, e))

      abbrev job : String → Job
      job repo = land_again out cfg git ref r repo

      reenqueue-IsOut :
          (repo : String) (w : World) → IsOut ref.id w (reenqueue_land out cfg git ref r repo w)
      unfolding reenqueue_land
      reenqueue-IsOut repo w =
          let (sha, e) =
            second_scanned repo (land_answer out cfg git w.jobs (job repo)) _
              (submitted (job repo) w).jobs refl in
          let o =
            subst
              (λ x. IsOut ref.id (submitted (job repo) w) (
                (from_result x
                    >>= rescanned out cfg git ref r (land_answer out cfg git w.jobs (job repo)))
                  (submitted (job repo) w)))
              (sym e)
              (rescanned-IsOut (land_answer out cfg git w.jobs (job repo)) sha
                (submitted (job repo) w)) in
          record { after = o.after; returned = o.returned; cleared = o.cleared; kept = o.kept }

      rerun_or_park-IsOut :
          (repo : String) (w : World) → IsOut ref.id w (rerun_or_park out cfg git ref r repo w)
      rerun_or_park-IsOut repo w =
          let (found, e) = answering.looked repo ref.task ref.queue in
          subst
            (λ x. IsOut ref.id w (
              (from_result x >>= λ has_branch.
              if is_recoverable out cfg git r has_branch
              then reenqueue_land out cfg git ref r repo
              else park out cfg git ref)
                w))
            (sym e)
            (if-IsOut (is_recoverable out cfg git r found) (reenqueue_land out cfg git ref r repo)
              (park out cfg git ref) w (reenqueue-IsOut repo w) (park-IsOut w))

      scanned-IsOut :
          (repo : String) (sha : Option String) (w : World)
          → IsOut ref.id w (first_scan out cfg git ref r repo sha w)
      scanned-IsOut repo none w = rerun_or_park-IsOut repo w
      scanned-IsOut repo (some sha) w =
          if-IsOut (sha == "") (rerun_or_park out cfg git ref r repo)
            (recover_landed out cfg git ref sha) w (rerun_or_park-IsOut repo w)
            (recover_landed-IsOut sha w)

      pub ladder-IsOut :
          (repo : Option String) (w : World) → IsOut ref.id w (ladder out cfg git ref r repo w)
      ladder-IsOut none w = park-IsOut w
      ladder-IsOut (some repo) w =
          let (sha, e) = answering.scanned w.jobs repo ref.id in
          subst (λ x. IsOut ref.id w ((from_result x >>= first_scan out cfg git ref r repo) w))
            (sym e) (scanned-IsOut repo sha w)
