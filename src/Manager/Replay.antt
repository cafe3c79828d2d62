-- ===== src/Manager/Replay.antt =====
-- A submit that is sent again, and a land that comes back (src/nightshift/manager/api_worker.py).
use nightshift.Base.{
  String, true, false, Option, ◌≡◌, refl, sym, ◌∙◌, ap, subst, ◌==◌, Dict, Json, lookup,
  if◌then◌else◌,
}
use nightshift.Lifecycle.{Transition}
use nightshift.Manager.World.{
  World, Reply, done, refuse, refused, Action, ManagerConfig, Outside, SubmitBody,
}
use nightshift.Manager.Verdict.{stale_submit}
use nightshift.Manager.Submit.{admitted, fenced, looked_up, worker_submit}
use nightshift.Manager.Quiet.{IsQuiet}
use nightshift.Manager.Fenced.{is_done, IsConsumed}
use nightshift.Manager.Once.{any_chain-IsFencedAt}

refused_again :
    (out : Outside) (cfg : ManagerConfig) (run_id : String) (body : SubmitBody)
    (chain : Transition → Action (Option Json)) (w : World)
    → body.lease_id ≡ run_id
    → IsConsumed run_id body.worker_id w
    → worker_submit out cfg run_id body chain w ≡ (refused 409 stale_submit, w)
unfolding worker_submit fenced
refused_again out cfg run_id body chain w lease c =
    ap (λ f. looked_up out cfg run_id body chain f (lookup body.lease_id w.store.attempts) w)
      c.found
    ∙ ap (λ f. fenced out cfg run_id body chain c.row f w)
        (ap (λ i. lookup i w.store.attempts) lease ∙ c.found)
    ∙ ap
        (λ b.
          (if b then admitted out cfg run_id body chain c.row c.row else refuse 409 stale_submit) w)
        c.stale

of_done :
    (run_id worker : String) (p q : Reply (Dict Json) × World)
    → p ≡ q
    → is_done q.0 ≡ true
    → (is_done p.0 ≡ true → IsConsumed run_id worker p.1)
    → IsConsumed run_id worker q.1
of_done run_id worker p q e h k =
    subst (λ x. is_done x.0 ≡ true → IsConsumed run_id worker x.1) e k h

-- After an answered submit every further submit of the same lease by the same worker, with
-- whatever outcome, is refused with status 409 and changes nothing. The ids that the manager makes
-- up differ from the run's, and the order that is chained to an answer leaves the run alone.
pub worker_submit_once :
    (out later : Outside) (cfg : ManagerConfig) (run_id : String) (body again : SubmitBody)
    (chain : Transition → Action (Option Json)) (w w' : World) (answer : Dict Json)
    → (out.new_run_id == run_id) ≡ false
    → ((t : Transition) → IsQuiet run_id (chain t))
    → again.worker_id ≡ body.worker_id
    → again.lease_id ≡ run_id
    → worker_submit out cfg run_id body chain w ≡ (done answer, w')
    → worker_submit later cfg run_id again chain w' ≡ (refused 409 stale_submit, w')
unfolding is_done
worker_submit_once out later cfg run_id body again chain w w' answer fresh quiet worker lease h =
    refused_again later cfg run_id again chain w' lease (
      subst (λ x. IsConsumed run_id x w') (sym worker)
        (of_done run_id body.worker_id (worker_submit out cfg run_id body chain w) (done answer, w')
          h refl (any_chain-IsFencedAt out cfg run_id body fresh chain quiet w).consumed))
