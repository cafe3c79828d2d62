-- ===== src/Manager/Fenced.antt =====
-- The fence of `worker_submit` in src/nightshift/manager/api_worker.py: a refused submit writes nothing, and
-- an answered one has consumed its attempt.
use nightshift.Base.{
  ℕ, String, Bool, true, false, Option, none, some, List, ◌≡◌, refl, ◌∙◌, ap, ◌==◌, Dict, Json,
  lookup, Result, ok, err, Error, arith, inl, inr, ◌⊎◌, eq_refl,
}
use nightshift.Lifecycle.{AttemptState, is_terminal, state_value, Transition}
use nightshift.Store.{AttemptRow, Store, apply_transition, cas_matches}
use nightshift.Store.Cas.{apply_transition_stale}
use nightshift.Store.Recorded.{apply_transition-IsRecorded}
use nightshift.Manager.World.{
  World, Reply, done, refused, raised, Action, ◌>>=◌, pure, ManagerConfig, Outside, SubmitBody,
}
use nightshift.Manager.Finish.{on_store, after_commit, after_cas, finish}
use nightshift.Manager.Verdict.{stale_submit, or_refuse, text_column}
use nightshift.Manager.Submit.{finish_or_refuse, queue_of}
use nightshift.Manager.Quiet.{is_refusal, QuietAt, IsQuiet}
use nightshift.Manager.Committed.{after_commit-IsQuiet}

unfoldable pub is_done : {A : Type 0} → Reply A → Bool
is_done (done a) = true
is_done _ = false

module _ (run_id : String) (worker : String) where
  -- The attempt is there, and it is not a running one of this worker.
  pub record IsConsumed (w : World) : Type 0 where
    pub row : AttemptRow
    pub found : lookup run_id w.store.attempts ≡ some row
    pub stale : cas_matches AttemptState.running (some worker) row ≡ false

  -- The state differs in the submitted jobs at most.
  abbrev pub OnlyJobs : World → World → Type 0
  OnlyJobs w w' = w' ≡ record w { jobs = w'.jobs }

  pub record IsFencedAt (A : Type 0) (w : World) (p : Reply A × World) : Type 0 where
    pub untouched : is_refusal p.0 ≡ true → OnlyJobs w p.1
    pub consumed : is_done p.0 ≡ true → IsConsumed p.1

  pub after_consumed :
      {A : Type 0} (w w2 : World) (p : Reply A × World)
      → IsConsumed w2
      → QuietAt run_id w2 p
      → IsFencedAt A w p
  after_consumed w w2 p c q = record {
    untouched = λ h. absurd (ground arith);
    consumed = λ h. record { row = c.row; found = q.1 ∙ c.found; stale = c.stale };
  }

  pub raised_fenced : {A : Type 0} (w w2 : World) (e : Error) → IsFencedAt A w (raised e, w2)
  unfolding is_refusal is_done
  raised_fenced w w2 e = record {
    untouched = λ h. absurd (ground arith);
    consumed = λ h. absurd (ground arith);
  }

  pub refused_fenced :
      {A : Type 0} (w w2 : World) (status : ℕ) (detail : String)
      → OnlyJobs w w2
      → IsFencedAt A w (refused status detail, w2)
  unfolding is_done
  refused_fenced w w2 status detail same = record {
    untouched = λ h. same;
    consumed = λ h. absurd (ground arith);
  }

  pub bind_fenced :
      {A B : Type 0} (f : A → Action B) (w : World) (p : Reply A × World)
      → IsFencedAt A w p
      → ((a : A) → IsQuiet run_id (f a))
      → IsFencedAt B w (((λ x. p) >>= f) w)
  unfolding is_done is_refusal
  bind_fenced f w (done a, w') h k = after_consumed w w' (f a w') (h.consumed refl) (k a w')
  bind_fenced f w (refused status detail, w') h k =
      refused_fenced w w' status detail (h.untouched refl)
  bind_fenced f w (raised e, w') h k = raised_fenced w w' e

settled-unmatched :
    (a : AttemptState)
    → (is_terminal a ≡ true) ⊎ (a ≡ AttemptState.landing)
    → (state_value a == state_value AttemptState.running) ≡ false
unfolding is_terminal state_value
settled-unmatched AttemptState.running h = elim h [
  | inl e ↦ absurd (ground arith)
  | inr e ↦ absurd (ground arith)
]
settled-unmatched AttemptState.claimed h = refl
settled-unmatched _ h = refl

settled-stale :
    (worker : String) (r : AttemptRow) (a : AttemptState)
    → r.state ≡ a
    → (is_terminal a ≡ true) ⊎ (a ≡ AttemptState.landing)
    → cas_matches AttemptState.running (some worker) r ≡ false
unfolding cas_matches
settled-stale worker r a e h = rw e (simp (settled-unmatched a h) refl)

module _ (out : Outside) (cfg : ManagerConfig) (body : SubmitBody) (run_id : String)
    (fresh : (out.new_run_id == run_id) ≡ false) where
  abbrev Applied : Type 0
  Applied = Option (List ℕ) × Store

  -- A transition that settles this attempt.
  pub record Settles (t : Transition) : Type 0 where
    pub this : t.ref.id ≡ run_id
    pub settled : (is_terminal t.state ≡ true) ⊎ (t.state ≡ AttemptState.landing)

  pub apply-IsConsumed :
      (t : Transition) (w : World) (e : AttemptState) (ids : List ℕ) (s' : Store)
      → Settles t
      → apply_transition out.now t e (some body.worker_id) w.store ≡ ok (some ids, s')
      → IsConsumed run_id body.worker_id (record w { store = s' })
  apply-IsConsumed t w e ids s' m h =
      let a = apply_transition-IsRecorded out.now t e (some body.worker_id) w.store ids s' h in
      record {
        row = a.after;
        found = a.table run_id ∙ rw m.this (simp (eq_refl run_id) refl);
        stale = settled-stale body.worker_id a.after t.state a.reached m.settled;
      }

  -- An answer that is carried on as it is.
  carried_fenced :
      (w0 w : World) (p : Reply (Dict Json) × World)
      → IsFencedAt run_id body.worker_id (Dict Json) w0 p
      → IsFencedAt run_id body.worker_id
          (Dict Json)
          w0
          ((((λ x. p) >>= λ response. pure (some response)) >>= or_refuse) w)
  carried_fenced w0 w (done a, w') h = h
  carried_fenced w0 w (refused status detail, w') h = h
  carried_fenced w0 w (raised e, w') h = h

  pub same_jobs :
      (w0 w : World) (s' : Store)
      → OnlyJobs run_id body.worker_id w0 w
      → s' ≡ w.store
      → OnlyJobs run_id body.worker_id w0 (record w { store = s' })
  same_jobs w0 w s' h e = ap (λ s. record w { store = s }) e ∙ h

  module _ (run : AttemptRow) (t : Transition) (settles : Settles t) (w0 w : World)
      (same : OnlyJobs run_id body.worker_id w0 w) where
    abbrev queue : Option String
    queue = queue_of out cfg run_id body

    answered :
        (r : Result Applied)
        → apply_transition out.now t AttemptState.running (some body.worker_id) w.store ≡ r
        → IsFencedAt run_id body.worker_id (Dict Json) w0 (
            ((on_store (λ s. r) >>= after_cas out cfg body queue (text_column "repo" run) t true)
                >>= or_refuse)
              w)
    answered (err e) h = raised_fenced run_id body.worker_id w0 w e
    answered (ok (none, s')) h =
        refused_fenced run_id body.worker_id w0 (record w { store = s' }) 409 stale_submit
          (same_jobs w0 w s' same (
            apply_transition_stale out.now t AttemptState.running (some body.worker_id) w.store s'
              h))
    answered (ok (some ids, s')) h =
        carried_fenced w0 (record w { store = s' })
          (after_commit out cfg body queue (text_column "repo" run) t true ids
            (record w { store = s' }))
          (after_consumed run_id body.worker_id w0 (record w { store = s' }) _
            (apply-IsConsumed t w AttemptState.running ids s' settles h)
            (after_commit-IsQuiet run_id out fresh cfg body queue (text_column "repo" run) t true
              ids (record w { store = s' })))

    pub finish_or_refuse-fenced :
        IsFencedAt run_id body.worker_id
          (Dict Json)
          w0
          (finish_or_refuse out cfg run_id body run t w)
    unfolding finish_or_refuse finish
    finish_or_refuse-fenced = answered _ refl
