-- ===== src/Scheduler/Picked.antt =====
-- What `pick_next` of src/nightshift/manager/scheduler.py chooses, and when it chooses nothing.
use nightshift.Base.{
  suc, String, Bool, true, false, not, ◌&&◌, Option, none, some, List, [], ◌∷◌, ◌≡◌, arith, ap, sym,
  subst, ◌∙◌, contains, any, if◌then◌else◌, ◌==◌, Option-cases, inl, inr, lookup-insert, eq_iff,
  Bool-cases,
}
use mathlib.Core.List.{Memᴰ}
use mathlib.Core.List.Memᴰ as M
use nightshift.Scheduler.Workers.{
  TaskCandidate, WorkerFilter, Dedication, accepts, queue_label, label,
}
use nightshift.Scheduler.Heads.{
  TaskSet, in_set, SchedulerState, served, record_served, arbitrate, queue_head, queue_heads,
  all_tasks, pick_next,
}
use nightshift.Scheduler.Arbitration.{some_inj, arbitrate_mem, arbitrate-none}

abbrev pub Queues : Type 0
Queues = List (Option String × List TaskCandidate)

-- A candidate of one of the queues.
pub data IsQueued (c : TaskCandidate) : Queues → Type 0 where
  here :
      {q : Option String} {cands : List TaskCandidate} {queues : Queues}
      → Memᴰ c cands
      → IsQueued c ((q, cands) ∷ queues)
  there :
      {q : Option String} {cands : List TaskCandidate} {queues : Queues}
      → IsQueued c queues
      → IsQueued c ((q, cands) ∷ queues)

module _ (lower : String → String) (worker : WorkerFilter) (leased blocked : TaskSet)
    (dedication : Dedication) where
  module _ (present : List String) where
    -- The task is not leased, not blocked, waits for no task that is present, and suits the worker.
    unfoldable pub is_runnable : TaskCandidate → Bool
    is_runnable c =
        not (in_set leased c)
        && not (in_set blocked c)
        && not (any (contains present) c.after)
        && accepts lower dedication worker c

    abbrev head_of : List TaskCandidate → Option TaskCandidate
    head_of = queue_head lower worker leased blocked present dedication

    abbrev heads_of : Queues → List TaskCandidate
    heads_of = queue_heads lower worker leased blocked present dedication

    head_step :
        (c : TaskCandidate) (cands : List TaskCandidate)
        → head_of (c ∷ cands) ≡ (if is_runnable c then some c else head_of cands)
    unfolding queue_head is_runnable
    head_step c cands = ground arith

    queue_head_runnable :
        (cands : List TaskCandidate) (c : TaskCandidate)
        → head_of cands ≡ some c
        → Memᴰ c cands × (is_runnable c ≡ true)
    unfolding queue_head
    queue_head_runnable [] c h = ground arith
    queue_head_runnable (x ∷ cands) c h = elim (Bool-cases (is_runnable x)) [
      | inl runs ↦
          let e = some_inj (
            sym (ap (λ b. if b then some x else head_of cands) runs)
            ∙ sym (head_step x cands)
            ∙ h) in
          (M.head (sym e), ap is_runnable (sym e) ∙ runs)
      | inr waits ↦
          let (m, r) = queue_head_runnable cands c (
            sym (ap (λ b. if b then some x else head_of cands) waits)
            ∙ sym (head_step x cands)
            ∙ h) in
          (M.tail m, r)
    ]

    queue_head_none :
        (cands : List TaskCandidate) (c : TaskCandidate)
        → head_of cands ≡ none
        → Memᴰ c cands
        → is_runnable c ≡ false
    queue_head_none [] c h m = elim m [ ]
    queue_head_none (x ∷ cands) c h (M.head e) =
        ap is_runnable e ∙ ground (arith, head_step x cands)
    queue_head_none (x ∷ cands) c h (M.tail m) =
        queue_head_none cands c (ground (arith, head_step x cands)) m

    heads_skip :
        (q : Option String) (cands : List TaskCandidate) (queues : Queues)
        → head_of cands ≡ none
        → heads_of ((q, cands) ∷ queues) ≡ heads_of queues
    unfolding queue_heads
    heads_skip q cands queues h = ground arith

    heads_add :
        (q : Option String) (cands : List TaskCandidate) (queues : Queues) (x : TaskCandidate)
        → head_of cands ≡ some x
        → heads_of ((q, cands) ∷ queues) ≡ x ∷ heads_of queues
    unfolding queue_heads
    heads_add q cands queues x h = ground arith

    abbrev IsServable : Queues → TaskCandidate → Type 0
    IsServable queues c = IsQueued c queues × (is_runnable c ≡ true)

    heads_runnable :
        (queues : Queues) (c : TaskCandidate) → Memᴰ c (heads_of queues) → IsServable queues c
    unfolding queue_heads
    heads_runnable [] c m = elim m [ ]
    heads_runnable ((q, cands) ∷ queues) c m = elim (Option-cases (head_of cands)) [
      | inl h ↦
          let (i, r) = heads_runnable queues c (subst (Memᴰ c) (heads_skip q cands queues h) m) in
          (there i, r)
      | inr (x, h) ↦ elim (subst (Memᴰ c) (heads_add q cands queues x h) m) [
        | M.head e ↦ let (i, r) = queue_head_runnable cands c (h ∙ ap some (sym e)) in (here i, r)
        | M.tail k ↦ let (i, r) = heads_runnable queues c k in (there i, r)
      ]
    ]

    heads_none :
        (queues : Queues) (c : TaskCandidate)
        → heads_of queues ≡ []
        → IsQueued c queues
        → is_runnable c ≡ false
    unfolding queue_heads
    heads_none [] c h i = elim i [ ]
    heads_none ((q, cands) ∷ queues) c h (here m) = queue_head_none cands c (ground arith) m
    heads_none ((q, cands) ∷ queues) c h (there m) = heads_none queues c (ground arith) m

  module _ (state : SchedulerState) where
    abbrev picked : Queues → Option TaskCandidate × SchedulerState
    picked queues = pick_next lower queues worker leased blocked state dedication

    abbrev choice : Queues → Option TaskCandidate
    choice queues = arbitrate (heads_of (all_tasks lower queues) queues) state

    choice-picked : (queues : Queues) → (picked queues).0 ≡ choice queues
    unfolding pick_next
    choice-picked queues = ground arith

    -- The task that a poll gets stands in one of the queues, is not leased and not blocked, waits
    -- for no task that any queue still has, and is one that the worker accepts.
    pub pick_next_runnable :
        (queues : Queues) (c : TaskCandidate)
        → (pick_next lower queues worker leased blocked state dedication).0 ≡ some c
        → IsQueued c queues × (is_runnable (all_tasks lower queues) c ≡ true)
    pick_next_runnable queues c h =
        heads_runnable (all_tasks lower queues) queues c
          (arbitrate_mem state _ c (sym (choice-picked queues) ∙ h))

    -- A poll that gets nothing leaves no task behind that it could have got.
    pub pick_next-none :
        (queues : Queues) (c : TaskCandidate)
        → (pick_next lower queues worker leased blocked state dedication).0 ≡ none
        → IsQueued c queues
        → is_runnable (all_tasks lower queues) c ≡ false
    pick_next-none queues c h i =
        heads_none (all_tasks lower queues) queues c
          (arbitrate-none state _ (sym (choice-picked queues) ∙ h)) i

    served-record :
        (q : Option String) (l : String)
        → served (record_served q state) l
          ≡ (if queue_label q == l then suc (served state (queue_label q)) else served state l)
    unfolding record_served served queue_label
    served-record q l =
        ground (arith, lookup-insert (queue_label q) l (suc (served state (queue_label q))) state)

    state_picked :
        (queues : Queues) (c : TaskCandidate)
        → choice queues ≡ some c
        → (picked queues).1 ≡ record_served c.queue state
    unfolding pick_next
    state_picked queues c h = ground arith

    -- A poll that gets a task counts one service for the task's queue and for no other.
    pub served-pick_next :
        (queues : Queues) (c : TaskCandidate) (l : String)
        → (pick_next lower queues worker leased blocked state dedication).0 ≡ some c
        → served (pick_next lower queues worker leased blocked state dedication).1 l
          ≡ (if label c == l then suc (served state l) else served state l)
    unfolding label
    served-pick_next queues c l h =
        ap (λ s. served s l) (state_picked queues c (sym (choice-picked queues) ∙ h))
        ∙ served-record c.queue l
        ∙ same_label (label c)
      where
        same_label :
            (k : String)
            → (if k == l then suc (served state k) else served state l)
              ≡ (if k == l then suc (served state l) else served state l)
        same_label k = ground (arith, eq_iff k l)
