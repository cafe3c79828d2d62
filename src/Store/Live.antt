-- ===== src/Store/Live.antt =====
-- The live slot of a task in src/nightshift/manager/store.py: one live attempt for each task.
use nightshift.Base.{
  ℕ, String, Bool, true, false, not, ◌&&◌, ◌||◌, Option, none, some, List, [], ◌∷◌, ◌==◌, ◌≡◌, refl,
  ap, ◌∙◌, Dict, lookup, insert, lookup-insert, if◌then◌else◌, arith, eq_iff, ok, is_some,
  Bool-cases, inl, inr, ◌⊎◌,
}
use nightshift.Lifecycle.{AttemptState, is_live, Transition}
use nightshift.Store.Rows.{AttemptRow, Store}
use nightshift.Store.Attempts.{set_attempt, slot_taken, NewAttempt, new_row, create_attempt}
use nightshift.Store.Apply.{apply_transition}
use nightshift.Store.Cas.{apply_transition-IsApplied}

-- Both are live attempts at the same task.
unfoldable pub share_slot : Option AttemptRow → Option AttemptRow → Bool
share_slot (some r) (some q) =
    is_live r.state && (is_live q.state && (r.queue == q.queue && r.task == q.task))
share_slot _ _ = false

unfoldable pub clash : String → String → Dict AttemptRow → Bool
clash i j d = not (i == j) && share_slot (lookup i d) (lookup j d)

eq_comm : (a b : String) → (a == b) ≡ (b == a)
eq_comm a b = ground (arith, eq_iff a b, eq_iff b a)

-- The test of one entry in `slot_taken` is the test that the two rows share a slot.
entry-free :
    (r q : AttemptRow) (other rest : Bool)
    → other ≡ true
    → (is_live r.state
        && (other && is_live q.state && (q.queue == r.queue && q.task == r.task) || rest))
      ≡ false
    → share_slot (some r) (some q) ≡ false
unfolding share_slot
entry-free r q other rest o h = ground (arith, eq_comm q.queue r.queue, eq_comm q.task r.task)

later_entries :
    (live entry rest : Bool) → (live && (entry || rest)) ≡ false → (live && rest) ≡ false
later_entries live entry rest h = ground arith

distinct-entry : (id i j : String) → (i == j) ≡ true → (id == j) ≡ false → not (i == id) ≡ true
distinct-entry id i j h k = ground (arith, eq_iff i j, eq_iff i id, eq_iff id j)

free-slot :
    (id j : String) (r : AttemptRow) (d : Dict AttemptRow)
    → (is_live r.state && slot_taken id r.queue r.task d) ≡ false
    → (id == j) ≡ false
    → share_slot (some r) (lookup j d) ≡ false
unfolding slot_taken lookup share_slot
free-slot id j r [] free other = refl
free-slot id j r ((i, q) ∷ d) free other = elim (Bool-cases (i == j)) [
  | inl same ↦
      ap (λ b. share_slot (some r) (if b then some q else lookup j d)) same
      ∙ entry-free r q _ _ (distinct-entry id i j same other) free
  | inr differs ↦
      ap (λ b. share_slot (some r) (if b then some q else lookup j d)) differs
      ∙ free-slot id j r d (later_entries (is_live r.state) _ _ free) other
]

share_slot_comm : (o p : Option AttemptRow) → share_slot o p ≡ share_slot p o
unfolding share_slot
share_slot_comm none none = refl
share_slot_comm none (some q) = refl
share_slot_comm (some r) none = refl
share_slot_comm (some r) (some q) =
    swapped (is_live r.state) (is_live q.state) (eq_comm r.queue q.queue) (eq_comm r.task q.task)
  where
    swapped :
        (a b : Bool) {x x' y y' : Bool}
        → x ≡ x'
        → y ≡ y'
        → (a && (b && (x && y))) ≡ (b && (a && (x' && y')))
    swapped a b h k = ground arith

-- A write that finds its slot free keeps every other pair apart.
insert-clash :
    (id i j : String) (r : AttemptRow) (d : Dict AttemptRow)
    → (is_live r.state && slot_taken id r.queue r.task d) ≡ false
    → clash i j d ≡ false
    → clash i j (insert id r d) ≡ false
unfolding clash
insert-clash id i j r d free apart =
    ap (λ o. not (i == j) && share_slot o (lookup j (insert id r d))) (lookup-insert id i r d)
    ∙ ap (λ o. not (i == j) && share_slot (if id == i then some r else lookup i d) o)
        (lookup-insert id j r d)
    ∙ by_ids (some r) (lookup i d) (lookup j d) (free-slot id j r d free)
        (λ k. share_slot_comm (lookup i d) (some r) ∙ free-slot id i r d free k) apart
  where
    by_ids :
        (x y z : Option AttemptRow)
        → ((id == j) ≡ false → share_slot x z ≡ false)
        → ((id == i) ≡ false → share_slot y x ≡ false)
        → (not (i == j) && share_slot y z) ≡ false
        → (not (i == j) && share_slot (if id == i then x else y) (if id == j then x else z)) ≡ false
    by_ids x y z h k l = ground (arith, eq_iff id i, eq_iff id j, eq_iff i j)

-- An applied transition never gives a task a second live attempt.
pub apply_transition-one_live :
    (now : ℕ) (t : Transition) (e : AttemptState) (w : Option String) (s : Store) (ids : List ℕ)
    (s' : Store) (i j : String)
    → apply_transition now t e w s ≡ ok (some ids, s')
    → clash i j s.attempts ≡ false
    → clash i j s'.attempts ≡ false
unfolding set_attempt
apply_transition-one_live now t e w s ids s' i j h apart =
    let a = apply_transition-IsApplied now t e w s ids s' h in
    ap (clash i j) a.attempts
    ∙ insert-clash t.ref.id i j (set_attempt now t.fields t.state a.row) s.attempts a.free apart

module _ (now : ℕ) (a : NewAttempt) (s : Store) where
  abbrev taken : Bool
  taken = is_live a.state && slot_taken a.id (new_row now a).queue a.task s.attempts

  abbrev added : Store
  added = record s { attempts = insert a.id (new_row now a) s.attempts }

  created :
      {made : Option AttemptRow} {s' : Store}
      → create_attempt now a s ≡ ok (made, s')
      → ((taken ≡ false) × (s' ≡ added)) ⊎ (s' ≡ s)
  unfolding create_attempt
  created h = elim (Bool-cases (is_some (lookup a.id s.attempts))) [
    | inl there ↦ ground arith
    | inr fresh ↦ elim (Bool-cases taken) [
      | inl full ↦ inr (ground arith)
      | inr free ↦ inl (free, ground arith)
    ]
  ]

  -- Creating an attempt never gives a task a second live attempt.
  pub create_attempt-one_live :
      (made : Option AttemptRow) (s' : Store) (i j : String)
      → create_attempt now a s ≡ ok (made, s')
      → clash i j s.attempts ≡ false
      → clash i j s'.attempts ≡ false
  unfolding new_row
  create_attempt-one_live made s' i j h apart = elim (created h) [
    | inl (free, e) ↦
        ap (λ (x : Store). clash i j x.attempts) e
        ∙ insert-clash a.id i j (new_row now a) s.attempts free apart
    | inr e ↦ ap (λ (x : Store). clash i j x.attempts) e ∙ apart
  ]
