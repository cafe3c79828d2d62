-- ===== src/Manager/Quiet.antt =====
-- Actions of the handlers (src/nightshift/manager/api_worker.py and app.py) that leave the row of an attempt alone
-- and never answer with a refusal, and how they compose.
use nightshift.Base.{
  ℕ, String, Bool, true, false, not, Option, none, some, List, [], ◌∷◌, ◌≡◌, refl, ◌∙◌, ap, ◌==◌,
  Dict, Json, bool, if_ind, is_some, ◌&&◌, lookup, insert, lookup-insert, if◌then◌else◌, Result, ok,
  err, arith, Bool-cases, Option-cases, Result-cases, inl, inr, eq_iff,
}
use nightshift.Lifecycle.{is_live}
use nightshift.Store.{
  AttemptRow, Store, NewAttempt, new_row, create_attempt, write_attempt, slot_taken,
}
use nightshift.Manager.World.{
  World, Reply, done, refused, raised, Action, ◌>>=◌, ◌>>◌, pure, from_result, modify, suppress,
}
use nightshift.Manager.Finish.{on_store, no_value}

unfoldable pub is_refusal : {A : Type 0} → Reply A → Bool
is_refusal (refused status detail) = true
is_refusal _ = false

module _ (id : String) where
  abbrev pub row_in : World → Option AttemptRow
  row_in w = lookup id w.store.attempts

  -- From `w` on, the step answers with no refusal and leaves the attempt's row.
  abbrev pub QuietAt : {A : Type 0} → World → Reply A × World → Type 0
  QuietAt w p = (is_refusal p.0 ≡ false) × (row_in p.1 ≡ row_in w)

  abbrev pub IsQuiet : {A : Type 0} → Action A → Type 0
  IsQuiet m = (w : World) → QuietAt w (m w)

  -- A call of the store that leaves the attempt's row.
  abbrev pub OnStore : {A : Type 0} → Store → Result (A × Store) → Type 0
  OnStore s (ok (a, after)) = lookup id after.attempts ≡ lookup id s.attempts
  OnStore s (err e) = Unit

  bind_quiet :
      {A B : Type 0} (f : A → Action B) (w : World) (p : Reply A × World)
      → QuietAt w p
      → ((a : A) → IsQuiet (f a))
      → QuietAt w (((λ x. p) >>= f) w)
  unfolding is_refusal
  bind_quiet f w (done a, w') h k = ((k a w').0, (k a w').1 ∙ h.1)
  bind_quiet f w (refused status detail, w') h k = ((ground arith), h.1)
  bind_quiet f w (raised e, w') h k = (refl, h.1)

  pub bind-IsQuiet :
      {A B : Type 0} (m : Action A) (f : A → Action B)
      → IsQuiet m
      → ((a : A) → IsQuiet (f a))
      → IsQuiet (m >>= f)
  bind-IsQuiet m f h k w = bind_quiet f w (m w) (h w) k

  pub then-IsQuiet :
      {A B : Type 0} (m : Action A) (n : Action B) → IsQuiet m → IsQuiet n → IsQuiet (m >> n)
  then-IsQuiet m n h k = bind-IsQuiet m (λ _. n) h (λ _. k)

  pub pure-IsQuiet : {A : Type 0} (a : A) → IsQuiet (pure a)
  unfolding is_refusal
  pure-IsQuiet a w = (refl, refl)

  pub if-IsQuiet :
      {A : Type 0} (b : Bool) (m n : Action A)
      → IsQuiet m
      → IsQuiet n
      → IsQuiet (if b then m else n)
  if-IsQuiet true m n h k = h
  if-IsQuiet false m n h k = k

  pub modify-IsQuiet :
      (f : World → World) → ((w : World) → row_in (f w) ≡ row_in w) → IsQuiet (modify f)
  unfolding is_refusal
  modify-IsQuiet f h w = (refl, h w)

  pub suppress-IsQuiet : (m : Action (Unit {0})) → IsQuiet m → IsQuiet (suppress m)
  unfolding is_refusal
  suppress-IsQuiet m h w = (refl, (h w).1)

  pub result-IsQuiet : {A : Type 0} (r : Result A) → IsQuiet (from_result r)
  unfolding is_refusal
  result-IsQuiet (ok a) w = (refl, refl)
  result-IsQuiet (err e) w = (refl, refl)

  on_store_quiet :
      {A : Type 0} (w : World) (r : Result (A × Store))
      → OnStore w.store r
      → QuietAt w (on_store (λ s. r) w)
  unfolding is_refusal
  on_store_quiet w (ok (a, after)) k = (refl, k)
  on_store_quiet w (err e) k = (refl, refl)

  pub on_store-IsQuiet :
      {A : Type 0} (f : Store → Result (A × Store))
      → ((s : Store) → OnStore s (f s))
      → IsQuiet (on_store f)
  on_store-IsQuiet f h w = on_store_quiet w (f w.store) (h w.store)

  insert-other :
      (j : String) (r : AttemptRow) (d : Dict AttemptRow)
      → (j == id) ≡ false
      → lookup id (insert j r d) ≡ lookup id d
  insert-other j r d other = lookup-insert j id r d ∙ rw other refl

  pub create_attempt-OnStore :
      (now : ℕ) (a : NewAttempt) (s : Store)
      → (a.id == id) ≡ false
      → OnStore s (create_attempt now a s)
  unfolding create_attempt
  create_attempt-OnStore now a s other = if_ind (OnStore s) (is_some (lookup a.id s.attempts)) tt (
      if_ind (OnStore s)
        (is_live a.state && slot_taken a.id (new_row now a).queue a.task s.attempts) refl
        (insert-other a.id (new_row now a) s.attempts other))

  abbrev pub OnTable : Dict AttemptRow → Result (Dict AttemptRow) → Type 0
  OnTable d (ok after) = lookup id after ≡ lookup id d
  OnTable d (err e) = Unit

  pub write_attempt-OnTable :
      (j : String) (r : AttemptRow) (d : Dict AttemptRow)
      → (j == id) ≡ false
      → OnTable d (write_attempt j r d)
  unfolding write_attempt
  write_attempt-OnTable j r d other =
      if_ind (OnTable d) (is_live r.state && slot_taken j r.queue r.task d) tt
        (insert-other j r d other)

  abbrev pub stored : Store → Result (Dict AttemptRow) → Result (Unit {0} × Store)
  stored s x =
      no_value (nightshift.Base.◌>>=◌ x (λ attempts. ok (record s { attempts = attempts })))

  pub stored-OnStore :
      (s : Store) (x : Result (Dict AttemptRow)) → OnTable s.attempts x → OnStore s (stored s x)
  stored-OnStore s (ok attempts) h = h
  stored-OnStore s (err e) h = tt
