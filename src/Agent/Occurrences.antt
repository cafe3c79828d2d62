-- ===== src/Agent/Occurrences.antt =====
-- How often a text occurs in another, and the two searches of src/nightshift/agent/apply.py.
use nightshift.Base.{
  ℕ, zero, suc, ◌+◌, ◌≤◌, String, true, none, some, ◌≡◌, ◌≢◌, refl, ap, sym, ◌∙◌, arith,
  if◌then◌else◌, text_take, text_drop, text_length, find,
}
use Prim.Native.String as S
use Prim.Native.Char.{Char}
use native.Mathlib.Numerals.{unary_clauses}
use text.Mathlib.TextLemmas.{nil-append, cons-append}
use text.Mathlib.Text.{starts_with}
use text.Mathlib.TextEquality.{starts_with_iff}
use text.Mathlib.TextPositions.{starts_with-append}

-- The number of the places where `part` stands in the text; the places may overlap.
unfoldable pub occurrences : String → String → ℕ
occurrences part String.[] = 0
occurrences part (String.◌∷◌ c s) =
    let rest = occurrences part s in (if starts_with (String.◌∷◌ c s) part then 1 else 0) + rest

pub find-none : (part s : String) → find part s ≡ none → occurrences part s ≡ 0
unfolding find occurrences
find-none part String.[] h = refl
find-none part (String.◌∷◌ c s) h = ground (arith, find-none part s)

pub none-find : (part s : String) → occurrences part s ≡ 0 → find part s ≡ none
unfolding find occurrences
none-find part String.[] h = refl
none-find part (String.◌∷◌ c s) h = ground (arith, none-find part s)

-- The first place is counted once; the others stand after it.
pub occurrences-find :
    (part s : String) (i : ℕ)
    → find part s ≡ some i
    → occurrences part s ≡ suc (occurrences part (text_drop (suc i) s))
unfolding find occurrences text_drop
occurrences-find part String.[] i h = ground arith
occurrences-find part (String.◌∷◌ c s) zero h = ground arith
occurrences-find part (String.◌∷◌ c s) (suc i) h = ground (arith, occurrences-find part s i)

pub text_drop-append : (s t : String) → text_drop (text_length s) (S.◌++◌ s t) ≡ t
unfolding text_drop text_length
text_drop-append String.[] t = nil-append t
text_drop-append (String.◌∷◌ c s) t = rw (cons-append c s t) (text_drop-append s t)

pub text_take-append : (s t : String) → text_take (text_length s) (S.◌++◌ s t) ≡ s
unfolding text_take text_length
text_take-append String.[] t = refl
text_take-append (String.◌∷◌ c s) t =
    rw (cons-append c s t) (ap (String.◌∷◌ c) (text_take-append s t))

pub text_drop-add : (i n : ℕ) (s : String) → text_drop (i + n) s ≡ text_drop n (text_drop i s)
unfolding text_drop
text_drop-add zero n s =
    let from_zero : 0 + n ≡ n = omega arith in ap (λ m. text_drop m s) from_zero
text_drop-add (suc i) zero String.[] = simp unary_clauses
text_drop-add (suc i) (suc n) String.[] = simp unary_clauses
text_drop-add (suc i) n (String.◌∷◌ c s) =
    let step : suc i + n ≡ suc (i + n) = omega arith in
    ap (λ m. text_drop m (String.◌∷◌ c s)) step ∙ text_drop-add i n s

prefix-split :
    (part s : String) → starts_with s part ≡ true → s ≡ S.◌++◌ part (text_drop (text_length part) s)
prefix-split part s h =
    let (rest, e) = (starts_with_iff s part).0 h in
    sym e
    ∙ ap (S.◌++◌ part) (sym (text_drop-append part rest) ∙ ap (text_drop (text_length part)) e)

-- The text falls into what stands before the first place, the part and what stands after it.
pub find-split :
    (part s : String) (i : ℕ)
    → find part s ≡ some i
    → s ≡ S.◌++◌ (text_take i s) (S.◌++◌ part (text_drop (text_length part) (text_drop i s)))
unfolding find text_take text_drop
find-split part String.[] i h = ground arith
find-split part (String.◌∷◌ c s) zero h =
    rw (nil-append (S.◌++◌ part (text_drop (text_length part) (String.◌∷◌ c s))))
      (prefix-split part (String.◌∷◌ c s) (ground arith))
find-split part (String.◌∷◌ c s) (suc i) h =
    rw (cons-append c (text_take i s) (S.◌++◌ part (text_drop (text_length part) (text_drop i s))))
      (ap (String.◌∷◌ c) (find-split part s i (ground arith)))

starts :
    (c : Char) (part after : String)
    → starts_with (String.◌∷◌ c (S.◌++◌ part after)) (String.◌∷◌ c part) ≡ true
starts c part after =
    ap (λ s. starts_with s (String.◌∷◌ c part)) (sym (cons-append c part after))
    ∙ starts_with-append (String.◌∷◌ c part) after

pub occurs :
    (before part after : String)
    → part ≢ ""
    → 1 ≤ occurrences part (S.◌++◌ before (S.◌++◌ part after))
unfolding occurrences
occurs String.[] String.[] after h = absurd (h refl)
occurs String.[] (String.◌∷◌ c part) after h = simp (nil-append, cons-append, starts) (omega arith)
occurs (String.◌∷◌ b before) part after h =
    rw (cons-append b before (S.◌++◌ part after)) (ground (arith, occurs before part after h))

-- A text that occurs once is found where it stands.
pub find_only :
    (before part after : String)
    → part ≢ ""
    → occurrences part (S.◌++◌ before (S.◌++◌ part after)) ≡ 1
    → find part (S.◌++◌ before (S.◌++◌ part after)) ≡ some (text_length before)
unfolding occurrences find text_length
find_only String.[] String.[] after h k = absurd (h refl)
find_only String.[] (String.◌∷◌ c part) after h k = simp (nil-append, cons-append, starts)
find_only (String.◌∷◌ b before) part after h k =
    let once = rw (cons-append b before (S.◌++◌ part after)) at k in
    rw (cons-append b before (S.◌++◌ part after))
      (ground (arith, once, occurs before part after h, find_only before part after h))
