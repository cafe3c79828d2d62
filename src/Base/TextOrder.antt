-- ===== src/Base/TextOrder.antt =====
-- The order of texts in Python.
use Prim.Native.Char.{code}
use Prim.Native.String.{String}
use mathlib.Core.Path.{◌≡◌, refl}
use mathlib.Core.Bool.{Bool, true, false, ◌&&◌, ◌||◌}
use native.Mathlib.Omega.{arith}
use nightshift.Base.Tests.{ltb, leb}

-- `a < b` on texts: by code points.
unfoldable pub text_lt : String → String → Bool
text_lt a String.[] = false
text_lt String.[] (String.◌∷◌ d t) = true
text_lt (String.◌∷◌ c s) (String.◌∷◌ d t) =
    ltb (code c) (code d) || leb (code c) (code d) && text_lt s t

pub text_lt-split : (a b c : String) → text_lt a c ≡ true → text_lt a b ≡ false → text_lt b c ≡ true
unfolding text_lt
text_lt-split a b String.[] h k = ground arith
text_lt-split a String.[] (String.◌∷◌ e u) h k = refl
text_lt-split String.[] (String.◌∷◌ d t) (String.◌∷◌ e u) h k = ground arith
text_lt-split (String.◌∷◌ x s) (String.◌∷◌ d t) (String.◌∷◌ e u) h k =
    ground (arith, text_lt-split s t u)

pub text_lt-asym : (a b : String) → text_lt a b ≡ true → text_lt b a ≡ false
unfolding text_lt
text_lt-asym String.[] String.[] h = refl
text_lt-asym String.[] (String.◌∷◌ d t) h = refl
text_lt-asym (String.◌∷◌ c s) String.[] h = ground arith
text_lt-asym (String.◌∷◌ c s) (String.◌∷◌ d t) h = ground (arith, text_lt-asym s t)
