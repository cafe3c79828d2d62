-- ===== src/Base/Values.antt =====
-- The values that payloads, attempt fields and definitions carry (Python's `Any` from JSON).
use Prim.Native.Nat.{ℕ, zero, suc}
use Prim.Native.String.{String}
use mathlib.Core.Bool.{Bool}
use mathlib.Core.List.{List, [], ◌∷◌}
use mathlib.Core.Option.{Option, none, some}
use text.Mathlib.Text.{◌==◌}
use nightshift.Base.Tests.{if◌then◌else◌}
use nightshift.Base.Text.{show_nat, fstring}

-- `negsuc n` is -(n + 1).
pub data ℤ : Type 0 where
  pos : ℕ → ℤ
  negsuc : ℕ → ℤ

unfoldable pub succ_ℤ : ℤ → ℤ
succ_ℤ (pos n) = pos (suc n)
succ_ℤ (negsuc zero) = pos zero
succ_ℤ (negsuc (suc n)) = negsuc n

unfoldable pub show_ℤ : ℤ → String
show_ℤ (pos n) = show_nat n
show_ℤ (negsuc n) = fstring ("-" ∷ show_nat (suc n) ∷ [])

-- A finite double, mantissa * 2 ^ exponent. Values are carried, and only cut to a whole number.
pub record Float : Type 0 where
  pub mantissa : ℤ
  pub exponent : ℤ

mutual
  pub data Json : Type 0 where
    null : Json
    bool : Bool → Json
    int : ℤ → Json
    float : Float → Json
    str : String → Json
    arr : Items → Json
    obj : Members → Json

  pub data Items : Type 0 where
    nil : Items
    cons : Json → Items → Items

  pub data Members : Type 0 where
    end : Members
    member : String → Json → Members → Members

abbrev pub opt_json {ℓ} : {A : Type ℓ} → (A → Json) → Option A → Json
opt_json f none = null
opt_json f (some a) = f a

unfoldable pub texts : List String → Items
texts [] = nil
texts (s ∷ ss) = cons (str s) (texts ss)

-- The value of a key of an object.
unfoldable pub find_member : String → Members → Option Json
find_member key end = none
find_member key (member k v rest) = if k == key then some v else find_member key rest
