-- ===== src/Lifecycle/Delay.antt =====
-- `Backoff.delay` of src/nightshift/lifecycle.py: doubling up to the cap.
use native.Mathlib.Nat.{pow-suc, pow-le-pow_right, mul-le-mul_left}
use nightshift.Base.{ℕ, suc, ◌*◌, ◌^◌, ◌≤◌, ◌<◌, ◌≡◌, min, ltb, if◌then◌else◌, arith}
use nightshift.Lifecycle.Retry.{Backoff, delay}

doubles :
    (b : Backoff) (n : ℕ) → n < 63 → delay b (suc (suc n)) ≡ min (delay b (suc n) * 2) b.cap_seconds
unfolding delay
doubles b n h =
    let below : min (suc n) 63 ≡ suc (min n 63) = omega arith in rw (below, pow-suc) (omega arith)

stays : (b : Backoff) (n : ℕ) → 63 ≤ n → delay b (suc (suc n)) ≡ delay b 64
unfolding delay
stays b n h = let last : min (suc n) 63 ≡ 63 = omega arith in rw last

-- The delay doubles with each further attempt until it meets the cap, up to the 64th attempt; from
-- there on it stays as it is.
delay-suc :
    (b : Backoff) (n : ℕ)
    → delay b (suc (suc n))
      ≡ (if ltb n 63 then min (delay b (suc n) * 2) b.cap_seconds else delay b 64)
delay-suc b n = ground (arith, doubles b n, stays b n)

scaled_mono : (c m n : ℕ) → m ≤ n → c * 2 ^ min m 63 ≤ c * 2 ^ min n 63
scaled_mono c m n h = mul-le-mul_left c (pow-le-pow_right (omega arith) (omega arith))

-- A later attempt waits at least as long as an earlier one, and never longer than the cap.
pub delay_bounds :
    (b : Backoff) (m n : ℕ)
    → m ≤ n
    → (delay b (suc m) ≤ delay b (suc n)) × (delay b (suc n) ≤ b.cap_seconds)
unfolding delay
delay_bounds b m n h = (omega (arith, scaled_mono b.base_seconds m n h), omega arith)
