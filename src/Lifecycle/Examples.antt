-- ===== src/Lifecycle/Examples.antt =====
-- The backoff of src/nightshift/lifecycle.py at concrete counters.
use nightshift.Base.{◌≤◌, arith}
use nightshift.Lifecycle.Retry.{delay, default_policy}
use nightshift.Lifecycle.Delay.{delay_bounds}

delay_bounds_example :
    (delay default_policy.backoff 3 ≤ delay default_policy.backoff 9)
    × (delay default_policy.backoff 9 ≤ 3600)
delay_bounds_example = delay_bounds default_policy.backoff 2 8 (omega arith)
