-- ===== src/Compat/Examples.antt =====
-- Round trips of src/nightshift/lifecycle_compat.py on concrete rows.
use nightshift.Base.{none, some, ◌≡◌}
use nightshift.Compat.Fold.{fold_legacy}
use nightshift.Compat.RoundTrip.{refold, refold-fold_legacy}

refold-fold_legacy_example :
    refold none none
      (some "manager:resolve")
      (fold_legacy none "running" none none (some "manager:resolve"))
    ≡ fold_legacy none "running" none none (some "manager:resolve")
refold-fold_legacy_example = refold-fold_legacy none none (some "manager:resolve") none "running"
