-- ===== src/Lifecycle/Land.antt =====
-- src/nightshift/lifecycle.py, lines 559-633: the git phases and the outcome of a land.
use nightshift.Base.{
  String, Bool, true, false, Option, List, [], ◌∷◌, ℤ, fstring, Result, ok, err, value_error,
}
use nightshift.Lifecycle.Vocabulary.{FailureKind}

pub data GitPhase : Type 0 where
  land adopt_check harvest_split : GitPhase

pub data LandKind : Type 0 where
  landed no_changes adopted conflict checkout_behind push_rejected transport_failed : LandKind

unfoldable pub land_value : LandKind → String
land_value LandKind.landed = "landed"
land_value LandKind.no_changes = "no_changes"
land_value LandKind.adopted = "adopted"
land_value LandKind.conflict = "conflict"
land_value LandKind.checkout_behind = "checkout_behind"
land_value LandKind.push_rejected = "push_rejected"
land_value LandKind.transport_failed = "transport_failed"

-- LAND_SUCCESS_KINDS
unfoldable pub is_land_success : LandKind → Bool
is_land_success LandKind.landed = true
is_land_success LandKind.checkout_behind = true
is_land_success LandKind.adopted = true
is_land_success _ = false

not_a_failure : LandKind → Result FailureKind
unfolding land_value
not_a_failure kind = err (value_error (fstring (land_value kind ∷ " is not a land failure" ∷ [])))

unfoldable pub land_failure_kind : LandKind → Result FailureKind
unfolding not_a_failure
land_failure_kind LandKind.conflict = ok FailureKind.merge_conflict
land_failure_kind LandKind.push_rejected = ok FailureKind.merge_rejected
land_failure_kind LandKind.transport_failed = ok FailureKind.merge_rejected
land_failure_kind kind = not_a_failure kind

pub record LandOutcome : Type 0 where
  pub kind : LandKind
  pub sha : Option String
  pub detail : String
  pub conflicts : List String
  pub dropped_commits : List String
  pub pr_url : Option String
  pub remote : Option String
  pub pushed : Option Bool
  pub retryable : Bool
  pub loc : Option ℤ
