-- ===== src/Lifecycle/Report.antt =====
-- src/nightshift/lifecycle.py, lines 232-316: the outcome that a worker submits.
use nightshift.Base.{String, Bool, Option, none, some, ℤ, Float, Members}
use nightshift.Lifecycle.Vocabulary.{RunStatus, FailureKind}

pub record Telemetry : Type 0 where
  pub turns : Option ℤ
  pub input_tokens : Option ℤ
  pub output_tokens : Option ℤ
  pub cache_read_input_tokens : Option ℤ
  pub cache_creation_input_tokens : Option ℤ
  pub usage : Option Members
  pub cost_usd : Option Float
  pub billing : Option String
  pub validate_cmd : Option String
  pub worktree : Option String
  pub timings : Option Members

pub record Failure : Type 0 where
  pub kind : FailureKind
  pub reason : Option String

-- The class extends `Telemetry`; the field `telemetry` holds the inherited part.
pub record Outcome : Type 0 where
  pub telemetry : Telemetry
  pub status : RunStatus
  pub result_line : String
  pub landable : Bool
  pub model : Option String
  pub backend : String
  pub document : Option String
  pub signal : Option String
  pub branch_ref : Option String
  pub head_sha : Option String
  pub failure_kind : Option FailureKind
  pub failure_reason : Option String

unfoldable pub failure : Outcome → Option Failure
failure o = elim o.failure_kind [
  | none ↦ none
  | some k ↦ some (record { kind = k; reason = o.failure_reason })
]
