-- ===== src/Deadline.antt =====
-- internal/deadline/deadline.go: why a bounded operation ended, and that this outranks what a
-- diagnostic concluded afterwards. The clock is a part of the outside world's state.
use version_aware_code_mcp.Prelude.{Text, ℤ, [], ◌∷◌, Option, none, some, codes}
use version_aware_code_mcp.Vacerr
use version_aware_code_mcp.Vacerr.{Failure, operation_timeout}

-- The cause `With` attaches; the budget is in milliseconds, as it is reported.
pub record Exceeded : Type 0 where
  pub provider : Text
  pub operation : Text
  pub budget : ℤ

-- `context.Cause` of a context that has ended: this server's budget, or the caller's own reason.
pub data Cause : Type 0 where
  ours : Exceeded → Cause
  caller : Failure → Cause

-- `Ended`
unfoldable pub ended : Option Cause → Option Failure
ended none = none
ended (some (ours x)) = some (
    Vacerr.new operation_timeout (
      (codes "operation", Vacerr.text x.operation)
      ∷ (codes "provider", Vacerr.text x.provider)
      ∷ (codes "timeout_ms", Vacerr.number x.budget)
      ∷ []))
ended (some (caller f)) = some f

abbrev or_else : Option Failure → Failure → Failure
or_else none f = f
or_else (some g) f = g

-- `Override`
unfoldable pub override : Option Cause → Failure → Failure
unfolding ended
override cause f = or_else (ended cause) f
