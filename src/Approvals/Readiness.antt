-- ===== src/Approvals/Readiness.antt =====
-- crates/assistant-approvals/src/readiness.rs. The number in a failure's text is its argument.
use assistant_platform.Base.{ℕ, ◌==◌, if◌then◌else◌, Bool, true, false}
use assistant_platform.Approvals.Model.{Conn, EpochSecs, TextCast}
use assistant_platform.Approvals.Store.{pending_past_expiry}

pub data Detail : Type 0 where
  sweep_not_running : Detail
  stuck : ℕ → Detail

pub data CheckStatus : Type 0 where
  pass : CheckStatus
  fail : Detail → CheckStatus
  skipped : Detail → CheckStatus

unfoldable pub is_pass : CheckStatus → Bool
is_pass pass = true
is_pass _ = false

unfoldable pub is_blocking_failure : CheckStatus → Bool
is_blocking_failure (fail d) = true
is_blocking_failure _ = false

-- The probe is the host's answer.
unfoldable pub expiry_sweep_running : Bool → CheckStatus
expiry_sweep_running probe = if probe then pass else fail sweep_not_running

unfoldable pub no_approvals_stuck_past_expiry : TextCast → Conn → EpochSecs → CheckStatus
no_approvals_stuck_past_expiry t c now =
    let n = pending_past_expiry t c now in if n == 0 then pass else fail (stuck n)
