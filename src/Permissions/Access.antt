-- ===== src/Permissions/Access.antt =====
-- crates/assistant-permissions/src/access.rs
use assistant_platform.Base.{ℕ, String, Bool, true, false, Result, ok, err, if◌then◌else◌, is_some}
use assistant_platform.Permissions.Model.{
  UnknownPolicy, strict, request_approval, public, AccessDecision, allow, hold, deny,
  PermissionError, not_authorized, Conn,
}
use assistant_platform.Permissions.Store.{is_administrative, resolve_user_by_dm}

unfoldable pub decide : Bool → UnknownPolicy → AccessDecision
decide true policy = allow
decide false strict = deny "unknown identity under strict policy"
decide false request_approval = hold "unknown identity awaiting approval"
decide false public = allow

unfoldable pub evaluate_sender : Conn → String → String → UnknownPolicy → AccessDecision
evaluate_sender c channel address policy =
    decide (is_some (resolve_user_by_dm c channel address)) policy

unfoldable pub evaluate_channel : Bool → UnknownPolicy → AccessDecision
evaluate_channel channel_known policy = decide channel_known policy

unfoldable pub require_admin : Conn → ℕ → Result PermissionError (Unit {0})
require_admin c actor = if is_administrative c actor then ok tt else err (not_authorized actor)
