-- ===== src/Permissions/Readiness.antt =====
-- crates/assistant-permissions/src/readiness.rs. The numbers in a failure's text are its arguments.
use assistant_platform.Base.{
  ℕ, Bool, true, false, not, ◌&&◌, count_where, any, if◌then◌else◌, ltb, ◌==◌,
}
use assistant_platform.Permissions.Model.{Conn}
use assistant_platform.Permissions.Store.{is_admin_text, is_administrative}

pub data Detail : Type 0 where
  no_admin : Detail
  orphans : ℕ → ℕ → Detail

pub data CheckStatus : Type 0 where
  pass : CheckStatus
  fail : Detail → CheckStatus
  skipped : Detail → CheckStatus

unfoldable pub is_pass : CheckStatus → Bool
is_pass pass = true
is_pass _ = false

unfoldable pub is_blocking_failure : CheckStatus → Bool
is_blocking_failure (fail d) = true
is_blocking_failure _ = false

unfoldable pub admin_exists : Conn → CheckStatus
admin_exists c =
    if ltb 0 (count_where (λ r. is_admin_text r.role) c.user_roles) then pass else fail no_admin

-- The LEFT JOIN on `users` finds no row.
abbrev pub is_orphan : Conn → ℕ → Bool
is_orphan c user_id = not (any (λ u. u.id == user_id) c.users)

unfoldable pub references_intact : Conn → CheckStatus
references_intact c =
    let orphan_roles = count_where (λ r. is_orphan c r.user_id) c.user_roles in
    let orphan_dms = count_where (λ d. is_orphan c d.user_id) c.user_dms in
    if orphan_roles == 0 && orphan_dms == 0 then pass else fail (orphans orphan_roles orphan_dms)

unfoldable pub is_admin : Conn → ℕ → Bool
is_admin c user_id = is_administrative c user_id
