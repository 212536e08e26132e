-- ===== src/Permissions/Roles.antt =====
-- What a grant and a revocation change, whom the administrative gate stops, and what nobody can do.
use assistant_platform.Base.{
  ℕ, ◌≡◌, refl, not, ◌&&◌, ◌||◌, List, str_eq, ◌==◌, any, delete, any-count_where, Bool-cases,
  any-delete_ne, inl, inr, Bool, true, any-append, any-delete_self, [], ◌∷◌, arith, eq_iff, ok, err,
  ◌↔◌, is_some, any-find, false,
}
use assistant_platform.Permissions.Model.{
  Role, member, admin, owner, as_str, role_eq, RoleRow, Conn, PermissionError, not_authorized, User,
}
use assistant_platform.Permissions.Store.{
  is_row, has_role, insert_role, grant_role, is_administrative, revoke_role, get_user,
}

-- Roles are stored under different texts.
pub as_str_eq : (r s : Role) → str_eq (as_str r) (as_str s) ≡ role_eq r s
unfolding as_str
as_str_eq member member = refl
as_str_eq member admin = refl
as_str_eq member owner = refl
as_str_eq admin member = refl
as_str_eq admin admin = refl
as_str_eq admin owner = refl
as_str_eq owner member = refl
as_str_eq owner admin = refl
as_str_eq owner owner = refl

pub has_role-any : (c : Conn) (u : ℕ) (r : Role) → has_role c u r ≡ any (is_row u r) c.user_roles
unfolding has_role
has_role-any c u r = any-count_where (is_row u r) c.user_roles

role_eq→eq : (r s : Role) → role_eq r s ≡ true → r ≡ s
role_eq→eq member member h = refl
role_eq→eq admin admin h = refl
role_eq→eq owner owner h = refl
role_eq→eq _ _ h = cc

abbrev pub same_key : ℕ → Role → ℕ → Role → Bool
same_key u r t role = u == t && role_eq r role

-- A row with the key (t, role) has no other key.
is_row-key :
    (u t : ℕ) (r role : Role) (x : RoleRow)
    → is_row t role x ≡ true
    → is_row u r x ≡ same_key u r t role
is_row-key u t r role x h = ground (arith, eq_iff x.role (as_str role), as_str_eq role r)

-- The row that a key names is the key's own.
same_key→is_row :
    (u t : ℕ) (r role : Role) → same_key u r t role ≡ true → is_row u r ≡ is_row t role
same_key→is_row u t r role h =
    let e : r ≡ role = role_eq→eq r role (ground arith) in let d : u ≡ t = ground arith in rw (d, e)

any-same_key :
    (u t : ℕ) (r role : Role) (rows : List RoleRow)
    → same_key u r t role ≡ true
    → any (is_row u r) rows ≡ any (is_row t role) rows
any-same_key u t r role rows h = rw (same_key→is_row u t r role h)

pub any-insert_role :
    (t u : ℕ) (role r : Role) (rows : List RoleRow)
    → any (is_row u r) (insert_role t role rows) ≡ (same_key u r t role || any (is_row u r) rows)
any-insert_role t u role r rows = ground (
  arith,
  any-append (is_row u r) rows (record { user_id = t; role = as_str role } ∷ []),
  as_str_eq role r,
  any-same_key u t r role rows,
)

pub any-delete_role :
    (t u : ℕ) (role r : Role) (rows : List RoleRow)
    → any (is_row u r) (delete (is_row t role) rows)
      ≡ (not (same_key u r t role) && any (is_row u r) rows)
any-delete_role t u role r rows = elim (Bool-cases (same_key u r t role)) [
  | inl same ↦ rw (same, same_key→is_row u t r role same) (any-delete_self (is_row t role) rows)
  | inr other ↦ rw other (
      any-delete_ne (is_row u r) (is_row t role) rows (λ x h. rw (is_row-key u t r role x h) other))
]

-- After a grant that succeeds a user holds a role exactly if it is the granted one or was held before.
pub has_role-grant_role :
    (c : Conn) (actor target : ℕ) (role : Role)
    → (grant_role c actor target role).0 ≡ ok tt
    → (u : ℕ) (r : Role)
    → has_role (grant_role c actor target role).1 u r ≡ (same_key u r target role || has_role c u r)
unfolding grant_role
has_role-grant_role c actor target role h u r =
    rw (has_role-any c u r, has_role-any _ u r)
      (ground (arith, any-insert_role target u role r c.user_roles))

-- After a revocation that succeeds a user holds a role exactly if it was held and is not the revoked
-- one.
pub has_role-revoke_role :
    (c : Conn) (actor target : ℕ) (role : Role)
    → (revoke_role c actor target role).0 ≡ ok tt
    → (u : ℕ) (r : Role)
    → has_role (revoke_role c actor target role).1 u r
      ≡ (not (same_key u r target role) && has_role c u r)
unfolding revoke_role
has_role-revoke_role c actor target role h u r =
    rw (has_role-any c u r, has_role-any _ u r)
      (ground (arith, any-delete_role target u role r c.user_roles))

-- The actor has a row with the text of an owner or of an administrator, and the role is not owner.
abbrev pub may_change : Conn → ℕ → Role → Bool
may_change c actor role =
    any (λ r. r.user_id == actor && (str_eq r.role "owner" || str_eq r.role "admin")) c.user_roles
    && not (role_eq role owner)

abbrev pub is_known : Conn → ℕ → Bool
is_known c target = any (λ u. u.id == target) c.users

is_administrative-any :
    (c : Conn) (actor : ℕ)
    → is_administrative c actor
      ≡ any
          (λ r. r.user_id == actor && (str_eq r.role "owner" || str_eq r.role "admin"))
          c.user_roles
unfolding is_administrative
is_administrative-any c actor =
    any-count_where (λ r. r.user_id == actor && (str_eq r.role "owner" || str_eq r.role "admin"))
      c.user_roles

get_user-is_known : (c : Conn) (target : ℕ) → is_some (get_user c target) ≡ is_known c target
unfolding get_user
get_user-is_known c target = ground (arith, any-find (λ (u : User). u.id == target) c.users)

-- A role is changed only by an actor who has a row with the role owner or admin, and never the role
-- owner: a grant and a revocation answer `not_authorized` exactly otherwise. A grant succeeds exactly
-- if the target is known too. Afterwards a user holds a role exactly if it is the one that was granted
-- or was held and is not the one that was revoked; a call that fails changes nothing.
pub gate_exact :
    (c : Conn) (actor target : ℕ) (role : Role)
    → let may = may_change c actor role in
      let (granted, given) = grant_role c actor target role in
      let (revoked, taken) = revoke_role c actor target role in
      (granted ≡ err (not_authorized actor) ↔ may ≡ false)
      × (revoked ≡ err (not_authorized actor) ↔ may ≡ false)
      × (granted ≡ ok tt ↔ (may && is_known c target) ≡ true)
      × (revoked ≡ ok tt ↔ may ≡ true)
      × ((u : ℕ) (r : Role)
          → has_role given u r
            ≡ (may && is_known c target && same_key u r target role || has_role c u r))
      × ((u : ℕ) (r : Role)
          → has_role taken u r ≡ (not (may && same_key u r target role) && has_role c u r))
      × (may ≡ false → (given ≡ c) × (taken ≡ c))
      × (is_known c target ≡ false → given ≡ c)
unfolding grant_role revoke_role
gate_exact c actor target role =
    let a = is_administrative-any c actor in
    let k = get_user-is_known c target in
    (
      (λ h. ground (arith, a, k), λ h. ground (arith, a, k)),
      (λ h. ground (arith, a), λ h. ground (arith, a)),
      (λ h. ground (arith, a, k), λ h. ground (arith, a, k)),
      (λ h. ground (arith, a), λ h. ground (arith, a)),
      λ u r.
          let g = any-insert_role target u role r c.user_roles in
          rw (has_role-any c u r, has_role-any _ u r) (ground (arith, a, k, g)),
      λ u r.
          let g = any-delete_role target u role r c.user_roles in
          rw (has_role-any c u r, has_role-any _ u r) (ground (arith, a, g)),
      λ h. (ground (arith, a), ground (arith, a)),
      λ h. ground (arith, k),
    )

-- A grant or a revocation that fails leaves the tables as they were.
pub failed_role_change :
    (c : Conn) (actor target : ℕ) (role : Role) (e : PermissionError)
    → ((grant_role c actor target role).0 ≡ err e → (grant_role c actor target role).1 ≡ c)
      × ((revoke_role c actor target role).0 ≡ err e → (revoke_role c actor target role).1 ≡ c)
unfolding grant_role revoke_role
failed_role_change c actor target role e = ground arith
