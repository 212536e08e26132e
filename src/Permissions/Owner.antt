-- ===== src/Permissions/Owner.antt =====
-- The owner is established once, by `bootstrap_owner`, and no call of the crate adds or removes one.
use assistant_platform.Permissions.Roles.{as_str_eq, has_role-any, any-insert_role, any-delete_role}
use assistant_platform.Base.{
  ℕ, ◌==◌, any, delete, RowIds, any-count_where, ◌≡◌, true, false, List, [], ◌∷◌, ◌++◌, arith,
  Bool-cases, is_some, count_where, any-find, count_where-append, count_where-delete_ne, String,
  refl, inl, inr, Option, map, str_eq, eq_iff, ap, any-append,
}
use assistant_platform.Permissions.Model.{Role, owner, role_eq, RoleRow, Conn, as_str}
use assistant_platform.Permissions.Store.{
  create_user, is_row, is_owner_row, owner_exists, insert_role, add_user_dm, get_user,
  is_administrative, bootstrap_owner, grant_role, revoke_role, has_role,
}
use assistant_platform.Permissions.Standing.{deactivate, InstructionClass, capture_as}
use assistant_platform.Permissions.Run.{
  after, Call, creates, bootstraps, grants, revokes, adds_dm, captures, deactivates, run,
  run_induction,
}

pub owner_exists-any : (c : Conn) → owner_exists c ≡ any is_owner_row c.user_roles
unfolding owner_exists
owner_exists-any c = any-count_where is_owner_row c.user_roles

-- What a call may do to `user_roles`.
pub data RolesChange (c d : Conn) : Type 0 where
  same : d.user_roles ≡ c.user_roles → RolesChange c d
  inserted :
      (target : ℕ) (role : Role)
      → role_eq role owner ≡ false
      → any (λ u. u.id == target) c.users ≡ true
      → d.user_roles ≡ insert_role target role c.user_roles
      → RolesChange c d
  deleted :
      (target : ℕ) (role : Role)
      → role_eq role owner ≡ false
      → d.user_roles ≡ delete (is_row target role) c.user_roles
      → RolesChange c d
  established :
      (target : ℕ)
      → any is_owner_row c.user_roles ≡ false
      → any (λ u. u.id == target) d.users ≡ true
      → d.user_roles ≡ c.user_roles ++ record { user_id = target; role = "owner" } ∷ []
      → RolesChange c d

bootstrap-RolesChange :
    (ids : RowIds) (c : Conn) (handle : String) (name : Option String)
    → RolesChange c (bootstrap_owner ids c handle name).1
unfolding bootstrap_owner
bootstrap-RolesChange ids c handle name =
    let id = ids.next (map (λ u. u.id) c.users) in
    elim (Bool-cases (owner_exists c)) [
      | inl e ↦ same (ground arith)
      | inr e ↦ elim (Bool-cases (any (λ u. str_eq u.handle handle) c.users)) [
        | inl t ↦ same (ground arith)
        | inr t ↦ elim (Bool-cases (any (is_row id owner) c.user_roles)) [
          | inl k ↦ same (ground arith)
          | inr k ↦
              established id (ground (arith, owner_exists-any c))
                (ground (
                  arith,
                  any-append (λ u. u.id == id) c.users
                      (record { id = id; handle = handle; display_name = name } ∷ []),
                ))
                (ground arith)
        ]
      ]
    ]

grant-RolesChange :
    (c : Conn) (actor target : ℕ) (role : Role) → RolesChange c (grant_role c actor target role).1
unfolding grant_role get_user
grant-RolesChange c actor target role = elim (Bool-cases (is_administrative c actor)) [
  | inr e ↦ same (ground arith)
  | inl e ↦ elim (Bool-cases (role_eq role owner)) [
    | inl t ↦ same (ground arith)
    | inr t ↦ elim (Bool-cases (is_some (get_user c target))) [
      | inr k ↦ same (ground arith)
      | inl k ↦
          inserted target role t (rw (← any-find (λ u. u.id == target) c.users) k) (ground arith)
    ]
  ]
]

revoke-RolesChange :
    (c : Conn) (actor target : ℕ) (role : Role) → RolesChange c (revoke_role c actor target role).1
unfolding revoke_role
revoke-RolesChange c actor target role = elim (Bool-cases (is_administrative c actor)) [
  | inr e ↦ same (ground arith)
  | inl e ↦ elim (Bool-cases (role_eq role owner)) [
    | inl t ↦ same (ground arith)
    | inr t ↦ deleted target role t (ground arith)
  ]
]

capture_as-roles :
    (ids : RowIds) (c : Conn) (actor : ℕ) (scope body : String) (class : InstructionClass)
    → (capture_as ids c actor scope body class).1.user_roles ≡ c.user_roles
unfolding capture_as
capture_as-roles ids c actor scope body class = ground arith

pub after-RolesChange : (ids : RowIds) (c : Conn) (call : Call) → RolesChange c (after ids c call)
unfolding after
after-RolesChange ids c (creates handle name) = same (unfold create_user in ground arith)
after-RolesChange ids c (bootstraps handle name) = bootstrap-RolesChange ids c handle name
after-RolesChange ids c (grants actor target role) = grant-RolesChange c actor target role
after-RolesChange ids c (revokes actor target role) = revoke-RolesChange c actor target role
after-RolesChange ids c (adds_dm user_id channel address) =
    same (unfold add_user_dm in ground arith)
after-RolesChange ids c (captures actor scope body class) =
    same (capture_as-roles ids c actor scope body class)
after-RolesChange ids c (deactivates actor id) = same (unfold deactivate in ground arith)

role_eq_sym : (r s : Role) → role_eq r s ≡ role_eq s r
role_eq_sym r s = ground arith

owner_text : as_str owner ≡ "owner"
unfolding as_str
owner_text = refl

-- Neither kind of change to other roles is seen in the owner rows.
pub owner_row-insert :
    (t : ℕ) (role : Role) (rows : List RoleRow)
    → role_eq role owner ≡ false
    → count_where is_owner_row (insert_role t role rows) ≡ count_where is_owner_row rows
owner_row-insert t role rows h = ground (
  arith,
  count_where-append is_owner_row rows (record { user_id = t; role = as_str role } ∷ []),
  as_str_eq role owner,
  owner_text,
)

pub owner_row-delete :
    (t : ℕ) (role : Role) (rows : List RoleRow)
    → role_eq role owner ≡ false
    → count_where is_owner_row (delete (is_row t role) rows) ≡ count_where is_owner_row rows
owner_row-delete t role rows h =
    count_where-delete_ne is_owner_row (is_row t role) rows
      (λ x e. ground (arith, eq_iff x.role (as_str role), as_str_eq role owner, owner_text))

-- Once there is an owner, no change of the roles is seen in the owner rows.
change-owner :
    {c d : Conn}
    → RolesChange c d
    → owner_exists c ≡ true
    → (count_where is_owner_row d.user_roles ≡ count_where is_owner_row c.user_roles)
      × ((u : ℕ) → any (is_row u owner) d.user_roles ≡ any (is_row u owner) c.user_roles)
change-owner {c} (same e) h = (ap (count_where is_owner_row) e, λ u. ap (any (is_row u owner)) e)
change-owner {c} (inserted t role n k e) h = (
  rw (e, owner_row-insert t role c.user_roles n),
  λ u. rw (e, any-insert_role t u role owner c.user_roles) (ground (arith, role_eq_sym owner role)),
)
change-owner {c} (deleted t role n e) h = (
  rw (e, owner_row-delete t role c.user_roles n),
  λ u. rw (e, any-delete_role t u role owner c.user_roles) (ground (arith, role_eq_sym owner role)),
)
change-owner {c} (established t n k e) h = absurd (cc (owner_exists-any c))

-- The owner rows of `c` are those of `d`, and there is one.
record SameOwner (c d : Conn) : Type 0 where
  exists : owner_exists d ≡ true
  holders : (u : ℕ) → has_role d u owner ≡ has_role c u owner

SameOwner-after :
    (ids : RowIds) (b c : Conn) (call : Call) → SameOwner b c → SameOwner b (after ids c call)
SameOwner-after ids b c call h =
    let (counts, rows) = change-owner (after-RolesChange ids c call) h.exists in
    record {
      exists = ground (
        arith,
        owner_exists-any (after ids c call),
        owner_exists-any c,
        any-count_where is_owner_row c.user_roles,
        any-count_where is_owner_row (after ids c call).user_roles,
      );
      holders = λ u.
          cc (has_role-any (after ids c call) u owner, has_role-any c u owner, rows u, h.holders u);
    }

-- Once an owner exists, no sequence of calls, whoever makes them, changes who holds the owner role.
pub owner_fixed :
    (ids : RowIds) (c : Conn) (calls : List Call)
    → owner_exists c ≡ true
    → (u : ℕ) → has_role (run ids c calls) u owner ≡ has_role c u owner
owner_fixed ids c calls h =
    (run_induction (SameOwner c) ids (SameOwner-after ids c) c calls
      (record { exists = h; holders = λ u. refl })).holders
