-- ===== src/Permissions/Invariant.antt =====
-- What holds of the tables after any calls from the migrated database: at most one owner, and no role
-- or DM row without its user.
use assistant_platform.Permissions.Readiness.{is_orphan, references_intact, pass}
use assistant_platform.Base.{
  ℕ, ◌==◌, All, count_where, any, RowIds, any-append, All-append, All-delete, All-map, ◌≤◌, ◌≡◌,
  Bool, true, List, [], ◌++◌, arith, Bool-cases, is_some, find, any-find, count_where-append,
  any-eq_false_of_count, keep-if, All-update, String, inl, inr, ◌||◌, Option, ◌∷◌, map, append-nil,
  str_eq, refl,
}
use assistant_platform.Permissions.Model.{Conn, User, owner, DmRow, RoleRow}
use assistant_platform.Permissions.Store.{
  is_row, is_owner_row, grant_role, revoke_role, add_user_dm, create_user, get_user, owner_exists,
  bootstrap_owner, is_route, upsert_dm,
}
use assistant_platform.Permissions.Standing.{capture_as, deactivate}
use assistant_platform.Permissions.Run.{
  after, Call, creates, bootstraps, grants, revokes, adds_dm, captures, deactivates, run, empty,
  run_induction,
}
use assistant_platform.Permissions.Owner.{
  RolesChange, same, inserted, deleted, established, after-RolesChange, owner_row-insert,
  owner_row-delete,
}

abbrev is_user : List User → ℕ → Bool
is_user users n = any (λ u. u.id == n) users

pub record IsSound (c : Conn) : Type 0 where
  pub one_owner : count_where is_owner_row c.user_roles ≤ 1
  pub roles_refer : All (λ r. is_user c.users r.user_id ≡ true) c.user_roles
  pub dms_refer : All (λ d. is_user c.users d.user_id ≡ true) c.user_dms

create-users :
    (ids : RowIds) (c : Conn) (handle : String) (name : Option String)
    → (added : List User) × ((create_user ids c handle name).1.users ≡ c.users ++ added)
unfolding create_user
create-users ids c handle name = elim (Bool-cases (any (λ u. str_eq u.handle handle) c.users)) [
  | inl e ↦ ([], ground (arith, append-nil c.users))
  | inr e ↦ (
    record { id = ids.next (map (λ u. u.id) c.users); handle = handle; display_name = name } ∷ [],
    ground arith,
  )
]

bootstrap-users :
    (ids : RowIds) (c : Conn) (handle : String) (name : Option String)
    → (added : List User) × ((bootstrap_owner ids c handle name).1.users ≡ c.users ++ added)
unfolding bootstrap_owner
bootstrap-users ids c handle name =
    elim (Bool-cases (
      owner_exists c
      || any (λ u. str_eq u.handle handle) c.users
      || any (is_row (ids.next (map (λ u. u.id) c.users)) owner) c.user_roles)) [
        | inl e ↦ ([], ground (arith, append-nil c.users))
        | inr e ↦ (
          record { id = ids.next (map (λ u. u.id) c.users); handle = handle; display_name = name }
              ∷ [],
          ground arith,
        )
      ]

-- No call removes a user.
after-users :
    (ids : RowIds) (c : Conn) (call : Call)
    → (added : List User) × ((after ids c call).users ≡ c.users ++ added)
unfolding after
after-users ids c (creates handle name) = create-users ids c handle name
after-users ids c (bootstraps handle name) = bootstrap-users ids c handle name
after-users ids c (grants actor target role) =
    ([], unfold grant_role in ground (arith, append-nil c.users))
after-users ids c (revokes actor target role) =
    ([], unfold revoke_role in ground (arith, append-nil c.users))
after-users ids c (adds_dm user_id channel address) =
    ([], unfold add_user_dm in ground (arith, append-nil c.users))
after-users ids c (captures actor scope body class) =
    ([], unfold capture_as in ground (arith, append-nil c.users))
after-users ids c (deactivates actor id) =
    ([], unfold deactivate in ground (arith, append-nil c.users))

is_user-append :
    (users added : List User) (n : ℕ) → is_user users n ≡ true → is_user (users ++ added) n ≡ true
is_user-append users added n h = rw (any-append (λ u. u.id == n) users added, h)

roles_refer-change :
    {c d : Conn}
    → RolesChange c d
    → ((n : ℕ) → is_user c.users n ≡ true → is_user d.users n ≡ true)
    → All (λ r. is_user c.users r.user_id ≡ true) c.user_roles
    → All (λ r. is_user d.users r.user_id ≡ true) d.user_roles
roles_refer-change {c} {d} change grows h =
    go change (All-map _ _ c.user_roles (λ r. grows r.user_id) h)
  where
    go :
        RolesChange c d
        → All (λ r. is_user d.users r.user_id ≡ true) c.user_roles
        → All (λ r. is_user d.users r.user_id ≡ true) d.user_roles
    go (same e) k = rw e k
    go (inserted t role n u e) k = rw e (
        keep-if (All (λ r. is_user d.users r.user_id ≡ true)) (any (is_row t role) c.user_roles) _ _
          k (All-append _ c.user_roles _ k (grows t u, tt)))
    go (deleted t role n e) k = rw e (All-delete _ (is_row t role) c.user_roles k)
    go (established t n u e) k = rw e (All-append _ c.user_roles _ k (u, tt))

one_owner-change :
    {c d : Conn}
    → RolesChange c d
    → count_where is_owner_row c.user_roles ≤ 1
    → count_where is_owner_row d.user_roles ≤ 1
one_owner-change {c} (same e) h = rw e h
one_owner-change {c} (inserted t role n u e) h = rw (e, owner_row-insert t role c.user_roles n) h
one_owner-change {c} (deleted t role n e) h = rw (e, owner_row-delete t role c.user_roles n) h
one_owner-change {c} (established t n u e) h =
    rw
      (
        e,
        count_where-append is_owner_row c.user_roles _,
        any-eq_false_of_count is_owner_row c.user_roles n,
      )
      (omega arith)

-- A call that registers a route checks its user.
dms_refer-upsert :
    (users : List User) (user_id : ℕ) (channel address : String) (rows : List DmRow)
    → is_user users user_id ≡ true
    → All (λ d. is_user users d.user_id ≡ true) rows
    → All (λ d. is_user users d.user_id ≡ true) (upsert_dm user_id channel address rows)
dms_refer-upsert users user_id channel address rows u h =
    keep-if (All (λ d. is_user users d.user_id ≡ true)) (any (is_route user_id channel) rows) _ _
      (All-update _ (is_route user_id channel) _ rows (λ d k. k) h) (All-append _ rows _ h (u, tt))

add_user_dm-dms :
    (c : Conn) (user_id : ℕ) (channel address : String)
    → All (λ d. is_user c.users d.user_id ≡ true) c.user_dms
    → All (λ d. is_user c.users d.user_id ≡ true) (add_user_dm c user_id channel address).1.user_dms
unfolding add_user_dm get_user
add_user_dm-dms c user_id channel address h =
    elim (Bool-cases (is_some (find (λ u. u.id == user_id) c.users))) [
      | inr e ↦ rw e h
      | inl e ↦ rw e (
          dms_refer-upsert c.users user_id channel address c.user_dms
            (rw (← any-find (λ u. u.id == user_id) c.users) e) h)
    ]

after-dms :
    (ids : RowIds) (c : Conn) (call : Call)
    → All (λ d. is_user c.users d.user_id ≡ true) c.user_dms
    → All (λ d. is_user c.users d.user_id ≡ true) (after ids c call).user_dms
unfolding after
after-dms ids c (adds_dm user_id channel address) h = add_user_dm-dms c user_id channel address h
after-dms ids c (creates handle name) h =
    let e : (create_user ids c handle name).1.user_dms ≡ c.user_dms =
      unfold create_user in ground arith in
    rw e h
after-dms ids c (bootstraps handle name) h =
    let e : (bootstrap_owner ids c handle name).1.user_dms ≡ c.user_dms =
      unfold bootstrap_owner in ground arith in
    rw e h
after-dms ids c (grants actor target role) h =
    let e : (grant_role c actor target role).1.user_dms ≡ c.user_dms =
      unfold grant_role in ground arith in
    rw e h
after-dms ids c (revokes actor target role) h =
    let e : (revoke_role c actor target role).1.user_dms ≡ c.user_dms =
      unfold revoke_role in ground arith in
    rw e h
after-dms ids c (captures actor scope body class) h =
    let e : (capture_as ids c actor scope body class).1.user_dms ≡ c.user_dms =
      unfold capture_as in ground arith in
    rw e h
after-dms ids c (deactivates actor id) h =
    let e : (deactivate c actor id).1.user_dms ≡ c.user_dms = unfold deactivate in ground arith in
    rw e h

after-IsSound : (ids : RowIds) (c : Conn) (call : Call) → IsSound c → IsSound (after ids c call)
after-IsSound ids c call h =
    let change = after-RolesChange ids c call in
    let (added, e) = after-users ids c call in
    let grows : (n : ℕ) → is_user c.users n ≡ true → is_user (after ids c call).users n ≡ true =
      λ n k. rw e (is_user-append c.users added n k) in
    record {
      one_owner = one_owner-change change h.one_owner;
      roles_refer = roles_refer-change change grows h.roles_refer;
      dms_refer =
          All-map _ _ (after ids c call).user_dms (λ d. grows d.user_id)
            (after-dms ids c call h.dms_refer);
    }

-- In every database that calls reach from the migrated one, in whatever order and by whomever, there
-- is at most one owner row, and every role row and DM row names a user of the table.
pub run-IsSound : (ids : RowIds) (calls : List Call) → IsSound (run ids empty calls)
run-IsSound ids calls =
    run_induction IsSound ids (after-IsSound ids) empty calls
      (record { one_owner = omega arith; roles_refer = tt; dms_refer = tt })

no_orphans :
    {A : Type 0} (owner_of : A → ℕ) (c : Conn) (rows : List A)
    → All (λ r. is_user c.users (owner_of r) ≡ true) rows
    → count_where (λ r. is_orphan c (owner_of r)) rows ≡ 0
no_orphans owner_of c [] h = refl
no_orphans owner_of c (r ∷ rows) h = ground (arith, no_orphans owner_of c rows h.1)

-- So the readiness check of the references passes there.
pub references_intact-run :
    (ids : RowIds) (calls : List Call) → references_intact (run ids empty calls) ≡ pass
unfolding references_intact
references_intact-run ids calls =
    let sound = run-IsSound ids calls in
    let c = run ids empty calls in
    rw
      (
        no_orphans (λ (r : RoleRow). r.user_id) c c.user_roles sound.roles_refer,
        no_orphans (λ (d : DmRow). d.user_id) c c.user_dms sound.dms_refer,
      )
      refl
