-- ===== src/Permissions/Store.antt =====
-- crates/assistant-permissions/src/store.rs: each function takes the tables and returns its result
-- with the tables that it leaves. A transaction that is dropped leaves the tables as they were.
use assistant_platform.Base.{
  ℕ, String, Bool, not, ◌&&◌, ◌||◌, Option, none, some, List, [], ◌∷◌, ◌++◌, map, str_eq,
  if◌then◌else◌, ltb, ◌==◌, Result, ok, err, select, find, count_where, any, delete, order_desc,
  update, RowIds, is_some,
}
use assistant_platform.Permissions.Model.{
  Role, owner, as_str, parse, rank, role_eq, User, PermissionError, sqlite, constraint_violation,
  not_authorized, owner_already_exists, unknown_user, RoleRow, DmRow, Conn,
}

abbrev pub Return : Type 0 → Type 0
Return A = Result PermissionError A × Conn

-- INSERT INTO users: the handle is UNIQUE.
unfoldable pub create_user : RowIds → Conn → String → Option String → Return ℕ
create_user ids c handle display_name =
    let id = ids.next (map (λ u. u.id) c.users) in
    if any (λ u. str_eq u.handle handle) c.users then (err (sqlite constraint_violation), c) else (
      ok id,
      record c {
        users = c.users ++ record { id = id; handle = handle; display_name = display_name } ∷ [];
      },
    )

unfoldable pub get_user : Conn → ℕ → Option User
get_user c user_id = find (λ u. u.id == user_id) c.users

unfoldable pub find_user_by_handle : Conn → String → Option User
find_user_by_handle c handle = find (λ u. str_eq u.handle handle) c.users

abbrev pub parsed_roles : List RoleRow → List Role
parsed_roles [] = []
parsed_roles (r ∷ rs) =
    let rest = parsed_roles rs in elim (parse r.role) [ some role ↦ role ∷ rest | none ↦ rest ]

-- `sort_unstable_by` with equal elements that are the same value: any sort gives this list.
unfoldable pub roles_of : Conn → ℕ → List Role
roles_of c user_id =
    order_desc rank (parsed_roles (select (λ r. r.user_id == user_id) c.user_roles))

-- The WHERE clause on the key (user_id, role) of `user_roles`.
abbrev pub is_row : ℕ → Role → RoleRow → Bool
is_row user_id role r = r.user_id == user_id && str_eq r.role (as_str role)

unfoldable pub has_role : Conn → ℕ → Role → Bool
has_role c user_id role = ltb 0 (count_where (is_row user_id role) c.user_roles)

-- role IN ('owner', 'admin')
abbrev pub is_admin_text : String → Bool
is_admin_text s = str_eq s "owner" || str_eq s "admin"

unfoldable pub is_administrative : Conn → ℕ → Bool
is_administrative c user_id =
    ltb 0 (count_where (λ r. r.user_id == user_id && is_admin_text r.role) c.user_roles)

abbrev pub is_owner_row : RoleRow → Bool
is_owner_row r = str_eq r.role "owner"

unfoldable pub owner_exists : Conn → Bool
owner_exists c = ltb 0 (count_where is_owner_row c.user_roles)

-- The two INSERTs of `bootstrap_owner`. The handle is UNIQUE; the role row's key is new, since its
-- user id is, or the whole transaction is dropped.
unfoldable pub bootstrap_owner : RowIds → Conn → String → Option String → Return ℕ
bootstrap_owner ids c handle display_name =
    let id = ids.next (map (λ u. u.id) c.users) in
    if owner_exists c
    then (err owner_already_exists, c)
    else if any (λ u. str_eq u.handle handle) c.users
    then (err (sqlite constraint_violation), c)
    else if any (is_row id owner) c.user_roles
    then (err (sqlite constraint_violation), c)
    else (
      ok id,
      record c {
        users = c.users ++ record { id = id; handle = handle; display_name = display_name } ∷ [];
        user_roles = c.user_roles ++ record { user_id = id; role = "owner" } ∷ [];
      },
    )

-- INSERT OR IGNORE INTO user_roles: a row with the same key stays as it is.
abbrev pub insert_role : ℕ → Role → List RoleRow → List RoleRow
insert_role target role rows =
    if any (is_row target role) rows
    then rows
    else rows ++ record { user_id = target; role = as_str role } ∷ []

unfoldable pub grant_role : Conn → ℕ → ℕ → Role → Return (Unit {0})
grant_role c actor target role =
    if not (is_administrative c actor)
    then (err (not_authorized actor), c)
    else if role_eq role owner
    then (err (not_authorized actor), c)
    else if not (is_some (get_user c target))
    then (err (unknown_user target), c)
    else (ok tt, record c { user_roles = insert_role target role c.user_roles })

unfoldable pub revoke_role : Conn → ℕ → ℕ → Role → Return (Unit {0})
revoke_role c actor target role =
    if not (is_administrative c actor)
    then (err (not_authorized actor), c)
    else if role_eq role owner
    then (err (not_authorized actor), c)
    else (ok tt, record c { user_roles = delete (is_row target role) c.user_roles })

-- The key (user_id, channel) of `user_dms`.
abbrev pub is_route : ℕ → String → DmRow → Bool
is_route user_id channel d = d.user_id == user_id && str_eq d.channel channel

-- INSERT … ON CONFLICT(user_id, channel) DO UPDATE SET address
abbrev pub upsert_dm : ℕ → String → String → List DmRow → List DmRow
upsert_dm user_id channel address rows =
    if any (is_route user_id channel) rows
    then update (is_route user_id channel) (λ d. record d { address = address }) rows
    else rows ++ record { user_id = user_id; channel = channel; address = address } ∷ []

unfoldable pub add_user_dm : Conn → ℕ → String → String → Return (Unit {0})
add_user_dm c user_id channel address =
    if not (is_some (get_user c user_id))
    then (err (unknown_user user_id), c)
    else (ok tt, record c { user_dms = upsert_dm user_id channel address c.user_dms })

abbrev pub is_address : String → String → DmRow → Bool
is_address channel address d = str_eq d.channel channel && str_eq d.address address

-- The first row, as `query_row` reads it; nothing makes an address unique.
unfoldable pub resolve_user_by_dm : Conn → String → String → Option ℕ
resolve_user_by_dm c channel address = elim (find (is_address channel address) c.user_dms) [
  | none ↦ none
  | some d ↦ some d.user_id
]
