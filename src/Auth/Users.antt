-- ===== src/Auth/Users.antt =====
-- auth/repository/postgres.go: the methods on users and user_roles. The uuid of a new row and the
-- clock are arguments.
use senior_project.Common.{
  ⊤, ℕ, ◌+◌, String, Bool, true, false, not, ltb, ◌==◌, ◌&&◌, ◌||◌, if◌then◌else◌, List, [], ◌∷◌,
  str_eq, select_where, first_where, count_where, update_where, delete_where, map,
}
use senior_project.Errors.{email_already_exists, user_not_found, violation}
use senior_project.Tables.{UserRow, UserRoleRow, Role, RoleStatus}
use senior_project.Sql.{
  Action, pure, reading, or_raise, ◌>>=◌, ◌>>◌, raise_if, writing, statement, with_tx,
}
use senior_project.Ticketing.Statements.{is_user}
use senior_project.Auth.Tokens.{revoke_tokens_by_user_id}

-- `model.User`
pub record User : Type 0 where
  pub row : UserRow
  pub active_roles : List Role
  pub pending_roles : List Role

-- The place of a role's text in the order of texts: admin, organizer, student.
abbrev pub rank : Role → ℕ
rank Role.admin = 0
rank Role.organizer = 1
rank Role.student = 2

abbrev pub same_role : Role → Role → Bool
same_role a b = rank a == rank b

abbrev pub is_active_role : RoleStatus → Bool
is_active_role RoleStatus.active = true
is_active_role RoleStatus.pending = false

abbrev pub email_is : String → UserRow → Bool
email_is email u = str_eq u.email email

abbrev pub roles_of : ℕ → UserRoleRow → Bool
roles_of user r = r.user_id == user

abbrev pub role_row : ℕ → Role → UserRoleRow → Bool
role_row user role r = r.user_id == user && same_role r.role role

abbrev pub has_status : ℕ → Bool → UserRoleRow → Bool
has_status user active r =
    roles_of user r && (if active then is_active_role r.status else not (is_active_role r.status))

abbrev pub roles_where : (UserRoleRow → Bool) → List UserRoleRow → List Role
roles_where p rows = map (λ r. r.role) (select_where p rows)

-- Without an active row the column users.role stands in.
abbrev pub or_legacy : Role → List Role → List Role
or_legacy legacy [] = legacy ∷ []
or_legacy legacy (r ∷ rs) = r ∷ rs

abbrev pub merged : UserRow → List UserRoleRow → User
merged u rows = record {
  row = u;
  active_roles = or_legacy u.role (roles_where (has_status u.id true) rows);
  pending_roles = roles_where (has_status u.id false) rows;
}

unfoldable pub merge_role_rows : UserRow → Action User
merge_role_rows u = do statement; reading (λ db. merged u db.user_roles)

abbrev pub new_user : ℕ → String → String → Role → ℕ → UserRow
new_user id email password_hash role db_now = record {
  id = id;
  email = email;
  password_hash = password_hash;
  role = role;
  created_at = db_now;
  updated_at = db_now;
}

unfoldable pub create_user_body : ℕ → String → String → Role → ℕ → Action UserRow
create_user_body id email password_hash role db_now = do
  statement
  same ← reading (λ db. count_where (is_user id) db.users + count_where (email_is email) db.users)
  raise_if (ltb 0 same) email_already_exists
  writing (λ db. record db { users = new_user id email password_hash role db_now ∷ db.users })
  statement
  held ← reading (λ db. count_where (role_row id role) db.user_roles)
  raise_if (ltb 0 held) (violation "23505")
  writing (λ db. record db {
    user_roles = record { user_id = id; role = role; status = RoleStatus.active } ∷ db.user_roles;
  })
  pure (new_user id email password_hash role db_now)

unfoldable pub create_user : ℕ → String → String → Role → ℕ → Action User
unfolding create_user_body merge_role_rows
create_user id email password_hash role db_now = do
  u ← with_tx (create_user_body id email password_hash role db_now)
  merge_role_rows u

unfoldable pub get_user_by_email : String → Action User
unfolding merge_role_rows
get_user_by_email email = do
  statement
  row ← reading (λ db. first_where (email_is email) db.users)
  u ← or_raise row user_not_found
  merge_role_rows u

unfoldable pub get_user_by_id : ℕ → Action User
unfolding merge_role_rows
get_user_by_id id = do
  statement
  row ← reading (λ db. first_where (is_user id) db.users)
  u ← or_raise row user_not_found
  merge_role_rows u

abbrev pub with_role_status : RoleStatus → UserRoleRow → UserRoleRow
with_role_status st r = record r { status = st }

-- INSERT … ON CONFLICT (user_id, role) DO UPDATE SET status = f(the old status).
abbrev pub upserted :
    ℕ → Role → RoleStatus → (UserRoleRow → UserRoleRow) → List UserRoleRow → List UserRoleRow
upserted user role st f rows =
    if count_where (role_row user role) rows == 0
    then record { user_id = user; role = role; status = st } ∷ rows
    else update_where (role_row user role) f rows

-- Each Exec of `syncUserRolesInTx`.
unfoldable pub grant : ℕ → Role → Action ⊤
grant user role = do
  statement
  writing (λ db. record db {
    user_roles =
        upserted user role RoleStatus.active (with_role_status RoleStatus.active) db.user_roles;
  })

unfoldable pub drop_roles : ℕ → (Role → Bool) → Action ⊤
drop_roles user which = do
  statement
  writing (λ db. record db {
    user_roles = delete_where (λ r. roles_of user r && which r.role) db.user_roles;
  })

-- The admin's row is a plain INSERT: no row of the user is left that it could meet.
unfoldable pub insert_role : ℕ → Role → Action ⊤
insert_role user role = do
  statement
  held ← reading (λ db. count_where (role_row user role) db.user_roles)
  raise_if (ltb 0 held) (violation "23505")
  writing (λ db. record db {
    user_roles = record { user_id = user; role = role; status = RoleStatus.active } ∷ db.user_roles;
  })

unfoldable pub sync_user_roles_in_tx : ℕ → Role → Action ⊤
unfolding grant drop_roles insert_role
sync_user_roles_in_tx user Role.student = do
  drop_roles user (λ r. same_role r Role.organizer || same_role r Role.admin)
  grant user Role.student
sync_user_roles_in_tx user Role.organizer = do
  drop_roles user (λ r. same_role r Role.admin)
  grant user Role.student
  grant user Role.organizer
sync_user_roles_in_tx user Role.admin = do drop_roles user (λ r. true); insert_role user Role.admin

abbrev pub with_user_role : Role → ℕ → UserRow → UserRow
with_user_role role db_now u = record u { role = role; updated_at = db_now }

unfoldable pub update_role_body : ℕ → Role → ℕ → Action UserRow
unfolding sync_user_roles_in_tx
update_role_body id role db_now = do
  statement
  row ← reading (λ db. first_where (is_user id) db.users)
  u ← or_raise row user_not_found
  writing
      (λ db. record db { users = update_where (is_user id) (with_user_role role db_now) db.users })
  sync_user_roles_in_tx id role
  pure (with_user_role role db_now u)

-- The tokens are revoked before the transaction begins, and stay revoked when it fails.
unfoldable pub update_user_role : ℕ → Role → ℕ → Action User
unfolding update_role_body merge_role_rows revoke_tokens_by_user_id
update_user_role id role db_now = do
  revoke_tokens_by_user_id id db_now
  u ← with_tx (update_role_body id role db_now)
  merge_role_rows u

abbrev pub kept_if_active : UserRoleRow → UserRoleRow
kept_if_active r = record r {
  status = if is_active_role r.status then r.status else RoleStatus.pending;
}

unfoldable pub ensure_organizer_role_pending : ℕ → Action ⊤
ensure_organizer_role_pending user = do
  statement
  owner ← reading (λ db. count_where (is_user user) db.users)
  raise_if (owner == 0) (violation "23503")
  writing (λ db. record db {
    user_roles = upserted user Role.organizer RoleStatus.pending kept_if_active db.user_roles;
  })
