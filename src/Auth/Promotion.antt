-- ===== src/Auth/Promotion.antt =====
-- What `UpdateUserRole` of auth/repository/postgres.go promises.
use senior_project.Common.{
  ℕ, sym, ap, inl, inr, ◌∙◌, ◌≡◌, Bool, true, ◌&&◌, ◌||◌, ◌∷◌, arith, count_where, update_where,
  delete_where, ◌∙◌,
}
use senior_project.Errors.{is_ok, Result-cases}
use senior_project.Tables.{Role, RoleStatus, UserRow}
use senior_project.Sql.{Session, statement, with_tx}
use senior_project.Sql.Laws.{statement-db, with_tx_rule}
use mathlib.Core.Path.{subst}
use senior_project.Ticketing.Statements.{is_user}
use senior_project.Auth.Tokens.{live_of, revoked, revoke_tokens_by_user_id}
use senior_project.Auth.Sessions.{revoke-ok, count-revoked}
use senior_project.Auth.Users.{
  same_role, roles_of, grant, drop_roles, insert_role, sync_user_roles_in_tx, update_role_body,
  with_user_role, update_user_role, merge_role_rows,
}
use senior_project.Auth.RoleRows.{granted_rows, synced, HasRoles, synced-HasRoles}

grant-ok :
    (user : ℕ) (r : Role) (s : Session)
    → is_ok (grant user r s).0 ≡ true
    → ((grant user r s).1.db.user_roles ≡ granted_rows user r s.db.user_roles)
      × ((grant user r s).1.db.refresh_tokens ≡ s.db.refresh_tokens)
unfolding grant
grant-ok user r s h = ground (arith, statement-db s)

drop-ok :
    (user : ℕ) (which : Role → Bool) (s : Session)
    → is_ok (drop_roles user which s).0 ≡ true
    → ((drop_roles user which s).1.db.user_roles
        ≡ delete_where (λ x. roles_of user x && which x.role) s.db.user_roles)
      × ((drop_roles user which s).1.db.refresh_tokens ≡ s.db.refresh_tokens)
unfolding drop_roles
drop-ok user which s h = ground (arith, statement-db s)

insert-ok :
    (user : ℕ) (r : Role) (s : Session)
    → is_ok (insert_role user r s).0 ≡ true
    → ((insert_role user r s).1.db.user_roles
        ≡ record { user_id = user; role = r; status = RoleStatus.active } ∷ s.db.user_roles)
      × ((insert_role user r s).1.db.refresh_tokens ≡ s.db.refresh_tokens)
unfolding insert_role
insert-ok user r s h = ground (arith, statement-db s)

pub sync-ok :
    (user : ℕ) (role : Role) (s : Session)
    → is_ok (sync_user_roles_in_tx user role s).0 ≡ true
    → ((sync_user_roles_in_tx user role s).1.db.user_roles ≡ synced user role s.db.user_roles)
      × ((sync_user_roles_in_tx user role s).1.db.refresh_tokens ≡ s.db.refresh_tokens)
unfolding sync_user_roles_in_tx
sync-ok user Role.student s h =
    let which : Role → Bool = λ r. same_role r Role.organizer || same_role r Role.admin in
    let s1 = (drop_roles user which s).1 in
    ground (arith, drop-ok user which s, grant-ok user Role.student s1)
sync-ok user Role.organizer s h =
    let which : Role → Bool = λ r. same_role r Role.admin in
    let s1 = (drop_roles user which s).1 in
    let s2 = (grant user Role.student s1).1 in
    ground
      (arith, drop-ok user which s, grant-ok user Role.student s1, grant-ok user Role.organizer s2)
sync-ok user Role.admin s h =
    let which : Role → Bool = λ r. true in
    let s1 = (drop_roles user which s).1 in
    ground (arith, drop-ok user which s, insert-ok user Role.admin s1)

update_role_body-ok :
    (user : ℕ) (role : Role) (db_now : ℕ) (s : Session)
    → is_ok (update_role_body user role db_now s).0 ≡ true
    → ((update_role_body user role db_now s).1.db.user_roles ≡ synced user role s.db.user_roles)
      × ((update_role_body user role db_now s).1.db.refresh_tokens ≡ s.db.refresh_tokens)
unfolding update_role_body
update_role_body-ok user role db_now s h =
    let s1 : Session = record (statement s).1 {
      db = record (statement s).1.db {
        users = update_where (is_user user) (with_user_role role db_now) (statement s).1.db.users;
      };
    } in
    ground (arith, statement-db s, sync-ok user role s1)

in_transaction :
    (user : ℕ) (role : Role) (db_now : ℕ) (s : Session)
    → is_ok (with_tx (update_role_body user role db_now) s).0 ≡ true
    → ((with_tx (update_role_body user role db_now) s).1.db.user_roles
        ≡ synced user role s.db.user_roles)
      × ((with_tx (update_role_body user role db_now) s).1.db.refresh_tokens ≡ s.db.refresh_tokens)
in_transaction user role db_now s =
    with_tx_rule
      (λ r db.
        is_ok r ≡ true
        → (db.user_roles ≡ synced user role s.db.user_roles)
          × (db.refresh_tokens ≡ s.db.refresh_tokens))
      (update_role_body user role db_now) s (λ e h. cc)
      (λ begun same h _.
        subst
          (λ db.
            ((update_role_body user role db_now begun).1.db.user_roles
              ≡ synced user role db.user_roles)
            × ((update_role_body user role db_now begun).1.db.refresh_tokens ≡ db.refresh_tokens))
          same (update_role_body-ok user role db_now begun h))

merge-db : (u : UserRow) (s : Session) → (merge_role_rows u s).1.db ≡ s.db
unfolding merge_role_rows
merge-db u s = ground (arith, statement-db s)

revoke-roles :
    (user db_now : ℕ) (s : Session)
    → (revoke_tokens_by_user_id user db_now s).1.db.user_roles ≡ s.db.user_roles
unfolding revoke_tokens_by_user_id
revoke-roles user db_now s = ground (arith, statement-db s)

update_user_role-ok :
    (user : ℕ) (role : Role) (db_now : ℕ) (s : Session)
    → is_ok (update_user_role user role db_now s).0 ≡ true
    → ((update_user_role user role db_now s).1.db.user_roles ≡ synced user role s.db.user_roles)
      × ((update_user_role user role db_now s).1.db.refresh_tokens
          ≡ update_where (live_of user) (revoked db_now) s.db.refresh_tokens)
unfolding update_user_role
update_user_role-ok user role db_now s h =
    let s1 = (revoke_tokens_by_user_id user db_now s).1 in
    let done = with_tx (update_role_body user role db_now) s1 in
    elim (Result-cases done.0) [
      | inl e ↦ absurd (ground (arith, h, e))
      | inr (u, e) ↦ ground (
        arith,
        h,
        e,
        in_transaction user role db_now s1,
        merge-db u done.1,
        revoke-ok user db_now s,
        revoke-roles user db_now s,
      )
    ]

-- A role change that is answered, whatever fails around it, leaves the user no refresh token that is
-- not revoked, no pending role, and as active roles exactly those of the new role: student; student
-- and organizer; or admin alone.
pub update_user_role-HasRoles :
    (user : ℕ) (role : Role) (db_now : ℕ) (s : Session)
    → is_ok (update_user_role user role db_now s).0 ≡ true
    → HasRoles user role (update_user_role user role db_now s).1.db.user_roles
      × (count_where (live_of user) (update_user_role user role db_now s).1.db.refresh_tokens ≡ 0)
update_user_role-HasRoles user role db_now s h =
    let (roles, tokens) = update_user_role-ok user role db_now s h in
    (
      subst (HasRoles user role) (sym roles) (synced-HasRoles user role s.db.user_roles),
      ap (count_where (live_of user)) tokens
          ∙ count-revoked (live_of user) db_now (live_of user) s.db.refresh_tokens (λ x e. e)
              (λ x. ground arith),
    )
