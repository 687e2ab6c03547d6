-- ===== src/Auth/Register/Laws.antt =====
-- Who gets an account.
use Prim.Native.String.{len}
use senior_project.Common.{
  refl, false, not, ltb, ◌&&◌, ◌⊎◌, Bool-cases, ℕ, ◌+◌, ◌≤◌, String, Bool, true, ◌≡◌, Option, ◌∷◌,
  arith, count_where, inl, inr,
}
use mathlib.Core.Path.{subst}
use senior_project.Errors.{Result, ok, is_ok, Result-cases}
use senior_project.Tables.{Database, Role, RoleStatus, UserRow}
use senior_project.Sql.{Session, statement, with_tx}
use senior_project.Sql.Laws.{statement-db, with_tx_rule}
use senior_project.Auth.Tokens.{insert_refresh_token}
use senior_project.Auth.Users.{
  User, create_user, create_user_body, new_user, email_is, merge_role_rows,
}
use senior_project.Auth.Jwt.{Claims, Jwt}
use senior_project.Auth.Service.{lifted, sign_access, sign_refresh}
use senior_project.Auth.Register.{register, in_domain}

-- The tables after a new account.
abbrev pub with_account : UserRow → Database → Database
with_account u db = record db {
  users = u ∷ db.users;
  user_roles = record { user_id = u.id; role = u.role; status = RoleStatus.active } ∷ db.user_roles;
}

module _ (id : ℕ) (email password_hash : String) (role : Role) (db_now : ℕ) where
  create_user_body-ok :
      (s : Session)
      → is_ok (create_user_body id email password_hash role db_now s).0 ≡ true
      → ((create_user_body id email password_hash role db_now s).0
          ≡ ok (new_user id email password_hash role db_now))
        × (count_where (email_is email) s.db.users ≡ 0)
        × ((create_user_body id email password_hash role db_now s).1.db
            ≡ with_account (new_user id email password_hash role db_now) s.db)
  unfolding create_user_body
  create_user_body-ok s h =
      let s1 = (statement s).1 in
      let u = new_user id email password_hash role db_now in
      let s2 : Session = record s1 { db = record s1.db { users = u ∷ s1.db.users } } in
      (
        ground (arith, h),
        ground (arith, h, statement-db s),
        ground (arith, h, statement-db s, statement-db s2),
      )

  merge-row :
      (u : UserRow) (s : Session)
      → ((merge_role_rows u s).1.db ≡ s.db)
        × ((v : User) → (merge_role_rows u s).0 ≡ ok v → v.row ≡ u)
  unfolding merge_role_rows
  merge-row u s = (ground (arith, statement-db s), λ v h. ground (arith, h))

  -- However a new user's transaction and the reading of their roles end, there is no new account and no
  -- answer, or the account is there.
  create_user-either :
      (s : Session)
      → ((is_ok (create_user id email password_hash role db_now s).0 ≡ false)
          × ((create_user id email password_hash role db_now s).1.db ≡ s.db))
        ⊎ ((count_where (email_is email) s.db.users ≡ 0)
            × ((create_user id email password_hash role db_now s).1.db
                ≡ with_account (new_user id email password_hash role db_now) s.db))
  unfolding create_user
  create_user-either s =
      let body = create_user_body id email password_hash role db_now in
      let u = new_user id email password_hash role db_now in
      let made =
        with_tx_rule
          (λ r db.
            ((is_ok r ≡ false) × (db ≡ s.db))
            ⊎ ((r ≡ ok u)
                × (count_where (email_is email) s.db.users ≡ 0)
                × (db ≡ with_account u s.db)))
          body s (λ e. inl (refl, refl))
          (λ begun same h. inr (
            subst
              (λ db.
                ((body begun).0 ≡ ok u)
                × (count_where (email_is email) db.users ≡ 0)
                × ((body begun).1.db ≡ with_account u db))
              same (create_user_body-ok begun h))) in
      elim made [
        | inl (failed, kept) ↦ inl (ground (arith, failed), ground (arith, failed, kept))
        | inr (is, unused, wrote) ↦
            let (kept, row) = merge-row u (with_tx body s).1 in
            inr (unused, ground (arith, is, kept, wrote))
      ]

module _ (is_address : String → Bool) (hash : String → Result String) (domain : String) where
  -- A new account: its email is an address of the university's domain that no account had, its password
  -- has at least 8 bytes, and it is one row, with the hash of the password and the role of a student, and
  -- one row of that role, active.
  pub record IsStudent (email password : String) (id db_now : ℕ) (before after : Database)
      : Type 0 where
    pub address : is_address email ≡ true
    pub of_domain : in_domain domain email ≡ true
    pub long_enough : 8 ≤ len password
    pub unused : count_where (email_is email) before.users ≡ 0
    pub password_hash : String
    pub hashed : hash password ≡ ok password_hash
    pub row : after.users ≡ new_user id email password_hash Role.student db_now ∷ before.users
    pub roles :
        after.user_roles
        ≡ record { user_id = id; role = Role.student; status = RoleStatus.active }
          ∷ before.user_roles

module _ (parse : String → String → Option Claims) (sign : String → Claims → Result String)
    (compare_hash : String → String → Bool) (uuid_text : ℕ → String)
    (parse_uuid : String → Option ℕ) (j : Jwt) (is_address : String → Bool)
    (hash : String → Result String) (domain : String) where
  insert-users :
      (jti user expires : ℕ) (s : Session)
      → ((insert_refresh_token jti user expires s).1.db.users ≡ s.db.users)
        × ((insert_refresh_token jti user expires s).1.db.user_roles ≡ s.db.user_roles)
  unfolding insert_refresh_token
  insert-users jti user expires s = ground (arith, statement-db s)

  -- Registration, however it ends and whatever fails around it: either it is answered with an error and
  -- neither the users nor their roles change, or there is one new account: its email is an address of
  -- the university's domain that no account had, its password has at least 8 bytes, and it is one row,
  -- with the hash of the password, and one active row of the role of a student. So this holds too of an
  -- account that was stored before a later step failed.
  pub register-IsStudent :
      (email password : String) (id jti now db_now : ℕ) (s : Session)
      → let answer =
          register parse sign compare_hash uuid_text parse_uuid j is_address hash domain email
            password id jti now db_now s in
        ((is_ok answer.0 ≡ false)
          × (answer.1.db.users ≡ s.db.users)
          × (answer.1.db.user_roles ≡ s.db.user_roles))
        ⊎ IsStudent is_address hash domain email password id db_now s.db answer.1.db
  unfolding register lifted sign_access sign_refresh
  register-IsStudent email password id jti now db_now s =
      elim (Bool-cases
        (is_address email && (in_domain domain email && not (ltb (len password) 8)))) [
          | inr bad ↦ inl (ground (arith, bad), ground (arith, bad), ground (arith, bad))
          | inl good ↦ elim (Result-cases (hash password)) [
            | inl a ↦
                inl (ground (arith, good, a), ground (arith, good, a), ground (arith, good, a))
            | inr (secret, a) ↦
                let s1 = (create_user id email secret Role.student db_now s).1 in
                elim (Result-cases (create_user id email secret Role.student db_now s).0) [
                  | inl b ↦ elim (create_user-either id email secret Role.student db_now s) [
                    | inl (failed, kept) ↦ inl (
                      ground (arith, good, a, b),
                      ground (arith, good, a, b, kept),
                      ground (arith, good, a, b, kept),
                    )
                    | inr (unused, wrote) ↦ inr (record {
                      address = ground (arith, good);
                      of_domain = ground (arith, good);
                      long_enough = ground (arith, good);
                      unused = unused;
                      password_hash = secret;
                      hashed = a;
                      row = ground (arith, good, a, b, wrote);
                      roles = ground (arith, good, a, b, wrote);
                    })
                  ]
                  | inr (u, b) ↦
                      let kept = insert-users jti u.row.id (now + j.refresh_ttl) s1 in
                      elim (create_user-either id email secret Role.student db_now s) [
                        | inl (failed, same) ↦ absurd (ground (arith, b, failed))
                        | inr (unused, wrote) ↦ inr (record {
                          address = ground (arith, good);
                          of_domain = ground (arith, good);
                          long_enough = ground (arith, good);
                          unused = unused;
                          password_hash = secret;
                          hashed = a;
                          row = ground (arith, good, a, b, wrote, kept);
                          roles = ground (arith, good, a, b, wrote, kept);
                        })
                      ]
                ]
          ]
        ]
