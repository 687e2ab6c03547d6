-- ===== src/Auth/Tokens.antt =====
-- auth/repository/postgres.go: the methods on refresh_tokens.
use senior_project.Common.{
  ⊤, ℕ, Bool, true, false, not, ltb, ◌==◌, ◌&&◌, none, some, ◌∷◌, count_where, update_where,
}
use senior_project.Errors.{no_rows, violation}
use senior_project.Tables.{RefreshToken}
use senior_project.Sql.{Action, pure, reading, ◌>>=◌, ◌>>◌, raise_if, writing, statement, with_tx}
use senior_project.Ticketing.Statements.{is_user}

-- `revoked_at IS NULL`
abbrev pub is_unrevoked : RefreshToken → Bool
is_unrevoked t = elim t.revoked_at [ none ↦ true | some at ↦ false ]

abbrev pub token_is : ℕ → RefreshToken → Bool
token_is jti t = t.jti == jti

-- WHERE user_id = $1 AND revoked_at IS NULL
abbrev pub live_of : ℕ → RefreshToken → Bool
live_of user t = t.user_id == user && is_unrevoked t

-- The WHERE of `ConsumeRefreshToken`.
abbrev pub consumable : ℕ → ℕ → ℕ → RefreshToken → Bool
consumable jti user now t =
    token_is jti t && (t.user_id == user && (is_unrevoked t && ltb now t.expires_at))

abbrev pub revoked : ℕ → RefreshToken → RefreshToken
revoked at t = record t { revoked_at = some at }

unfoldable pub revoke_tokens_by_user_id : ℕ → ℕ → Action ⊤
revoke_tokens_by_user_id user db_now = do
  statement
  writing (λ db. record db {
    refresh_tokens = update_where (live_of user) (revoked db_now) db.refresh_tokens;
  })

-- INSERT INTO refresh_tokens, with its primary key and its foreign key.
unfoldable pub insert_refresh_token : ℕ → ℕ → ℕ → Action ⊤
insert_refresh_token jti user expires_at = do
  statement
  same ← reading (λ db. count_where (token_is jti) db.refresh_tokens)
  raise_if (ltb 0 same) (violation "23505")
  owner ← reading (λ db. count_where (is_user user) db.users)
  raise_if (owner == 0) (violation "23503")
  writing (λ db. record db {
    refresh_tokens =
        record { jti = jti; user_id = user; expires_at = expires_at; revoked_at = none }
        ∷ db.refresh_tokens;
  })

-- The body of the transaction of `RotateRefreshToken`.
unfoldable pub rotate_body : ℕ → ℕ → ℕ → ℕ → Action ⊤
unfolding revoke_tokens_by_user_id insert_refresh_token
rotate_body user jti expires_at db_now = do
  statement
  locked ← reading (λ db. count_where (is_user user) db.users)
  raise_if (locked == 0) no_rows
  revoke_tokens_by_user_id user db_now
  insert_refresh_token jti user expires_at

unfoldable pub rotate_refresh_token : ℕ → ℕ → ℕ → ℕ → Action ⊤
unfolding rotate_body
rotate_refresh_token user jti expires_at db_now = with_tx (rotate_body user jti expires_at db_now)

-- UPDATE … RETURNING 1: whether a row was reached.
unfoldable pub consume_refresh_token : ℕ → ℕ → ℕ → Action Bool
consume_refresh_token jti user now = do
  statement
  reached ← reading (λ db. count_where (consumable jti user now) db.refresh_tokens)
  writing (λ db. record db {
    refresh_tokens = update_where (consumable jti user now) (revoked now) db.refresh_tokens;
  })
  pure (not (reached == 0))
