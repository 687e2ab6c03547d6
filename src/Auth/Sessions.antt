-- ===== src/Auth/Sessions.antt =====
-- The life of a refresh token: at most one use, and one live token after a login.
use senior_project.Common.{
  ℕ, ◌≤◌, ◌≡◌, refl, Bool, true, false, not, ◌==◌, none, some, List, [], ◌∷◌, arith, count_where,
  update_where, first_where, count_where-update_where,
}
use senior_project.Errors.{ok, is_ok}
use senior_project.Tables.{RefreshToken}
use senior_project.Sql.{Session, statement}
use senior_project.Sql.Laws.{statement-db, with_tx_rule}
use senior_project.Auth.Tokens.{
  token_is, live_of, consumable, revoked, consume_refresh_token, revoke_tokens_by_user_id,
  insert_refresh_token, rotate_body, rotate_refresh_token,
}

-- A row that the WHERE of a consumption or of a revocation reached is not reached again.
pub count-revoked :
    (p : RefreshToken → Bool) (at : ℕ) (q : RefreshToken → Bool) (xs : List RefreshToken)
    → ((x : RefreshToken) → p x ≡ true → q x ≡ true)
    → ((x : RefreshToken) → p (revoked at x) ≡ false)
    → count_where p (update_where q (revoked at) xs) ≡ 0
count-revoked p at q [] h n = refl
count-revoked p at q (x ∷ xs) h n = ground (arith, h x, n x, count-revoked p at q xs h n)

-- A revocation makes no token live.
count-live-revoked :
    (user : ℕ) (at : ℕ) (q : RefreshToken → Bool) (xs : List RefreshToken)
    → count_where (live_of user) (update_where q (revoked at) xs) ≤ count_where (live_of user) xs
count-live-revoked user at q [] = omega arith
count-live-revoked user at q (x ∷ xs) = ground (arith, count-live-revoked user at q xs)

abbrev pub fresh_token : ℕ → ℕ → ℕ → RefreshToken
fresh_token jti user expires_at = record {
  jti = jti;
  user_id = user;
  expires_at = expires_at;
  revoked_at = none;
}

pub revoke-ok :
    (user db_now : ℕ) (s : Session)
    → is_ok (revoke_tokens_by_user_id user db_now s).0 ≡ true
    → (revoke_tokens_by_user_id user db_now s).1.db.refresh_tokens
      ≡ update_where (live_of user) (revoked db_now) s.db.refresh_tokens
unfolding revoke_tokens_by_user_id
revoke-ok user db_now s h = ground (arith, statement-db s)

pub insert-ok :
    (jti user expires_at : ℕ) (s : Session)
    → is_ok (insert_refresh_token jti user expires_at s).0 ≡ true
    → (count_where (token_is jti) s.db.refresh_tokens ≡ 0)
      × ((insert_refresh_token jti user expires_at s).1.db.refresh_tokens
          ≡ fresh_token jti user expires_at ∷ s.db.refresh_tokens)
unfolding insert_refresh_token
insert-ok jti user expires_at s h = ground (arith, statement-db s)

pub consume-ok :
    (jti user now : ℕ) (s : Session)
    → is_ok (consume_refresh_token jti user now s).0 ≡ true
    → ((consume_refresh_token jti user now s).0
        ≡ ok (not (count_where (consumable jti user now) s.db.refresh_tokens == 0)))
      × ((consume_refresh_token jti user now s).1.db.refresh_tokens
          ≡ update_where (consumable jti user now) (revoked now) s.db.refresh_tokens)
unfolding consume_refresh_token
consume-ok jti user now s h = ground (arith, statement-db s)

rotate_body-ok :
    (user jti expires_at db_now : ℕ) (s : Session)
    → is_ok (rotate_body user jti expires_at db_now s).0 ≡ true
    → (rotate_body user jti expires_at db_now s).1.db.refresh_tokens
      ≡ fresh_token jti user expires_at
        ∷ update_where (live_of user) (revoked db_now) s.db.refresh_tokens
unfolding rotate_body
rotate_body-ok user jti expires_at db_now s h =
    let s1 = (statement s).1 in
    let s2 = (revoke_tokens_by_user_id user db_now s1).1 in
    ground (arith, statement-db s, revoke-ok user db_now s1, insert-ok jti user expires_at s2)

-- `RotateRefreshToken`, with which a login ends: when it succeeds, the user has exactly one refresh
-- token that is not revoked, the one it inserted; when it fails, whatever statement failed, the
-- refresh tokens are as they were.
pub rotate_refresh_token-one :
    (user jti expires_at db_now : ℕ) (s : Session)
    → let after = (rotate_refresh_token user jti expires_at db_now s).1.db.refresh_tokens in
      (is_ok (rotate_refresh_token user jti expires_at db_now s).0 ≡ true
        → (count_where (live_of user) after ≡ 1)
          × (first_where (live_of user) after ≡ some (fresh_token jti user expires_at)))
      × (is_ok (rotate_refresh_token user jti expires_at db_now s).0 ≡ false
          → after ≡ s.db.refresh_tokens)
unfolding rotate_refresh_token
rotate_refresh_token-one user jti expires_at db_now s =
    with_tx_rule
      (λ r db.
        (is_ok r ≡ true
          → (count_where (live_of user) db.refresh_tokens ≡ 1)
            × (first_where (live_of user) db.refresh_tokens
                ≡ some (fresh_token jti user expires_at)))
        × (is_ok r ≡ false → db.refresh_tokens ≡ s.db.refresh_tokens))
      (rotate_body user jti expires_at db_now) s (λ e. (λ h. cc, λ h. refl))
      (λ begun same h. (
        λ _. rw (rotate_body-ok user jti expires_at db_now begun h) (
          ground (
            arith,
            count-revoked (live_of user) db_now (live_of user) begun.db.refresh_tokens (λ x h. h)
                (λ x. ground arith),
          ),
          ground arith,
        ),
        λ h'. cc,
      ))

-- `RotateRefreshToken`, whether it succeeds or fails, leaves each other user as many tokens that are
-- not revoked as there were.
pub rotate_refresh_token-others :
    (user jti expires_at db_now : ℕ) (s : Session) (other : ℕ)
    → (other == user) ≡ false
    → count_where
        (live_of other)
        (rotate_refresh_token user jti expires_at db_now s).1.db.refresh_tokens
      ≡ count_where (live_of other) s.db.refresh_tokens
unfolding rotate_refresh_token
rotate_refresh_token-others user jti expires_at db_now s other ne =
    with_tx_rule
      (λ r db.
        count_where (live_of other) db.refresh_tokens
        ≡ count_where (live_of other) s.db.refresh_tokens)
      (rotate_body user jti expires_at db_now) s (λ e. refl)
      (λ begun same h. rw (rotate_body-ok user jti expires_at db_now begun h) (
        rw (← same) (
          ground (
            arith,
            count_where-update_where (live_of other) (live_of user) (revoked db_now)
                begun.db.refresh_tokens (λ x h. ground arith),
          ))))
