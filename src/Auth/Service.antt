-- ===== src/Auth/Service.antt =====
-- auth/service/service.go: `Login`, `Refresh` and `RequestOrganizerRole`. The texts come without
-- the white space around them and the email in lower case, which is how the methods begin.
use senior_project.Common.{
  ⊤, ℕ, ◌+◌, String, Bool, false, not, if◌then◌else◌, Option, List, [], ◌∷◌, str_eq,
}
use senior_project.Errors.{
  Result, ok, err, refresh_token_invalid, refresh_token_consumed, invalid_credentials,
  user_not_found, organizer_request_invalid_body, organizer_request_not_allowed,
  organizer_already_active,
}
use senior_project.Tables.{Role}
use senior_project.Sql.{Session, Action, pure, or_raise, ◌>>=◌, ◌>>◌, raise_if}
use senior_project.Auth.Tokens.{insert_refresh_token, rotate_refresh_token, consume_refresh_token}
use senior_project.Auth.Users.{
  User, get_user_by_email, get_user_by_id, ensure_organizer_role_pending,
}
use senior_project.Auth.Roles.{member, roles_equal, effective_roles_from_claims}
use senior_project.Auth.Jwt.{Claims, Jwt, parse_refresh_token, access_claims, refresh_claims}

-- What a login or a refresh answers: the user, the access token and the refresh token.
abbrev pub Signed : Type 0
Signed = User × (String × String)

-- An error of one sentinel becomes another, the others pass.
unfoldable pub hide_missing : {A : Type 0} → Result A × Session → Result A × Session
hide_missing (err user_not_found, s) = (err invalid_credentials, s)
hide_missing (err e, s) = (err e, s)
hide_missing (ok a, s) = (ok a, s)

-- Every error becomes `ErrRefreshTokenInvalid`.
unfoldable pub or_invalid : {A : Type 0} → Result A × Session → Result A × Session
or_invalid (err e, s) = (err refresh_token_invalid, s)
or_invalid (ok a, s) = (ok a, s)

-- A call that touches no table.
unfoldable pub lifted : {A : Type 0} → Result A → Action A
lifted r s = (r, s)

-- The libraries: `parse` and `sign` are the JWT library's, with the secret; `compare_hash` is
-- bcrypt's; `uuid_text` and `parse_uuid` are the uuid library's.
module _ (parse : String → String → Option Claims) (sign : String → Claims → Result String)
    (compare_hash : String → String → Bool) (uuid_text : ℕ → String)
    (parse_uuid : String → Option ℕ) (j : Jwt) where
  unfoldable pub sign_access : User → ℕ → Action String
  unfolding lifted access_claims
  sign_access u now =
      lifted
        (sign j.access_secret (access_claims uuid_text j u.row.id u.active_roles u.row.role now))

  unfoldable pub sign_refresh : User → ℕ → ℕ → Action String
  unfolding lifted refresh_claims
  sign_refresh u jti now = lifted (
      sign j.refresh_secret (refresh_claims uuid_text j u.row.id u.active_roles u.row.role jti now))

  -- `jti` is the new uuid; `now` is the clock of the tokens, `db_now` is NOW().
  unfoldable pub login : String → String → ℕ → ℕ → ℕ → Action Signed
  unfolding hide_missing get_user_by_email sign_access sign_refresh rotate_refresh_token
  login email password jti now db_now = do
    u ← (λ s. hide_missing (get_user_by_email email s))
    raise_if (not (compare_hash u.row.password_hash password)) invalid_credentials
    access ← sign_access u now
    refresh ← sign_refresh u jti now
    rotate_refresh_token u.row.id jti (now + j.refresh_ttl) db_now
    pure (u, (access, refresh))

  -- From the user of the claims on: the roles, the token's use, the new pair.
  unfoldable pub exchange : Claims → List Role → User → ℕ → ℕ → Action Signed
  unfolding consume_refresh_token sign_access sign_refresh insert_refresh_token
  exchange claims token_roles u new_jti now = do
    raise_if (not (roles_equal token_roles u.active_roles)) refresh_token_invalid
    jti ← or_raise (parse_uuid claims.id) refresh_token_invalid
    used ← consume_refresh_token jti u.row.id now
    raise_if (not used) refresh_token_consumed
    access ← sign_access u now
    refresh ← sign_refresh u new_jti now
    insert_refresh_token new_jti u.row.id (now + j.refresh_ttl)
    pure (u, (access, refresh))

  unfoldable pub refresh : String → ℕ → ℕ → Action Signed
  unfolding parse_refresh_token or_invalid get_user_by_id exchange
  refresh text new_jti now = do
    claims ← or_raise (parse_refresh_token parse j text) refresh_token_invalid
    token_roles ←
        or_raise (effective_roles_from_claims claims.roles claims.role) refresh_token_invalid
    user ← or_raise (parse_uuid claims.user_id) refresh_token_invalid
    u ← (λ s. or_invalid (get_user_by_id user s))
    exchange claims token_roles u new_jti now

-- len(requested) != 1 || requested[0] != "organizer"
abbrev pub is_organizer_request : List String → Bool
is_organizer_request (text ∷ []) = str_eq text "organizer"
is_organizer_request _ = false

unfoldable pub request_organizer_role : ℕ → List String → Action ⊤
unfolding get_user_by_id ensure_organizer_role_pending
request_organizer_role user requested = do
  raise_if (not (is_organizer_request requested)) organizer_request_invalid_body
  u ← get_user_by_id user
  raise_if (not (member Role.student u.active_roles)) organizer_request_not_allowed
  raise_if (member Role.organizer u.active_roles) organizer_already_active
  let asked = ensure_organizer_role_pending user
  if member Role.organizer u.pending_roles then pure tt else asked
