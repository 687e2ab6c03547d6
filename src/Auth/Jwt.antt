-- ===== src/Auth/Jwt.antt =====
-- internal/infra/auth/jwt.go: the checks of `ParseAccessToken` and `ParseRefreshToken` around the
-- JWT library. What the library and the uuid library do with a text is a parameter; the errors of
-- the checks are told apart by nobody, so `none` stands for each.
use senior_project.Common.{
  ℕ, ◌+◌, String, Bool, false, not, ◌||◌, if◌then◌else◌, Option, none, some, List, [], ◌∷◌, str_eq,
}
use senior_project.Tables.{Role}
use senior_project.Auth.Roles.{effective_roles_from_claims, roles_to_strings, role_text}

-- `RefreshClaims`, and `AccessClaims` with the registered claim ID left empty.
pub record Claims : Type 0 where
  pub user_id : String
  pub role : String
  pub roles : List String
  pub issuer : String
  pub subject : String
  pub audience : List String
  pub issued_at : ℕ
  pub expires_at : ℕ
  pub id : String

-- `JWT`
pub record Jwt : Type 0 where
  pub access_secret : String
  pub refresh_secret : String
  pub access_ttl : ℕ
  pub refresh_ttl : ℕ
  pub issuer : String
  pub audience : String

-- The loop over the claim `aud`.
unfoldable pub has_audience : String → List String → Bool
has_audience wanted [] = false
has_audience wanted (a ∷ rest) = str_eq a wanted || has_audience wanted rest

-- The checks that both have after the signature is verified.
unfoldable pub checked_claims : Jwt → Claims → Option Claims
unfolding has_audience effective_roles_from_claims
checked_claims j c =
    if str_eq c.user_id ""
    then none
    else if not (str_eq c.issuer j.issuer)
    then none
    else if not (has_audience j.audience c.audience)
    then none
    else elim (effective_roles_from_claims c.roles c.role) [ none ↦ none | some roles ↦ some c ]

-- `parse secret text now` is what `jwt.ParseWithClaims` finds in a signed text.
module _ (parse : String → String → Option Claims) (j : Jwt) where
  unfoldable pub parse_access_token : String → Option Claims
  unfolding checked_claims
  parse_access_token text = elim (parse j.access_secret text) [
    | none ↦ none
    | some c ↦ checked_claims j c
  ]

  unfoldable pub parse_refresh_token : String → Option Claims
  unfolding checked_claims
  parse_refresh_token text = elim (parse j.refresh_secret text) [
    | none ↦ none
    | some c ↦ if str_eq c.id "" then none else checked_claims j c
  ]

-- The claims that `GenerateAccessToken` and `GenerateRefreshToken` sign; `uuid_text` prints a uuid.
module _ (uuid_text : ℕ → String) (j : Jwt) where
  unfoldable pub access_claims : ℕ → List Role → Role → ℕ → Claims
  unfolding roles_to_strings
  access_claims user roles legacy now = record {
    user_id = uuid_text user;
    role = role_text legacy;
    roles = roles_to_strings roles;
    issuer = j.issuer;
    subject = uuid_text user;
    audience = j.audience ∷ [];
    issued_at = now;
    expires_at = now + j.access_ttl;
    id = "";
  }

  unfoldable pub refresh_claims : ℕ → List Role → Role → ℕ → ℕ → Claims
  unfolding roles_to_strings
  refresh_claims user roles legacy jti now = record {
    user_id = uuid_text user;
    role = role_text legacy;
    roles = roles_to_strings roles;
    issuer = j.issuer;
    subject = uuid_text user;
    audience = j.audience ∷ [];
    issued_at = now;
    expires_at = now + j.refresh_ttl;
    id = uuid_text jti;
  }
