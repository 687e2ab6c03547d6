-- ===== src/Auth/Register.antt =====
-- auth/service/service.go: `Register`. The email comes in lower case and without the white space around
-- it, and the domain in lower case, which is how the method begins.
pub mod Laws
use Prim.Native.String.{◌++◌ as join, len}
use senior_project.Common.{
  ℕ, ◌+◌, String, Bool, true, false, not, ltb, ◌&&◌, ◌||◌, Option, List, [], ◌∷◌, codes, same_codes,
  if◌then◌else◌,
}
use senior_project.Errors.{Result, email_not_allowed, password_too_short}
use senior_project.Tables.{Role}
use senior_project.Sql.{Action, pure, ◌>>=◌, ◌>>◌, raise_if}
use senior_project.Auth.Tokens.{insert_refresh_token}
use senior_project.Auth.Users.{User, create_user}
use senior_project.Auth.Jwt.{Claims, Jwt}
use senior_project.Auth.Service.{Signed, lifted, sign_access, sign_refresh}

-- `strings.HasSuffix`
abbrev pub ends_with : List ℕ → List ℕ → Bool
ends_with [] part = same_codes [] part
ends_with (c ∷ cs) part = same_codes (c ∷ cs) part || ends_with cs part

unfoldable pub in_domain : String → String → Bool
in_domain domain email = ends_with (codes email) (codes (join "@" domain))

-- `is_address` is that `mail.ParseAddress` accepts, `hash` is bcrypt's. The uuids `id` and `jti` are new.
module _ (parse : String → String → Option Claims) (sign : String → Claims → Result String)
    (compare_hash : String → String → Bool) (uuid_text : ℕ → String)
    (parse_uuid : String → Option ℕ) (j : Jwt) (is_address : String → Bool)
    (hash : String → Result String) (domain : String) where
  unfoldable pub register : String → String → ℕ → ℕ → ℕ → ℕ → Action Signed
  unfolding in_domain create_user lifted sign_access sign_refresh insert_refresh_token
  register email password id jti now db_now = do
    raise_if (not (is_address email)) email_not_allowed
    raise_if (not (in_domain domain email)) email_not_allowed
    raise_if (ltb (len password) 8) password_too_short
    password_hash ← lifted (hash password)
    u ← create_user id email password_hash Role.student db_now
    access ← sign_access parse sign compare_hash uuid_text parse_uuid j u now
    refresh ← sign_refresh parse sign compare_hash uuid_text parse_uuid j u jti now
    insert_refresh_token jti u.row.id (now + j.refresh_ttl)
    pure (u, (access, refresh))
