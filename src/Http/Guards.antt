-- ===== src/Http/Guards.antt =====
-- internal/infra/auth/middleware.go: `AuthMiddleware` and `RequireRole` before a handler, and the
-- request context of internal/infra/auth/jwt.go between them.
pub mod Laws
use Prim.Native.Char.{code}
use senior_project.Common.{
  ℕ, String, Bool, true, Option, none, some, List, not, ◌==◌, false, if◌then◌else◌, str_eq,
  lower_is, [], ◌∷◌,
}
use senior_project.Tables.{Role}
use senior_project.Auth.Roles.{Access, require_role, has_role, effective_roles_from_claims}
use senior_project.Auth.Jwt.{Claims, Jwt, parse_access_token}
use senior_project.Http.Errors.{Failure}
use senior_project.Http.Handlers.{Handler, refuse, refuse_if, or_refuse, ◌>>=◌, ◌>>◌, denied, send}

-- The values that the context carries; `none` where a key has no value.
pub record Context : Type 0 where
  pub user_id : Option ℕ
  pub roles : Option (List Role)

abbrev pub no_context : Context
no_context = record { user_id = none; roles = none }

-- `WithAccessClaims`; the primary role is derived from the roles again by whoever asks for it.
abbrev pub with_access_claims : ℕ → List Role → Context
with_access_claims user roles = record { user_id = some user; roles = some roles }

-- `RoleFromContext` finds a role.
abbrev pub has_any_role : Option (List Role) → Bool
has_any_role none = false
has_any_role (some []) = false
has_any_role (some (r ∷ rs)) = true

abbrev pub unauthenticated : String → String → Failure
unauthenticated code message = record { status = 401; code = code; message = message }

-- `strings.SplitN(text, " ", 2)`, where it has two parts.
unfoldable pub split_space : String → Option (String × String)
split_space String.[] = none
split_space (String.◌∷◌ c s) =
    let rest = split_space s in
    if code c == 32
    then some ("", s)
    else elim rest [ none ↦ none | some (left, right) ↦ some (String.◌∷◌ c left, right) ]

module _ (parse : String → String → Option Claims) (parse_uuid : String → Option ℕ) (j : Jwt) where
  -- The claims that the header carries, as the context of the next handler.
  unfoldable pub authenticate : String → Handler Context
  unfolding split_space parse_access_token effective_roles_from_claims
  authenticate header = do
    refuse_if (str_eq header "")
        (unauthenticated "MISSING_AUTHORIZATION" "missing Authorization header")
    let malformed = unauthenticated "INVALID_AUTHORIZATION" "Authorization must be Bearer token"
    parts ← or_refuse (split_space header) malformed
    refuse_if (not (lower_is parts.0 "bearer")) malformed
    claims ←
        or_refuse (parse_access_token parse j parts.1)
          (unauthenticated "INVALID_TOKEN" "invalid or expired access token")
    let bad_claims = unauthenticated "INVALID_TOKEN_CLAIMS" "invalid token claims"
    roles ← or_refuse (effective_roles_from_claims claims.roles claims.role) bad_claims
    user ← or_refuse (parse_uuid claims.user_id) bad_claims
    send (with_access_claims user roles)

  unfoldable pub auth_middleware : {A : Type 0} → String → (Context → Handler A) → Handler A
  unfolding authenticate
  auth_middleware header next = authenticate header >>= next

abbrev pub answer_access : {A : Type 0} → Access → Handler A → Handler A
answer_access Access.missing_role next = refuse (unauthenticated "MISSING_ROLE" "missing user role")
answer_access Access.insufficient_permissions next = refuse (denied "insufficient permissions")
answer_access Access.granted next = next

-- `RequireRole(allowed...)` around a handler.
unfoldable pub guarded : {A : Type 0} → List Role → Context → Handler A → Handler A
unfolding require_role
guarded allowed ctx next = answer_access (require_role allowed ctx.roles) next

-- An organizer who is not an admin: the handlers hold these to their own events.
unfoldable pub is_plain_organizer : Context → Bool
unfolding has_role
is_plain_organizer ctx =
    if has_role ctx.roles Role.organizer then not (has_role ctx.roles Role.admin) else false
