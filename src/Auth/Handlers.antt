-- ===== src/Auth/Handlers.antt =====
-- auth/handler/routes.go and auth/handler/dto.go.
use senior_project.Common.{ℕ, String, Bool, List, map, trim_space, Option}
use senior_project.Errors.{Result}
use senior_project.Auth.Users.{User, get_user_by_id}
use senior_project.Auth.Roles.{role_text}
use senior_project.Auth.Jwt.{Claims, Jwt}
use senior_project.Auth.Service.{Signed, login, refresh, request_organizer_role}
use senior_project.Auth.Register.{register}
use senior_project.Http.Errors.{Driver}
use senior_project.Http.Handlers.{
  Handler, Body, need_body, or_refuse, send, call, ◌>>=◌, ◌>>◌, unauthorized,
}
use senior_project.Http.Guards.{Context, auth_middleware}

-- `RegisterRequestDTO` and `LoginRequestDTO`.
pub record Credentials : Type 0 where
  pub email : String
  pub password : String

pub record UserDto : Type 0 where
  pub id : ℕ
  pub email : String
  pub role : String
  pub roles : List String
  pub pending_roles : List String

pub record AuthResponse : Type 0 where
  pub access_token : String
  pub refresh_token : String
  pub user : UserDto

abbrev pub user_to_dto : User → UserDto
user_to_dto u = record {
  id = u.row.id;
  email = u.row.email;
  role = role_text u.row.role;
  roles = map role_text u.active_roles;
  pending_roles = map role_text u.pending_roles;
}

abbrev pub auth_response : Signed → AuthResponse
auth_response signed = record {
  access_token = signed.1.0;
  refresh_token = signed.1.1;
  user = user_to_dto signed.0;
}

-- `to_lower` is `strings.ToLower`; the services begin with it and with `strings.TrimSpace`. The others
-- are the parameters of the services.
module _ (d : Driver) (parse : String → String → Option Claims)
    (sign : String → Claims → Result String) (compare_hash : String → String → Bool)
    (uuid_text : ℕ → String) (parse_uuid : String → Option ℕ) (j : Jwt)
    (to_lower : String → String) where
  unfoldable pub handle_register :
      (String → Bool)
      → (String → Result String)
      → String
      → Body Credentials
      → ℕ
      → ℕ
      → ℕ
      → ℕ
      → Handler AuthResponse
  unfolding call register trim_space
  handle_register is_address hash domain body id jti now db_now = do
    req ← need_body body
    signed ← call d (
        register parse sign compare_hash uuid_text parse_uuid j is_address hash (to_lower domain)
          (trim_space (to_lower req.email)) req.password id jti now db_now)
    send (auth_response signed)

  unfoldable pub handle_login : Body Credentials → ℕ → ℕ → ℕ → Handler AuthResponse
  unfolding call login trim_space
  handle_login body jti now db_now = do
    req ← need_body body
    signed ← call d (
        login parse sign compare_hash uuid_text parse_uuid j (trim_space (to_lower req.email))
          req.password jti now db_now)
    send (auth_response signed)

  unfoldable pub handle_refresh : Body String → ℕ → ℕ → Handler AuthResponse
  unfolding call refresh trim_space
  handle_refresh body jti now = do
    text ← need_body body
    signed ←
        call d (refresh parse sign compare_hash uuid_text parse_uuid j (trim_space text) jti now)
    send (auth_response signed)

  -- The body is the list of roles that `PatchMeRolesRequestDTO` has.
  unfoldable pub handle_patch_me_roles : Context → Body (List String) → Handler UserDto
  unfolding call request_organizer_role get_user_by_id
  handle_patch_me_roles ctx body = do
    roles ← need_body body
    user ← or_refuse ctx.user_id (unauthorized "missing user id")
    call d (request_organizer_role user roles)
    u ← call d (get_user_by_id user)
    send (user_to_dto u)

  unfoldable pub patch_me_roles : String → Body (List String) → Handler UserDto
  unfolding auth_middleware handle_patch_me_roles
  patch_me_roles header body =
      auth_middleware parse parse_uuid j header (λ ctx. handle_patch_me_roles ctx body)
