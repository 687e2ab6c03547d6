-- ===== src/Http/Cors.antt =====
-- internal/infra/http/middleware.go: `CORS`.
use senior_project.Common.{
  String, Bool, false, ◌||◌, ◌≡◌, refl, Option, none, some, List, [], ◌∷◌, str_eq, trim_space,
  if◌then◌else◌,
}
use senior_project.Sql.{Session}
use senior_project.Http.Handlers.{Handler, Reply}

abbrev pub default_origins : List String
default_origins = "http://localhost:3000" ∷ "http://localhost:5173" ∷ []

abbrev pub is_listed : String → List String → Bool
is_listed text [] = false
is_listed text (x ∷ xs) = str_eq text x || is_listed text xs

-- The headers that the middleware sets. With an origin come Vary and Allow-Credentials.
pub record CorsHeaders : Type 0 where
  pub allow_origin : Option String
  pub allow_methods : String
  pub allow_headers : String

unfoldable pub cors_headers : String → CorsHeaders
unfolding trim_space
cors_headers origin = record {
  allow_origin =
      if str_eq (trim_space origin) ""
      then none
      else if is_listed (trim_space origin) default_origins
      then some (trim_space origin)
      else none;
  allow_methods = "GET, POST, PUT, DELETE, OPTIONS";
  allow_headers = "Content-Type, Authorization";
}

-- The next handler's reply, or `none` for 204: a preflight reaches no handler.
unfoldable pub cors :
    {A : Type 0}
    → String
    → String
    → Handler A
    → Session
    → CorsHeaders × (Option (Reply A) × Session)
unfolding cors_headers
cors method origin next s =
    if str_eq method "OPTIONS"
    then (cors_headers origin, (none, s))
    else (let (reply, s') = next s in (cors_headers origin, (some reply, s')))

test-origin : (cors_headers "http://localhost:8080").allow_origin ≡ none
unfolding cors_headers
test-origin = refl
