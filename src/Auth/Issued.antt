-- ===== src/Auth/Issued.antt =====
-- The claims that the program signs pass its own checks (internal/infra/auth/jwt.go).
use senior_project.Common.{
  ℕ, String, ◌≡◌, ◌≢◌, refl, Bool, true, false, not, ◌&&◌, Option, some, List, [], ◌∷◌, arith, map,
  str_eq,
}
use text.Mathlib.TextEquality.{eq_iff}
use senior_project.Tables.{Role}
use senior_project.Auth.Roles.{
  member, uniq, insert_role_sorted, sort_roles, dedupe_roles_sorted, roles_to_strings, role_text,
  parse_role, parse_roles, claimed_roles, some_if_any, effective_roles_from_claims,
}
use senior_project.Auth.Roles.Laws.{
  is_sorted_strictly, above, dedupe-sorted, dedupe-member, same_role_refl,
}
use senior_project.Auth.Jwt.{
  Claims, Jwt, has_audience, checked_claims, parse_refresh_token, refresh_claims,
}

parse_role-role_text : (r : Role) → parse_role (role_text r) ≡ some r
parse_role-role_text Role.student = refl
parse_role-role_text Role.organizer = refl
parse_role-role_text Role.admin = refl

parse_roles-map : (rs : List Role) → parse_roles (map role_text rs) ≡ some rs
unfolding parse_roles
parse_roles-map [] = refl
parse_roles-map (r ∷ rs) = ground (arith, parse_role-role_text r, parse_roles-map rs)

insert_above : (r : Role) (rs : List Role) → above r rs ≡ true → insert_role_sorted r rs ≡ r ∷ rs
unfolding insert_role_sorted
insert_above r [] h = refl
insert_above r (x ∷ rs) h = ground arith

sort_sorted : (rs : List Role) → is_sorted_strictly rs ≡ true → sort_roles rs ≡ rs
unfolding sort_roles
sort_sorted [] h = refl
sort_sorted (r ∷ rs) h = ground (arith, sort_sorted rs, insert_above r rs)

-- No role of the second list is in the first.
abbrev apart : List Role → List Role → Bool
apart seen [] = true
apart seen (r ∷ rs) = not (member r seen) && apart seen rs

above-apart :
    (r : Role) (seen rs : List Role)
    → above r rs ≡ true
    → apart seen rs ≡ true
    → apart (r ∷ seen) rs ≡ true
above-apart r seen [] h a = refl
above-apart r seen (x ∷ rs) h a = ground (arith, above-apart r seen rs)

uniq-apart :
    (seen rs : List Role) → apart seen rs ≡ true → is_sorted_strictly rs ≡ true → uniq seen rs ≡ rs
unfolding uniq
uniq-apart seen [] a h = refl
uniq-apart seen (r ∷ rs) a h = ground (arith, uniq-apart (r ∷ seen) rs, above-apart r seen rs)

apart_none : (rs : List Role) → apart [] rs ≡ true
apart_none [] = refl
apart_none (r ∷ rs) = ground (arith, apart_none rs)

dedupe_sorted : (rs : List Role) → is_sorted_strictly rs ≡ true → dedupe_roles_sorted rs ≡ rs
unfolding dedupe_roles_sorted
dedupe_sorted rs h = ground (arith, h, uniq-apart [] rs (apart_none rs) h, sort_sorted rs h)

some_if_any_any : (rs : List Role) → rs ≢ [] → some_if_any rs ≡ some rs
unfolding some_if_any
some_if_any_any [] h = absurd (h refl)
some_if_any_any (r ∷ rs) h = refl

claimed_any :
    (texts : List String) (legacy : String)
    → texts ≢ []
    → claimed_roles texts legacy ≡ parse_roles texts
unfolding claimed_roles
claimed_any [] legacy h = absurd (h refl)
claimed_any (t ∷ texts) legacy h = refl

dedupe_any : (rs : List Role) → rs ≢ [] → dedupe_roles_sorted rs ≢ []
dedupe_any [] h = λ e. h refl
dedupe_any (x ∷ rs) h = λ e. ground (arith, e, dedupe-member (x ∷ rs) x, same_role_refl x)

map_any : (rs : List Role) → rs ≢ [] → map role_text rs ≢ []
map_any [] h = λ e. h refl
map_any (x ∷ rs) h = λ e. cc

issued_roles :
    (roles : List Role) (legacy : String)
    → roles ≢ []
    → effective_roles_from_claims (roles_to_strings roles) legacy ≡ some (dedupe_roles_sorted roles)
unfolding effective_roles_from_claims roles_to_strings
issued_roles roles legacy h =
    let out = dedupe_roles_sorted roles in
    let any = dedupe_any roles h in
    ground (
      arith,
      claimed_any (map role_text out) legacy (map_any out any),
      parse_roles-map out,
      dedupe_sorted out (dedupe-sorted roles),
      some_if_any_any out any,
    )

own_audience : (a : String) → has_audience a (a ∷ []) ≡ true
unfolding has_audience
own_audience a = ground (arith, (eq_iff a a).1 refl)

-- A refresh token that the program signed for a user with at least one role passes the checks of
-- `ParseRefreshToken` where the JWT library reads its claims back, and carries the user's roles,
-- each once and in the order of their texts. (Printed uuids are not empty.)
pub parse_refresh_token-refresh_claims :
    (parse : String → String → Option Claims) (uuid_text : ℕ → String) (j : Jwt) (text : String)
    (user : ℕ) (roles : List Role) (legacy : Role) (jti now : ℕ)
    → roles ≢ []
    → str_eq (uuid_text user) "" ≡ false
    → str_eq (uuid_text jti) "" ≡ false
    → let c = refresh_claims uuid_text j user roles legacy jti now in
      parse j.refresh_secret text ≡ some c
      → (parse_refresh_token parse j text ≡ some c)
        × (effective_roles_from_claims c.roles c.role ≡ some (dedupe_roles_sorted roles))
unfolding parse_refresh_token checked_claims refresh_claims
parse_refresh_token-refresh_claims parse uuid_text j text user roles legacy jti now any named
      identified read =
    let carried = issued_roles roles (role_text legacy) any in
    (
      ground (
        arith,
        read,
        named,
        identified,
        carried,
        own_audience j.audience,
        (eq_iff j.issuer j.issuer).1 refl,
      ),
      carried,
    )
