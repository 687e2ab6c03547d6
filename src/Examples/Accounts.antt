-- ===== src/Examples/Accounts.antt =====
-- A user with a refresh token, and the roles of tokens.
use senior_project.Common.{
  arith, ℕ, String, ◌≡◌, ◌≢◌, ◌↔◌, refl, ◌==◌, Bool, true, false, Option, some, none, List, [], ◌∷◌,
  first_where, count_where, str_eq, if◌then◌else◌,
}
use senior_project.Errors.{Result, ok, is_ok}
use senior_project.Tables.{Database, RefreshToken, Role, RoleStatus, empty_database}
use senior_project.Sql.{calm, statement, next_fault, commit, finish_tx, run_tx, with_tx}
use senior_project.Auth.Tokens.{
  live_of, rotate_refresh_token, rotate_body, revoke_tokens_by_user_id, insert_refresh_token,
  consume_refresh_token,
}
use senior_project.Auth.RoleRows.{HasRoles}
use senior_project.Auth.Promotion.{update_user_role-HasRoles}
use senior_project.Auth.Users.{
  update_user_role, update_role_body, sync_user_roles_in_tx, grant, drop_roles, get_user_by_id,
  merge_role_rows,
}
use senior_project.Auth.Roles.{
  Access, member, roles_equal, require_role, has_role, primary_role, effective_roles_from_claims,
  claimed_roles, parse_roles, dedupe_roles_sorted, uniq, sort_roles, insert_role_sorted,
  some_if_any, tally, take_off, all_zero,
}
use senior_project.Auth.Roles.Laws.{is_sorted_strictly, mentions, occurrences}
use senior_project.Auth.Roles.Verdicts.{
  effective_roles_from_claims-claims, roles_equal_iff, require_role_iff, primary_role-first,
}
use senior_project.Auth.Jwt.{
  Claims, Jwt, parse_refresh_token, checked_claims, has_audience, access_claims, refresh_claims,
}
use senior_project.Auth.Issued.{parse_refresh_token-refresh_claims}
use senior_project.Auth.Service.{refresh, exchange, or_invalid, sign_access, sign_refresh, lifted}
use senior_project.Auth.Sessions.{
  fresh_token, rotate_refresh_token-one, rotate_refresh_token-others,
}
use senior_project.Auth.Renewal.{refresh_once}

abbrev texts : List String
texts = "student" ∷ "organizer" ∷ "student" ∷ []

abbrev both : List Role
both = Role.organizer ∷ Role.student ∷ []

effective_roles_from_claims-claims_example :
    (is_sorted_strictly both ≡ true) × (both ≢ []) × ((r : Role) → member r both ≡ mentions r texts)
unfolding effective_roles_from_claims claimed_roles parse_roles dedupe_roles_sorted uniq sort_roles
    insert_role_sorted some_if_any
effective_roles_from_claims-claims_example =
    effective_roles_from_claims-claims texts "admin" both refl

roles_equal_iff_example :
    (roles_equal both (Role.student ∷ Role.organizer ∷ []) ≡ true)
    ↔ ((r : Role) → occurrences r both ≡ occurrences r (Role.student ∷ Role.organizer ∷ []))
roles_equal_iff_example = roles_equal_iff both (Role.student ∷ Role.organizer ∷ [])

-- Equal as sets, and not equal.
test-multiset :
    roles_equal
      (Role.student ∷ Role.student ∷ Role.admin ∷ [])
      (Role.student ∷ Role.admin ∷ Role.admin ∷ [])
    ≡ false
unfolding roles_equal tally take_off all_zero
test-multiset = refl

require_role_iff_example :
    (require_role (Role.admin ∷ Role.organizer ∷ []) (some both) ≡ Access.granted) ↔ (
      (r : Role) × (has_role (some both) r ≡ true)
      × (member r (Role.admin ∷ Role.organizer ∷ []) ≡ true))
require_role_iff_example = require_role_iff (Role.admin ∷ Role.organizer ∷ []) (some both)

primary_role-first_example : primary_role both ≡ some Role.organizer
primary_role-first_example = primary_role-first Role.organizer (Role.student ∷ []) refl

abbrev the_token : RefreshToken
the_token = record { jti = 90; user_id = 7; expires_at = 500; revoked_at = none }

abbrev home : Database
home = record empty_database {
  users =
      record {
        id = 7;
        email = "anna@nu.edu.kz";
        password_hash = "h";
        role = Role.student;
        created_at = 1;
        updated_at = 1;
      }
      ∷ [];
  user_roles = record { user_id = 7; role = Role.student; status = RoleStatus.active } ∷ [];
  refresh_tokens = the_token ∷ [];
}

abbrev after_login : List RefreshToken
after_login = (rotate_refresh_token 7 91 600 100 (calm home)).1.db.refresh_tokens

rotate_refresh_token-one_example :
    (is_ok (rotate_refresh_token 7 91 600 100 (calm home)).0 ≡ true
      → (count_where (live_of 7) after_login ≡ 1)
        × (first_where (live_of 7) after_login ≡ some (fresh_token 91 7 600)))
    × (is_ok (rotate_refresh_token 7 91 600 100 (calm home)).0 ≡ false
        → after_login ≡ home.refresh_tokens)
rotate_refresh_token-one_example = rotate_refresh_token-one 7 91 600 100 (calm home)

test-login : is_ok (rotate_refresh_token 7 91 600 100 (calm home)).0 ≡ true
unfolding rotate_refresh_token rotate_body revoke_tokens_by_user_id insert_refresh_token with_tx
    run_tx finish_tx commit statement next_fault empty_database
test-login = refl

rotate_refresh_token-others_example :
    count_where (live_of 8) after_login ≡ count_where (live_of 8) home.refresh_tokens
rotate_refresh_token-others_example = rotate_refresh_token-others 7 91 600 100 (calm home) 8 refl

abbrev issuer : Jwt
issuer = record {
  access_secret = "a";
  refresh_secret = "r";
  access_ttl = 10;
  refresh_ttl = 100;
  issuer = "api";
  audience = "app";
}

abbrev token_claims : Claims
token_claims = record {
  user_id = "7";
  role = "student";
  roles = "student" ∷ [];
  issuer = "api";
  subject = "7";
  audience = "app" ∷ [];
  issued_at = 50;
  expires_at = 500;
  id = "90";
}

abbrev read_token : String → String → Option Claims
read_token secret text = if str_eq text "signed" then some token_claims else none

abbrev write_token : String → Claims → Result String
write_token secret claims = ok "token"

abbrev print_uuid : ℕ → String
print_uuid k = if k == 7 then "7" else "90"

abbrev read_uuid : String → Option ℕ
read_uuid text = if str_eq text "7" then some 7 else if str_eq text "90" then some 90 else none

abbrev never : String → String → Bool
never hash password = false

refreshed :
    is_ok
      (refresh read_token write_token never print_uuid read_uuid issuer "signed" 91 100
        (calm home)).0
    ≡ true
unfolding refresh exchange or_invalid sign_access sign_refresh lifted get_user_by_id merge_role_rows
    parse_refresh_token checked_claims has_audience effective_roles_from_claims claimed_roles
    parse_roles dedupe_roles_sorted some_if_any roles_equal tally take_off all_zero access_claims
    refresh_claims consume_refresh_token insert_refresh_token statement next_fault empty_database
refreshed = refl

refresh_once_example :
    is_ok
      (refresh read_token write_token never print_uuid read_uuid issuer "signed" 92 101
        (refresh read_token write_token never print_uuid read_uuid issuer "signed" 91 100
          (calm home)).1).0
    ≡ false
refresh_once_example =
    refresh_once read_token write_token never print_uuid read_uuid issuer "signed" 91 100
      (calm home) refreshed 92 101 (omega arith)
      (refresh read_token write_token never print_uuid read_uuid issuer "signed" 91 100
        (calm home)).1
      refl

abbrev issued : Claims
issued = refresh_claims print_uuid issuer 7 (Role.student ∷ Role.organizer ∷ []) Role.student 90 100

abbrev read_issued : String → String → Option Claims
read_issued secret text = if str_eq text "signed" then some issued else none

parse_refresh_token-refresh_claims_example :
    (parse_refresh_token read_issued issuer "signed" ≡ some issued)
    × (effective_roles_from_claims issued.roles issued.role
        ≡ some (dedupe_roles_sorted (Role.student ∷ Role.organizer ∷ [])))
parse_refresh_token-refresh_claims_example =
    parse_refresh_token-refresh_claims read_issued print_uuid issuer "signed" 7
      (Role.student ∷ Role.organizer ∷ []) Role.student 90 100 (λ e. cc) refl refl refl

-- The admin makes the student an organizer.
promoted : is_ok (update_user_role 7 Role.organizer 100 (calm home)).0 ≡ true
unfolding update_user_role update_role_body sync_user_roles_in_tx grant drop_roles
    revoke_tokens_by_user_id merge_role_rows with_tx run_tx finish_tx commit statement next_fault
    empty_database
promoted = refl

update_user_role-HasRoles_example :
    HasRoles 7 Role.organizer (update_user_role 7 Role.organizer 100 (calm home)).1.db.user_roles
    × (count_where
          (live_of 7)
          (update_user_role 7 Role.organizer 100 (calm home)).1.db.refresh_tokens
        ≡ 0)
update_user_role-HasRoles_example =
    update_user_role-HasRoles 7 Role.organizer 100 (calm home) promoted
