-- ===== src/Examples/Api.antt =====
-- Requests to the API over the open world.
use senior_project.Common.{
  ◌↔◌, ℕ, String, Bool, true, false, ◌≡◌, refl, ◌⊎◌, Option, none, some, [], ◌∷◌, pos, str_eq,
  if◌then◌else◌, ◌==◌, lower_code,
}
use senior_project.Errors.{driver}
use senior_project.Tables.{Event}
use senior_project.Sql.{calm, statement, next_fault}
use senior_project.Http.Errors.{Driver, map_domain_error, error_text}
use senior_project.Http.Errors.Laws.{status_of_code, map_domain_error-status}
use senior_project.Http.Handlers.{decoded, is_sent}
use senior_project.Auth.Jwt.{Claims, Jwt}
use senior_project.Events.Patch.{EventPatch}
use senior_project.Events.Listing.{matches, EventFilter, list_events, listed}
use senior_project.Events.Listing.Laws.{IsPage, IsMatch, list_events-IsPage}
use senior_project.Events.Handlers.{put_event, delete_event_route}
use senior_project.Events.Ownership.{
  IsEntitled, put_event-IsEntitled, delete_event_route-IsEntitled,
}
use senior_project.Examples.World.{open_world}

abbrev pub pgx : Driver
pgx = record { violation_text = λ state. "constraint"; is_deadline = λ text. false }

map_domain_error-status_example :
    (map_domain_error pgx (driver "timeout: context deadline exceeded")).status
    ≡ status_of_code (map_domain_error pgx (driver "timeout: context deadline exceeded")).code
map_domain_error-status_example =
    map_domain_error-status pgx (driver "timeout: context deadline exceeded")

test-late : (map_domain_error pgx (driver "timeout: Context Deadline exceeded")).status ≡ 408
unfolding map_domain_error error_text lower_code
test-late = refl

abbrev pub uuid_text : ℕ → String
uuid_text k = if k == 1 then "e1" else if k == 3 then "u3" else if k == 7 then "u7" else "other"

abbrev pub parse_uuid : String → Option ℕ
parse_uuid text =
    if str_eq text "e1"
    then some 1
    else if str_eq text "u3"
    then some 3
    else if str_eq text "u7"
    then some 7
    else if str_eq text "u4"
    then some 4
    else none

abbrev claims_of : String → String → Claims
claims_of user role = record {
  user_id = user;
  role = role;
  roles = role ∷ [];
  issuer = "api";
  subject = user;
  audience = "app" ∷ [];
  issued_at = 50;
  expires_at = 500;
  id = "";
}

abbrev pub read_token : String → String → Option Claims
read_token secret text =
    if str_eq text "club"
    then some (claims_of "u3" "organizer")
    else if str_eq text "anna"
    then some (claims_of "u7" "student")
    else if str_eq text "admin"
    then some (claims_of "u4" "admin")
    else none

abbrev pub issuer : Jwt
issuer = record {
  access_secret = "a";
  refresh_secret = "r";
  access_ttl = 10;
  refresh_ttl = 100;
  issuer = "api";
  audience = "app";
}

abbrev pub no_ilike : String → String → Bool
no_ilike text pattern = false

abbrev pub no_time : String → Option ℕ
no_time text = none

abbrev new_title : EventPatch
new_title = record {
  title = some "Late concert";
  description = none;
  cover_image_url = none;
  starts_at = none;
  location = none;
  end_at = none;
  capacity_total = none;
  status = none;
}

put_event-IsEntitled_example :
    let answer =
      put_event pgx uuid_text parse_uuid no_ilike no_time "rule" read_token issuer "Bearer club"
        "e1"
        (decoded new_title)
        60
        (calm open_world) in
    ((is_sent answer.0 ≡ false) × (answer.1.db ≡ open_world))
    ⊎ IsEntitled read_token parse_uuid issuer "Bearer club" "e1" open_world
put_event-IsEntitled_example =
    put_event-IsEntitled read_token parse_uuid issuer "Bearer club" "e1" pgx uuid_text no_ilike
      no_time "rule" (decoded new_title) 60 (calm open_world)

delete_event_route-IsEntitled_example :
    let answer =
      delete_event_route pgx parse_uuid read_token issuer "Bearer anna" "e1" (calm open_world) in
    ((is_sent answer.0 ≡ false) × (answer.1.db ≡ open_world))
    ⊎ IsEntitled read_token parse_uuid issuer "Bearer anna" "e1" open_world
delete_event_route-IsEntitled_example =
    delete_event_route-IsEntitled read_token parse_uuid issuer "Bearer anna" "e1" pgx
      (calm open_world)

abbrev public : EventFilter
public = record {
  query = "";
  starts_after = some 90;
  organizer_id = none;
  moderation_status = none;
  starts_before = none;
  require_approved_moderation = true;
  limit = pos 0;
  offset = pos 0;
}

list_events-IsPage_example :
    IsPage no_ilike public open_world.events (listed no_ilike public open_world.events)
    × ((e : Event) → (matches no_ilike public e ≡ true) ↔ IsMatch no_ilike public e)
    × ((list_events no_ilike public (calm open_world)).1.db ≡ open_world)
unfolding list_events statement next_fault
list_events-IsPage_example =
    list_events-IsPage no_ilike public (calm open_world) (listed no_ilike public open_world.events)
      refl
