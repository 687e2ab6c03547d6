-- ===== src/Examples/Office.antt =====
-- The desk of the admins and the organizers over the open world: moderation, statistics, accounts,
-- tickets and the payments' webhook.
use Prim.Native.String.{◌++◌ as join}
use senior_project.Common.{
  ◌<◌, ℕ, ◌+◌, String, Bool, true, false, ◌≡◌, refl, ◌⊎◌, some, List, [], ◌∷◌, str_eq, first_where,
  count_where, trim_space, trim_left, trim_right, is_space, lower_code,
}
use senior_project.Errors.{is_ok, Result, ok}
use senior_project.Tables.{Event, Role, empty_database}
use senior_project.Sql.{Session, calm, statement, next_fault, commit, finish_tx, run_tx, with_tx}
use senior_project.Ticketing.Statements.{occupied, event_is, insert_ticket, decrement_capacity}
use senior_project.Ticketing.Registration.{register_body, register_ticket, check_published}
use senior_project.Events.Repository.{create_event, create_row, update_moderation, get_event}
use senior_project.Events.Listing.{EventFilter, list_events, owned_by}
use senior_project.Events.Handlers.{handle_get_by_id}
use senior_project.Seats.History.{after_call, after_calls}
use senior_project.Auth.Jwt.{Claims, parse_access_token}
use senior_project.Ticketing.Issue.{issue_ticket, confirm, lifted_result}
use senior_project.Ticketing.Handlers.{RegisterResponse, post_register, handle_register, ticket_dto}
use senior_project.Ticketing.Handlers.Laws.{IsIssued, post_register-IsIssued}
use senior_project.Http.Guards.{Context, auth_middleware, authenticate, guarded, split_space}
use senior_project.Http.Guards.Laws.{IsAuthenticated}
use senior_project.Auth.Roles.{
  has_role, require_role, effective_roles_from_claims, dedupe_roles_sorted, uniq, sort_roles,
  insert_role_sorted,
}
use senior_project.Auth.Users.{get_user_by_id, merge_role_rows, create_user, create_user_body}
use senior_project.Auth.Tokens.{insert_refresh_token}
use senior_project.Auth.Service.{lifted, sign_access, sign_refresh}
use senior_project.Auth.Register.{register, in_domain}
use senior_project.Auth.Register.Laws.{IsStudent, register-IsStudent}
use senior_project.Http.Errors.{Driver, map_domain_error}
use senior_project.Http.Handlers.{is_sent, decoded, call, best_effort, translate}
use senior_project.Notifications.Queue.{enqueue}
use senior_project.Admin.Logs.{insert_moderation_log, log_event}
use senior_project.Admin.Service.{
  ignoring, if_ok, missing_event, moderation_of, tell_organizer, moderate_event,
}
use senior_project.Admin.Handlers.{post_moderation, patch_user_role}
use senior_project.Admin.Visibility.{moderate_event-hides}
use senior_project.Admin.Access.{OnlyAdmins, admin_routes-OnlyAdmins}
use senior_project.Analytics.Stats.{
  EventStats, grouped, count_hour, registrations, registration_timeline, event_body,
  event_stats_for_event, remaining_capacity_derived,
}
use senior_project.Analytics.Stats.Laws.{event_stats_for_event-balance}
use senior_project.Payments.Repository.{stub}
use senior_project.Payments.Handlers.{handle_webhook, verify_webhook_signature}
use senior_project.Payments.Signed.{handle_webhook-signed}
use senior_project.Examples.World.{open_world, taken_world, taken_world-IsConsistent}
use senior_project.Examples.Api.{pgx, uuid_text, parse_uuid, read_token, issuer, no_ilike}

abbrev quoted : String → String
quoted text = join "'" (join text "'")

abbrev blank : ℕ → String
blank t = ""

moderate_event-hides_example :
    (id : ℕ) × (parse_uuid (trim_space " e1") ≡ some id)
    × ((later : Session)
        → later.db.events
          ≡ (moderate_event uuid_text parse_uuid quoted 4 " e1" "reject" "late" 70 71 80 81
              (calm open_world)).1.db.events
        → ((ilike : String → String → Bool) (f : EventFilter) (items : List Event)
            → f.require_approved_moderation ≡ true
            → (list_events ilike f later).0 ≡ ok items
            → count_where (event_is id) items ≡ 0)
          × ((d : Driver) (id_text : String)
              → parse_uuid id_text ≡ some id
              → is_sent (handle_get_by_id d uuid_text parse_uuid id_text later).0 ≡ false))
unfolding after_calls after_call create_event create_row update_moderation empty_database statement
    next_fault moderate_event missing_event ignoring moderation_of get_event insert_moderation_log
    log_event tell_organizer if_ok get_user_by_id merge_role_rows enqueue trim_space trim_left
    trim_right is_space lower_code
moderate_event-hides_example =
    moderate_event-hides uuid_text parse_uuid quoted 4 " e1" "reject" "late" 70 71 80 81
      (calm open_world) refl

admin_routes-OnlyAdmins_example :
    OnlyAdmins read_token parse_uuid issuer "Bearer admin" open_world (
      post_moderation pgx uuid_text parse_uuid quoted blank blank no_ilike no_ilike read_token
        issuer "Bearer admin" "e1"
        (decoded (record { action = "approve"; reason = "" }))
        70
        71
        80
        81
        (calm open_world))
    × OnlyAdmins read_token parse_uuid issuer "Bearer admin" open_world (
        patch_user_role pgx uuid_text parse_uuid quoted blank blank no_ilike no_ilike read_token
          issuer "Bearer admin" "e1"
          (decoded "admin")
          70
          81
          (calm open_world))
admin_routes-OnlyAdmins_example =
    admin_routes-OnlyAdmins read_token parse_uuid issuer "Bearer admin" pgx uuid_text quoted blank
      blank no_ilike no_ilike "e1" (decoded (record { action = "approve"; reason = "" }))
      (decoded "admin") 70 71 80 81 (calm open_world)

abbrev full_house : EventStats
full_house = record {
  event_id = some "e1";
  total_capacity = 1;
  registered_count = 1;
  remaining_capacity = 0;
  registration_timeline = record { hour = 50; count = 1 } ∷ [];
  as_of = 60;
}

event_stats_for_event-balance_example :
    (e : Event) × (first_where (event_is 1) taken_world.events ≡ some e)
    × (false ≡ false → owned_by 3 e.organizer_id ≡ true)
    × (1 ≡ e.capacity_total)
    × (1 ≡ occupied 1 taken_world.tickets)
    × (0 ≡ e.capacity_available)
    × ((1 ≡ 1 + 0) ⊎ ((1 < 1) × (full_house.remaining_capacity ≡ 0)))
    × ((event_stats_for_event 10 uuid_text 1 3 false 60 (calm taken_world)).1.db ≡ taken_world)
unfolding after_calls after_call create_event create_row update_moderation empty_database statement
    next_fault register_ticket register_body check_published insert_ticket decrement_capacity
    with_tx run_tx finish_tx commit event_stats_for_event event_body registrations
    registration_timeline remaining_capacity_derived grouped count_hour
event_stats_for_event-balance_example =
    event_stats_for_event-balance 10 uuid_text 1 3 false 60 (calm taken_world) full_house
      taken_world-IsConsistent refl

handle_webhook-signed_example :
    let answer =
      handle_webhook stub
        (λ secret body. 10 ∷ [])
        (λ body. decoded (record { provider_ref = "r"; status = "succeeded" }))
        "key"
        (some "{}")
        "0A"
        60
        61
        (calm open_world) in
    ((is_sent answer.0 ≡ false) × (answer.1.db ≡ open_world))
    ⊎ ((body : String) × (some "{}" ≡ some body)
        × (str_eq "key" "" ≡ false)
        × (verify_webhook_signature (λ secret body. 10 ∷ []) "key" body "0A" ≡ true))
handle_webhook-signed_example =
    handle_webhook-signed stub (λ secret body. 10 ∷ [])
      (λ body. decoded (record { provider_ref = "r"; status = "succeeded" })) "key" (some "{}") "0A"
      60 61 (calm open_world)

abbrev signer : String → Claims → Result String
signer secret claims = ok secret

abbrev no_hash : String → String → Bool
no_hash stored password = false

abbrev is_address : String → Bool
is_address text = true

abbrev bcrypt : String → Result String
bcrypt password = ok (join "$" password)

abbrev new_address : String
new_address = "dana@nu.edu.kz"

register-IsStudent_example :
    let answer =
      register read_token signer no_hash uuid_text parse_uuid issuer is_address bcrypt "nu.edu.kz"
        new_address "password" 9 90 80 81
        (calm open_world) in
    ((is_ok answer.0 ≡ false)
      × (answer.1.db.users ≡ open_world.users)
      × (answer.1.db.user_roles ≡ open_world.user_roles))
    ⊎ IsStudent is_address bcrypt "nu.edu.kz" new_address "password" 9 81 open_world answer.1.db
register-IsStudent_example =
    register-IsStudent read_token signer no_hash uuid_text parse_uuid issuer is_address bcrypt
      "nu.edu.kz" new_address "password" 9 90 80 81 (calm open_world)

test-account :
    is_ok
      (register read_token signer no_hash uuid_text parse_uuid issuer is_address bcrypt "nu.edu.kz"
        new_address "password" 9 90 80 81
        (calm open_world)).0
    ≡ true
unfolding after_calls after_call create_event create_row update_moderation empty_database statement
    next_fault register in_domain lifted sign_access sign_refresh create_user create_user_body
    merge_role_rows insert_refresh_token with_tx run_tx finish_tx commit dedupe_roles_sorted uniq
    sort_roles insert_role_sorted
test-account = refl

abbrev drawn : Result String
drawn = ok "payload"

abbrev sha : String → String
sha text = "ff"

abbrev image : String → Result String
image text = ok "png"

abbrev annas_answer : RegisterResponse
annas_answer = record {
  ticket = record { ticket_id = "other"; event_id = "e1"; user_id = "u7"; status = "active" };
  qr_png_base64 = "png";
  qr_hash_hex = "ff";
}

post_register-IsIssued_example :
    let after =
      post_register pgx uuid_text parse_uuid read_token issuer drawn sha image blank "Bearer anna"
        (decoded " e1")
        20
        70
        60
        61
        (calm open_world) in
    (ctx : Context) × IsAuthenticated read_token parse_uuid issuer "Bearer anna" ctx
    × (has_role ctx.roles Role.student ≡ true)
    × IsIssued drawn sha image pgx uuid_text blank parse_uuid
        (decoded " e1")
        20
        70
        60
        61
        ctx
        open_world
        annas_answer
        after.1.db
unfolding after_calls after_call create_event create_row update_moderation empty_database statement
    next_fault register_ticket register_body check_published insert_ticket decrement_capacity
    with_tx run_tx finish_tx commit post_register handle_register call best_effort issue_ticket
    confirm ticket_dto trim_space trim_left trim_right is_space auth_middleware authenticate guarded
    split_space parse_access_token effective_roles_from_claims lower_code require_role translate
    lifted_result has_role map_domain_error
post_register-IsIssued_example =
    post_register-IsIssued drawn sha image pgx uuid_text blank parse_uuid (decoded " e1") 20 70 60
      61 read_token issuer "Bearer anna" (calm open_world) annas_answer refl
