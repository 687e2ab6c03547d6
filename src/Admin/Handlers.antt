-- ===== src/Admin/Handlers.antt =====
-- admin/handler/routes.go.
use senior_project.Common.{
  ℕ, String, Bool, false, if◌then◌else◌, Option, none, some, List, [], ◌∷◌, map, ℤ, pos, atoi,
  within, str_eq, lower_is, trim_space, is_empty_text,
}
use senior_project.Tables.{Event, ModerationLog, Role}
use senior_project.Auth.Roles.{role_text}
use senior_project.Auth.Users.{User}
use senior_project.Auth.Jwt.{Claims, Jwt}
use senior_project.Auth.Directory.{list_users}
use senior_project.Http.Errors.{Driver}
use senior_project.Http.Handlers.{
  Handler, Body, call_or, call_masked, need_body, refuse, or_refuse, send, ◌>>=◌, bad_request,
  unauthorized, invalid_id, broken,
}
use senior_project.Http.Guards.{Context, auth_middleware, guarded}
use senior_project.Events.Listing.{EventFilter, list_events, moderation_text}
use senior_project.Admin.Logs.{ModerationLogFilter, list_moderation_logs}
use senior_project.Admin.Service.{moderate_event, set_user_role}

abbrev pub admins : List Role
admins = Role.admin ∷ []

-- `limit` and `offset` of the query: 20 and 0 where they are not given.
unfoldable pub number_or : ℕ → ℕ → ℕ → String → String → Handler ℤ
unfolding atoi
number_or standard low high text message = if str_eq text "" then send (pos standard) else (do
  v ← or_refuse (atoi text) (bad_request message)
  n ← or_refuse (within low high v) (bad_request message)
  send (pos n))

pub record Slice : Type 0 where
  pub limit : ℤ
  pub offset : ℤ

unfoldable pub query_slice : String → String → Handler Slice
unfolding number_or
query_slice limit_text offset_text = do
  limit ← number_or 20 1 100 limit_text "invalid limit"
  offset ← number_or 0 0 100000 offset_text "invalid offset"
  send (record { limit = limit; offset = offset })

-- The texts of a query that the admin's lists read.
pub record AdminQuery : Type 0 where
  pub q : String
  pub event_id : String
  pub admin_id : String
  pub moderation_status : String
  pub limit : String
  pub offset : String

pub record ModerateEventRequest : Type 0 where
  pub action : String
  pub reason : String

-- `UserRoleResponseDTO` and `AdminUserDTO`.
pub record UserSummary : Type 0 where
  pub id : String
  pub email : String
  pub role : String

-- `AdminListUsersResponseDTO`, `ModerationLogsResponseDTO` and `AdminListEventsResponseDTO`.
pub record Listed (A : Type 0) : Type 0 where
  pub items : List A
  pub limit : ℤ
  pub offset : ℤ

pub record ModerationLogEntry : Type 0 where
  pub id : String
  pub admin_user_id : String
  pub event_id : Option String
  pub action : String
  pub reason : Option String
  pub created_at : String

pub record AdminEvent : Type 0 where
  pub id : String
  pub title : String
  pub starts_at : String
  pub moderation_status : String
  pub organizer_id : Option String

abbrev pub printed : (ℕ → String) → Option ℕ → Option String
printed uuid_text none = none
printed uuid_text (some k) = some (uuid_text k)

-- A uuid of the query, where its text is not blank.
unfoldable pub query_uuid : (String → Option ℕ) → String → String → Handler (Option ℕ)
unfolding trim_space
query_uuid parse_uuid text message =
    if str_eq (trim_space text) ""
    then send none
    else (do id ← or_refuse (parse_uuid (trim_space text)) (bad_request message); send (some id))

-- `pending` where it is not given; another text than the three is refused.
unfoldable pub query_moderation : String → Handler String
unfolding trim_space
query_moderation text =
    if is_empty_text (trim_space text)
    then send "pending"
    else if lower_is (trim_space text) "pending"
    then send "pending"
    else if lower_is (trim_space text) "approved"
    then send "approved"
    else if lower_is (trim_space text) "rejected"
    then send "rejected"
    else refuse (bad_request "invalid moderation_status")

-- The libraries: of uuids, the verb %q, the layouts RFC3339 and RFC3339Nano, and the database's texts.
module _ (d : Driver) (uuid_text : ℕ → String) (parse_uuid : String → Option ℕ)
    (quote : String → String) (print_time print_nano : ℕ → String)
    (collate : String → String → Bool) (ilike : String → String → Bool) where
  abbrev pub user_summary : User → UserSummary
  user_summary u = record {
    id = uuid_text u.row.id;
    email = u.row.email;
    role = role_text u.row.role;
  }

  -- `log` is the log's new uuid.
  unfoldable pub handle_set_user_role : Context → String → Body String → ℕ → ℕ → Handler UserSummary
  unfolding call_masked set_user_role
  handle_set_user_role ctx id_text body log db_now = do
    user ← or_refuse (parse_uuid (trim_space id_text)) (invalid_id "invalid user id")
    role ← need_body body
    admin ← or_refuse ctx.user_id (unauthorized "missing user id")
    u ←
        call_masked d (broken "failed to update role")
          (set_user_role uuid_text parse_uuid quote admin user role log db_now)
    send (user_summary u)

  unfoldable pub handle_list_users : AdminQuery → Handler (Listed UserSummary)
  unfolding query_slice call_or list_users
  handle_list_users query = do
    at ← query_slice query.limit query.offset
    items ←
        call_or (broken "failed to list users")
          (list_users collate ilike (trim_space query.q) at.limit at.offset)
    send (record { items = map user_summary items; limit = at.limit; offset = at.offset })

  abbrev pub missing_id : String → Option String
  missing_id text = if is_empty_text (trim_space text) then none else some (trim_space text)

  unfoldable pub handle_moderate_event :
      Context → String → Body ModerateEventRequest → ℕ → ℕ → ℕ → ℕ → Handler String
  unfolding call_masked moderate_event
  handle_moderate_event ctx id_text body log note now db_now = do
    event ← or_refuse (missing_id id_text) (invalid_id "missing event id")
    admin ← or_refuse ctx.user_id (unauthorized "missing user id")
    req ← need_body body
    st ← call_masked d (broken "moderation failed") (
        moderate_event uuid_text parse_uuid quote admin event req.action req.reason log note now
          db_now)
    send (moderation_text st)

  abbrev pub log_entry : ModerationLog → ModerationLogEntry
  log_entry l = record {
    id = uuid_text l.id;
    admin_user_id = uuid_text l.admin_user_id;
    event_id = printed uuid_text l.event_id;
    action = l.action;
    reason = l.reason;
    created_at = print_nano l.created_at;
  }

  unfoldable pub handle_list_moderation_logs : AdminQuery → Handler (Listed ModerationLogEntry)
  unfolding query_uuid query_slice call_or list_moderation_logs
  handle_list_moderation_logs query = do
    event ← query_uuid parse_uuid query.event_id "invalid event_id"
    admin ← query_uuid parse_uuid query.admin_id "invalid admin_id"
    at ← query_slice query.limit query.offset
    let filter : ModerationLogFilter = record {
      event_id = event;
      admin_id = admin;
      limit = at.limit;
      offset = at.offset;
    }
    items ← call_or (broken "failed to list moderation logs") (list_moderation_logs filter)
    send (record { items = map log_entry items; limit = at.limit; offset = at.offset })

  abbrev pub admin_event : Event → AdminEvent
  admin_event e = record {
    id = uuid_text e.id;
    title = e.title;
    starts_at = print_time e.starts_at;
    moderation_status = moderation_text e.moderation_status;
    organizer_id = printed uuid_text e.organizer_id;
  }

  abbrev pub queue_filter : String → String → Slice → EventFilter
  queue_filter q status at = record {
    query = q;
    starts_after = none;
    organizer_id = none;
    moderation_status = some status;
    starts_before = none;
    require_approved_moderation = false;
    limit = at.limit;
    offset = at.offset;
  }

  unfoldable pub handle_list_events : AdminQuery → Handler (Listed AdminEvent)
  unfolding query_moderation query_slice call_or list_events
  handle_list_events query = do
    status ← query_moderation query.moderation_status
    at ← query_slice query.limit query.offset
    items ←
        call_or (broken "failed to list events")
          (list_events ilike (queue_filter (trim_space query.q) status at))
    send (record { items = map admin_event items; limit = at.limit; offset = at.offset })

  -- The routes that change state; `header` is Authorization.
  module _ (parse : String → String → Option Claims) (j : Jwt) where
    unfoldable pub patch_user_role : String → String → Body String → ℕ → ℕ → Handler UserSummary
    unfolding auth_middleware guarded handle_set_user_role
    patch_user_role header id_text body log db_now =
        auth_middleware parse parse_uuid j header
          (λ ctx. guarded admins ctx (handle_set_user_role ctx id_text body log db_now))

    unfoldable pub post_moderation :
        String → String → Body ModerateEventRequest → ℕ → ℕ → ℕ → ℕ → Handler String
    unfolding auth_middleware guarded handle_moderate_event
    post_moderation header id_text body log note now db_now =
        auth_middleware parse parse_uuid j header
          (λ ctx. guarded admins ctx (handle_moderate_event ctx id_text body log note now db_now))
