-- ===== src/Events/Handlers.antt =====
-- events/handler/routes.go: the handlers of `/events`, and the routes with their guards.
use senior_project.Common.{
  ⊤, ℕ, String, Bool, true, false, not, Option, none, some, List, [], ◌∷◌, map, str_eq, trim_space,
  if◌then◌else◌,
}
use senior_project.Tables.{Event, Role}
use senior_project.Auth.Roles.{has_role}
use senior_project.Auth.Jwt.{Claims, Jwt}
use senior_project.Http.Errors.{Driver}
use senior_project.Http.Handlers.{
  Handler, Body, call, call_or, call_masked, need_body, refuse, refuse_if, or_refuse, send, ◌>>=◌,
  ◌>>◌, bad_request, unauthorized, denied, invalid_id, broken,
}
use senior_project.Http.Guards.{Context, has_any_role, auth_middleware, guarded, is_plain_organizer}
use senior_project.Events.Repository.{NewEvent, create_event, get_event, delete_event}
use senior_project.Events.Patch.{EventPatch, update_event, or_old}
use senior_project.Events.Listing.{EventFilter, list_events, owned_by, is_approved_row}
use senior_project.Events.Requests.{
  ListQuery, Window, EventDto, EventList, create_rule, update_rule, validated, query_window,
  event_to_dto, ends_too_early,
}

-- The end after the update: the patch's, or the event's.
abbrev pub new_end : Option ℕ → Option ℕ → Option ℕ
new_end none old = old
new_end (some t) old = some t

-- The caller's own events, where the caller is an organizer and no admin.
unfoldable pub not_owner : Context → ℕ → Event → Bool
unfolding is_plain_organizer
not_owner ctx user e = if is_plain_organizer ctx then not (owned_by user e.organizer_id) else false

abbrev pub organizers : List Role
organizers = Role.organizer ∷ Role.admin ∷ []

-- `parse_uuid` is the uuid library's.
module _ (d : Driver) (parse_uuid : String → Option ℕ) where
  -- What update and delete begin with: the event, where the caller may change it.
  unfoldable pub own_event : Context → String → String → Handler (ℕ × Event)
  unfolding call get_event not_owner
  own_event ctx id_text refusal = do
    id ← or_refuse (parse_uuid id_text) (invalid_id "invalid event id")
    refuse_if (not (has_any_role ctx.roles)) (unauthorized "missing role")
    user ← or_refuse ctx.user_id (unauthorized "missing user id")
    e ← call d (get_event id)
    refuse_if (not_owner ctx user e) (denied refusal)
    send (id, e)

  -- `handleDelete` from the call of the service on.
  unfoldable pub remove_event : ℕ × Event → Handler ⊤
  unfolding call_masked delete_event
  remove_event (id, existing) = call_masked d (broken "failed to delete event") (delete_event id)

  unfoldable pub handle_delete : Context → String → Handler ⊤
  unfolding own_event remove_event
  handle_delete ctx id_text =
      own_event ctx id_text "not allowed to delete this event" >>= remove_event

  -- `handleListMine`: the switch over the caller's roles.
  unfoldable pub chosen_organizer : Context → ℕ → String → Handler (Option ℕ)
  unfolding has_role trim_space
  chosen_organizer ctx caller text =
      if has_role ctx.roles Role.admin
      then (if str_eq (trim_space text) "" then send none else (do
        id ← or_refuse (parse_uuid (trim_space text)) (bad_request "invalid organizer_id")
        send (some id)))
      else if has_role ctx.roles Role.organizer
      then send (some caller)
      else refuse (denied "forbidden")

module _ (d : Driver) (uuid_text : ℕ → String) (parse_uuid : String → Option ℕ) where
  unfoldable pub handle_get_by_id : String → Handler EventDto
  unfolding call get_event event_to_dto
  handle_get_by_id id_text = do
    id ← or_refuse (parse_uuid id_text) (invalid_id "invalid event id")
    e ← call d (get_event id)
    refuse_if (not (is_approved_row e))
        (record { status = 404; code = "NOT_FOUND"; message = "event not found" })
    send (event_to_dto uuid_text e)

-- `uuid_text` and `parse_uuid` are the uuid library's, `ilike` is Postgres', `parse_time` is
-- `time.Parse`, and `rule_text` is the validator's text of a broken rule.
module _ (d : Driver) (uuid_text : ℕ → String) (parse_uuid : String → Option ℕ)
    (ilike : String → String → Bool) (parse_time : String → Option ℕ) (rule_text : String) where
  unfoldable pub handle_create : Context → Body NewEvent → ℕ → ℕ → Handler EventDto
  unfolding validated create_rule call_or create_event event_to_dto
  handle_create ctx body id db_now = do
    req ← need_body (validated create_rule rule_text body)
    organizer ← or_refuse ctx.user_id (unauthorized "missing user id")
    e ← call_or (broken "failed to create event") (create_event id req organizer db_now)
    send (event_to_dto uuid_text e)

  -- The answer of both lists.
  unfoldable pub send_list : EventFilter → Handler EventList
  unfolding call_or list_events event_to_dto
  send_list filter = do
    items ← call_or (broken "failed to list events") (list_events ilike filter)
    send (record {
      items = map (event_to_dto uuid_text) items;
      limit = filter.limit;
      offset = filter.offset;
    })

  abbrev pub public_filter : ListQuery → Window → EventFilter
  public_filter query w = record {
    query = query.q;
    starts_after = w.starts_after;
    organizer_id = none;
    moderation_status = none;
    starts_before = w.starts_before;
    require_approved_moderation = true;
    limit = w.limit;
    offset = w.offset;
  }

  unfoldable pub handle_list : ListQuery → Handler EventList
  unfolding query_window send_list
  handle_list query = do w ← query_window parse_time query; send_list (public_filter query w)

  unfoldable pub handle_list_mine : Context → ListQuery → Handler EventList
  unfolding query_window send_list chosen_organizer
  handle_list_mine ctx query = do
    w ← query_window parse_time query
    caller ← or_refuse ctx.user_id (unauthorized "missing user id")
    organizer ← chosen_organizer d parse_uuid ctx caller query.organizer_id
    send_list (record (public_filter query w) {
      organizer_id = organizer;
      require_approved_moderation = false;
    })

  -- `handleUpdate` from the decoding of the body on.
  unfoldable pub modify_event : Body EventPatch → ℕ → ℕ × Event → Handler EventDto
  unfolding validated update_rule call_masked update_event event_to_dto
  modify_event body db_now (id, existing) = do
    req ← need_body (validated update_rule rule_text body)
    refuse_if
        (ends_too_early (or_old req.starts_at existing.starts_at)
          (new_end req.end_at existing.end_at))
        (bad_request "end_at must be after starts_at")
    e ← call_masked d (broken "failed to update event") (update_event id req db_now)
    send (event_to_dto uuid_text e)

  unfoldable pub handle_update : Context → String → Body EventPatch → ℕ → Handler EventDto
  unfolding own_event modify_event
  handle_update ctx id_text body db_now =
      own_event d parse_uuid ctx id_text "not allowed to modify this event"
      >>= modify_event body db_now

  -- The routes: `header` is Authorization, `parse` the JWT library's.
  module _ (parse : String → String → Option Claims) (j : Jwt) where
    unfoldable pub post_event : String → Body NewEvent → ℕ → ℕ → Handler EventDto
    unfolding auth_middleware guarded handle_create
    post_event header body id db_now =
        auth_middleware parse parse_uuid j header
          (λ ctx. guarded organizers ctx (handle_create ctx body id db_now))

    unfoldable pub get_my_events : String → ListQuery → Handler EventList
    unfolding auth_middleware guarded handle_list_mine
    get_my_events header query =
        auth_middleware parse parse_uuid j header
          (λ ctx. guarded organizers ctx (handle_list_mine ctx query))

    unfoldable pub put_event : String → String → Body EventPatch → ℕ → Handler EventDto
    unfolding auth_middleware guarded handle_update
    put_event header id_text body db_now =
        auth_middleware parse parse_uuid j header
          (λ ctx. guarded organizers ctx (handle_update ctx id_text body db_now))

module _ (d : Driver) (parse_uuid : String → Option ℕ) (parse : String → String → Option Claims)
    (j : Jwt) where
  unfoldable pub delete_event_route : String → String → Handler ⊤
  unfolding auth_middleware guarded handle_delete
  delete_event_route header id_text =
      auth_middleware parse parse_uuid j header
        (λ ctx. guarded organizers ctx (handle_delete d parse_uuid ctx id_text))
