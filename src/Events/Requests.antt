-- ===== src/Events/Requests.antt =====
-- events/handler/dto.go and the parts of events/handler/routes.go that read a request: the rules of
-- `RegisterStructValidation`, the query of a list, and `eventToDTO`.
use senior_project.Common.{
  ℕ, String, Bool, false, not, ltb, Option, none, some, List, str_eq, atoi, ℤ, pos, within,
  if◌then◌else◌,
}
use senior_project.Tables.{Event, EventStatus}
use senior_project.Http.Errors.{Failure}
use senior_project.Http.Handlers.{
  Handler, Body, decoded, invalid, or_refuse, send, ◌>>=◌, bad_request,
}
use senior_project.Events.Repository.{NewEvent}
use senior_project.Events.Patch.{EventPatch}
use senior_project.Events.Listing.{moderation_text}

-- `CreateEventRequestDTO` has the fields of a `NewEvent`, and `UpdateEventRequestDTO` those of an
-- `EventPatch`: the tag `oneof=draft published cancelled` leaves no other status.

-- `end_at` is given and not after the start.
abbrev pub ends_too_early : ℕ → Option ℕ → Bool
ends_too_early starts_at none = false
ends_too_early starts_at (some end_at) = not (ltb starts_at end_at)

unfoldable pub create_rule : NewEvent → Bool
create_rule req = ends_too_early req.starts_at req.end_at

-- Only where both are in the request.
unfoldable pub update_rule : EventPatch → Bool
update_rule req = elim req.starts_at [ none ↦ false | some t ↦ ends_too_early t req.end_at ]

-- The validator runs the rule after the tags; `text` is its error.
unfoldable pub validated : {A : Type 0} → (A → Bool) → String → Body A → Body A
validated broken text (decoded a) = if broken a then invalid text else decoded a
validated broken text (invalid other) = invalid other

-- The texts of `r.URL.Query()`; a key that is missing has the empty text.
pub record ListQuery : Type 0 where
  pub q : String
  pub limit : String
  pub offset : String
  pub starts_after : String
  pub starts_before : String
  pub organizer_id : String

-- A number of the query between `low` and `high`, and 0 where there is none.
unfoldable pub query_number : ℕ → ℕ → String → Failure → Handler ℤ
unfolding atoi
query_number low high text f =
    if str_eq text ""
    then send (pos 0)
    else (do v ← or_refuse (atoi text) f; n ← or_refuse (within low high v) f; send (pos n))

-- An instant of the query; `parse_time` is `time.Parse` with the layout RFC3339.
unfoldable pub query_time : (String → Option ℕ) → String → Failure → Handler (Option ℕ)
query_time parse_time text f =
    if str_eq text "" then send none else (do t ← or_refuse (parse_time text) f; send (some t))

-- What both list handlers read first.
pub record Window : Type 0 where
  pub limit : ℤ
  pub offset : ℤ
  pub starts_after : Option ℕ
  pub starts_before : Option ℕ

unfoldable pub query_window : (String → Option ℕ) → ListQuery → Handler Window
unfolding query_number query_time
query_window parse_time query = do
  limit ← query_number 1 100 query.limit (bad_request "invalid limit")
  offset ← query_number 0 100000 query.offset (bad_request "invalid offset")
  after ← query_time parse_time query.starts_after (bad_request "invalid starts_after")
  before ← query_time parse_time query.starts_before (bad_request "invalid starts_before")
  send (record { limit = limit; offset = offset; starts_after = after; starts_before = before })

abbrev pub status_text : EventStatus → String
status_text EventStatus.draft = "draft"
status_text EventStatus.published = "published"
status_text EventStatus.cancelled = "cancelled"

pub record EventDto : Type 0 where
  pub id : String
  pub title : String
  pub description : String
  pub cover_image_url : String
  pub starts_at : ℕ
  pub location : Option String
  pub end_at : Option ℕ
  pub capacity_total : ℕ
  pub capacity_available : ℕ
  pub status : String
  pub moderation_status : String

unfoldable pub event_to_dto : (ℕ → String) → Event → EventDto
event_to_dto uuid_text e = record {
  id = uuid_text e.id;
  title = e.title;
  description = e.description;
  cover_image_url = e.cover_image_url;
  starts_at = e.starts_at;
  location = e.location;
  end_at = e.end_at;
  capacity_total = e.capacity_total;
  capacity_available = e.capacity_available;
  status = status_text e.status;
  moderation_status = moderation_text e.moderation_status;
}

pub record EventList : Type 0 where
  pub items : List EventDto
  pub limit : ℤ
  pub offset : ℤ
