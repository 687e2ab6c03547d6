-- ===== src/Events/Repository.antt =====
-- events/repository/postgres.go: all methods but `List` and `Update`; `Service.Create` of
-- events/service/service.go.
use senior_project.Common.{
  ⊤, ℕ, String, Bool, false, Option, none, some, List, ◌∷◌, ltb, ◌==◌, first_where, count_where,
  update_where, delete_where,
}
use senior_project.Errors.{not_found, violation}
use senior_project.Tables.{
  Database, Event, EventStatus, ModerationStatus, Ticket, Payment, UserRow, ModerationLog,
}
use senior_project.Sql.{Action, pure, reading, or_raise, ◌>>=◌, ◌>>◌, raise_if, writing, statement}
use senior_project.Ticketing.Statements.{event_is, is_user}

-- A foreign key to `users(id)` that may be NULL.
abbrev pub dangling : Option ℕ → List UserRow → Bool
dangling none users = false
dangling (some k) users = count_where (is_user k) users == 0

-- The row of INSERT: `location` is '' when omitted, and the columns that the statement leaves out
-- have their defaults.
abbrev pub inserted : ℕ → Event → ℕ → Event
inserted id e db_now = record e {
  id = id;
  location = elim e.location [ none ↦ some "" | some l ↦ some l ];
  moderation_status = ModerationStatus.pending;
  moderated_by = none;
  created_at = db_now;
  updated_at = db_now;
}

-- `Create`, with the tests of the schema; `id` is the new uuid.
unfoldable pub create_row : ℕ → Event → ℕ → Action Event
create_row id e db_now = do
  statement
  raise_if (e.capacity_total == 0) (violation "23514")
  same_id ← reading (λ db. count_where (event_is id) db.events)
  raise_if (ltb 0 same_id) (violation "23505")
  no_organizer ← reading (λ db. dangling e.organizer_id db.users)
  raise_if no_organizer (violation "23503")
  writing (λ db. record db { events = inserted id e db_now ∷ db.events })
  pure (inserted id e db_now)

-- What a caller of `Service.Create` gives.
pub record NewEvent : Type 0 where
  pub title : String
  pub description : String
  pub cover_image_url : String
  pub starts_at : ℕ
  pub location : Option String
  pub end_at : Option ℕ
  pub capacity_total : ℕ

-- The value that `Service.Create` builds; the fields that it leaves at Go's zero value are not
-- written by the INSERT.
abbrev pub published_event : NewEvent → ℕ → Event
published_event n organizer = record {
  id = 0;
  title = n.title;
  description = n.description;
  cover_image_url = n.cover_image_url;
  starts_at = n.starts_at;
  location = n.location;
  end_at = n.end_at;
  capacity_total = n.capacity_total;
  capacity_available = n.capacity_total;
  status = EventStatus.published;
  moderation_status = ModerationStatus.pending;
  moderated_by = none;
  organizer_id = some organizer;
  created_at = 0;
  updated_at = 0;
}

unfoldable pub create_event : ℕ → NewEvent → ℕ → ℕ → Action Event
unfolding create_row
create_event id n organizer db_now = create_row id (published_event n organizer) db_now

unfoldable pub get_event : ℕ → Action Event
get_event id = do
  statement
  row ← reading (λ db. first_where (event_is id) db.events)
  or_raise row not_found

abbrev pub with_cover : String → ℕ → Event → Event
with_cover url db_now e = record e { cover_image_url = url; updated_at = db_now }

unfoldable pub update_cover_image : ℕ → String → ℕ → Action ⊤
update_cover_image id url db_now = do
  statement
  affected ← reading (λ db. count_where (event_is id) db.events)
  writing
      (λ db. record db { events = update_where (event_is id) (with_cover url db_now) db.events })
  raise_if (affected == 0) not_found

abbrev pub moderated : ModerationStatus → ℕ → ℕ → Event → Event
moderated st admin db_now e = record e {
  moderation_status = st;
  moderated_by = some admin;
  updated_at = db_now;
}

-- The foreign key `moderated_by` is tested on a row that the UPDATE reaches.
unfoldable pub update_moderation : ℕ → ModerationStatus → ℕ → ℕ → Action Event
update_moderation id st admin db_now = do
  statement
  row ← reading (λ db. first_where (event_is id) db.events)
  e ← or_raise row not_found
  no_admin ← reading (λ db. dangling (some admin) db.users)
  raise_if no_admin (violation "23503")
  writing (λ db. record db {
    events = update_where (event_is id) (moderated st admin db_now) db.events;
  })
  pure (moderated st admin db_now e)

abbrev pub ticket_for : ℕ → Ticket → Bool
ticket_for id t = t.event_id == id

abbrev pub payment_for : ℕ → Payment → Bool
payment_for id p = p.event_id == id

abbrev pub log_for : ℕ → ModerationLog → Bool
log_for id l = elim l.event_id [ none ↦ false | some k ↦ k == id ]

-- The tables after a DELETE, with the ON DELETE CASCADE of the tables that refer to the event.
abbrev pub without_event : ℕ → Database → Database
without_event id db = record db {
  events = delete_where (event_is id) db.events;
  tickets = delete_where (ticket_for id) db.tickets;
  payments = delete_where (payment_for id) db.payments;
  moderation_logs = delete_where (log_for id) db.moderation_logs;
}

unfoldable pub delete_event : ℕ → Action ⊤
delete_event id = do
  statement
  affected ← reading (λ db. count_where (event_is id) db.events)
  writing (without_event id)
  raise_if (affected == 0) not_found
