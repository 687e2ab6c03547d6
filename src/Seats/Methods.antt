-- ===== src/Seats/Methods.antt =====
-- Each method of the ticket and event repositories makes one of the changes of `Seats.Change`, under
-- any faults of the connection.
use senior_project.Common.{
  ℕ, String, ◌≡◌, refl, Bool, ◌⊎◌, inl, inr, arith, Bool-cases, true, false, ap, ◌∷◌, count_where,
  update_where,
}
use senior_project.Errors.{is_ok}
use senior_project.Tables.{Database, Event, ModerationStatus}
use senior_project.Sql.{Session}
use senior_project.Sql.Laws.{statement-db, with_tx_rule}
use senior_project.Ticketing.Statements.{event_is, occupied}
use senior_project.Ticketing.Registration.{register_ticket, register_body}
use senior_project.Ticketing.Lifecycle.{cancel_ticket, cancel_body, use_ticket, use_body}
use senior_project.Ticketing.Effects.{new_ticket, register_body-ok}
use senior_project.Ticketing.Passes.{cancel_body-ok, use_body-ok}
use senior_project.Events.Repository.{
  NewEvent, create_row, create_event, get_event, with_cover, update_cover_image, moderated,
  update_moderation, delete_event, published_event, inserted, without_event,
}
use senior_project.Events.Patch.{EventPatch, patched, send_patch, update_event, is_empty_patch}
use senior_project.Seats.Change.{Change, Change-refl, KeepsSeats}

pub register_ticket-Change :
    (user event ticket : ℕ) (qr : String) (now db_now : ℕ) (s : Session)
    → Change s.db (register_ticket user event ticket qr now db_now s).1.db
unfolding register_ticket
register_ticket-Change user event ticket qr now db_now s =
    with_tx_rule (λ r db. Change s.db db) (register_body user event ticket qr now db_now) s
      (λ e. Change-refl s.db)
      (λ begun same h.
        let (e, admitted, _, wrote) = register_body-ok user event ticket qr now db_now begun h in
        rw (← same)
          (Change.registers (new_ticket user event ticket qr now) e db_now admitted wrote))

pub cancel_ticket-Change :
    (user ticket now : ℕ) (forced : Bool) (db_now : ℕ) (s : Session)
    → Change s.db (cancel_ticket user ticket now forced db_now s).1.db
unfolding cancel_ticket
cancel_ticket-Change user ticket now forced db_now s =
    with_tx_rule (λ r db. Change s.db db) (cancel_body user ticket now forced db_now) s
      (λ e. Change-refl s.db)
      (λ begun same h.
        let (t, e, seen, wrote) = cancel_body-ok user ticket now forced db_now begun h in
        rw (← same) (Change.cancels ticket user now forced t e db_now seen wrote))

pub use_ticket-Change :
    (qr : String) (now db_now : ℕ) (s : Session) → Change s.db (use_ticket qr now db_now s).1.db
unfolding use_ticket
use_ticket-Change qr now db_now s =
    with_tx_rule (λ r db. Change s.db db) (use_body qr now db_now) s (λ e. Change-refl s.db)
      (λ begun same h.
        let (t, e, seen, wrote) = use_body-ok qr now db_now begun h in
        rw (← same) (Change.checks_in qr now t e db_now seen wrote))

-- The statements of the event repository are not in a transaction of their own: each method sends
-- one, which writes or does not.
create_row_wrote :
    (id : ℕ) (e : Event) (db_now : ℕ) (s : Session)
    → is_ok (create_row id e db_now s).0 ≡ true
    → (count_where (event_is id) s.db.events ≡ 0)
      × ((create_row id e db_now s).1.db
          ≡ record s.db { events = inserted id e db_now ∷ s.db.events })
unfolding create_row
create_row_wrote id e db_now s h = ground (arith, statement-db s)

create_row_refused :
    (id : ℕ) (e : Event) (db_now : ℕ) (s : Session)
    → is_ok (create_row id e db_now s).0 ≡ false
    → (create_row id e db_now s).1.db ≡ s.db
unfolding create_row
create_row_refused id e db_now s h = ground (arith, statement-db s)

same_tables : (before after : Database) → after ≡ before → Change before after
same_tables before after h = Change.elsewhere (ap (λ db. db.events) h) (ap (λ db. db.tickets) h)

pub create_event-Change :
    (id : ℕ) (n : NewEvent) (organizer db_now : ℕ) (s : Session)
    → Change s.db (create_event id n organizer db_now s).1.db
unfolding create_event
create_event-Change id n organizer db_now s =
    let e = published_event n organizer in
    elim (Bool-cases (is_ok (create_row id e db_now s).0)) [
      | inl h ↦
          let (new_id, wrote) = create_row_wrote id e db_now s h in
          Change.creates id n organizer db_now new_id wrote
      | inr h ↦ same_tables _ _ (create_row_refused id e db_now s h)
    ]

get_event-db : (id : ℕ) (s : Session) → (get_event id s).1.db ≡ s.db
unfolding get_event
get_event-db id s = ground (arith, statement-db s)

send_patch_wrote :
    (id : ℕ) (p : EventPatch) (db_now : ℕ) (s : Session)
    → is_ok (send_patch id p db_now s).0 ≡ true
    → (send_patch id p db_now s).1.db ≡ record s.db {
      events = update_where (event_is id) (patched p (occupied id s.db.tickets) db_now) s.db.events;
    }
unfolding send_patch
send_patch_wrote id p db_now s h = ground (arith, statement-db s)

send_patch_refused :
    (id : ℕ) (p : EventPatch) (db_now : ℕ) (s : Session)
    → is_ok (send_patch id p db_now s).0 ≡ false
    → (send_patch id p db_now s).1.db ≡ s.db
unfolding send_patch
send_patch_refused id p db_now s h = ground (arith, statement-db s)

send_patch-Change :
    (id : ℕ) (p : EventPatch) (db_now : ℕ) (s : Session)
    → Change s.db (send_patch id p db_now s).1.db
send_patch-Change id p db_now s = elim (Bool-cases (is_ok (send_patch id p db_now s).0)) [
  | inl h ↦ Change.patches id p db_now (send_patch_wrote id p db_now s h)
  | inr h ↦ same_tables _ _ (send_patch_refused id p db_now s h)
]

pub update_event-Change :
    (id : ℕ) (p : EventPatch) (db_now : ℕ) (s : Session)
    → Change s.db (update_event id p db_now s).1.db
unfolding update_event
update_event-Change id p db_now s = elim (Bool-cases (is_empty_patch p)) [
  | inl h ↦ rw h (same_tables _ _ (get_event-db id s))
  | inr h ↦ rw h (send_patch-Change id p db_now s)
]

with_cover-KeepsSeats : (url : String) (db_now : ℕ) → KeepsSeats (with_cover url db_now)
with_cover-KeepsSeats url db_now = record {
  same_id = λ e. refl;
  same_total = λ e. refl;
  same_available = λ e. refl;
}

moderated-KeepsSeats :
    (st : ModerationStatus) (admin db_now : ℕ) → KeepsSeats (moderated st admin db_now)
moderated-KeepsSeats st admin db_now = record {
  same_id = λ e. refl;
  same_total = λ e. refl;
  same_available = λ e. refl;
}

update_cover_image_cases :
    (id : ℕ) (url : String) (db_now : ℕ) (s : Session)
    → let after = (update_cover_image id url db_now s).1.db in
      (after ≡ s.db)
      ⊎ (after
          ≡ record s.db { events = update_where (event_is id) (with_cover url db_now) s.db.events })
unfolding update_cover_image
update_cover_image_cases id url db_now s = ground (arith, statement-db s)

pub update_cover_image-Change :
    (id : ℕ) (url : String) (db_now : ℕ) (s : Session)
    → Change s.db (update_cover_image id url db_now s).1.db
update_cover_image-Change id url db_now s = elim (update_cover_image_cases id url db_now s) [
  | inl h ↦ same_tables _ _ h
  | inr h ↦ Change.retouches id (with_cover url db_now) (with_cover-KeepsSeats url db_now) h
]

update_moderation_cases :
    (id : ℕ) (st : ModerationStatus) (admin db_now : ℕ) (s : Session)
    → let after = (update_moderation id st admin db_now s).1.db in
      (after ≡ s.db)
      ⊎ (after ≡ record s.db {
        events = update_where (event_is id) (moderated st admin db_now) s.db.events;
      })
unfolding update_moderation
update_moderation_cases id st admin db_now s = ground (arith, statement-db s)

pub update_moderation-Change :
    (id : ℕ) (st : ModerationStatus) (admin db_now : ℕ) (s : Session)
    → Change s.db (update_moderation id st admin db_now s).1.db
update_moderation-Change id st admin db_now s =
    elim (update_moderation_cases id st admin db_now s) [
      | inl h ↦ same_tables _ _ h
      | inr h ↦
          Change.retouches id (moderated st admin db_now) (moderated-KeepsSeats st admin db_now) h
    ]

delete_event_cases :
    (id : ℕ) (s : Session)
    → let after = (delete_event id s).1.db in (after ≡ s.db) ⊎ (after ≡ without_event id s.db)
unfolding delete_event
delete_event_cases id s = ground (arith, statement-db s)

pub delete_event-Change : (id : ℕ) (s : Session) → Change s.db (delete_event id s).1.db
delete_event-Change id s = elim (delete_event_cases id s) [
  | inl h ↦ same_tables _ _ h
  | inr h ↦ Change.deletes id h
]
