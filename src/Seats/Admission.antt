-- ===== src/Seats/Admission.antt =====
-- What `RegisterTicket` promises.
use senior_project.Common.{
  ℕ, String, ◌+◌, ◌≤◌, ◌≡◌, refl, ◌↔◌, ◌≢◌, ap, true, some, ◌∷◌, arith, first_where,
  first_where-update_where, first_where_holds, count_where-found,
}
use senior_project.Errors.{ok, is_ok}
use senior_project.Tables.{Database, Event}
use senior_project.Sql.{Session, calm}
use senior_project.Sql.Laws.{with_tx_rule, with_tx-calm, statement-calm}
use senior_project.Ticketing.Statements.{
  event_is, has_seat, take_seat, occupied, insert_ticket, decrement_capacity,
}
use senior_project.Ticketing.Registration.{register_ticket, register_body, check_published}
use senior_project.Ticketing.Effects.{new_ticket, IsAdmitted, registered, register_body-ok}
use senior_project.Seats.Invariant.{IsConsistent}

module _ (user event ticket : ℕ) (qr : String) (now db_now : ℕ) (s : Session) where
  -- A registration that answers with a ticket, whatever fails around it, was admitted, answers with
  -- the new ticket, and has written it and taken one seat.
  pub register_ticket-ok :
      is_ok (register_ticket user event ticket qr now db_now s).0 ≡ true
      → let t = new_ticket user event ticket qr now in
        (e : Event) × IsAdmitted s.db t e
        × ((register_ticket user event ticket qr now db_now s).0 ≡ ok t)
        × ((register_ticket user event ticket qr now db_now s).1.db ≡ registered t db_now s.db)
  unfolding register_ticket
  register_ticket-ok =
      let t = new_ticket user event ticket qr now in
      with_tx_rule
        (λ r db.
          is_ok r ≡ true
          → (e : Event) × IsAdmitted s.db t e × (r ≡ ok t) × (db ≡ registered t db_now s.db))
        (register_body user event ticket qr now db_now) s (λ e h. cc)
        (λ begun same h _. rw (← same) (register_body-ok user event ticket qr now db_now begun h))

admitted_body :
    (user event ticket : ℕ) (qr : String) (now db_now : ℕ) (db : Database) (e : Event)
    → let t = new_ticket user event ticket qr now in
      IsAdmitted db t e
      → register_body user event ticket qr now db_now (calm db)
        ≡ (ok t, calm (registered t db_now db))
unfolding register_body check_published insert_ticket decrement_capacity
admitted_body user event ticket qr now db_now db e admitted =
    let t = new_ticket user event ticket qr now in
    ground (
      arith,
      statement-calm db,
      statement-calm (record db { tickets = t ∷ db.tickets }),
      first_where_holds (event_is event) db.events admitted.found,
      count_where-found (has_seat event) (event_is event) db.events e admitted.found,
    )

register_ticket_admitted :
    (user event ticket : ℕ) (qr : String) (now db_now : ℕ) (db : Database) (e : Event)
    → let t = new_ticket user event ticket qr now in
      IsAdmitted db t e
      → register_ticket user event ticket qr now db_now (calm db)
        ≡ (ok t, calm (registered t db_now db))
unfolding register_ticket
register_ticket_admitted user event ticket qr now db_now db e admitted =
    let t = new_ticket user event ticket qr now in
    with_tx-calm (register_body user event ticket qr now db_now) db t (registered t db_now db)
      (admitted_body user event ticket qr now db_now db e admitted)

-- With no fault, `RegisterTicket` answers with a ticket exactly when the event is there, published,
-- approved, not yet started and has a seat left, the user is known and holds no seat of it, and the
-- new id and hash are new; it then answers with the new ticket, stores it, and takes one seat from
-- the event.
pub register_ticket_iff :
    (user event ticket : ℕ) (qr : String) (now db_now : ℕ) (db : Database)
    → let t = new_ticket user event ticket qr now in
      let answer = register_ticket user event ticket qr now db_now (calm db) in
      ((is_ok answer.0 ≡ true) ↔ ((e : Event) × IsAdmitted db t e))
      × (is_ok answer.0 ≡ true → answer ≡ (ok t, calm (registered t db_now db)))
register_ticket_iff user event ticket qr now db_now db =
    let through = register_ticket_admitted user event ticket qr now db_now db in
    let back = register_ticket-ok user event ticket qr now db_now (calm db) in
    (
      (
        λ h. ((back h).0, (back h).1),
        λ admitted. ap (λ x. is_ok x.0) (through admitted.0 admitted.1),
      ),
      λ h. through (back h).0 (back h).1,
    )

-- From consistent tables, and whatever fails around it, a registration that answers with a ticket
-- takes exactly one seat of its event and leaves those of the other events; the seat was there: not
-- more seats are taken afterwards than the event has.
pub register_ticket-seats :
    (user event ticket : ℕ) (qr : String) (now db_now : ℕ) (s : Session)
    → IsConsistent s.db
    → is_ok (register_ticket user event ticket qr now db_now s).0 ≡ true
    → let after = (register_ticket user event ticket qr now db_now s).1.db in
      (e : Event) × (first_where (event_is event) s.db.events ≡ some e)
      × (first_where (event_is event) after.events ≡ some (take_seat db_now e))
      × (occupied event after.tickets ≡ occupied event s.db.tickets + 1)
      × (occupied event after.tickets ≤ e.capacity_total)
      × ((k : ℕ) → k ≢ event → occupied k after.tickets ≡ occupied k s.db.tickets)
register_ticket-seats user event ticket qr now db_now s v h =
    let (e, admitted, _, wrote) = register_ticket-ok user event ticket qr now db_now s h in
    let here = first_where_holds (event_is event) s.db.events admitted.found in
    let touched_row =
      first_where-update_where (event_is event) (has_seat event) (take_seat db_now) s.db.events
        (λ x. refl) in
    (
      e,
      admitted.found,
      rw wrote (ground (arith, touched_row, here, admitted.found, admitted.seats_left)),
      rw wrote (ground arith),
      rw wrote (ground (arith, v.seats_add_up event e admitted.found, admitted.seats_left)),
      λ k other. rw wrote (ground arith),
    )
