-- ===== src/Ticketing/Effects.antt =====
-- The tables after each ticket transaction, and what the body of `RegisterTicket` has read and written
-- when it comes to its end.
use senior_project.Common.{
  ℕ, ◌<◌, String, ◌≡◌, inl, inr, true, some, List, ◌∷◌, arith, first_where, count_where,
  update_where, Option-cases,
}
use senior_project.Errors.{ok, is_ok}
use senior_project.Tables.{Database, Ticket, TicketStatus, Event, EventStatus, ModerationStatus}
use senior_project.Sql.{Session, statement}
use senior_project.Sql.Laws.{statement-db}
use senior_project.Ticketing.Statements.{
  event_is, is_user, ticket_is, seat_of, qr_is, has_seat, take_seat, active_of, active_ticket,
  with_status, occupied, recomputed, insert_ticket, decrement_capacity,
}
use senior_project.Ticketing.Registration.{check_published, register_body}

-- The ticket that `RegisterTicket` inserts.
abbrev pub new_ticket : ℕ → ℕ → ℕ → String → ℕ → Ticket
new_ticket user event ticket qr now = record {
  id = ticket;
  event_id = event;
  user_id = user;
  status = TicketStatus.active;
  qr_hash_hex = qr;
  created_at = now;
}

-- The tables after a registration.
abbrev pub registered : Ticket → ℕ → Database → Database
registered t db_now db = record db {
  tickets = t ∷ db.tickets;
  events = update_where (has_seat t.event_id) (take_seat db_now) db.events;
}

-- The tables with new tickets, and the seats of one event counted anew.
abbrev pub recounted : List Ticket → ℕ → ℕ → Database → Database
recounted ts event db_now db = record db {
  tickets = ts;
  events = update_where (event_is event) (recomputed (occupied event ts) db_now) db.events;
}

abbrev pub cancelled_in : ℕ → ℕ → List Ticket → List Ticket
cancelled_in ticket user = update_where (active_of ticket user) (with_status TicketStatus.cancelled)

abbrev pub used_in : ℕ → List Ticket → List Ticket
used_in ticket = update_where (active_ticket ticket) (with_status TicketStatus.used)

-- What `RegisterTicket` has seen when it inserts `t` for the event `e`.
pub record IsAdmitted (db : Database) (t : Ticket) (e : Event) : Type 0 where
  pub found : first_where (event_is t.event_id) db.events ≡ some e
  pub published : e.status ≡ EventStatus.published
  pub approved : e.moderation_status ≡ ModerationStatus.approved
  pub not_started : t.created_at < e.starts_at
  pub seats_left : 0 < e.capacity_available
  pub no_seat_yet : count_where (seat_of t.event_id t.user_id) db.tickets ≡ 0
  pub new_id : count_where (ticket_is t.id) db.tickets ≡ 0
  pub new_hash : count_where (qr_is t.qr_hash_hex) db.tickets ≡ 0
  pub known_user : 0 < count_where (is_user t.user_id) db.users
  pub is_active : t.status ≡ TicketStatus.active

module _ (user event ticket : ℕ) (qr : String) (now db_now : ℕ) (s : Session) where
  -- A registration that ends has seen an open event with a seat, and taken it.
  pub register_body-ok :
      is_ok (register_body user event ticket qr now db_now s).0 ≡ true
      → let t = new_ticket user event ticket qr now in
        (e : Event) × IsAdmitted s.db t e
        × ((register_body user event ticket qr now db_now s).0 ≡ ok t)
        × ((register_body user event ticket qr now db_now s).1.db ≡ registered t db_now s.db)
  unfolding register_body check_published insert_ticket decrement_capacity
  register_body-ok h =
      let s1 = (statement s).1 in
      let s2 = (statement s1).1 in
      let t = new_ticket user event ticket qr now in
      let s3 = record s2 { db = record s2.db { tickets = t ∷ s2.db.tickets } } in
      elim (Option-cases (first_where (event_is event) s.db.events)) [
        | inl e ↦ absurd (ground (arith, statement-db s))
        | inr (e, at) ↦ (
          e,
          record {
            found = at;
            published = ground (arith, statement-db s);
            approved = ground (arith, statement-db s);
            not_started = ground (arith, statement-db s);
            seats_left = ground (arith, statement-db s);
            no_seat_yet = ground (arith, statement-db s, statement-db s1);
            new_id = ground (arith, statement-db s, statement-db s1);
            new_hash = ground (arith, statement-db s, statement-db s1);
            known_user = ground (arith, statement-db s, statement-db s1);
            is_active = ground arith;
          },
          ground (arith, statement-db s),
          ground (arith, statement-db s, statement-db s1, statement-db s3),
        )
      ]
