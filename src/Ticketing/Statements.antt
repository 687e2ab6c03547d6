-- ===== src/Ticketing/Statements.antt =====
-- ticketing/repository/postgres.go: the statements that its methods send, each with the tests that
-- the schema makes.
use senior_project.Common.{
  ⊤, ℕ, String, ◌-◌, Bool, true, false, ◌&&◌, List, ◌∷◌, ltb, ◌==◌, str_eq, first_where,
  count_where, update_where,
}
use senior_project.Errors.{already_registered, no_rows, violation}
use senior_project.Tables.{Ticket, TicketStatus, Event, UserRow}
use senior_project.Sql.{Action, pure, reading, or_raise, ◌>>=◌, ◌>>◌, raise_if, writing, statement}

-- `status IN ('active', 'used')`: the ticket holds a seat.
abbrev pub holds_seat : TicketStatus → Bool
holds_seat TicketStatus.active = true
holds_seat TicketStatus.used = true
holds_seat _ = false

abbrev pub is_active : TicketStatus → Bool
is_active TicketStatus.active = true
is_active _ = false

-- The WHERE clauses.
abbrev pub event_is : ℕ → Event → Bool
event_is k e = e.id == k

abbrev pub is_user : ℕ → UserRow → Bool
is_user k u = u.id == k

abbrev pub ticket_is : ℕ → Ticket → Bool
ticket_is k t = t.id == k

-- `WHERE id = $1 AND user_id = $2`.
abbrev pub ticket_of : ℕ → ℕ → Ticket → Bool
ticket_of k user t = t.id == k && t.user_id == user

abbrev pub seat_at : ℕ → Ticket → Bool
seat_at event t = t.event_id == event && holds_seat t.status

abbrev pub seat_of : ℕ → ℕ → Ticket → Bool
seat_of event user t = t.event_id == event && (t.user_id == user && holds_seat t.status)

abbrev pub qr_is : String → Ticket → Bool
qr_is qr t = str_eq t.qr_hash_hex qr

-- INSERT … ON CONFLICT (event_id, user_id) WHERE (status IN ('active', 'used')) DO NOTHING RETURNING.
-- The unique index that the clause names is tested first; the primary key, the index on the hash and
-- the foreign keys raise their errors.
unfoldable pub insert_ticket : Ticket → Action Ticket
insert_ticket t = do
  statement
  held ← reading (λ db. count_where (seat_of t.event_id t.user_id) db.tickets)
  raise_if (ltb 0 held) already_registered
  same_id ← reading (λ db. count_where (ticket_is t.id) db.tickets)
  raise_if (ltb 0 same_id) (violation "23505")
  same_hash ← reading (λ db. count_where (qr_is t.qr_hash_hex) db.tickets)
  raise_if (ltb 0 same_hash) (violation "23505")
  user ← reading (λ db. count_where (is_user t.user_id) db.users)
  raise_if (user == 0) (violation "23503")
  writing (λ db. record db { tickets = t ∷ db.tickets })
  pure t

-- `UPDATE events SET capacity_available = capacity_available - 1 … AND capacity_available > 0`.
abbrev pub take_seat : ℕ → Event → Event
take_seat db_now e = record e { capacity_available = e.capacity_available - 1; updated_at = db_now }

abbrev pub has_seat : ℕ → Event → Bool
has_seat event e = e.id == event && ltb 0 e.capacity_available

-- It returns `RowsAffected`.
unfoldable pub decrement_capacity : ℕ → ℕ → Action ℕ
decrement_capacity event db_now = do
  statement
  affected ← reading (λ db. count_where (has_seat event) db.events)
  writing (λ db. record db { events = update_where (has_seat event) (take_seat db_now) db.events })
  pure affected

-- `UPDATE tickets SET status = 'cancelled' WHERE id = $2 AND user_id = $3 AND status = 'active'`.
abbrev pub active_of : ℕ → ℕ → Ticket → Bool
active_of ticket user t = t.id == ticket && (t.user_id == user && is_active t.status)

abbrev pub with_status : TicketStatus → Ticket → Ticket
with_status st t = record t { status = st }

unfoldable pub cancel_active : ℕ → ℕ → Action ℕ
cancel_active ticket user = do
  statement
  affected ← reading (λ db. count_where (active_of ticket user) db.tickets)
  writing (λ db. record db {
    tickets = update_where (active_of ticket user) (with_status TicketStatus.cancelled) db.tickets;
  })
  pure affected

-- `UPDATE tickets SET status = 'used' WHERE id = $2 AND status = 'active'`.
abbrev pub active_ticket : ℕ → Ticket → Bool
active_ticket ticket t = t.id == ticket && is_active t.status

unfoldable pub mark_used : ℕ → Action ⊤
mark_used ticket = do
  statement
  writing (λ db. record db {
    tickets = update_where (active_ticket ticket) (with_status TicketStatus.used) db.tickets;
  })

-- The seats of an event that are taken: `SELECT COUNT(*) FROM tickets t WHERE t.event_id = e.id AND
-- t.status IN ('active','used')`.
abbrev pub occupied : ℕ → List Ticket → ℕ
occupied event ts = count_where (seat_at event) ts

-- `capacity_available = GREATEST(0, e.capacity_total - (…))`: subtraction on ℕ stops at 0 too.
abbrev pub recomputed : ℕ → ℕ → Event → Event
recomputed taken db_now e = record e {
  capacity_available = e.capacity_total - taken;
  updated_at = db_now;
}

unfoldable pub recompute_capacity : ℕ → ℕ → Action ⊤
recompute_capacity event db_now = do
  statement
  writing (λ db. record db {
    events =
        update_where (event_is event) (recomputed (occupied event db.tickets) db_now) db.events;
  })

-- `SELECT … FROM tickets WHERE id = $1`, to answer with the row as it now is.
unfoldable pub refresh_ticket : ℕ → Action Ticket
refresh_ticket ticket = do
  statement
  row ← reading (λ db. first_where (ticket_is ticket) db.tickets)
  or_raise row no_rows
