-- ===== src/Payments/Holding.antt =====
-- The ticket that the user of a payment holds for its event.
use senior_project.Common.{
  ℕ, ◌≤◌, ◌≡◌, ◌⊎◌, inl, inr, Bool, true, some, arith, ◌==◌, ◌&&◌, first_where, count_where,
  count_where-update_unique, first_where_holds, count_where-none, count_where-found, count_where-le,
  first_where_unique, Option-cases,
}
use senior_project.Tables.{Database, Ticket, TicketStatus, Event}
use senior_project.Ticketing.Statements.{
  event_is, ticket_is, ticket_of, active_of, seat_of, is_active, with_status,
}
use senior_project.Ticketing.Effects.{recounted, cancelled_in}
use senior_project.Events.Repository.{ticket_for}
use senior_project.Seats.Invariant.{IsConsistent}

-- The user's ticket for the event that could still be used.
abbrev pub active_at : ℕ → ℕ → Ticket → Bool
active_at event user t = t.event_id == event && (t.user_id == user && is_active t.status)

-- Where the seat of a payment is released: the tables with the user's active ticket cancelled.
abbrev pub released : ℕ → Ticket → Database → Database
released db_now t db = recounted (cancelled_in t.id t.user_id db.tickets) t.event_id db_now db

pub active_at-seat_of :
    (event user : ℕ) (t : Ticket) → active_at event user t ≡ true → seat_of event user t ≡ true
active_at-seat_of event user t h = ground arith

pub ticket_of-own : (t : Ticket) → ticket_of t.id t.user_id t ≡ true
ticket_of-own t = ground arith

pub event_known :
    (db : Database)
    → IsConsistent db
    → (q : Ticket → Bool) (t : Ticket) → first_where q db.tickets ≡ some t
    → (e : Event) × (first_where (event_is t.event_id) db.events ≡ some e)
event_known db v q t held = elim (Option-cases (first_where (event_is t.event_id) db.events)) [
  | inl missing ↦ absurd (
      ground (
        arith,
        v.no_orphans t.event_id,
        count_where-none (event_is t.event_id) db.events missing,
        count_where-found (ticket_for t.event_id) q db.tickets t held,
      ))
  | inr found ↦ found
]

pub own_row :
    (db : Database)
    → IsConsistent db
    → (q : Ticket → Bool) (t : Ticket) → first_where q db.tickets ≡ some t
    → (first_where (ticket_is t.id) db.tickets ≡ some t)
      × (first_where (ticket_of t.id t.user_id) db.tickets ≡ some t)
own_row db v q t held = (
  first_where_unique (ticket_is t.id) q db.tickets (v.one_ticket t.id) held (ground arith),
  first_where_unique (ticket_of t.id t.user_id) q db.tickets
      (omega (
        arith,
        v.one_ticket t.id,
        count_where-le (ticket_of t.id t.user_id) (ticket_is t.id) db.tickets (λ x h. ground arith),
      ))
      held (ticket_of-own t),
)

pub held_status :
    (db : Database) (event user : ℕ) (t : Ticket)
    → first_where (seat_of event user) db.tickets ≡ some t
    → (t.event_id ≡ event)
      × (t.user_id ≡ user)
      × ((t.status ≡ TicketStatus.active) ⊎ (t.status ≡ TicketStatus.used))
held_status db event user t held =
    ground (arith, first_where_holds (seat_of event user) db.tickets held)

pub none_active :
    (db : Database)
    → IsConsistent db
    → (t : Ticket) → first_where (ticket_of t.id t.user_id) db.tickets ≡ some t
    → t.status ≡ TicketStatus.used
    → count_where (active_of t.id t.user_id) db.tickets ≡ 0
none_active db v t mine used =
    elim (Option-cases (first_where (active_of t.id t.user_id) db.tickets)) [
      | inl e ↦ count_where-none (active_of t.id t.user_id) db.tickets e
      | inr (x, e) ↦
          let own =
            first_where_unique (ticket_of t.id t.user_id) (active_of t.id t.user_id) db.tickets
              (omega (
                arith,
                v.one_ticket t.id,
                count_where-le (ticket_of t.id t.user_id) (ticket_is t.id) db.tickets
                    (λ x h. ground arith),
              ))
              e in
          ground (
            arith,
            own (ground (arith, first_where_holds (active_of t.id t.user_id) db.tickets e)),
            first_where_holds (active_of t.id t.user_id) db.tickets e,
          )
    ]

pub active_of-ticket_is :
    (ticket user : ℕ) (t : Ticket) → active_of ticket user t ≡ true → ticket_is ticket t ≡ true
active_of-ticket_is ticket user t h = ground arith

pub released-no_active :
    (db : Database)
    → IsConsistent db
    → (event user : ℕ) (t : Ticket) → first_where (seat_of event user) db.tickets ≡ some t
    → t.status ≡ TicketStatus.active
    → count_where (active_at event user) (cancelled_in t.id t.user_id db.tickets) ≡ 0
released-no_active db v event user t held active =
    let q = active_of t.id t.user_id in
    let one : count_where q db.tickets ≤ 1 = omega (
      arith,
      v.one_ticket t.id,
      count_where-le q (ticket_is t.id) db.tickets (active_of-ticket_is t.id t.user_id),
    ) in
    let row =
      first_where_unique q (seat_of event user) db.tickets one held (ground (arith, active)) in
    ground (
      arith,
      count_where-update_unique (active_at event user) q (with_status TicketStatus.cancelled)
          db.tickets {x = t} one row,
      held_status db event user t held,
      v.one_seat event user,
      count_where-le (active_at event user) (seat_of event user) db.tickets
          (active_at-seat_of event user),
    )

pub used-no_active :
    (db : Database)
    → IsConsistent db
    → (event user : ℕ) (t : Ticket) → first_where (seat_of event user) db.tickets ≡ some t
    → t.status ≡ TicketStatus.used
    → count_where (active_at event user) db.tickets ≡ 0
used-no_active db v event user t held used =
    elim (Option-cases (first_where (active_at event user) db.tickets)) [
      | inl e ↦ count_where-none (active_at event user) db.tickets e
      | inr (x, e) ↦
          let row =
            first_where_unique (seat_of event user) (active_at event user) db.tickets
              (v.one_seat event user) e
              (active_at-seat_of event user x
                (first_where_holds (active_at event user) db.tickets e)) in
          ground (arith, row, first_where_holds (active_at event user) db.tickets e)
    ]
