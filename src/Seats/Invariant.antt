-- ===== src/Seats/Invariant.antt =====
-- What holds of the events and the tickets between two calls: the seats add up, and the unique
-- indexes and foreign keys of the schema hold.
use senior_project.Common.{
  ℕ, String, ◌-◌, ◌≤◌, ◌≡◌, refl, Bool, true, false, some, List, arith, if◌then◌else◌, first_where,
  count_where, update_where, count_where-update_where, first_where-update_where, Option-cases, inl,
  inr,
}
use senior_project.Tables.{Database, Ticket, TicketStatus, Event, empty_database}
use senior_project.Ticketing.Statements.{event_is, ticket_is, seat_of, qr_is, occupied}
use senior_project.Events.Repository.{ticket_for}

abbrev pub is_expired : TicketStatus → Bool
is_expired TicketStatus.expired = true
is_expired _ = false

pub record IsConsistent (db : Database) : Type 0 where
  -- `capacity_available` is the number of seats that the tickets leave.
  pub seats_add_up :
      (k : ℕ) (e : Event)
      → first_where (event_is k) db.events ≡ some e
      → e.capacity_available ≡ e.capacity_total - occupied k db.tickets
  -- A user holds at most one seat of an event.
  pub one_seat : (event user : ℕ) → count_where (seat_of event user) db.tickets ≤ 1
  pub one_ticket : (k : ℕ) → count_where (ticket_is k) db.tickets ≤ 1
  pub one_hash : (qr : String) → count_where (qr_is qr) db.tickets ≤ 1
  pub one_event : (k : ℕ) → count_where (event_is k) db.events ≤ 1
  -- A ticket belongs to an event.
  pub no_orphans :
      (k : ℕ) → count_where (event_is k) db.events ≡ 0 → count_where (ticket_for k) db.tickets ≡ 0
  -- `expired` is never stored.
  pub not_expired : count_where (λ t. is_expired t.status) db.tickets ≡ 0

pub empty_database-IsConsistent : IsConsistent empty_database
unfolding empty_database
empty_database-IsConsistent = record {
  seats_add_up = λ k e h. cc;
  one_seat = λ event user. omega arith;
  one_ticket = λ k. omega arith;
  one_hash = λ qr. omega arith;
  one_event = λ k. omega arith;
  no_orphans = λ k h. refl;
  not_expired = refl;
}

-- An update of the events that keeps their identity and, row by row, the seats of the new tickets.
module _ (db : Database) (q : Event → Bool) (f : Event → Event)
    (same_id : (e : Event) → (f e).id ≡ e.id) where
  event_is-kept : (k : ℕ) (e : Event) → event_is k (f e) ≡ event_is k e
  event_is-kept k e = rw (same_id e)

  pub one_event-update :
      IsConsistent db → (k : ℕ) → count_where (event_is k) (update_where q f db.events) ≤ 1
  one_event-update v k =
      rw (count_where-update_where (event_is k) q f db.events (λ e _. event_is-kept k e))
        (v.one_event k)

  pub no_orphans-update :
      (ts : List Ticket)
      → IsConsistent db
      → (k : ℕ)
      → (count_where (ticket_for k) db.tickets ≡ 0
          → count_where (event_is k) db.events ≡ 0
          → count_where (ticket_for k) ts ≡ 0)
      → count_where (event_is k) (update_where q f db.events) ≡ 0
      → count_where (ticket_for k) ts ≡ 0
  no_orphans-update ts v k keep h =
      let none_left =
        rw (count_where-update_where (event_is k) q f db.events (λ e _. event_is-kept k e)) at h in
      keep (v.no_orphans k none_left) none_left

  pub seats_add_up-update :
      (ts : List Ticket)
      → ((k : ℕ) (e : Event)
          → first_where (event_is k) db.events ≡ some e
          → let e' = if q e then f e else e in
            e'.capacity_available ≡ e'.capacity_total - occupied k ts)
      → (k : ℕ) (e : Event) → first_where (event_is k) (update_where q f db.events) ≡ some e
      → e.capacity_available ≡ e.capacity_total - occupied k ts
  seats_add_up-update ts keep k e h = elim (Option-cases (first_where (event_is k) db.events)) [
    | inl missing ↦
        ground (arith, first_where-update_where (event_is k) q f db.events (event_is-kept k))
    | inr (old, found) ↦ ground (
      arith,
      first_where-update_where (event_is k) q f db.events (event_is-kept k),
      keep k old found,
    )
  ]
