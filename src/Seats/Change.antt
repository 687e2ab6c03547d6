-- ===== src/Seats/Change.antt =====
-- The changes that the methods of ticketing/repository/postgres.go and events/repository/postgres.go
-- may make to the tables, as a relation.
use senior_project.Common.{ℕ, String, ◌≡◌, refl, Bool, ◌∷◌, count_where, update_where}
use senior_project.Tables.{Database, Ticket, Event}
use senior_project.Ticketing.Statements.{event_is}
use senior_project.Ticketing.Effects.{IsAdmitted, registered, recounted, cancelled_in, used_in}
use senior_project.Ticketing.Passes.{IsCancellable, IsAtDoor}
use senior_project.Events.Repository.{NewEvent, published_event, inserted, without_event}
use senior_project.Events.Patch.{EventPatch, patched}
use senior_project.Ticketing.Statements.{occupied}

-- An UPDATE of other columns of an event than its identity and its seats.
pub record KeepsSeats (f : Event → Event) : Type 0 where
  pub same_id : (e : Event) → (f e).id ≡ e.id
  pub same_total : (e : Event) → (f e).capacity_total ≡ e.capacity_total
  pub same_available : (e : Event) → (f e).capacity_available ≡ e.capacity_available

pub data Change (before after : Database) : Type 0 where
  -- Nothing is written to the events and the tickets.
  elsewhere : after.events ≡ before.events → after.tickets ≡ before.tickets → Change before after
  registers :
      (t : Ticket) (e : Event) (db_now : ℕ)
      → IsAdmitted before t e
      → after ≡ registered t db_now before
      → Change before after
  cancels :
      (ticket user now : ℕ) (forced : Bool) (t : Ticket) (e : Event) (db_now : ℕ)
      → IsCancellable before ticket user now forced t e
      → after ≡ recounted (cancelled_in ticket user before.tickets) t.event_id db_now before
      → Change before after
  checks_in :
      (qr : String) (now : ℕ) (t : Ticket) (e : Event) (db_now : ℕ)
      → IsAtDoor before qr now t e
      → after ≡ recounted (used_in t.id before.tickets) t.event_id db_now before
      → Change before after
  creates :
      (id : ℕ) (n : NewEvent) (organizer db_now : ℕ)
      → count_where (event_is id) before.events ≡ 0
      → after ≡ record before {
        events = inserted id (published_event n organizer) db_now ∷ before.events;
      }
      → Change before after
  patches :
      (id : ℕ) (p : EventPatch) (db_now : ℕ)
      → after ≡ record before {
        events =
            update_where
              (event_is id)
              (patched p (occupied id before.tickets) db_now)
              before.events;
      }
      → Change before after
  retouches :
      (id : ℕ) (f : Event → Event)
      → KeepsSeats f
      → after ≡ record before { events = update_where (event_is id) f before.events }
      → Change before after
  deletes : (id : ℕ) → after ≡ without_event id before → Change before after

pub Change-refl : (db : Database) → Change db db
Change-refl db = Change.elsewhere refl refl
