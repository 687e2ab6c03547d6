-- ===== src/Examples/World.antt =====
-- Small tables: two students, an organizer, an admin and an event with one seat.
use senior_project.Common.{
  ℕ, String, ◌≡◌, refl, true, false, first_where, some, none, List, [], ◌∷◌,
}
use senior_project.Errors.{err, is_ok, driver}
use senior_project.Tables.{
  Database, Ticket, TicketStatus, Event, ModerationStatus, Payment, PaymentStatus, UserRow, Role,
  empty_database,
}
use senior_project.Sql.{Session, calm, statement, next_fault, commit, finish_tx, run_tx, with_tx}
use senior_project.Ticketing.Statements.{
  event_is, ticket_is, qr_is, with_status, insert_ticket, decrement_capacity, mark_used,
  cancel_active, recompute_capacity, refresh_ticket,
}
use senior_project.Ticketing.Registration.{register_body, register_ticket, check_published}
use senior_project.Ticketing.Lifecycle.{
  cancel_ticket, cancel_body, cancel_writes, use_ticket, use_body, use_writes, event_end_instant,
}
use senior_project.Events.Repository.{
  NewEvent, inserted, published_event, create_event, create_row, update_moderation,
}
use senior_project.Seats.Invariant.{IsConsistent, empty_database-IsConsistent}
use senior_project.Seats.History.{Call, after_call, after_calls, after_calls-IsConsistent}
use senior_project.Ticketing.Wallet.{overlay_ticket_expiry, with_event}

abbrev pub user_row : ℕ → String → Role → UserRow
user_row id email role = record {
  id = id;
  email = email;
  password_hash = "h";
  role = role;
  created_at = 1;
  updated_at = 1;
}

-- Two students, an organizer and an admin.
abbrev pub start : Database
start = record empty_database {
  users =
      user_row 7 "anna@nu.edu.kz" Role.student
      ∷ user_row 8 "bek@nu.edu.kz" Role.student
      ∷ user_row 3 "club@nu.edu.kz" Role.organizer
      ∷ user_row 4 "admin@nu.edu.kz" Role.admin
      ∷ [];
}

pub start-IsConsistent : IsConsistent start
unfolding empty_database
start-IsConsistent = record {
  seats_add_up = empty_database-IsConsistent.seats_add_up;
  one_seat = empty_database-IsConsistent.one_seat;
  one_ticket = empty_database-IsConsistent.one_ticket;
  one_hash = empty_database-IsConsistent.one_hash;
  one_event = empty_database-IsConsistent.one_event;
  no_orphans = empty_database-IsConsistent.no_orphans;
  not_expired = empty_database-IsConsistent.not_expired;
}

abbrev pub concert : NewEvent
concert = record {
  title = "Concert";
  description = "In the hall";
  cover_image_url = "";
  starts_at = 100;
  location = none;
  end_at = some 200;
  capacity_total = 1;
}

-- The organizer creates the event, the admin approves it.
abbrev pub opening : List Call
opening = Call.create 1 concert 3 10 ∷ Call.moderate 1 ModerationStatus.approved 4 11 ∷ []

abbrev pub open_world : Database
open_world = (after_calls opening (calm start)).db

-- Anna takes the only seat.
abbrev pub taken_world : Database
taken_world = (after_calls (Call.register 7 1 20 "aa" 50 51 ∷ []) (calm open_world)).db

abbrev pub the_event : Event
the_event = record (inserted 1 (published_event concert 3) 10) {
  moderation_status = ModerationStatus.approved;
  moderated_by = some 4;
  updated_at = 11;
}

abbrev pub the_ticket : Ticket
the_ticket = record {
  id = 20;
  event_id = 1;
  user_id = 7;
  status = TicketStatus.active;
  qr_hash_hex = "aa";
  created_at = 50;
}

test-open : open_world.events ≡ the_event ∷ []
unfolding after_calls after_call create_event create_row update_moderation empty_database statement
    next_fault
test-open = refl

test-taken : taken_world.tickets ≡ the_ticket ∷ []
unfolding after_calls after_call create_event create_row update_moderation empty_database statement
    next_fault register_ticket register_body check_published insert_ticket decrement_capacity
    with_tx run_tx finish_tx commit
test-taken = refl

-- Bek finds no seat, Anna gives hers back, Bek takes it and is let in.
abbrev pub day : List Call
day =
    Call.register 7 1 20 "aa" 50 51
    ∷ Call.register 8 1 21 "bb" 52 53
    ∷ Call.cancel 7 20 60 false 61
    ∷ Call.register 8 1 22 "cc" 62 63
    ∷ Call.check_in "cc" 101 102
    ∷ []

pub open_world-IsConsistent : IsConsistent open_world
open_world-IsConsistent = after_calls-IsConsistent opening (calm start) start-IsConsistent

pub taken_world-IsConsistent : IsConsistent taken_world
taken_world-IsConsistent =
    after_calls-IsConsistent (Call.register 7 1 20 "aa" 50 51 ∷ []) (calm open_world)
      open_world-IsConsistent

pub registered-is_ok : is_ok (register_ticket 7 1 20 "aa" 50 51 (calm open_world)).0 ≡ true
unfolding after_calls after_call create_event create_row update_moderation empty_database statement
    next_fault register_ticket register_body check_published insert_ticket decrement_capacity
    with_tx run_tx finish_tx commit
registered-is_ok = refl

pub cancelled-is_ok : is_ok (cancel_ticket 7 20 60 false 61 (calm taken_world)).0 ≡ true
unfolding after_calls after_call create_event create_row update_moderation empty_database statement
    next_fault register_ticket register_body check_published insert_ticket decrement_capacity
    with_tx run_tx finish_tx commit cancel_ticket cancel_body cancel_writes cancel_active
    recompute_capacity refresh_ticket
cancelled-is_ok = refl

abbrev pub returned_world : Database
returned_world = (cancel_ticket 7 20 60 false 61 (calm taken_world)).1.db

abbrev pub used_world : Database
used_world = (use_ticket "aa" 120 121 (calm taken_world)).1.db

pub used-is_ok : is_ok (use_ticket "aa" 120 121 (calm taken_world)).0 ≡ true
unfolding after_calls after_call create_event create_row update_moderation empty_database statement
    next_fault register_ticket register_body check_published insert_ticket decrement_capacity
    with_tx run_tx finish_tx commit use_ticket use_body use_writes event_end_instant mark_used
    refresh_ticket recompute_capacity
used-is_ok = refl

pub now_used :
    first_where (ticket_is 20) used_world.tickets ≡ some (with_status TicketStatus.used the_ticket)
unfolding after_calls after_call create_event create_row update_moderation empty_database statement
    next_fault register_ticket register_body check_published insert_ticket decrement_capacity
    with_tx run_tx finish_tx commit use_ticket use_body use_writes event_end_instant mark_used
    refresh_ticket recompute_capacity
now_used = refl

pub was_active : first_where (ticket_is 20) taken_world.tickets ≡ some the_ticket
unfolding after_calls after_call create_event create_row update_moderation empty_database statement
    next_fault register_ticket register_body check_published insert_ticket decrement_capacity
    with_tx run_tx finish_tx commit
was_active = refl

-- The COMMIT of a registration is lost: the fifth statement fails.
abbrev pub lossy : Session
lossy = record {
  db = open_world;
  faults = none ∷ none ∷ none ∷ none ∷ some "connection reset" ∷ [];
}

test-lost :
    with_tx (register_body 7 1 20 "aa" 50 51) lossy
    ≡ (err (driver "connection reset"), calm open_world)
unfolding after_calls after_call create_event create_row update_moderation empty_database statement
    next_fault register_body check_published insert_ticket decrement_capacity with_tx run_tx
    finish_tx commit
test-lost = refl

-- Anna's payment, which the provider calls back about.
abbrev pub the_payment : Payment
the_payment = record {
  id = 30;
  user_id = 7;
  event_id = 1;
  amount = 500;
  currency = "KZT";
  status = PaymentStatus.pending;
  provider_name = "stub";
  provider_ref = "ref-1";
  created_at = 52;
  updated_at = 52;
}

abbrev pub paying_world : Database
paying_world = record taken_world { payments = the_payment ∷ [] }

pub paying_world-IsConsistent : IsConsistent paying_world
paying_world-IsConsistent = record {
  seats_add_up = taken_world-IsConsistent.seats_add_up;
  one_seat = taken_world-IsConsistent.one_seat;
  one_ticket = taken_world-IsConsistent.one_ticket;
  one_hash = taken_world-IsConsistent.one_hash;
  one_event = taken_world-IsConsistent.one_event;
  no_orphans = taken_world-IsConsistent.no_orphans;
  not_expired = taken_world-IsConsistent.not_expired;
}

abbrev pub the_taken_event : Event
the_taken_event = record the_event { capacity_available = 0; updated_at = 51 }

pub scanned : first_where (qr_is "aa") taken_world.tickets ≡ some the_ticket
unfolding after_calls after_call create_event create_row update_moderation empty_database statement
    next_fault register_ticket register_body check_published insert_ticket decrement_capacity
    with_tx run_tx finish_tx commit
scanned = refl

pub held : first_where (event_is 1) taken_world.events ≡ some the_taken_event
unfolding after_calls after_call create_event create_row update_moderation empty_database statement
    next_fault register_ticket register_body check_published insert_ticket decrement_capacity
    with_tx run_tx finish_tx commit
held = refl

pub is_over :
    (overlay_ticket_expiry 300 (with_event the_ticket the_taken_event)).ticket.status
    ≡ TicketStatus.expired
unfolding overlay_ticket_expiry event_end_instant
is_over = refl
