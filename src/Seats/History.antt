-- ===== src/Seats/History.antt =====
-- Every history of calls keeps the tables consistent.
use senior_project.Common.{ℕ, String, Bool, ◌≡◌, List, [], ◌∷◌}
use senior_project.Tables.{Database, ModerationStatus}
use senior_project.Sql.{Session}
use senior_project.Ticketing.Registration.{register_ticket}
use senior_project.Ticketing.Lifecycle.{cancel_ticket, use_ticket}
use senior_project.Events.Repository.{
  NewEvent, create_event, update_cover_image, update_moderation, delete_event,
}
use senior_project.Events.Patch.{EventPatch, update_event}
use senior_project.Seats.Change.{
  Change, elsewhere, registers, cancels, checks_in, creates, patches, retouches, deletes,
}
use senior_project.Seats.Methods.{
  register_ticket-Change, cancel_ticket-Change, use_ticket-Change, create_event-Change,
  update_event-Change, update_cover_image-Change, update_moderation-Change, delete_event-Change,
}
use senior_project.Seats.Invariant.{IsConsistent}
use senior_project.Seats.Tickets.{
  registered-IsConsistent, cancelled-IsConsistent, checked_in-IsConsistent,
}
use senior_project.Seats.Events.{
  created-IsConsistent, patched-IsConsistent, retouched-IsConsistent, deleted-IsConsistent,
}

-- Tables with the same events and tickets.
elsewhere-IsConsistent :
    (before after : Database)
    → after.events ≡ before.events
    → after.tickets ≡ before.tickets
    → IsConsistent before
    → IsConsistent after
elsewhere-IsConsistent before after e t v = record {
  seats_add_up = rw (e, t) v.seats_add_up;
  one_seat = rw t v.one_seat;
  one_ticket = rw t v.one_ticket;
  one_hash = rw t v.one_hash;
  one_event = rw e v.one_event;
  no_orphans = rw (e, t) v.no_orphans;
  not_expired = rw t v.not_expired;
}

-- Every change of the relation keeps the tables consistent.
pub Change-IsConsistent :
    (before after : Database) → Change before after → IsConsistent before → IsConsistent after
Change-IsConsistent before after (elsewhere e t) v = elsewhere-IsConsistent before after e t v
Change-IsConsistent before after (registers t e db_now seen wrote) v =
    rw wrote (registered-IsConsistent before v t e db_now seen)
Change-IsConsistent before after (cancels ticket user now forced t e db_now seen wrote) v =
    rw wrote (cancelled-IsConsistent before v ticket user now forced t e db_now seen)
Change-IsConsistent before after (checks_in qr now t e db_now seen wrote) v =
    rw wrote (checked_in-IsConsistent before v t db_now)
Change-IsConsistent before after (creates id n organizer db_now fresh wrote) v =
    rw wrote (created-IsConsistent before v id n organizer db_now fresh)
Change-IsConsistent before after (patches id p db_now wrote) v =
    rw wrote (patched-IsConsistent before v id p db_now)
Change-IsConsistent before after (retouches id f keeps wrote) v =
    rw wrote (retouched-IsConsistent before v id f keeps)
Change-IsConsistent before after (deletes id wrote) v = rw wrote (deleted-IsConsistent before v id)

-- A call of one method, with its arguments, the clock of the program and that of the server.
pub data Call : Type 0 where
  register : (user event ticket : ℕ) (qr : String) (now db_now : ℕ) → Call
  cancel : (user ticket now : ℕ) (forced : Bool) (db_now : ℕ) → Call
  check_in : (qr : String) (now db_now : ℕ) → Call
  create : (id : ℕ) (n : NewEvent) (organizer db_now : ℕ) → Call
  patch : (id : ℕ) (p : EventPatch) (db_now : ℕ) → Call
  cover : (id : ℕ) (url : String) (db_now : ℕ) → Call
  moderate : (id : ℕ) (st : ModerationStatus) (admin db_now : ℕ) → Call
  delete : (id : ℕ) → Call

-- The session after a call; its answer goes to the caller.
unfoldable pub after_call : Call → Session → Session
after_call (register user event ticket qr now db_now) s =
    (register_ticket user event ticket qr now db_now s).1
after_call (cancel user ticket now forced db_now) s =
    (cancel_ticket user ticket now forced db_now s).1
after_call (check_in qr now db_now) s = (use_ticket qr now db_now s).1
after_call (create id n organizer db_now) s = (create_event id n organizer db_now s).1
after_call (patch id p db_now) s = (update_event id p db_now s).1
after_call (cover id url db_now) s = (update_cover_image id url db_now s).1
after_call (moderate id st admin db_now) s = (update_moderation id st admin db_now s).1
after_call (delete id) s = (delete_event id s).1

unfoldable pub after_calls : List Call → Session → Session
unfolding after_call
after_calls [] s = s
after_calls (c ∷ cs) s = after_calls cs (after_call c s)

-- Each call makes a change of the relation, under any faults.
pub after_call-Change : (c : Call) (s : Session) → Change s.db (after_call c s).db
unfolding after_call
after_call-Change (register user event ticket qr now db_now) s =
    register_ticket-Change user event ticket qr now db_now s
after_call-Change (cancel user ticket now forced db_now) s =
    cancel_ticket-Change user ticket now forced db_now s
after_call-Change (check_in qr now db_now) s = use_ticket-Change qr now db_now s
after_call-Change (create id n organizer db_now) s = create_event-Change id n organizer db_now s
after_call-Change (patch id p db_now) s = update_event-Change id p db_now s
after_call-Change (cover id url db_now) s = update_cover_image-Change id url db_now s
after_call-Change (moderate id st admin db_now) s = update_moderation-Change id st admin db_now s
after_call-Change (delete id) s = delete_event-Change id s

after_calls-keep :
    (cs : List Call) (s : Session) → IsConsistent s.db → IsConsistent (after_calls cs s).db
unfolding after_calls
after_calls-keep [] s v = v
after_calls-keep (c ∷ cs) s v =
    after_calls-keep cs (after_call c s)
      (Change-IsConsistent s.db (after_call c s).db (after_call-Change c s) v)

-- From consistent tables every sequence of calls of the ticket and event repositories, whichever of
-- their statements fail, leads to consistent tables: an event's `capacity_available` is its total
-- less the active and used tickets (0 where they are more), a user holds at most one seat of an
-- event, ids and hashes are unique, and no ticket is without its event.
pub after_calls-IsConsistent :
    (cs : List Call) (s : Session) → IsConsistent s.db → IsConsistent (after_calls cs s).db
after_calls-IsConsistent cs s v = after_calls-keep cs s v
