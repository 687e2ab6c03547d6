-- ===== src/Ticketing/Wallet.antt =====
-- ticketing/repository/postgres.go: `GetUserTickets`; ticketing/service/service.go: the method of the
-- same name with `overlayTicketExpiry`.
use senior_project.Common.{
  ℕ, String, Bool, Option, none, some, List, [], ◌∷◌, ltb, leb, ◌==◌, ◌&&◌, ◌||◌, if◌then◌else◌,
  first_where, select_where, map,
}
use senior_project.Tables.{Ticket, TicketStatus, Event}
use senior_project.Sql.{Action, pure, reading, ◌>>=◌, ◌>>◌, statement}
use senior_project.Ticketing.Statements.{event_is, holds_seat, is_active, with_status}
use senior_project.Ticketing.Lifecycle.{event_end_instant}

pub record TicketWithEvent : Type 0 where
  pub ticket : Ticket
  pub event_title : String
  pub event_starts_at : ℕ
  pub event_ends_at : Option ℕ
  pub event_location : String

-- `WHERE t.user_id = $1 AND t.status IN ('active', 'used')`
abbrev pub shown_to : ℕ → Ticket → Bool
shown_to user t = t.user_id == user && holds_seat t.status

-- The column `location` is NOT NULL.
abbrev pub with_event : Ticket → Event → TicketWithEvent
with_event t e = record {
  ticket = t;
  event_title = e.title;
  event_starts_at = e.starts_at;
  event_ends_at = e.end_at;
  event_location = elim e.location [ none ↦ "" | some l ↦ l ];
}

-- INNER JOIN events e ON e.id = t.event_id
unfoldable pub joined : List Event → List Ticket → List TicketWithEvent
joined es [] = []
joined es (t ∷ ts) = elim (first_where (event_is t.event_id) es) [
  | none ↦ joined es ts
  | some e ↦ with_event t e ∷ joined es ts
]

-- ORDER BY e.starts_at ASC, t.created_at DESC
abbrev pub comes_first : TicketWithEvent → TicketWithEvent → Bool
comes_first a b =
    ltb a.event_starts_at b.event_starts_at
    || (a.event_starts_at == b.event_starts_at && leb b.ticket.created_at a.ticket.created_at)

unfoldable pub insert_in_order : TicketWithEvent → List TicketWithEvent → List TicketWithEvent
insert_in_order a [] = a ∷ []
insert_in_order a (b ∷ bs) = if comes_first a b then a ∷ b ∷ bs else b ∷ insert_in_order a bs

unfoldable pub in_order : List TicketWithEvent → List TicketWithEvent
unfolding insert_in_order
in_order [] = []
in_order (a ∷ rest) = insert_in_order a (in_order rest)

unfoldable pub get_user_tickets : ℕ → Action (List TicketWithEvent)
unfolding joined in_order
get_user_tickets user = do
  statement
  reading (λ db. in_order (joined db.events (select_where (shown_to user) db.tickets)))

unfoldable pub overlay_ticket_expiry : ℕ → TicketWithEvent → TicketWithEvent
unfolding event_end_instant
overlay_ticket_expiry now r =
    if is_active r.ticket.status && ltb (event_end_instant r.event_starts_at r.event_ends_at) now
    then record r { ticket = with_status TicketStatus.expired r.ticket }
    else r

-- `Service.GetUserTickets`
unfoldable pub list_my_tickets : ℕ → ℕ → Action (List TicketWithEvent)
unfolding get_user_tickets overlay_ticket_expiry
list_my_tickets user now = do
  rows ← get_user_tickets user
  pure (map (overlay_ticket_expiry now) rows)
