-- ===== src/Payments/Service.antt =====
-- payments/service/service.go: `Initiate` and `Webhook`.
use senior_project.Common.{ℕ, String, true}
use senior_project.Errors.{ticket_not_found, ticket_already_cancelled, Result, ok, err}
use senior_project.Tables.{Payment, PaymentStatus, Ticket}
use senior_project.Sql.{Session, Action, pure, ◌>>=◌}
use senior_project.Ticketing.Queries.{get_by_event_and_user}
use senior_project.Ticketing.Lifecycle.{cancel_ticket}
use senior_project.Payments.Repository.{PaymentRepository}

-- The payment that `Initiate` asks the repository to store.
abbrev pub pending_payment : ℕ → ℕ → ℕ → String → String → Payment
pending_payment user event amount currency ref = record {
  id = 0;
  user_id = user;
  event_id = event;
  amount = amount;
  currency = currency;
  status = PaymentStatus.pending;
  provider_name = "stub";
  provider_ref = ref;
  created_at = 0;
  updated_at = 0;
}

-- `ref` is the new provider reference; the provider's URL is made of it.
unfoldable pub initiate : PaymentRepository → ℕ → ℕ → ℕ → String → String → ℕ → ℕ → Action Payment
initiate repo user event amount currency ref id now =
    repo.create_initiation (pending_payment user event amount currency ref) id now

-- The answer after `CancelTicket`: a ticket that was cancelled already is no error.
unfoldable pub after_cancel : Payment → Result Ticket × Session → Result Payment × Session
after_cancel p (ok t, s) = (ok p, s)
after_cancel p (err ticket_already_cancelled, s) = (ok p, s)
after_cancel p (err e, s) = (err e, s)

-- The answer after the ticket is looked up: no ticket, nothing to cancel.
unfoldable pub after_lookup : Payment → ℕ → ℕ → Result Ticket × Session → Result Payment × Session
unfolding after_cancel
after_lookup p now db_now (ok t, s) =
    after_cancel p (cancel_ticket p.user_id t.id now true db_now s)
after_lookup p now db_now (err ticket_not_found, s) = (ok p, s)
after_lookup p now db_now (err e, s) = (err e, s)

unfoldable pub release_seat : Payment → ℕ → ℕ → Action Payment
unfolding after_lookup
release_seat p now db_now s =
    after_lookup p now db_now (get_by_event_and_user p.event_id p.user_id s)

unfoldable pub settle : PaymentStatus → Payment → ℕ → ℕ → Action Payment
unfolding release_seat
settle PaymentStatus.failed p now db_now = release_seat p now db_now
settle PaymentStatus.canceled p now db_now = release_seat p now db_now
settle _ p now db_now = pure p

unfoldable pub webhook : PaymentRepository → String → PaymentStatus → ℕ → ℕ → Action Payment
unfolding settle
webhook repo ref status now db_now = do
  p ← repo.update_status_by_provider_ref ref status now
  settle status p now db_now
