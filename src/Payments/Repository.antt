-- ===== src/Payments/Repository.antt =====
-- payments/repository/: the interface (interfaces.go), the Postgres repository (postgres.go) and the
-- stub that is wired while payments are off (stub.go).
use senior_project.Common.{
  ℕ, String, Bool, true, false, ◌∷◌, ltb, ◌==◌, str_eq, first_where, count_where, update_where,
}
use senior_project.Errors.{
  provider_ref_exists, payment_not_found, payments_disabled, missing_provider_ref, violation,
}
use senior_project.Tables.{Payment, PaymentStatus}
use senior_project.Sql.{
  Action, pure, raise, reading, or_raise, ◌>>=◌, ◌>>◌, raise_if, writing, statement,
}
use senior_project.Ticketing.Statements.{event_is, is_user}

-- `PaymentRepository`. The new row's uuid and the clock are arguments.
pub record PaymentRepository : Type 0 where
  pub create_initiation : Payment → (id now : ℕ) → Action Payment
  pub get_by_provider_ref : String → Action Payment
  pub update_status_by_provider_ref : String → PaymentStatus → (now : ℕ) → Action Payment

abbrev pub payment_is : ℕ → Payment → Bool
payment_is k p = p.id == k

abbrev pub ref_is : String → Payment → Bool
ref_is ref p = str_eq p.provider_ref ref

-- The CHECK of the column `status`.
abbrev pub is_unknown_status : PaymentStatus → Bool
is_unknown_status (PaymentStatus.other text) = true
is_unknown_status _ = false

abbrev pub initiated : Payment → ℕ → ℕ → Payment
initiated p id now = record p { id = id; created_at = now; updated_at = now }

-- A violation of a unique index, whichever of the two, is taken for a known provider_ref.
unfoldable pub create_initiation : Payment → ℕ → ℕ → Action Payment
create_initiation p id now = do
  raise_if (str_eq p.provider_ref "") missing_provider_ref
  statement
  raise_if (p.amount == 0) (violation "23514")
  raise_if (is_unknown_status p.status) (violation "23514")
  same_id ← reading (λ db. count_where (payment_is id) db.payments)
  raise_if (ltb 0 same_id) provider_ref_exists
  same_ref ← reading (λ db. count_where (ref_is p.provider_ref) db.payments)
  raise_if (ltb 0 same_ref) provider_ref_exists
  user ← reading (λ db. count_where (is_user p.user_id) db.users)
  raise_if (user == 0) (violation "23503")
  event ← reading (λ db. count_where (event_is p.event_id) db.events)
  raise_if (event == 0) (violation "23503")
  writing (λ db. record db { payments = initiated p id now ∷ db.payments })
  pure (initiated p id now)

unfoldable pub get_by_provider_ref : String → Action Payment
get_by_provider_ref ref = do
  statement
  row ← reading (λ db. first_where (ref_is ref) db.payments)
  or_raise row payment_not_found

abbrev pub with_payment_status : PaymentStatus → ℕ → Payment → Payment
with_payment_status st now p = record p { status = st; updated_at = now }

-- UPDATE … RETURNING; the CHECK is made on a row that the UPDATE reaches.
unfoldable pub update_status_by_provider_ref : String → PaymentStatus → ℕ → Action Payment
update_status_by_provider_ref ref st now = do
  statement
  row ← reading (λ db. first_where (ref_is ref) db.payments)
  p ← or_raise row payment_not_found
  raise_if (is_unknown_status st) (violation "23514")
  writing (λ db. record db {
    payments = update_where (ref_is ref) (with_payment_status st now) db.payments;
  })
  pure (with_payment_status st now p)

unfoldable pub postgres : PaymentRepository
unfolding create_initiation get_by_provider_ref update_status_by_provider_ref
postgres = record {
  create_initiation = create_initiation;
  get_by_provider_ref = get_by_provider_ref;
  update_status_by_provider_ref = update_status_by_provider_ref;
}

unfoldable pub stub : PaymentRepository
stub = record {
  create_initiation = λ p id now. raise payments_disabled;
  get_by_provider_ref = λ ref. raise payments_disabled;
  update_status_by_provider_ref = λ ref st now. raise payments_disabled;
}
