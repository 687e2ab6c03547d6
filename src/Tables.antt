-- ===== src/Tables.antt =====
-- The tables of docker/postgres/migrations, one record for each row, with the columns that the
-- repositories read and write; and the Go structs of the model packages, which have the same
-- fields. Identifiers (uuid) and instants (time.Time, timestamptz) are only compared, so both are
-- numbers. A status column is the enumeration of its CHECK clause.
pub mod Rows
pub use Rows.*
use senior_project.Common.{List, []}

-- The database that the repositories share.
pub record Database : Type 0 where
  pub users : List UserRow
  pub user_roles : List UserRoleRow
  pub refresh_tokens : List RefreshToken
  pub events : List Event
  pub tickets : List Ticket
  pub payments : List Payment
  pub notifications : List NotificationRow
  pub moderation_logs : List ModerationLog

-- The tables as the migrations create them, before any row is written.
unfoldable pub empty_database : Database
empty_database = record {
  users = [];
  user_roles = [];
  refresh_tokens = [];
  events = [];
  tickets = [];
  payments = [];
  notifications = [];
  moderation_logs = [];
}
