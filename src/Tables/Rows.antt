-- ===== src/Tables/Rows.antt =====
-- The rows of the tables, and the enumerations of their CHECK clauses (ticketing/model/ticket.go,
-- events/model/event.go, payments/model/payment.go, notifications/model/notification.go,
-- auth/model/user.go).
use senior_project.Common.{ℕ, String, Option}

-- `expired` is only ever shown; the table's CHECK admits the other three.
pub data TicketStatus : Type 0 where
  active used cancelled expired : TicketStatus

pub record Ticket : Type 0 where
  pub id : ℕ
  pub event_id : ℕ
  pub user_id : ℕ
  pub status : TicketStatus
  pub qr_hash_hex : String
  pub created_at : ℕ

pub data EventStatus : Type 0 where
  draft published cancelled : EventStatus

pub data ModerationStatus : Type 0 where
  pending approved rejected : ModerationStatus

pub record Event : Type 0 where
  pub id : ℕ
  pub title : String
  pub description : String
  pub cover_image_url : String
  pub starts_at : ℕ
  pub location : Option String
  pub end_at : Option ℕ
  pub capacity_total : ℕ
  pub capacity_available : ℕ
  pub status : EventStatus
  pub moderation_status : ModerationStatus
  pub moderated_by : Option ℕ
  pub organizer_id : Option ℕ
  pub created_at : ℕ
  pub updated_at : ℕ

-- The webhook's payload may hold any text: `other` is one that the table's CHECK refuses.
pub data PaymentStatus : Type 0 where
  pending succeeded failed canceled : PaymentStatus
  other : String → PaymentStatus

pub record Payment : Type 0 where
  pub id : ℕ
  pub user_id : ℕ
  pub event_id : ℕ
  pub amount : ℕ
  pub currency : String
  pub status : PaymentStatus
  pub provider_name : String
  pub provider_ref : String
  pub created_at : ℕ
  pub updated_at : ℕ

pub data NotificationStatus : Type 0 where
  queued processing sent failed : NotificationStatus

pub record NotificationRow : Type 0 where
  pub id : ℕ
  pub kind : String
  pub recipient : String
  pub title : String
  pub body : String
  pub status : NotificationStatus
  pub retry_count : ℕ
  pub created_at : ℕ

pub data Role : Type 0 where
  student organizer admin : Role

pub record UserRow : Type 0 where
  pub id : ℕ
  pub email : String
  pub password_hash : String
  pub role : Role
  pub created_at : ℕ
  pub updated_at : ℕ

pub data RoleStatus : Type 0 where
  active pending : RoleStatus

pub record UserRoleRow : Type 0 where
  pub user_id : ℕ
  pub role : Role
  pub status : RoleStatus

-- A row of admin_moderation_logs (admin/model/admin.go).
pub record ModerationLog : Type 0 where
  pub id : ℕ
  pub admin_user_id : ℕ
  pub event_id : Option ℕ
  pub action : String
  pub reason : Option String
  pub created_at : ℕ

-- `revoked_at` is `none` while the token can still be used.
pub record RefreshToken : Type 0 where
  pub jti : ℕ
  pub user_id : ℕ
  pub expires_at : ℕ
  pub revoked_at : Option ℕ
