-- ===== src/Events/Listing.antt =====
-- events/repository/postgres.go: `List` with its `EventFilter` (events/repository/interfaces.go).
pub mod Laws
use Prim.Native.String.{◌++◌ as join}
use senior_project.Common.{
  ℕ, zero, suc, String, Bool, true, false, ◌&&◌, Option, none, some, List, leb, ◌==◌, str_eq, ℤ,
  pos, negsuc, trim_space, is_empty_text, if◌then◌else◌, select_where, sort_desc, page,
}
use senior_project.Tables.{Event, ModerationStatus}
use senior_project.Sql.{Action, reading, ◌>>=◌, ◌>>◌, statement}

pub record EventFilter : Type 0 where
  pub query : String
  pub starts_after : Option ℕ
  pub organizer_id : Option ℕ
  pub moderation_status : Option String
  pub starts_before : Option ℕ
  pub require_approved_moderation : Bool
  pub limit : ℤ
  pub offset : ℤ

-- `if filter.Limit <= 0 { filter.Limit = 20 }`
unfoldable pub effective_limit : ℤ → ℕ
effective_limit (pos zero) = 20
effective_limit (pos (suc n)) = suc n
effective_limit (negsuc n) = 20

unfoldable pub effective_offset : ℤ → ℕ
effective_offset (pos n) = n
effective_offset (negsuc n) = 0

-- The texts of the column `moderation_status`, and of the column `status`.
abbrev pub moderation_text : ModerationStatus → String
moderation_text ModerationStatus.pending = "pending"
moderation_text ModerationStatus.approved = "approved"
moderation_text ModerationStatus.rejected = "rejected"

abbrev pub is_approved_row : Event → Bool
is_approved_row e = str_eq (moderation_text e.moderation_status) "approved"

abbrev pub owned_by : ℕ → Option ℕ → Bool
owned_by user none = false
owned_by user (some k) = k == user

-- A clause that is there only where its filter is given.
abbrev pub if_given : {A : Type 0} → Option A → (A → Bool) → Bool
if_given none test = true
if_given (some a) test = test a

abbrev pub if_text : String → (String → Bool) → Bool
if_text text test = if is_empty_text (trim_space text) then true else test (trim_space text)

-- `ilike title pattern` is the operator ILIKE of Postgres.
module _ (ilike : String → String → Bool) where
  -- The WHERE list. A NULL organizer is equal to nobody.
  unfoldable pub matches : EventFilter → Event → Bool
  unfolding trim_space
  matches f e =
      (if f.require_approved_moderation then is_approved_row e else true)
      && (if_given f.organizer_id (λ user. owned_by user e.organizer_id)
          && (if_given f.moderation_status
                (λ text. if_text text (str_eq (moderation_text e.moderation_status)))
              && (if_text f.query (λ text. ilike e.title (join "%" (join text "%")))
                  && (if_given f.starts_after (λ t. leb t e.starts_at)
                      && if_given f.starts_before (λ t. leb e.starts_at t)))))

  -- Postgres may return events with the same start in any order, at each query anew; this is the order of
  -- the table.
  unfoldable pub listed : EventFilter → List Event → List Event
  unfolding matches effective_limit effective_offset
  listed f events =
      page (effective_limit f.limit) (effective_offset f.offset)
        (sort_desc (λ e. e.starts_at) (select_where (matches f) events))

  unfoldable pub list_events : EventFilter → Action (List Event)
  unfolding listed
  list_events f = do statement; reading (λ db. listed f db.events)
