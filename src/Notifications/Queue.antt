-- ===== src/Notifications/Queue.antt =====
-- notifications/repository/postgres.go. A new uuid and the clock are arguments.
use senior_project.Common.{
  ⊤, ℕ, zero, suc, String, Bool, true, false, ltb, leb, ◌==◌, ◌||◌, if◌then◌else◌, Option, none,
  some, List, [], ◌∷◌, select_where, count_where, update_where,
}
use senior_project.Errors.{no_rows, violation}
use senior_project.Tables.{NotificationRow, NotificationStatus}
use senior_project.Sql.{Action, pure, reading, ◌>>=◌, ◌>>◌, raise_if, writing, statement}

-- `model.Notification` as the callers of `Enqueue` fill it: an empty ID or a zero CreatedAt is `none`.
pub record NewNotification : Type 0 where
  pub id : Option ℕ
  pub kind : String
  pub to : String
  pub title : String
  pub body : String
  pub created_at : Option ℕ

abbrev pub or_else : Option ℕ → ℕ → ℕ
or_else none d = d
or_else (some a) d = a

abbrev pub queued_row : NewNotification → ℕ → ℕ → NotificationRow
queued_row n fresh now = record {
  id = or_else n.id fresh;
  kind = n.kind;
  recipient = n.to;
  title = n.title;
  body = n.body;
  status = NotificationStatus.queued;
  retry_count = 0;
  created_at = or_else n.created_at now;
}

abbrev pub note_is : ℕ → NotificationRow → Bool
note_is k n = n.id == k

unfoldable pub enqueue : NewNotification → ℕ → ℕ → Action ⊤
enqueue n fresh now = do
  statement
  same ← reading (λ db. count_where (note_is (or_else n.id fresh)) db.notifications)
  raise_if (ltb 0 same) (violation "23505")
  writing (λ db. record db { notifications = queued_row n fresh now ∷ db.notifications })

abbrev pub is_queued : NotificationRow → Bool
is_queued n = elim n.status [ NotificationStatus.queued ↦ true | _ ↦ false ]

-- ORDER BY created_at ASC
unfoldable pub insert_by_age : NotificationRow → List NotificationRow → List NotificationRow
insert_by_age n [] = n ∷ []
insert_by_age n (x ∷ xs) =
    if leb n.created_at x.created_at then n ∷ x ∷ xs else x ∷ insert_by_age n xs

unfoldable pub by_age : List NotificationRow → List NotificationRow
unfolding insert_by_age
by_age [] = []
by_age (n ∷ ns) = insert_by_age n (by_age ns)

-- LIMIT
unfoldable pub at_most : ℕ → List NotificationRow → List NotificationRow
at_most zero ns = []
at_most (suc k) [] = []
at_most (suc k) (n ∷ ns) = n ∷ at_most k ns

-- The CTE `claimed`: the oldest queued rows. No other worker holds a lock on them.
unfoldable pub claimed : ℕ → List NotificationRow → List NotificationRow
unfolding by_age at_most
claimed limit rows = at_most limit (by_age (select_where is_queued rows))

abbrev pub is_among : List NotificationRow → NotificationRow → Bool
is_among [] r = false
is_among (n ∷ ns) r = note_is n.id r || is_among ns r

abbrev pub with_note_status : NotificationStatus → NotificationRow → NotificationRow
with_note_status st n = record n { status = st }

-- A limit that is not positive is 20.
abbrev pub or_twenty : ℕ → ℕ
or_twenty limit = if limit == 0 then 20 else limit

unfoldable pub dequeue_batch : ℕ → Action (List NotificationRow)
unfolding claimed
dequeue_batch limit = do
  statement
  batch ← reading (λ db. claimed (or_twenty limit) db.notifications)
  writing (λ db. record db {
    notifications =
        update_where (is_among batch) (with_note_status NotificationStatus.processing)
          db.notifications;
  })
  pure batch

unfoldable pub update_status : ℕ → NotificationStatus → Action ⊤
update_status id st = do
  statement
  affected ← reading (λ db. count_where (note_is id) db.notifications)
  writing (λ db. record db {
    notifications = update_where (note_is id) (with_note_status st) db.notifications;
  })
  raise_if (affected == 0) no_rows

abbrev pub requeued : ℕ → NotificationRow → NotificationRow
requeued retry n = record n { status = NotificationStatus.queued; retry_count = retry }

unfoldable pub requeue_after_failure : ℕ → ℕ → Action ⊤
requeue_after_failure id retry = do
  statement
  affected ← reading (λ db. count_where (note_is id) db.notifications)
  writing (λ db. record db {
    notifications = update_where (note_is id) (requeued retry) db.notifications;
  })
  raise_if (affected == 0) no_rows
