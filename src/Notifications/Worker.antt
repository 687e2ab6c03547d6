-- ===== src/Notifications/Worker.antt =====
-- notifications/service/worker.go: `processBatch`.
use senior_project.Common.{⊤, ℕ, suc, Bool, ltb, if◌then◌else◌, List, [], ◌∷◌}
use senior_project.Errors.{Result, ok, err}
use senior_project.Tables.{NotificationRow, NotificationStatus}
use senior_project.Sql.{Session, Action, pure, ◌>>◌}
use senior_project.Notifications.Queue.{dequeue_batch, update_status, requeue_after_failure}

-- An error that is logged and no more.
unfoldable pub logged : Result ⊤ × Session → Result ⊤ × Session
logged (r, s) = (ok tt, s)

-- `delivered n` is whether `SendEmail` takes the email: what the sender does is not read here.
module _ (delivered : NotificationRow → Bool) where
  -- One turn of the loop.
  unfoldable pub process_one : NotificationRow → Action ⊤
  unfolding logged update_status requeue_after_failure
  process_one n s = logged (
      (if delivered n
          then update_status n.id NotificationStatus.sent
          else if ltb n.retry_count 3
          then requeue_after_failure n.id (suc n.retry_count)
          else update_status n.id NotificationStatus.failed)
        s)

  unfoldable pub process_all : List NotificationRow → Action ⊤
  unfolding process_one
  process_all [] = pure tt
  process_all (n ∷ ns) = process_one n >> process_all ns

  unfoldable pub after_dequeue : Result (List NotificationRow) × Session → Result ⊤ × Session
  unfolding process_all
  after_dequeue (ok batch, s) = process_all batch s
  after_dequeue (err e, s) = (ok tt, s)

  unfoldable pub process_batch : ℕ → Action ⊤
  unfolding after_dequeue dequeue_batch
  process_batch batch_size s = after_dequeue (dequeue_batch batch_size s)
