-- ===== src/Examples/Mail.antt =====
-- A queue of three emails, of which the sender refuses one.
use senior_project.Common.{
  ℕ, ◌≡◌, ◌≤◌, refl, ◌==◌, not, Bool, some, none, [], ◌∷◌, first_where, count_where, arith,
}
use senior_project.Tables.{Database, NotificationRow, NotificationStatus, empty_database}
use senior_project.Sql.{Session, calm, statement, next_fault}
use senior_project.Notifications.Queue.{
  note_is, by_age, insert_by_age, at_most, claimed, dequeue_batch, update_status,
  requeue_after_failure,
}
use senior_project.Notifications.Worker.{
  process_batch, process_all, process_one, after_dequeue, logged,
}
use senior_project.Notifications.Fate.{process_batch-fate}
use senior_project.Notifications.Retries.{is_overtried, process_batch-bounded}

abbrev email : ℕ → ℕ → NotificationStatus → ℕ → NotificationRow
email id retries status at = record {
  id = id;
  kind = "email";
  recipient = "anna@nu.edu.kz";
  title = "Your ticket";
  body = "<p>See you</p>";
  status = status;
  retry_count = retries;
  created_at = at;
}

abbrev mailbox : Database
mailbox = record empty_database {
  notifications =
      email 1 0 NotificationStatus.queued 12
      ∷ email 2 3 NotificationStatus.queued 11
      ∷ email 3 0 NotificationStatus.sent 10
      ∷ [];
}

abbrev takes_all_but : ℕ → NotificationRow → Bool
takes_all_but k n = not (n.id == k)

distinct : (k : ℕ) → count_where (note_is k) mailbox.notifications ≤ 1
unfolding empty_database
distinct k = ground arith

-- The email that was put back three times already fails.
process_batch-fate_example :
    first_where (note_is 2) (process_batch (takes_all_but 2) 0 (calm mailbox)).1.db.notifications
    ≡ some (email 2 3 NotificationStatus.failed 11)
unfolding claimed by_age insert_by_age at_most empty_database
process_batch-fate_example =
    process_batch-fate (takes_all_but 2) 0 mailbox 2 (email 2 3 NotificationStatus.queued 11)
      distinct refl

-- The queue does not answer the second statement.
abbrev flaky : Session
flaky = record { db = mailbox; faults = none ∷ some "timeout" ∷ [] }

process_batch-bounded_example :
    count_where is_overtried (process_batch (takes_all_but 1) 20 flaky).1.db.notifications ≡ 0
process_batch-bounded_example = process_batch-bounded (takes_all_but 1) 20 flaky refl

test-requeued :
    (process_batch (takes_all_but 1) 20 (calm mailbox)).1.db.notifications
    ≡ email 1 1 NotificationStatus.queued 12
      ∷ email 2 3 NotificationStatus.sent 11
      ∷ email 3 0 NotificationStatus.sent 10
      ∷ []
unfolding process_batch process_all process_one after_dequeue logged dequeue_batch update_status
    requeue_after_failure claimed by_age insert_by_age at_most empty_database statement next_fault
test-requeued = refl
