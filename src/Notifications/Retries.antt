-- ===== src/Notifications/Retries.antt =====
-- How often the worker tries an email.
use senior_project.Common.{
  ℕ, suc, inl, inr, ◌≡◌, ◌≤◌, refl, Bool, ltb, List, [], ◌∷◌, arith, count_where, update_where,
  count_where-update_where,
}
use senior_project.Errors.{ok, Result-cases}
use senior_project.Tables.{NotificationRow, NotificationStatus}
use senior_project.Sql.{Session}
use senior_project.Sql.Laws.{statement-db}
use senior_project.Notifications.Queue.{
  note_is, is_among, with_note_status, requeued, or_twenty, claimed, dequeue_batch, update_status,
  requeue_after_failure,
}
use senior_project.Notifications.Worker.{
  logged, process_one, process_all, after_dequeue, process_batch,
}

-- A row that was tried again more often than three times.
abbrev pub is_overtried : NotificationRow → Bool
is_overtried n = ltb 3 n.retry_count

requeue-bounded :
    (q : NotificationRow → Bool) (k : ℕ) (rows : List NotificationRow)
    → k ≤ 3
    → count_where is_overtried rows ≡ 0
    → count_where is_overtried (update_where q (requeued k) rows) ≡ 0
requeue-bounded q k [] le h = refl
requeue-bounded q k (x ∷ rows) le h = ground (arith, requeue-bounded q k rows le)

module _ (delivered : NotificationRow → Bool) where
  process_one-bounded :
      (n : NotificationRow) (s : Session)
      → count_where is_overtried s.db.notifications ≡ 0
      → count_where is_overtried (process_one delivered n s).1.db.notifications ≡ 0
  unfolding process_one logged update_status requeue_after_failure
  process_one-bounded n s h = ground (
    arith,
    h,
    statement-db s,
    requeue-bounded (note_is n.id) (suc n.retry_count) s.db.notifications,
    count_where-update_where is_overtried (note_is n.id) (with_note_status NotificationStatus.sent)
        s.db.notifications (λ x h. refl),
    count_where-update_where is_overtried (note_is n.id)
        (with_note_status NotificationStatus.failed) s.db.notifications (λ x h. refl),
  )

  process_one-ok : (n : NotificationRow) (s : Session) → (process_one delivered n s).0 ≡ ok tt
  unfolding process_one logged
  process_one-ok n s = refl

  process_all-bounded :
      (ns : List NotificationRow) (s : Session)
      → count_where is_overtried s.db.notifications ≡ 0
      → count_where is_overtried (process_all delivered ns s).1.db.notifications ≡ 0
  unfolding process_all
  process_all-bounded [] s h = h
  process_all-bounded (n ∷ ns) s h = ground (
    arith,
    process_one-ok n s,
    process_all-bounded ns (process_one delivered n s).1 (process_one-bounded n s h),
  )

  dequeue-bounded :
      (limit : ℕ) (s : Session)
      → count_where is_overtried s.db.notifications ≡ 0
      → count_where is_overtried (dequeue_batch limit s).1.db.notifications ≡ 0
  unfolding dequeue_batch
  dequeue-bounded limit s h =
      let batch = claimed (or_twenty limit) s.db.notifications in
      ground (
        arith,
        h,
        statement-db s,
        count_where-update_where is_overtried (is_among batch)
            (with_note_status NotificationStatus.processing) s.db.notifications (λ x h. refl),
      )

  -- Whatever the sender takes and whichever statements fail, a run of the worker leaves no email
  -- that was put back more often than three times, if there was none before.
  pub process_batch-bounded :
      (limit : ℕ) (s : Session)
      → count_where is_overtried s.db.notifications ≡ 0
      → count_where is_overtried (process_batch delivered limit s).1.db.notifications ≡ 0
  unfolding process_batch after_dequeue
  process_batch-bounded limit s h = elim (Result-cases (dequeue_batch limit s).0) [
    | inl e ↦ ground (arith, e, dequeue-bounded limit s h)
    | inr (batch, e) ↦
        ground (
          arith,
          e,
          process_all-bounded batch (dequeue_batch limit s).1 (dequeue-bounded limit s h),
        )
  ]
