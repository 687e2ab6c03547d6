-- ===== src/Notifications/Fate.antt =====
-- What becomes of an email in a run of the worker.
use senior_project.Common.{
  ℕ, suc, ◌≤◌, ◌≡◌, refl, Bool, true, false, ltb, if◌then◌else◌, some, List, [], ◌∷◌, arith, ==→≡,
  ap, sym, ◌∙◌, inl, inr, Bool-cases, Option-cases, touched, first_where, count_where, update_where,
  count_where-none, first_where-update_where, first_where_holds,
}
use senior_project.Errors.{ok}
use senior_project.Tables.{Database, NotificationRow, NotificationStatus}
use senior_project.Sql.{calm}
use senior_project.Sql.Laws.{statement-calm}
use senior_project.Notifications.Queue.{
  note_is, is_among, with_note_status, requeued, or_twenty, claimed, dequeue_batch, update_status,
  requeue_after_failure,
}
use senior_project.Notifications.Worker.{
  logged, process_one, process_all, after_dequeue, process_batch,
}
use senior_project.Notifications.Batch.{claimed-count, claimed-first}

module _ (delivered : NotificationRow → Bool) where
  -- What the worker makes of a row `r` when it sends the copy `n` that it took.
  abbrev pub settled : NotificationRow → NotificationRow → NotificationRow
  settled n r =
      if delivered n
      then with_note_status NotificationStatus.sent r
      else if ltb n.retry_count 3
      then requeued (suc n.retry_count) r
      else with_note_status NotificationStatus.failed r

  abbrev all_settled : List NotificationRow → List NotificationRow → List NotificationRow
  all_settled [] rows = rows
  all_settled (n ∷ ns) rows = all_settled ns (update_where (note_is n.id) (settled n) rows)

  abbrev with_notes : Database → List NotificationRow → Database
  with_notes db rows = record db { notifications = rows }

  process_one-calm :
      (n : NotificationRow) (db : Database)
      → process_one delivered n (calm db)
        ≡ (ok tt, calm (with_notes db (update_where (note_is n.id) (settled n) db.notifications)))
  unfolding process_one logged update_status requeue_after_failure
  process_one-calm n db = ground (arith, statement-calm db)

  process_all-calm :
      (ns : List NotificationRow) (db : Database)
      → process_all delivered ns (calm db)
        ≡ (ok tt, calm (with_notes db (all_settled ns db.notifications)))
  unfolding process_all
  process_all-calm [] db = refl
  process_all-calm (n ∷ ns) db = ground (
    arith,
    process_one-calm n db,
    process_all-calm ns (with_notes db (update_where (note_is n.id) (settled n) db.notifications)),
  )

  process_batch-calm :
      (limit : ℕ) (db : Database)
      → (process_batch delivered limit (calm db)).1.db.notifications
        ≡ all_settled (claimed (or_twenty limit) db.notifications) (
            update_where
              (is_among (claimed (or_twenty limit) db.notifications))
              (with_note_status NotificationStatus.processing)
              db.notifications)
  unfolding process_batch after_dequeue dequeue_batch
  process_batch-calm limit db =
      let batch = claimed (or_twenty limit) db.notifications in
      ground (
        arith,
        statement-calm db,
        process_all-calm batch (
            with_notes db (
              update_where (is_among batch) (with_note_status NotificationStatus.processing)
                db.notifications)),
      )

  lookup-settled :
      (k : ℕ) (n : NotificationRow) (rows : List NotificationRow)
      → first_where (note_is k) (update_where (note_is n.id) (settled n) rows)
        ≡ touched (note_is n.id) (settled n) (first_where (note_is k) rows)
  lookup-settled k n rows =
      first_where-update_where (note_is k) (note_is n.id) (settled n) rows (λ x. ground arith)

  -- A row that is not in the batch is left alone.
  settled-out :
      (k : ℕ) (ns rows : List NotificationRow) {r : NotificationRow}
      → count_where (note_is k) ns ≡ 0
      → first_where (note_is k) rows ≡ some r
      → first_where (note_is k) (all_settled ns rows) ≡ some r
  settled-out k [] rows u e = e
  settled-out k (n ∷ ns) rows {r} u e =
      settled-out k ns (update_where (note_is n.id) (settled n) rows) {r = r} (ground arith) (
        ground
          (arith, e, lookup-settled k n rows, first_where_holds (note_is k) rows e, ==→≡ r.id n.id))

  -- A row in the batch is settled once.
  settled-in :
      (k : ℕ) (ns rows : List NotificationRow) {n r : NotificationRow}
      → count_where (note_is k) ns ≤ 1
      → first_where (note_is k) ns ≡ some n
      → first_where (note_is k) rows ≡ some r
      → first_where (note_is k) (all_settled ns rows) ≡ some (settled n r)
  settled-in k [] rows u e f = cc
  settled-in k (x ∷ ns) rows {n} {r} u e f =
      let rest = update_where (note_is x.id) (settled x) rows in
      elim (Bool-cases (note_is k x)) [
        | inl h ↦
            let same : some n ≡ some x = ground (arith, e, h) in
            settled-out k ns rest {r = settled n r} (ground (arith, u, h)) (
              ground (
                arith,
                f,
                h,
                same,
                lookup-settled k x rows,
                first_where_holds (note_is k) rows f,
                ==→≡ x.id k,
                ==→≡ r.id k,
              ))
        | inr h ↦
            settled-in k ns rest {n = n} {r = r} (ground (arith, u, h)) (ground (arith, e, h)) (
              ground (
                arith,
                f,
                h,
                lookup-settled k x rows,
                first_where_holds (note_is k) rows f,
                ==→≡ r.id x.id,
              ))
      ]

  among-count :
      (k : ℕ) (r : NotificationRow) (ns : List NotificationRow)
      → note_is k r ≡ true
      → is_among ns r ≡ false
      → count_where (note_is k) ns ≡ 0
  among-count k r [] h a = refl
  among-count k r (n ∷ ns) h a = ground (arith, among-count k r ns h)

  among-some :
      (k : ℕ) (r : NotificationRow) (ns : List NotificationRow)
      → note_is k r ≡ true
      → is_among ns r ≡ true
      → 1 ≤ count_where (note_is k) ns
  among-some k r [] h a = cc
  among-some k r (n ∷ ns) h a = ground (arith, among-some k r ns h, ==→≡ r.id n.id)

  -- What becomes of the email in row `r`: sent when the sender takes it; else back in the queue with
  -- one more retry counted, while fewer than three were; else failed.
  abbrev pub fate : NotificationRow → NotificationRow
  fate r = settled r r

  -- Where ids are unique and no statement fails, a run of the worker settles each row that is among
  -- the oldest queued ones, up to the batch size (20 for 0), exactly once: it is sent when the sender
  -- takes it; else back in the queue with one more retry, while fewer than three were counted; else
  -- failed. Each other row is as it was.
  pub process_batch-fate :
      (limit : ℕ) (db : Database) (k : ℕ) (r : NotificationRow)
      → ((k : ℕ) → count_where (note_is k) db.notifications ≤ 1)
      → first_where (note_is k) db.notifications ≡ some r
      → first_where (note_is k) (process_batch delivered limit (calm db)).1.db.notifications
        ≡ some (if is_among (claimed (or_twenty limit) db.notifications) r then fate r else r)
  process_batch-fate limit db k r u e =
      let batch = claimed (or_twenty limit) db.notifications in
      let f = with_note_status NotificationStatus.processing in
      let rows = update_where (is_among batch) f db.notifications in
      let row =
        first_where-update_where (note_is k) (is_among batch) f db.notifications (λ x. refl) in
      let own = first_where_holds (note_is k) db.notifications e in
      ap (first_where (note_is k)) (process_batch-calm limit db)
      ∙ elim (Bool-cases (is_among batch r)) [
        | inl h ↦ elim (Option-cases (first_where (note_is k) batch)) [
          | inl missing ↦ absurd (
              ground
                (arith, among-some k r batch own h, count_where-none (note_is k) batch missing))
          | inr (n, found) ↦
              let same : some n ≡ some r =
                sym (claimed-first (note_is k) (or_twenty limit) db.notifications (u k) found).0
                ∙ e in
              settled-in k batch rows {n = r} {r = f r}
                (omega (arith, u k, claimed-count (note_is k) (or_twenty limit) db.notifications))
                (found ∙ same) (ground (arith, row, e, h))
              ∙ ground (arith, h)
        ]
        | inr h ↦
            settled-out k batch rows {r = r} (among-count k r batch own h)
              (ground (arith, row, e, h))
            ∙ ground (arith, h)
      ]
