-- ===== src/Notifications/Batch.antt =====
-- The rows that a batch takes are rows of the queue.
use senior_project.Common.{
  ℕ, zero, suc, ◌+◌, ◌≤◌, ◌≡◌, refl, Bool, true, some, List, [], ◌∷◌, arith, bit, select_where,
  first_where, count_where, first_where-none,
}
use senior_project.Tables.{NotificationRow}
use senior_project.Notifications.Queue.{is_queued, insert_by_age, by_age, at_most, claimed}

module _ (p : NotificationRow → Bool) where
  select-count :
      (q : NotificationRow → Bool) (xs : List NotificationRow)
      → count_where p (select_where q xs) ≤ count_where p xs
  select-count q [] = omega arith
  select-count q (x ∷ xs) = ground (arith, select-count q xs)

  select-first :
      (q : NotificationRow → Bool) (xs : List NotificationRow) {n : NotificationRow}
      → count_where p xs ≤ 1
      → first_where p (select_where q xs) ≡ some n
      → (first_where p xs ≡ some n) × (q n ≡ true)
  select-first q [] u e = cc
  select-first q (x ∷ xs) {n} u e =
      ground (
        arith,
        select-first q xs {n = n},
        select-count q xs,
        first_where-none p (select_where q xs),
      )

  insert-count :
      (x : NotificationRow) (xs : List NotificationRow)
      → count_where p (insert_by_age x xs) ≡ bit (p x) + count_where p xs
  unfolding insert_by_age
  insert-count x [] = refl
  insert-count x (y ∷ xs) = ground (arith, insert-count x xs)

  insert-first :
      (x : NotificationRow) (xs : List NotificationRow)
      → count_where p (x ∷ xs) ≤ 1
      → first_where p (insert_by_age x xs) ≡ first_where p (x ∷ xs)
  unfolding insert_by_age
  insert-first x [] u = refl
  insert-first x (y ∷ xs) u = ground (arith, insert-first x xs)

  sort-count : (xs : List NotificationRow) → count_where p (by_age xs) ≡ count_where p xs
  unfolding by_age
  sort-count [] = refl
  sort-count (x ∷ xs) = ground (arith, insert-count x (by_age xs), sort-count xs)

  sort-first :
      (xs : List NotificationRow)
      → count_where p xs ≤ 1
      → first_where p (by_age xs) ≡ first_where p xs
  unfolding by_age
  sort-first [] u = refl
  sort-first (x ∷ xs) u = ground (arith, insert-first x (by_age xs), sort-count xs, sort-first xs)

  take-count : (k : ℕ) (xs : List NotificationRow) → count_where p (at_most k xs) ≤ count_where p xs
  unfolding at_most
  take-count zero xs = omega arith
  take-count (suc k) [] = omega arith
  take-count (suc k) (x ∷ xs) = ground (arith, take-count k xs)

  take-first :
      (k : ℕ) (xs : List NotificationRow) {n : NotificationRow}
      → first_where p (at_most k xs) ≡ some n
      → first_where p xs ≡ some n
  unfolding at_most
  take-first zero xs e = cc
  take-first (suc k) [] e = cc
  take-first (suc k) (x ∷ xs) {n} e = ground (arith, take-first k xs {n = n})

  pub claimed-count :
      (limit : ℕ) (rows : List NotificationRow)
      → count_where p (claimed limit rows) ≤ count_where p rows
  unfolding claimed
  claimed-count limit rows =
      let picked = select_where is_queued rows in
      omega
        (arith, take-count limit (by_age picked), sort-count picked, select-count is_queued rows)

  pub claimed-first :
      (limit : ℕ) (rows : List NotificationRow) {n : NotificationRow}
      → count_where p rows ≤ 1
      → first_where p (claimed limit rows) ≡ some n
      → (first_where p rows ≡ some n) × (is_queued n ≡ true)
  unfolding claimed
  claimed-first limit rows {n} u e =
      let picked = select_where is_queued rows in
      ground (
        arith,
        take-first limit (by_age picked) {n = n},
        sort-first picked,
        select-count is_queued rows,
        select-first is_queued rows {n = n},
      )
