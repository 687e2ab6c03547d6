-- ===== src/Common/Pages.antt =====
-- ORDER BY of a column in descending order, and LIMIT with OFFSET. Postgres may return rows of the
-- same instant in any order; here they come in the table's.
use Prim.Native.Nat.{ℕ, zero, suc, ◌+◌, ◌-◌, ◌≤◌, min}
use mathlib.Core.Path.{◌≡◌, refl, ap}
use mathlib.Core.Bool.{Bool, true, false, ◌&&◌}
use mathlib.Core.Option.{some}
use mathlib.Core.List.{List, [], ◌∷◌, ◌++◌}
use native.Mathlib.Omega.{arith}
use senior_project.Common.Tests.{if◌then◌else◌, bit, leb}
use senior_project.Common.Rows.{first_where, select_where, count_where, update_where}

module _ {ℓ} {A : Type ℓ} where
  abbrev pub take : ℕ → List A → List A
  take zero xs = []
  take (suc n) [] = []
  take (suc n) (x ∷ xs) = x ∷ take n xs

  abbrev pub drop : ℕ → List A → List A
  drop zero xs = xs
  drop (suc n) [] = []
  drop (suc n) (x ∷ xs) = drop n xs

  -- The number of rows, of any type.
  abbrev pub row_count : List A → ℕ
  row_count [] = 0
  row_count (x ∷ xs) = 1 + row_count xs

  abbrev pub all_where : (A → Bool) → List A → Bool
  all_where p [] = true
  all_where p (x ∷ xs) = p x && all_where p xs

  module _ (key : A → ℕ) where
    abbrev pub insert_desc : A → List A → List A
    insert_desc x [] = x ∷ []
    insert_desc x (y ∷ ys) =
        let rest = insert_desc x ys in if leb (key y) (key x) then x ∷ y ∷ ys else y ∷ rest

    abbrev pub sort_desc : List A → List A
    sort_desc [] = []
    sort_desc (x ∷ xs) = insert_desc x (sort_desc xs)

    -- No key is above `bound`, and each is at most the one before it.
    abbrev pub descends_from : ℕ → List A → Bool
    descends_from bound [] = true
    descends_from bound (x ∷ xs) = leb (key x) bound && descends_from (key x) xs

    abbrev pub is_descending : List A → Bool
    is_descending [] = true
    is_descending (x ∷ xs) = descends_from (key x) xs

-- `LIMIT limit OFFSET offset`.
abbrev pub page {ℓ} : {A : Type ℓ} → ℕ → ℕ → List A → List A
page limit offset xs = take limit (drop offset xs)

module _ {ℓ} {A : Type ℓ} (key : A → ℕ) where
  descends_from-weaker :
      (low high : ℕ) (xs : List A)
      → descends_from key low xs ≡ true
      → low ≤ high
      → descends_from key high xs ≡ true
  descends_from-weaker low high [] h le = refl
  descends_from-weaker low high (x ∷ xs) h le = ground (arith, h)

  descends_from-insert_desc :
      (bound : ℕ) (x : A) (xs : List A)
      → descends_from key bound xs ≡ true
      → key x ≤ bound
      → descends_from key bound (insert_desc key x xs) ≡ true
  descends_from-insert_desc bound x [] h le = ground (arith, le)
  descends_from-insert_desc bound x (y ∷ ys) h le =
      ground (arith, h, le, descends_from-insert_desc (key y) x ys)

  is_descending-insert_desc :
      (x : A) (xs : List A)
      → is_descending key xs ≡ true
      → is_descending key (insert_desc key x xs) ≡ true
  is_descending-insert_desc x [] h = refl
  is_descending-insert_desc x (y ∷ ys) h = ground (arith, h, descends_from-insert_desc (key y) x ys)

  pub is_descending-sort_desc : (xs : List A) → is_descending key (sort_desc key xs) ≡ true
  is_descending-sort_desc [] = refl
  is_descending-sort_desc (x ∷ xs) =
      is_descending-insert_desc x (sort_desc key xs) (is_descending-sort_desc xs)

  descends_from-drop :
      (n bound : ℕ) (xs : List A)
      → descends_from key bound xs ≡ true
      → descends_from key bound (drop n xs) ≡ true
  descends_from-drop zero bound xs h = h
  descends_from-drop (suc n) bound [] h = refl
  descends_from-drop (suc n) bound (x ∷ xs) h =
      ground
        (arith, h, descends_from-drop n (key x) xs, descends_from-weaker (key x) bound (drop n xs))

  descends_from-take :
      (n bound : ℕ) (xs : List A)
      → descends_from key bound xs ≡ true
      → descends_from key bound (take n xs) ≡ true
  descends_from-take zero bound xs h = refl
  descends_from-take (suc n) bound [] h = refl
  descends_from-take (suc n) bound (x ∷ xs) h = ground (arith, h, descends_from-take n (key x) xs)

  descends_from_is :
      (bound : ℕ) (xs : List A) → descends_from key bound xs ≡ true → is_descending key xs ≡ true
  descends_from_is bound [] h = refl
  descends_from_is bound (x ∷ xs) h = ground (arith, h)

  pub is_descending-page :
      (limit offset : ℕ) (xs : List A)
      → is_descending key xs ≡ true
      → is_descending key (page limit offset xs) ≡ true
  is_descending-page limit zero [] h =
      ground (arith, descends_from_is 0 (take limit []), descends_from-take limit 0 [])
  is_descending-page limit (suc offset) [] h =
      ground (arith, descends_from_is 0 (take limit []), descends_from-take limit 0 [])
  is_descending-page limit offset (x ∷ xs) h =
      descends_from_is (key x) (page limit offset (x ∷ xs)) (
        descends_from-take limit (key x) (drop offset (x ∷ xs))
          (descends_from-drop offset (key x) (x ∷ xs) (ground (arith, h))))

  count_where-insert_desc :
      (p : A → Bool) (x : A) (xs : List A)
      → count_where p (insert_desc key x xs) ≡ bit (p x) + count_where p xs
  count_where-insert_desc p x [] = refl
  count_where-insert_desc p x (y ∷ ys) = ground (arith, count_where-insert_desc p x ys)

  -- Sorting neither drops nor doubles a row.
  pub count_where-sort_desc :
      (p : A → Bool) (xs : List A) → count_where p (sort_desc key xs) ≡ count_where p xs
  count_where-sort_desc p [] = refl
  count_where-sort_desc p (x ∷ xs) =
      ground (arith, count_where-insert_desc p x (sort_desc key xs), count_where-sort_desc p xs)

  all_where-insert_desc :
      (p : A → Bool) (x : A) (xs : List A)
      → p x ≡ true
      → all_where p xs ≡ true
      → all_where p (insert_desc key x xs) ≡ true
  all_where-insert_desc p x [] e h = ground (arith, e)
  all_where-insert_desc p x (y ∷ ys) e h = ground (arith, e, h, all_where-insert_desc p x ys e)

  pub all_where-sort_desc :
      (p : A → Bool) (xs : List A) → all_where p xs ≡ true → all_where p (sort_desc key xs) ≡ true
  all_where-sort_desc p [] h = refl
  all_where-sort_desc p (x ∷ xs) h =
      ground (arith, h, all_where-insert_desc p x (sort_desc key xs), all_where-sort_desc p xs)

module _ {ℓ} {A : Type ℓ} where
  pub all_where-select_where : (p : A → Bool) (xs : List A) → all_where p (select_where p xs) ≡ true
  all_where-select_where p [] = refl
  all_where-select_where p (x ∷ xs) = ground (arith, all_where-select_where p xs)

  pub all_where-filter :
      (p q : A → Bool) (xs : List A)
      → all_where p xs ≡ true
      → all_where p (select_where q xs) ≡ true
  all_where-filter p q [] h = refl
  all_where-filter p q (x ∷ xs) h = ground (arith, h, all_where-filter p q xs)

  -- An UPDATE of every row of a test leaves all rows with a property that it gives them.
  pub all_where-update_where :
      (p q : A → Bool) (f : A → A) (xs : List A)
      → ((x : A) → q x ≡ true → p (f x) ≡ true)
      → ((x : A) → q x ≡ false → p x ≡ true)
      → all_where p (update_where q f xs) ≡ true
  all_where-update_where p q f [] changed other = refl
  all_where-update_where p q f (x ∷ xs) changed other =
      ground (arith, changed x, other x, all_where-update_where p q f xs changed other)

  -- Rows that all pass a test of which no row of another test passes.
  pub count_where-excluded :
      (p q r : A → Bool) (xs : List A)
      → all_where p xs ≡ true
      → all_where q xs ≡ true
      → ((x : A) → p x ≡ true → q x ≡ true → r x ≡ false)
      → count_where r xs ≡ 0
  count_where-excluded p q r [] a b c = refl
  count_where-excluded p q r (x ∷ xs) a b c =
      ground (arith, a, b, c x, count_where-excluded p q r xs)

  all_where-take :
      (p : A → Bool) (n : ℕ) (xs : List A) → all_where p xs ≡ true → all_where p (take n xs) ≡ true
  all_where-take p zero xs h = refl
  all_where-take p (suc n) [] h = refl
  all_where-take p (suc n) (x ∷ xs) h = ground (arith, h, all_where-take p n xs)

  all_where-drop :
      (p : A → Bool) (n : ℕ) (xs : List A) → all_where p xs ≡ true → all_where p (drop n xs) ≡ true
  all_where-drop p zero xs h = h
  all_where-drop p (suc n) [] h = refl
  all_where-drop p (suc n) (x ∷ xs) h = ground (arith, h, all_where-drop p n xs)

  -- The first row of a test, where all rows pass another.
  pub all_where-first :
      (p q : A → Bool) (xs : List A) (x : A)
      → all_where p xs ≡ true
      → first_where q xs ≡ some x
      → (p x ≡ true) × (q x ≡ true)
  all_where-first p q [] x h e = cc
  all_where-first p q (y ∷ ys) x h e = ground (arith, h, e, all_where-first p q ys x)

  pub all_where-page :
      (p : A → Bool) (limit offset : ℕ) (xs : List A)
      → all_where p xs ≡ true
      → all_where p (page limit offset xs) ≡ true
  all_where-page p limit offset xs h =
      all_where-take p limit (drop offset xs) (all_where-drop p offset xs h)

  pub count_where-select_where :
      (p q : A → Bool) (xs : List A)
      → count_where q (select_where p xs) ≡ count_where (λ x. p x && q x) xs
  count_where-select_where p q [] = refl
  count_where-select_where p q (x ∷ xs) = ground (arith, count_where-select_where p q xs)

  -- Two tests that agree on every row count the same.
  pub count_where_same :
      (p q : A → Bool) (xs : List A) → ((x : A) → p x ≡ q x) → count_where p xs ≡ count_where q xs
  count_where_same p q [] same = refl
  count_where_same p q (x ∷ xs) same = ground (arith, same x, count_where_same p q xs same)

  pub row_count-select_where :
      (p : A → Bool) (xs : List A) → row_count (select_where p xs) ≡ count_where p xs
  row_count-select_where p [] = refl
  row_count-select_where p (x ∷ xs) = ground (arith, row_count-select_where p xs)

  -- LIMIT and OFFSET part a table.
  pub take-drop : (n : ℕ) (xs : List A) → take n xs ++ drop n xs ≡ xs
  take-drop zero xs = refl
  take-drop (suc n) [] = refl
  take-drop (suc n) (x ∷ xs) = ap (λ l. x ∷ l) (take-drop n xs)

  pub row_count-take : (n : ℕ) (xs : List A) → row_count (take n xs) ≡ min n (row_count xs)
  row_count-take zero xs = ground arith
  row_count-take (suc n) [] = ground arith
  row_count-take (suc n) (x ∷ xs) = ground (arith, row_count-take n xs)

  pub row_count-drop : (n : ℕ) (xs : List A) → row_count (drop n xs) ≡ row_count xs - n
  row_count-drop zero xs = omega arith
  row_count-drop (suc n) [] = omega arith
  row_count-drop (suc n) (x ∷ xs) = omega (arith, row_count-drop n xs)
