-- ===== src/Common/Rows.antt =====
-- A table is the list of its rows. These are the readings of the SQL clauses that the repositories
-- use: the rows that pass a WHERE test, the first of them, their number, and the table after an
-- UPDATE or a DELETE of them.
use Prim.Native.Nat.{ℕ, ◌+◌, ◌≤◌, ◌<◌}
use mathlib.Core.Path.{◌≡◌, refl}
use mathlib.Core.Bool.{Bool, true}
use mathlib.Core.Option.{Option, none, some}
use mathlib.Core.List.{List, [], ◌∷◌}
use native.Mathlib.Omega.{arith}
use senior_project.Common.Tests.{if◌then◌else◌, bit}

module _ {ℓ} {A : Type ℓ} where
  abbrev pub select_where : (A → Bool) → List A → List A
  select_where p [] = []
  select_where p (x ∷ xs) = if p x then x ∷ select_where p xs else select_where p xs

  -- `QueryRow(…).Scan`: the first row, or `pgx.ErrNoRows`.
  abbrev pub first_where : (A → Bool) → List A → Option A
  first_where p [] = none
  first_where p (x ∷ xs) = if p x then some x else first_where p xs

  abbrev pub count_where : (A → Bool) → List A → ℕ
  count_where p [] = 0
  count_where p (x ∷ xs) = bit (p x) + count_where p xs

  abbrev pub update_where : (A → Bool) → (A → A) → List A → List A
  update_where p f [] = []
  update_where p f (x ∷ xs) = (if p x then f x else x) ∷ update_where p f xs

  abbrev pub delete_where : (A → Bool) → List A → List A
  delete_where p [] = []
  delete_where p (x ∷ xs) = if p x then delete_where p xs else x ∷ delete_where p xs

-- Laws of the readings. The tests of a law range over all rows, so its premises are functions.
module _ {ℓ} {A : Type ℓ} where
  pub first_where_holds :
      (p : A → Bool) (xs : List A) {x : A} → first_where p xs ≡ some x → p x ≡ true
  first_where_holds p [] h = cc
  first_where_holds p (y ∷ xs) {x} h = ground (arith, first_where_holds p xs {x = x})

  pub count_where-none :
      (p : A → Bool) (xs : List A) → first_where p xs ≡ none → count_where p xs ≡ 0
  count_where-none p [] h = refl
  count_where-none p (y ∷ xs) h = ground (arith, count_where-none p xs)

  pub first_where-none :
      (p : A → Bool) (xs : List A) → count_where p xs ≡ 0 → first_where p xs ≡ none
  first_where-none p [] h = refl
  first_where-none p (y ∷ xs) h = ground (arith, first_where-none p xs)

  pub count_where-some :
      (p : A → Bool) (xs : List A) {x : A} → first_where p xs ≡ some x → 1 ≤ count_where p xs
  count_where-some p [] h = cc
  count_where-some p (y ∷ xs) {x} h = ground (arith, count_where-some p xs {x = x})

  -- A row that a lookup returns counts for every test that it passes.
  pub count_where-found :
      (p q : A → Bool) (xs : List A) (x : A)
      → first_where q xs ≡ some x
      → p x ≡ true
      → 1 ≤ count_where p xs
  count_where-found p q [] x e t = cc
  count_where-found p q (y ∷ xs) x e t = ground (arith, count_where-found p q xs x)

  -- A stronger test passes fewer rows.
  pub count_where-le :
      (q p : A → Bool) (xs : List A)
      → ((x : A) → q x ≡ true → p x ≡ true)
      → count_where q xs ≤ count_where p xs
  count_where-le q p [] h = omega arith
  count_where-le q p (y ∷ xs) h = ground (arith, h y, count_where-le q p xs h)

  -- The first row of a test is the first row of a stronger one that it passes.
  pub first_where-stronger :
      (q p : A → Bool) (xs : List A) {x : A}
      → ((y : A) → q y ≡ true → p y ≡ true)
      → first_where p xs ≡ some x
      → q x ≡ true
      → first_where q xs ≡ some x
  first_where-stronger q p [] h e t = cc
  first_where-stronger q p (y ∷ xs) {x} h e t =
      ground (arith, h y, first_where-stronger q p xs {x = x} h)

  -- A row that some lookup returns is what the lookup by a unique key returns.
  pub first_where_unique :
      (p q : A → Bool) (xs : List A) {x : A}
      → count_where p xs ≤ 1
      → first_where q xs ≡ some x
      → p x ≡ true
      → first_where p xs ≡ some x
  first_where_unique p q [] u e t = cc
  first_where_unique p q (y ∷ xs) {x} u e t =
      ground (
        arith,
        first_where_unique p q xs {x = x},
        first_where-none p xs,
        count_where-found p q xs x,
      )

  -- The row of a unique key is the row of a stronger test that some row passes.
  pub first_where-narrow :
      (p q : A → Bool) (xs : List A) {x : A}
      → ((y : A) → q y ≡ true → p y ≡ true)
      → count_where p xs ≤ 1
      → first_where p xs ≡ some x
      → 0 < count_where q xs
      → first_where q xs ≡ some x
  first_where-narrow p q [] h u e c = cc
  first_where-narrow p q (y ∷ xs) {x} h u e c =
      ground (arith, h y, first_where-narrow p q xs {x = x} h, count_where-le q p xs h)
