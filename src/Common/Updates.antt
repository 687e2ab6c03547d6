-- ===== src/Common/Updates.antt =====
-- How an UPDATE or a DELETE changes what the other readings see.
use Prim.Native.Nat.{◌+◌, ◌≤◌}
use mathlib.Core.Path.{◌≡◌, refl}
use mathlib.Core.Bool.{Bool, true, false}
use mathlib.Core.Option.{Option, none, some}
use mathlib.Core.List.{List, [], ◌∷◌}
use native.Mathlib.Omega.{arith}
use senior_project.Common.Tests.{if◌then◌else◌, bit}
use senior_project.Common.Rows.{first_where, count_where, update_where, delete_where}

-- What becomes of one row under `UPDATE … SET f WHERE q`.
abbrev pub touched {ℓ} : {A : Type ℓ} → (A → Bool) → (A → A) → Option A → Option A
touched q f none = none
touched q f (some x) = some (if q x then f x else x)

module _ {ℓ} {A : Type ℓ} where
  -- An update that leaves the test of a lookup alone commutes with the lookup.
  pub first_where-update_where :
      (p q : A → Bool) (f : A → A) (xs : List A)
      → ((x : A) → p (f x) ≡ p x)
      → first_where p (update_where q f xs) ≡ touched q f (first_where p xs)
  first_where-update_where p q f [] h = refl
  first_where-update_where p q f (y ∷ xs) h =
      ground (arith, h y, first_where-update_where p q f xs h)

  -- It leaves a count alone when the updated rows keep their vote.
  pub count_where-update_where :
      (p q : A → Bool) (f : A → A) (xs : List A)
      → ((x : A) → q x ≡ true → p (f x) ≡ p x)
      → count_where p (update_where q f xs) ≡ count_where p xs
  count_where-update_where p q f [] h = refl
  count_where-update_where p q f (y ∷ xs) h =
      ground (arith, h y, count_where-update_where p q f xs h)

  pub update_where-none :
      (q : A → Bool) (f : A → A) (xs : List A) → count_where q xs ≡ 0 → update_where q f xs ≡ xs
  update_where-none q f [] h = refl
  update_where-none q f (y ∷ xs) h = ground (arith, update_where-none q f xs)

  -- An update of the only row of its test moves that row's vote in every count.
  pub count_where-update_unique :
      (p q : A → Bool) (f : A → A) (xs : List A) {x : A}
      → count_where q xs ≤ 1
      → first_where q xs ≡ some x
      → count_where p (update_where q f xs) + bit (p x) ≡ count_where p xs + bit (p (f x))
  count_where-update_unique p q f [] u e = cc
  count_where-update_unique p q f (y ∷ xs) {x} u e =
      ground (arith, update_where-none q f xs, count_where-update_unique p q f xs {x = x})

  pub count_where-delete_where :
      (p q : A → Bool) (xs : List A)
      → ((x : A) → p x ≡ true → q x ≡ false)
      → count_where p (delete_where q xs) ≡ count_where p xs
  count_where-delete_where p q [] h = refl
  count_where-delete_where p q (y ∷ xs) h = ground (arith, h y, count_where-delete_where p q xs h)

  pub first_where-delete_where :
      (p q : A → Bool) (xs : List A)
      → ((x : A) → p x ≡ true → q x ≡ false)
      → first_where p (delete_where q xs) ≡ first_where p xs
  first_where-delete_where p q [] h = refl
  first_where-delete_where p q (y ∷ xs) h = ground (arith, h y, first_where-delete_where p q xs h)

  pub count_where-delete_le :
      (p q : A → Bool) (xs : List A) → count_where p (delete_where q xs) ≤ count_where p xs
  count_where-delete_le p q [] = omega arith
  count_where-delete_le p q (y ∷ xs) = ground (arith, count_where-delete_le p q xs)

  -- No row that the DELETE's test covers is left.
  pub count_where-delete_all :
      (p q : A → Bool) (xs : List A)
      → ((x : A) → p x ≡ true → q x ≡ true)
      → count_where p (delete_where q xs) ≡ 0
  count_where-delete_all p q [] h = refl
  count_where-delete_all p q (y ∷ xs) h = ground (arith, h y, count_where-delete_all p q xs h)
