-- ===== src/Auth/Roles/Laws.antt =====
-- What the role checks decide.
use senior_project.Common.{
  ℕ, String, Option-cases, inl, inr, if◌then◌else◌, count_where, ltb, sym, ◌∙◌, ◌+◌, ◌<◌, ◌≡◌, refl,
  Bool, true, false, not, ◌==◌, ◌&&◌, ◌||◌, some, List, [], ◌∷◌, arith, str_eq,
}
use text.Mathlib.TextEquality.{eq_iff}
use senior_project.Tables.{Role}
use senior_project.Auth.Users.{rank, same_role}
use senior_project.Auth.Roles.{
  member, size, uniq, insert_role_sorted, sort_roles, dedupe_roles_sorted, tally, take_off,
  all_zero, one_less, parse_roles, parse_role, role_text,
}

pub same_role→≡ : (a b : Role) → same_role a b ≡ true → a ≡ b
same_role→≡ Role.student Role.student h = refl
same_role→≡ Role.organizer Role.organizer h = refl
same_role→≡ Role.admin Role.admin h = refl
same_role→≡ Role.student Role.organizer h = cc
same_role→≡ Role.student Role.admin h = cc
same_role→≡ Role.organizer Role.student h = cc
same_role→≡ Role.organizer Role.admin h = cc
same_role→≡ Role.admin Role.student h = cc
same_role→≡ Role.admin Role.organizer h = cc

pub same_role_refl : (a : Role) → same_role a a ≡ true
same_role_refl Role.student = refl
same_role_refl Role.organizer = refl
same_role_refl Role.admin = refl

-- Every later role of the list stands behind.
abbrev pub above : Role → List Role → Bool
above r [] = true
above r (x ∷ xs) = ltb (rank r) (rank x) && above r xs

abbrev pub is_sorted_strictly : List Role → Bool
is_sorted_strictly [] = true
is_sorted_strictly (x ∷ xs) = above x xs && is_sorted_strictly xs

uniq-member :
    (seen rs : List Role) (r : Role)
    → member r (uniq seen rs) ≡ (member r rs && not (member r seen))
unfolding uniq
uniq-member seen [] r = refl
uniq-member seen (x ∷ rs) r =
    ground (arith, uniq-member seen rs r, uniq-member (x ∷ seen) rs r, same_role→≡ x r)

insert-member :
    (x : Role) (rs : List Role) (r : Role)
    → member r (insert_role_sorted x rs) ≡ (same_role x r || member r rs)
unfolding insert_role_sorted
insert-member x [] r = refl
insert-member x (y ∷ rs) r = ground (arith, insert-member x rs r)

tally-member : (a : List Role) (r : Role) → (tally a r == 0) ≡ not (member r a)
unfolding tally
tally-member [] r = refl
tally-member (x ∷ rs) r = ground (arith, tally-member rs r)

insert-above :
    (y x : Role) (rs : List Role)
    → above y rs ≡ true
    → rank y < rank x
    → above y (insert_role_sorted x rs) ≡ true
unfolding insert_role_sorted
insert-above y x [] h lt = ground arith
insert-above y x (z ∷ rs) h lt = ground (arith, insert-above y x rs)

above_trans :
    (x y : Role) (rs : List Role) → rank x < rank y → above y rs ≡ true → above x rs ≡ true
above_trans x y [] lt h = refl
above_trans x y (z ∷ rs) lt h = ground (arith, above_trans x y rs)

insert-sorted :
    (x : Role) (rs : List Role)
    → is_sorted_strictly rs ≡ true
    → member x rs ≡ false
    → is_sorted_strictly (insert_role_sorted x rs) ≡ true
unfolding insert_role_sorted
insert-sorted x [] h n = refl
insert-sorted x (y ∷ rs) h n =
    ground (arith, insert-sorted x rs, insert-above y x rs, above_trans x y rs)

sort-member : (rs : List Role) (r : Role) → member r (sort_roles rs) ≡ member r rs
unfolding sort_roles
sort-member [] r = refl
sort-member (x ∷ rs) r = rw (insert-member x (sort_roles rs) r, sort-member rs r)

abbrev pub is_distinct : List Role → Bool
is_distinct [] = true
is_distinct (x ∷ xs) = not (member x xs) && is_distinct xs

uniq-distinct : (seen rs : List Role) → is_distinct (uniq seen rs) ≡ true
unfolding uniq
uniq-distinct seen [] = refl
uniq-distinct seen (x ∷ rs) =
    ground (arith, uniq-distinct seen rs, uniq-distinct (x ∷ seen) rs, uniq-member (x ∷ seen) rs x)

sort-sorted : (rs : List Role) → is_distinct rs ≡ true → is_sorted_strictly (sort_roles rs) ≡ true
unfolding sort_roles
sort-sorted [] h = refl
sort-sorted (x ∷ rs) h =
    insert-sorted x (sort_roles rs) (sort-sorted rs (ground arith))
      (ground (arith, sort-member rs x))

pub dedupe-sorted : (rs : List Role) → is_sorted_strictly (dedupe_roles_sorted rs) ≡ true
unfolding dedupe_roles_sorted
dedupe-sorted [] = refl
dedupe-sorted (x ∷ []) = refl
dedupe-sorted (x ∷ y ∷ rs) =
    ground (arith, sort-sorted (uniq [] (x ∷ y ∷ rs)) (uniq-distinct [] (x ∷ y ∷ rs)))

pub dedupe-member : (rs : List Role) (r : Role) → member r (dedupe_roles_sorted rs) ≡ member r rs
unfolding dedupe_roles_sorted
dedupe-member [] r = refl
dedupe-member (x ∷ []) r = refl
dedupe-member (x ∷ y ∷ rs) r =
    ground (arith, sort-member (uniq [] (x ∷ y ∷ rs)) r, uniq-member [] (x ∷ y ∷ rs) r)

-- Whether one of the texts is the role's.
abbrev pub mentions : Role → List String → Bool
mentions r [] = false
mentions r (text ∷ texts) = str_eq text (role_text r) || mentions r texts

role_text-distinct : (x r : Role) → str_eq (role_text x) (role_text r) ≡ same_role x r
role_text-distinct Role.student Role.student = refl
role_text-distinct Role.student Role.organizer = refl
role_text-distinct Role.student Role.admin = refl
role_text-distinct Role.organizer Role.student = refl
role_text-distinct Role.organizer Role.organizer = refl
role_text-distinct Role.organizer Role.admin = refl
role_text-distinct Role.admin Role.student = refl
role_text-distinct Role.admin Role.organizer = refl
role_text-distinct Role.admin Role.admin = refl

parse_role-text : (text : String) (x : Role) → parse_role text ≡ some x → text ≡ role_text x
parse_role-text text x h =
    ground (arith, (eq_iff text "student").0, (eq_iff text "organizer").0, (eq_iff text "admin").0)

-- The roles of the claims are those whose text they mention.
pub parse_roles-member :
    (texts : List String) (out : List Role) (r : Role)
    → parse_roles texts ≡ some out
    → member r out ≡ mentions r texts
unfolding parse_roles
parse_roles-member [] out r h = ground (arith)
parse_roles-member (text ∷ texts) out r h = elim (Option-cases (parse_role text)) [
  | inl e ↦ absurd (ground (arith, e))
  | inr (x, e) ↦ elim (Option-cases (parse_roles texts)) [
    | inl e' ↦ absurd (ground (arith, e, e'))
    | inr (xs, e') ↦
        let same : some out ≡ some (x ∷ xs) = sym h ∙ rw (e, e') refl in
        ground (
          arith,
          same,
          role_text-distinct x r,
          parse_role-text text x e,
          parse_roles-member texts xs r e',
        )
  ]
]

-- The texts that the claims of a token name.
abbrev pub claims_named : List String → String → List String
claims_named [] legacy = if str_eq legacy "" then [] else legacy ∷ []
claims_named (text ∷ texts) legacy = text ∷ texts

-- How often a role stands in a list.
unfoldable pub occurrences : Role → List Role → ℕ
occurrences r rs = count_where (λ x. same_role x r) rs

pub tally-count : (rs : List Role) (r : Role) → tally rs r ≡ occurrences r rs
unfolding tally occurrences
tally-count [] r = refl
tally-count (x ∷ rs) r = ground (arith, tally-count rs r)

pub size-count :
    (rs : List Role)
    → size rs
      ≡ occurrences Role.student rs + (occurrences Role.organizer rs + occurrences Role.admin rs)
unfolding occurrences
size-count [] = refl
size-count (Role.student ∷ rs) = ground (arith, size-count rs)
size-count (Role.organizer ∷ rs) = ground (arith, size-count rs)
size-count (Role.admin ∷ rs) = ground (arith, size-count rs)

pub take_off-zero :
    (b : List Role) (counts : Role → ℕ)
    → all_zero (take_off b counts) ≡ true
    → (r : Role) → counts r ≡ occurrences r b
unfolding take_off all_zero occurrences
take_off-zero [] counts h Role.student = ground arith
take_off-zero [] counts h Role.organizer = ground arith
take_off-zero [] counts h Role.admin = ground arith
take_off-zero (x ∷ b) counts h r =
    ground (arith, same_role→≡ x r, take_off-zero b (one_less x counts) (ground arith) r)

pub zero-take_off :
    (b : List Role) (counts : Role → ℕ)
    → ((r : Role) → counts r ≡ occurrences r b)
    → all_zero (take_off b counts) ≡ true
unfolding take_off all_zero occurrences
zero-take_off [] counts h = ground (arith, h Role.student, h Role.organizer, h Role.admin)
zero-take_off (x ∷ b) counts h = ground (
  arith,
  h x,
  same_role_refl x,
  zero-take_off b (one_less x counts) (λ r. ground (arith, h r, same_role→≡ x r)),
)
