-- ===== src/Auth/Roles.antt =====
-- internal/infra/auth/jwt.go and middleware.go: the roles that a token carries, and the check of
-- them before a handler runs.
pub mod Laws
pub mod Verdicts
use senior_project.Common.{
  ℕ, suc, ◌-◌, String, Bool, true, false, not, leb, ◌==◌, ◌&&◌, ◌||◌, if◌then◌else◌, Option, none,
  some, List, [], ◌∷◌, map, str_eq,
}
use senior_project.Tables.{Role}
use senior_project.Auth.Users.{rank, same_role}

infixl 5 ◌>>=◌
abbrev ◌>>=◌ : {A B : Type 0} → Option A → (A → Option B) → Option B
none >>= f = none
some a >>= f = f a

-- The text of a role, and the `switch Role(s)`: every other text is an invalid role.
abbrev pub role_text : Role → String
role_text Role.student = "student"
role_text Role.organizer = "organizer"
role_text Role.admin = "admin"

abbrev pub parse_role : String → Option Role
parse_role text =
    if str_eq text "student"
    then some Role.student
    else if str_eq text "organizer"
    then some Role.organizer
    else if str_eq text "admin"
    then some Role.admin
    else none

abbrev pub member : Role → List Role → Bool
member r [] = false
member r (x ∷ xs) = same_role x r || member r xs

abbrev pub size : {A : Type 0} → List A → ℕ
size [] = 0
size (x ∷ xs) = suc (size xs)

-- The loop of `dedupeRolesSorted` that skips the roles already seen.
unfoldable pub uniq : List Role → List Role → List Role
uniq seen [] = []
uniq seen (r ∷ rs) = if member r seen then uniq seen rs else r ∷ uniq (r ∷ seen) rs

-- `slices.SortFunc` by the order of the texts.
unfoldable pub insert_role_sorted : Role → List Role → List Role
insert_role_sorted r [] = r ∷ []
insert_role_sorted r (x ∷ xs) =
    if leb (rank r) (rank x) then r ∷ x ∷ xs else x ∷ insert_role_sorted r xs

unfoldable pub sort_roles : List Role → List Role
unfolding insert_role_sorted
sort_roles [] = []
sort_roles (r ∷ rs) = insert_role_sorted r (sort_roles rs)

unfoldable pub dedupe_roles_sorted : List Role → List Role
unfolding uniq sort_roles
dedupe_roles_sorted roles = if leb (size roles) 1 then roles else sort_roles (uniq [] roles)

unfoldable pub roles_to_strings : List Role → List String
unfolding dedupe_roles_sorted
roles_to_strings roles = map role_text (dedupe_roles_sorted roles)

-- The loop over the claim `roles`, which ends at the first invalid text.
unfoldable pub parse_roles : List String → Option (List Role)
parse_roles [] = some []
parse_roles (text ∷ texts) = do r ← parse_role text; rs ← parse_roles texts; some (r ∷ rs)

-- The claim `roles`, or the older claim `role` where it is empty.
unfoldable pub claimed_roles : List String → String → Option (List Role)
unfolding parse_roles
claimed_roles [] legacy = if str_eq legacy "" then some [] else parse_roles (legacy ∷ [])
claimed_roles (text ∷ texts) legacy = parse_roles (text ∷ texts)

unfoldable pub some_if_any : List Role → Option (List Role)
some_if_any [] = none
some_if_any (r ∷ rs) = some (r ∷ rs)

-- `none` is the error of an invalid role, or of no role at all.
unfoldable pub effective_roles_from_claims : List String → String → Option (List Role)
unfolding claimed_roles dedupe_roles_sorted some_if_any
effective_roles_from_claims roles legacy = do
  out ← claimed_roles roles legacy
  some_if_any (dedupe_roles_sorted out)

-- `none` is the empty text of no role.
unfoldable pub primary_role : List Role → Option Role
primary_role roles =
    if member Role.admin roles
    then some Role.admin
    else if member Role.organizer roles
    then some Role.organizer
    else if member Role.student roles
    then some Role.student
    else none

-- `map[Role]int` of `RolesEqual`: a role without an entry has 0.
abbrev pub one_more : Role → (Role → ℕ) → Role → ℕ
one_more r counts x = if same_role r x then suc (counts x) else counts x

abbrev pub one_less : Role → (Role → ℕ) → Role → ℕ
one_less r counts x = if same_role r x then counts x - 1 else counts x

unfoldable pub tally : List Role → Role → ℕ
tally [] = λ x. 0
tally (r ∷ rs) = one_more r (tally rs)

-- The second loop: `none` where a count falls below 0, and `false` is returned.
unfoldable pub take_off : List Role → (Role → ℕ) → Option (Role → ℕ)
take_off [] counts = some counts
take_off (r ∷ rs) counts =
    let rest = take_off rs (one_less r counts) in if counts r == 0 then none else rest

unfoldable pub all_zero : Option (Role → ℕ) → Bool
all_zero none = false
all_zero (some counts) =
    counts Role.student == 0 && (counts Role.organizer == 0 && counts Role.admin == 0)

unfoldable pub roles_equal : List Role → List Role → Bool
unfolding tally take_off all_zero
roles_equal a b = if size a == size b then all_zero (take_off b (tally a)) else false

-- The answers of `RequireRole`: 401, 403, or the next handler.
pub data Access : Type 0 where
  missing_role insufficient_permissions granted : Access

abbrev pub shares_role : List Role → List Role → Bool
shares_role allowed [] = false
shares_role allowed (r ∷ rs) = member r allowed || shares_role allowed rs

-- `carried` is `none` where the context has no roles.
unfoldable pub require_role : List Role → Option (List Role) → Access
require_role allowed none = Access.missing_role
require_role allowed (some []) = Access.missing_role
require_role allowed (some (r ∷ rs)) =
    if shares_role allowed (r ∷ rs) then Access.granted else Access.insufficient_permissions

-- `HasRole`, which a handler asks for one role.
unfoldable pub has_role : Option (List Role) → Role → Bool
has_role none want = false
has_role (some roles) want = member want roles
