-- ===== src/Http/Errors/Laws.antt =====
-- What a client reads from the answers of `MapDomainError`.
use senior_project.Common.{
  ℕ, String, Bool, true, ◌≡◌, refl, List, [], ◌∷◌, arith, if◌then◌else◌, ◌==◌, ◌&&◌, ◌||◌,
  contains_codes, lower_codes, codes, inl, inr, Bool-cases, ==→≡, trim_space,
}
use senior_project.Errors.{Error}
use senior_project.Http.Errors.{
  Failure, Driver, Case, error_text, domain_cases, switch, map_domain_error, names, internal_error,
  or_failure, deadline_exceeded,
}

-- The statuses that belong to the codes of the API.
abbrev pub status_of_code : String → ℕ
status_of_code code =
    if names ("INTERNAL_ERROR" ∷ []) code
    then 500
    else if names ("NOT_IMPLEMENTED" ∷ []) code
    then 501
    else if names ("REQUEST_TIMEOUT" ∷ []) code
    then 408
    else if names ("NOT_FOUND" ∷ "TICKET_NOT_FOUND" ∷ []) code
    then 404
    else if names ("FORBIDDEN" ∷ "ORGANIZER_REQUEST_FORBIDDEN" ∷ []) code
    then 403
    else if names ("INVALID_CREDENTIALS" ∷ "INVALID_REFRESH_TOKEN" ∷ "REFRESH_TOKEN_CONSUMED" ∷ [])
        code
    then 401
    else if names
        ("EMAIL_NOT_ALLOWED" ∷ "INVALID_REQUEST" ∷ "ticket_expired" ∷ "INVALID_ROLE" ∷ "INVALID_ID"
          ∷ "INVALID_ACTION" ∷ [])
        code
    then 400
    else 409

abbrev keeps_status : Failure → Bool
keeps_status f = f.status == status_of_code f.code

abbrev all_cases : (Failure → Bool) → List Case → Bool
all_cases p [] = true
all_cases p (c ∷ cs) = p c.1 && all_cases p cs

switch_all :
    (p : Failure → Bool) (cs : List Case) (text : String)
    → p internal_error ≡ true
    → all_cases p cs ≡ true
    → p (or_failure (switch cs text) internal_error) ≡ true
unfolding switch
switch_all p [] text i h = i
switch_all p (c ∷ cs) text i h = ground (arith, h, switch_all p cs text i)

domain_cases_all : all_cases keeps_status domain_cases ≡ true
unfolding domain_cases
domain_cases_all = refl

-- Whatever the error is, a driver's too, the status of the answer is the one that belongs to the code
-- in its body: a client may go by either.
pub map_domain_error-status :
    (d : Driver) (e : Error)
    → (map_domain_error d e).status ≡ status_of_code (map_domain_error d e).code
unfolding map_domain_error
map_domain_error-status d e =
    let text = error_text d e in
    let answer = or_failure (switch domain_cases (trim_space text)) internal_error in
    let late =
      deadline_exceeded d e
      || contains_codes (lower_codes text) (codes "context deadline exceeded") in
    let kept = switch_all keeps_status domain_cases (trim_space text) refl domain_cases_all in
    elim (Bool-cases late) [
      | inl h ↦ rw h refl
      | inr h ↦ rw h (==→≡ answer.status (status_of_code answer.code) kept)
    ]
