-- ===== src/Http/Handlers.antt =====
-- What a handler of the API is: a function of the session that answers or refuses. A refusal is what
-- `WriteError` wrote before an early return.
pub mod Laws
use senior_project.Common.{
  ⊤, ℕ, String, Bool, true, false, ◌≡◌, refl, ◌⊎◌, inl, inr, Option, none, some, if◌then◌else◌, leb,
}
use senior_project.Errors.{Error, Result, ok, err}
use senior_project.Sql.{Session, Action}
use senior_project.Http.Errors.{Failure, Driver, map_domain_error, write_error}

pub data Reply (A : Type 0) : Type 0 where
  sent : A → Reply A
  refused : Failure → Reply A

abbrev pub is_sent : {A : Type 0} → Reply A → Bool
is_sent (sent a) = true
is_sent (refused f) = false

pub Reply-cases : {A : Type 0} (r : Reply A) → (is_sent r ≡ false) ⊎ ((a : A) × (r ≡ sent a))
Reply-cases (sent a) = inr (a, refl)
Reply-cases (refused f) = inl refl

abbrev pub Handler : Type 0 → Type 0
Handler A = Session → Reply A × Session

abbrev pub send : {A : Type 0} → A → Handler A
send a s = (sent a, s)

abbrev pub refuse : {A : Type 0} → Failure → Handler A
refuse f s = (refused f, s)

infixl 5 ◌>>=◌ ◌>>◌
abbrev pub ◌>>=◌ : {A B : Type 0} → Handler A → (A → Handler B) → Handler B
◌>>=◌ m f s = let (r, s') = m s in elim r [ sent a ↦ f a s' | refused e ↦ (refused e, s') ]

abbrev pub ◌>>◌ : {B : Type 0} → Handler ⊤ → Handler B → Handler B
m >> k = m >>= λ _. k

-- `WriteError` and a return, where a test holds.
abbrev pub refuse_if : Bool → Failure → Handler ⊤
refuse_if c f s = (if c then refused f else sent tt, s)

abbrev pub or_refuse : {A : Type 0} → Option A → Failure → Handler A
or_refuse none f = refuse f
or_refuse (some a) f = send a

-- A request's body: what `DecodeAndValidate` decoded, or the text of its error.
pub data Body (A : Type 0) : Type 0 where
  decoded : A → Body A
  invalid : String → Body A

-- The shapes of the failures that the handlers write themselves.
abbrev pub bad_request : String → Failure
bad_request message = record { status = 400; code = "INVALID_REQUEST"; message = message }

abbrev pub unauthorized : String → Failure
unauthorized message = record { status = 401; code = "UNAUTHORIZED"; message = message }

abbrev pub denied : String → Failure
denied message = record { status = 403; code = "FORBIDDEN"; message = message }

abbrev pub invalid_id : String → Failure
invalid_id message = record { status = 400; code = "INVALID_ID"; message = message }

abbrev pub broken : String → Failure
broken message = record { status = 500; code = "INTERNAL_ERROR"; message = message }

abbrev pub need_body : {A : Type 0} → Body A → Handler A
need_body (decoded a) = send a
need_body (invalid text) = refuse (write_error 400 "INVALID_REQUEST" text)

-- What becomes of a service's result: the value, or the failure of its error.
unfoldable pub translate : {A : Type 0} → (Error → Failure) → Result A × Session → Reply A × Session
translate f (ok a, s) = (sent a, s)
translate f (err e, s) = (refused (f e), s)

-- A call whose errors go through `MapDomainError`.
unfoldable pub call : {A : Type 0} → Driver → Action A → Handler A
unfolding translate
call d m s = translate (map_domain_error d) (m s)

-- A call whose errors are all answered alike.
unfoldable pub call_or : {A : Type 0} → Failure → Action A → Handler A
unfolding translate
call_or f m s = translate (λ _. f) (m s)

-- A call whose errors go through `MapDomainError`, and a 5xx is answered with `f`.
abbrev pub masked : Failure → Failure → Failure
masked f found = if leb 500 found.status then f else found

unfoldable pub call_masked : {A : Type 0} → Driver → Failure → Action A → Handler A
unfolding translate
call_masked d f m s = translate (λ e. masked f (map_domain_error d e)) (m s)

-- A call whose error is only logged.
unfoldable pub best_effort : {A : Type 0} → Action A → Handler ⊤
best_effort m s = (sent tt, (m s).1)
