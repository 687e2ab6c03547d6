-- ===== src/Http/Handlers/Laws.antt =====
-- Handlers that write nothing, calls that are answered, and the two ways in which a handler goes on
-- after its first part.
use senior_project.Common.{false, ◌≡◌, refl, ap, Option, none, some, arith}
use senior_project.Errors.{Error, Result, ok, err}
use senior_project.Sql.{Session, Action}
use senior_project.Http.Errors.{Failure, Driver}
use senior_project.Http.Handlers.{
  Reply, sent, refused, is_sent, Handler, or_refuse, ◌>>=◌, translate, call,
}

module _ {A : Type 0} where
  -- Whatever it answers, the tables are as they were.
  abbrev pub IsReadOnly : Handler A → Type 0
  IsReadOnly m = (s : Session) → (m s).1.db ≡ s.db

  pub or_refuse-IsReadOnly : (o : Option A) (f : Failure) → IsReadOnly (or_refuse o f)
  or_refuse-IsReadOnly none f s = refl
  or_refuse-IsReadOnly (some a) f s = refl

  translate-session : (f : Error → Failure) (x : Result A × Session) → (translate f x).1 ≡ x.1
  unfolding translate
  translate-session f (ok a, s) = refl
  translate-session f (err e, s) = refl

  -- A call leaves the session that its action leaves.
  pub call-session : (d : Driver) (m : Action A) (s : Session) → (call d m s).1 ≡ (m s).1
  unfolding call
  call-session d m s = translate-session _ (m s)

  translate-sent :
      (f : Error → Failure) (x : Result A × Session) (a : A)
      → (translate f x).0 ≡ sent a
      → x.0 ≡ ok a
  unfolding translate
  translate-sent f (ok a, s) b h = cc
  translate-sent f (err e, s) b h = cc

  -- A call that is answered with a value had that value.
  pub call-sent :
      (d : Driver) (m : Action A) (s : Session) (a : A) → (call d m s).0 ≡ sent a → (m s).0 ≡ ok a
  unfolding call
  call-sent d m s a h = translate-sent _ (m s) a h

module _ {A B : Type 0} (m : Handler A) (f : A → Handler B) where
  pub data Onward (s : Session) : Type 0 where
    stopped :
        (is_sent (m s).0 ≡ false)
        → (is_sent ((m >>= f) s).0 ≡ false)
        → ((m >>= f) s).1 ≡ (m s).1
        → Onward s
    went_on : (a : A) → (m s).0 ≡ sent a → ((m >>= f) s) ≡ f a (m s).1 → Onward s

  Onward-of : (x : Reply A × Session) (s : Session) → m s ≡ x → Onward s
  Onward-of (sent a, s') s e = went_on a (ap (λ x. x.0) e) (ground (arith, e))
  Onward-of (refused g, s') s e =
      stopped (ap (λ x. is_sent x.0) e) (ground (arith, e)) (ground (arith, e))

  -- Either the first part refuses, and that is the answer, or it sends a value to the second.
  pub onward : (s : Session) → Onward s
  onward s = Onward-of (m s) s refl
