-- ===== src/Exec.antt =====
-- Code that mutates the reconciled object, calls the outside, and may return an error or panic.
-- What was done before an error stays done, so the state comes back beside it.
pub mod Follows
pub mod Laws
pub mod Keeps
pub mod Panics
pub mod Known
pub mod Causal
pub mod Tells
pub mod Completes
use service_provider_kro.Base.{String, ◌∷◌, ◌⊎◌, inl, inr}
use service_provider_kro.Go.{ApiError, Error, api, wrap}
use service_provider_kro.Kube.{Answer, ok, err}
use service_provider_kro.Api.Kro.{Kro}
use service_provider_kro.Env.{Event, Log}

-- `panicked` is a nil pointer dereference.
pub data Outcome (A : Type 0) : Type 0 where
  returned : A → Outcome A
  failed : Error → Outcome A
  panicked : Outcome A

-- The object that the code holds a pointer to, and the events so far.
pub record State : Type 0 where
  pub obj : Kro
  pub log : Log

abbrev pub Exec : Type 0 → Type 0
Exec A = State → Outcome A × State

module _ {A : Type 0} where
  pub pure : A → Exec A
  pure a s = (returned a, s)

  pub fail : Error → Exec A
  fail e s = (failed e, s)

  pub panic : Exec A
  panic s = (panicked, s)

  pub gets : (State → A) → Exec A
  gets f s = (returned (f s), s)

  -- a call that leaves the program, with the event that it is
  pub call : (Log → A) → (A → Event) → Exec A
  call ask event s = let a = ask s.log in (returned a, record s { log = event a ∷ s.log })

  -- the value of an answer, or the error that the code makes of the answer's error
  pub settle : (ApiError → Error) → Answer A → Exec A
  unfolding pure fail
  settle f (ok a) = pure a
  settle f (err e) = fail (f e)

  -- `return fmt.Errorf("...: %w", err)` where the call answered with an error
  abbrev pub checked : String → Answer A → Exec A
  checked text = settle (λ e. wrap text (api e) "")

  -- `return err`
  abbrev pub unchanged : Answer A → Exec A
  unchanged = settle api

  -- the value of a pure function, or its error
  pub from_either : Error ⊎ A → Exec A
  unfolding pure fail
  from_either (inl e) = fail e
  from_either (inr a) = pure a

pub modify : (Kro → Kro) → Exec (Unit {0})
modify f s = (returned tt, record s { obj = f s.obj })

module _ {A B : Type 0} where
  abbrev pub continue : Outcome A → (A → Exec B) → Exec B
  continue (returned a) f s = f a s
  continue (failed e) f s = (failed e, s)
  continue panicked f s = (panicked, s)

  infixl 10 ◌>>=◌ ◌>>◌
  -- opening this opens the ways to build an action too
  unfoldable pub ◌>>=◌ : Exec A → (A → Exec B) → Exec B
  unfolding pure fail panic gets call settle from_either modify
  ◌>>=◌ m f s = let (r, s') = m s in continue r f s'

  abbrev pub ◌>>◌ : Exec A → Exec B → Exec B
  m >> n = m >>= λ _. n

module _ {A : Type 0} where
  abbrev pub recover : Outcome A → (Error → Exec A) → Exec A
  recover (returned a) h s = (returned a, s)
  recover (failed e) h s = h e s
  recover panicked h s = (panicked, s)

  -- `if err := m; err != nil { return h(err) }`
  unfoldable pub on_error : Exec A → (Error → Exec A) → Exec A
  on_error m h s = let (r, s') = m s in recover r h s'
