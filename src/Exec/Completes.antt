-- ===== src/Exec/Completes.antt =====
-- Actions that return from every state, with a value of which something is known.
use service_provider_kro.Base.{Bool, true, false, ◌⊎◌, inr, ◌≡◌, if◌then◌else◌}
use service_provider_kro.Go.{ApiError, Error}
use service_provider_kro.Kube.{Answer, ok, err}
use service_provider_kro.Api.Kro.{Kro}
use service_provider_kro.Env.{Event, Log}
use service_provider_kro.Exec.{
  Outcome, returned, failed, panicked, State, Exec, pure, gets, call, settle, from_either, modify,
  ◌>>=◌, on_error, continue, recover,
}

-- The answer is no error.
abbrev pub Accepted : {A : Type 0} → (A → Type 0) → Answer A → Type 0
Accepted R (ok a) = R a
Accepted R (err e) = ⊥

abbrev pub Any : {A : Type 0} → A → Type 0
Any a = Unit

abbrev pub Returns : {A : Type 0} → (A → Type 0) → Outcome A → Type 0
Returns R (returned a) = R a
Returns R (failed e) = ⊥
Returns R panicked = ⊥

pub record Completes {A : Type 0} (R : A → Type 0) (m : Exec A) : Type 0 where
  pub at : (s : State) → Returns R (m s).0

recover-Completes :
    {A : Type 0} (R : A → Type 0) (r : Outcome A) (s' : State) (k : Error → Exec A)
    → Returns R r
    → Returns R (recover r k s').0
recover-Completes R (returned a) s' k h = h
recover-Completes R (failed e) s' k h = absurd h
recover-Completes R panicked s' k h = absurd h

module _ {A : Type 0} {R : A → Type 0} where
  pub Completes-pure : (a : A) → R a → Completes R (pure a)
  unfolding ◌>>=◌
  Completes-pure a r = record { at = λ s. r }

  pub Completes-gets : (f : State → A) → ((s : State) → R (f s)) → Completes R (gets f)
  unfolding ◌>>=◌
  Completes-gets f r = record { at = λ s. r s }

  pub Completes-call :
      (ask : Log → A) (event : A → Event)
      → ((log : Log) → R (ask log))
      → Completes R (call ask event)
  unfolding ◌>>=◌
  Completes-call ask event r = record { at = λ s. r s.log }

  pub Completes-settle :
      (f : ApiError → Error) (x : Answer A) → Accepted R x → Completes R (settle f x)
  unfolding ◌>>=◌
  Completes-settle f (ok a) r = Completes-pure a r
  Completes-settle f (err e) r = absurd r

  pub Completes-from_either :
      (x : Error ⊎ A) (a : A) → x ≡ inr a → R a → Completes R (from_either x)
  unfolding ◌>>=◌
  Completes-from_either x a e r = rw e (Completes-pure a r)

  pub Completes-if :
      (b : Bool) (m n : Exec A) → Completes R m → Completes R n → Completes R (if b then m else n)
  Completes-if true m n x y = x
  Completes-if false m n x y = y

  pub Completes-on_error :
      (m : Exec A) (k : Error → Exec A) → Completes R m → Completes R (on_error m k)
  unfolding on_error
  Completes-on_error m k x = record { at = λ s. recover-Completes R (m s).0 (m s).1 k (x.at s) }

pub Completes-modify : (f : Kro → Kro) → Completes Any (modify f)
unfolding ◌>>=◌
Completes-modify f = record { at = λ s. tt }

module _ {A B : Type 0} {R : A → Type 0} {Q : B → Type 0} where
  continue-Completes :
      (r : Outcome A) (s' : State) (f : A → Exec B)
      → Returns R r
      → ((a : A) → R a → Completes Q (f a))
      → Returns Q (continue r f s').0
  continue-Completes (returned a) s' f h g = (g a h).at s'
  continue-Completes (failed e) s' f h g = absurd h
  continue-Completes panicked s' f h g = absurd h

  pub Completes-bind :
      (m : Exec A) (f : A → Exec B)
      → Completes R m
      → ((a : A) → R a → Completes Q (f a))
      → Completes Q (m >>= f)
  unfolding ◌>>=◌
  Completes-bind m f x g = record { at = λ s. continue-Completes (m s).0 (m s).1 f (x.at s) g }

-- A call that is accepted.
pub Completes-asked :
    {A : Type 0} {R : A → Type 0} (f : ApiError → Error) (ask : Log → Answer A)
    (event : Answer A → Event)
    → ((log : Log) → Accepted R (ask log))
    → Completes R (call ask event >>= λ a. settle f a)
Completes-asked f ask event r =
    Completes-bind _ _ (Completes-call ask event r) (λ a h. Completes-settle f a h)

-- What follows an accepted call knows of its answer.
pub Completes-asked_then :
    {A B : Type 0} {Q : B → Type 0} (R : A → Type 0) (f : ApiError → Error) (ask : Log → Answer A)
    (event : Answer A → Event) (g : A → Exec B)
    → ((log : Log) → Accepted R (ask log))
    → ((a : A) → R a → Completes Q (g a))
    → Completes Q (call ask event >>= λ x. (settle f x >>= g))
Completes-asked_then R f ask event g r h =
    Completes-bind _ _ (Completes-call {R = Accepted R} ask event r)
      (λ x k. Completes-bind _ _ (Completes-settle {R = R} f x k) h)
