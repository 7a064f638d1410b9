-- ===== src/Exec/Laws.antt =====
-- How a chain goes on behind an action whose result is known, and what a result says.
use service_provider_kro.Base.{◌≡◌, ◌≢◌, refl, ap}
use service_provider_kro.Go.{ApiError, Error}
use service_provider_kro.Kube.{Answer, ok, err}
use service_provider_kro.Env.{Log, Event}
use service_provider_kro.Exec.{
  Outcome, returned, failed, panicked, State, Exec, pure, fail, call, settle, ◌>>=◌, on_error,
  continue, recover,
}

pub returned_inj : {A : Type 0} {a b : A} → ◌≡◌ {A = Outcome A} (returned a) (returned b) → a ≡ b
returned_inj h = cc

module _ {A B : Type 0} (m : Exec A) (f : A → Exec B) (s : State) {a : A} {s' : State}
    (e : m s ≡ (returned a, s')) where
  pub bind-on_error-returned : (h : Error → Exec A) → (on_error m h >>= f) s ≡ f a s'
  unfolding ◌>>=◌ on_error
  bind-on_error-returned h = rw e refl

-- The same backwards: what a result of a chain says of its parts.
module _ {A B : Type 0} where
  abbrev Chained : Exec A → (A → Exec B) → State → B → Type 0
  Chained m f s b =
      (a : A) × (s' : State) × (m s ≡ (returned a, s'))
      × ((f a s').0 ≡ returned b)
      × ((m >>= f) s ≡ f a s')

  continue_inv :
      (r : Outcome A) (s' : State) (f : A → Exec B) {b : B}
      → (continue r f s').0 ≡ returned b
      → (a : A) × (r ≡ returned a) × ((f a s').0 ≡ returned b) × (continue r f s' ≡ f a s')
  continue_inv (returned a) s' f h = (a, refl, h, refl)
  continue_inv (failed e) s' f h = cc
  continue_inv panicked s' f h = cc

  pub bind_inv :
      (m : Exec A) (f : A → Exec B) (s : State) {b : B}
      → ((m >>= f) s).0 ≡ returned b
      → Chained m f s b
  unfolding ◌>>=◌
  bind_inv m f s h =
      let (a, e, g, same) = continue_inv (m s).0 (m s).1 f h in
      (a, (m s).1, ap (λ r. (r, (m s).1)) e, g, same)

module _ {A : Type 0} where
  -- A handler that never returns.
  pub record Stops (k : Error → Exec A) : Type 0 where
    pub never : (e : Error) (s : State) (a : A) → (k e s).0 ≢ returned a

  recover_inv :
      (r : Outcome A) (s' : State) (k : Error → Exec A) (a : A)
      → Stops k
      → (recover r k s').0 ≡ returned a
      → recover r k s' ≡ (r, s')
  recover_inv (returned x) s' k a stops h = refl
  recover_inv (failed e) s' k a stops h = absurd (stops.never e s' a h)
  recover_inv panicked s' k a stops h = refl

  pub on_error_inv :
      (m : Exec A) (k : Error → Exec A) (s : State) {a : A}
      → Stops k
      → (on_error m k s).0 ≡ returned a
      → on_error m k s ≡ m s
  unfolding on_error
  on_error_inv m k s {a} stops h = recover_inv (m s).0 (m s).1 k a stops h

  pub fail-Stops : (f : Error → Error) → Stops (λ e. fail (f e))
  unfolding ◌>>=◌
  fail-Stops f = record { never = λ e s a h. cc }

  -- A handler that does something and then fails.
  pub then_fail-Stops :
      {B : Type 0} (m : Error → Exec B) (f : Error → Error)
      → Stops (λ e. m e >>= λ _. fail {A = A} (f e))
  unfolding ◌>>=◌
  then_fail-Stops m f = record { never = λ e s a h. cc (bind_inv (m e) (λ _. fail (f e)) s h).3 }

  pub settle_inv :
      (f : ApiError → Error) (x : Answer A) (s s' : State) {a : A}
      → settle f x s ≡ (returned a, s')
      → (x ≡ ok a) × (s ≡ s')
  unfolding ◌>>=◌
  settle_inv f (ok a) s s' h = (cc, cc)
  settle_inv f (err e) s s' h = cc

-- A postcondition on what an action returns.
abbrev pub Ensures : {A : Type 0} → (A → Type 0) → Outcome A → Type 0
Ensures Q (returned a) = Q a
Ensures Q (failed e) = Unit
Ensures Q panicked = Unit

module _ {A B : Type 0} (Q : B → Type 0) where
  continue-Ensures :
      (r : Outcome A) (s' : State) (f : A → Exec B)
      → ((a : A) → r ≡ returned a → Ensures Q (f a s').0)
      → Ensures Q (continue r f s').0
  continue-Ensures (returned a) s' f g = g a refl
  continue-Ensures (failed e) s' f g = tt
  continue-Ensures panicked s' f g = tt

  pub Ensures-bind :
      (m : Exec A) (f : A → Exec B) (s : State)
      → ((a : A) (s' : State) → m s ≡ (returned a, s') → Ensures Q (f a s').0)
      → Ensures Q ((m >>= f) s).0
  unfolding ◌>>=◌
  Ensures-bind m f s g =
      continue-Ensures (m s).0 (m s).1 f (λ a e. g a (m s).1 (ap (λ r. (r, (m s).1)) e))

pub pure-Ensures : {B : Type 0} (Q : B → Type 0) (b : B) (s : State) → Q b → Ensures Q (pure b s).0
unfolding ◌>>=◌
pure-Ensures Q b s q = q

pub call_inv :
    {A : Type 0} (ask : Log → A) (event : A → Event) (s : State) {a : A} {s' : State}
    → call ask event s ≡ (returned a, s')
    → ask s.log ≡ a
unfolding ◌>>=◌
call_inv ask event s h = cc

pub pure_inv :
    {A : Type 0} (x : A) (s : State) {a : A} {s' : State}
    → pure x s ≡ (returned a, s')
    → (x ≡ a) × (s ≡ s')
unfolding ◌>>=◌
pure_inv x s h = (cc, cc)
