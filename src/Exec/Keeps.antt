-- ===== src/Exec/Keeps.antt =====
-- Properties of the state that an action keeps, whatever its outcome. A property that no event
-- breaks is kept by all that does not touch the object, and by what changes the object within it.
use service_provider_kro.Base.{◌⊎◌, inl, inr, ◌∷◌, Bool, true, false, if◌then◌else◌}
use service_provider_kro.Go.{ApiError, Error}
use service_provider_kro.Kube.{Answer, ok, err}
use service_provider_kro.Api.Kro.{Kro}
use service_provider_kro.Env.{Event, Log}
use service_provider_kro.Exec.{
  Outcome, returned, failed, panicked, State, Exec, pure, fail, panic, gets, call, settle,
  from_either, modify, ◌>>=◌, on_error, continue, recover,
}

module _ (P : State → Type 0)
    (stays : (e : Event) (s : State) → P s → P (record s { log = e ∷ s.log })) where
  pub record Keeps {A : Type 0} (m : Exec A) : Type 0 where
    pub at : (s : State) → P s → P (m s).1

  module _ {A : Type 0} where
    pub Keeps-pure : (a : A) → Keeps (pure a)
    unfolding ◌>>=◌
    Keeps-pure a = record { at = λ s h. h }

    pub Keeps-fail : (e : Error) → Keeps (fail {A = A} e)
    unfolding ◌>>=◌
    Keeps-fail e = record { at = λ s h. h }

    pub Keeps-panic : Keeps (panic {A = A})
    unfolding ◌>>=◌
    Keeps-panic = record { at = λ s h. h }

    pub Keeps-from_either : (x : Error ⊎ A) → Keeps (from_either x)
    unfolding ◌>>=◌
    Keeps-from_either (inl e) = Keeps-fail e
    Keeps-from_either (inr a) = Keeps-pure a

    pub Keeps-gets : (f : State → A) → Keeps (gets f)
    unfolding ◌>>=◌
    Keeps-gets f = record { at = λ s h. h }

    pub Keeps-call : (ask : Log → A) (event : A → Event) → Keeps (call ask event)
    unfolding ◌>>=◌
    Keeps-call ask event = record { at = λ s h. stays (event (ask s.log)) s h }

    pub Keeps-settle : (f : ApiError → Error) (a : Answer A) → Keeps (settle f a)
    unfolding ◌>>=◌
    Keeps-settle f (ok a) = Keeps-pure a
    Keeps-settle f (err e) = Keeps-fail (f e)

    pub Keeps-if : (b : Bool) (m n : Exec A) → Keeps m → Keeps n → Keeps (if b then m else n)
    Keeps-if true m n x y = x
    Keeps-if false m n x y = y

  pub Keeps-modify :
      (f : Kro → Kro) → ((s : State) → P s → P (record s { obj = f s.obj })) → Keeps (modify f)
  unfolding ◌>>=◌
  Keeps-modify f fits = record { at = fits }

  module _ {A B : Type 0} where
    continue_keeps :
        (r : Outcome A) (s' : State) (f : A → Exec B)
        → ((a : A) → Keeps (f a))
        → P s'
        → P (continue r f s').1
    continue_keeps (returned a) s' f g h = (g a).at s' h
    continue_keeps (failed e) s' f g h = h
    continue_keeps panicked s' f g h = h

    pub Keeps-bind :
        (m : Exec A) (f : A → Exec B) → Keeps m → ((a : A) → Keeps (f a)) → Keeps (m >>= f)
    unfolding ◌>>=◌
    Keeps-bind m f x g = record { at = λ s h. continue_keeps (m s).0 (m s).1 f g (x.at s h) }

  module _ {A : Type 0} where
    recover_keeps :
        (r : Outcome A) (s' : State) (k : Error → Exec A)
        → ((e : Error) → Keeps (k e))
        → P s'
        → P (recover r k s').1
    recover_keeps (returned a) s' k g h = h
    recover_keeps (failed e) s' k g h = (g e).at s' h
    recover_keeps panicked s' k g h = h

    pub Keeps-on_error :
        (m : Exec A) (k : Error → Exec A)
        → Keeps m
        → ((e : Error) → Keeps (k e))
        → Keeps (on_error m k)
    unfolding on_error
    Keeps-on_error m k x g = record { at = λ s h. recover_keeps (m s).0 (m s).1 k g (x.at s h) }

pub ruleset keeps_rules = (
  Keeps-pure, Keeps-fail, Keeps-panic, Keeps-from_either, Keeps-gets, Keeps-call, Keeps-settle,
  Keeps-if, Keeps-bind, Keeps-on_error,
)
