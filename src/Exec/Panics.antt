-- ===== src/Exec/Panics.antt =====
-- Where an action can panic: what must hold of the log when it does.
use service_provider_kro.Base.{Bool, true, false, ◌∷◌, ◌⊎◌, inl, inr, if◌then◌else◌}
use service_provider_kro.Go.{ApiError, Error}
use service_provider_kro.Kube.{Answer, ok, err}
use service_provider_kro.Api.Kro.{Kro}
use service_provider_kro.Env.{Event, Log}
use service_provider_kro.Exec.{
  Outcome, returned, failed, panicked, State, Exec, pure, fail, gets, call, settle, from_either,
  modify, ◌>>=◌, on_error, continue, recover,
}

module _ (Q : Log → Type 0) where
  -- A result that is a panic has such a log.
  abbrev pub Blamed : {A : Type 0} → Outcome A → State → Type 0
  Blamed (returned a) s = Unit
  Blamed (failed e) s = Unit
  Blamed panicked s = Q s.log

  pub record PanicsOnly {A : Type 0} (m : Exec A) : Type 0 where
    pub at : (s : State) → Blamed (m s).0 (m s).1

  module _ {A : Type 0} where
    pub PanicsOnly-pure : (a : A) → PanicsOnly (pure a)
    unfolding ◌>>=◌
    PanicsOnly-pure a = record { at = λ s. tt }

    pub PanicsOnly-fail : (e : Error) → PanicsOnly (fail {A = A} e)
    unfolding ◌>>=◌
    PanicsOnly-fail e = record { at = λ s. tt }

    pub PanicsOnly-gets : (f : State → A) → PanicsOnly (gets f)
    unfolding ◌>>=◌
    PanicsOnly-gets f = record { at = λ s. tt }

    pub PanicsOnly-call : (ask : Log → A) (event : A → Event) → PanicsOnly (call ask event)
    unfolding ◌>>=◌
    PanicsOnly-call ask event = record { at = λ s. tt }

    pub PanicsOnly-settle : (f : ApiError → Error) (a : Answer A) → PanicsOnly (settle f a)
    unfolding ◌>>=◌
    PanicsOnly-settle f (ok a) = PanicsOnly-pure a
    PanicsOnly-settle f (err e) = PanicsOnly-fail (f e)

    pub PanicsOnly-from_either : (x : Error ⊎ A) → PanicsOnly (from_either x)
    unfolding ◌>>=◌
    PanicsOnly-from_either (inl e) = PanicsOnly-fail e
    PanicsOnly-from_either (inr a) = PanicsOnly-pure a

    pub PanicsOnly-if :
        (b : Bool) (m n : Exec A) → PanicsOnly m → PanicsOnly n → PanicsOnly (if b then m else n)
    PanicsOnly-if true m n x y = x
    PanicsOnly-if false m n x y = y

  pub PanicsOnly-modify : (f : Kro → Kro) → PanicsOnly (modify f)
  unfolding ◌>>=◌
  PanicsOnly-modify f = record { at = λ s. tt }

  module _ {A B : Type 0} where
    continue-Blamed :
        (r : Outcome A) (s' : State) (f : A → Exec B)
        → ((a : A) → PanicsOnly (f a))
        → Blamed r s'
        → Blamed (continue r f s').0 (continue r f s').1
    continue-Blamed (returned a) s' f g h = (g a).at s'
    continue-Blamed (failed e) s' f g h = tt
    continue-Blamed panicked s' f g h = h

    pub PanicsOnly-bind :
        (m : Exec A) (f : A → Exec B)
        → PanicsOnly m
        → ((a : A) → PanicsOnly (f a))
        → PanicsOnly (m >>= f)
    unfolding ◌>>=◌
    PanicsOnly-bind m f x g = record { at = λ s. continue-Blamed (m s).0 (m s).1 f g (x.at s) }

    -- The same, for what goes on behind a call with the event of the call at hand.
    pub PanicsOnly-call_then :
        (ask : Log → A) (event : A → Event) (f : A → Exec B)
        → ((a : A) (s : State)
            → let s' = record s { log = event a ∷ s.log } in Blamed (f a s').0 (f a s').1)
        → PanicsOnly (call ask event >>= f)
    unfolding ◌>>=◌
    PanicsOnly-call_then ask event f g = record { at = λ s. g (ask s.log) s }

  module _ {A : Type 0} where
    recover-Blamed :
        (r : Outcome A) (s' : State) (k : Error → Exec A)
        → ((e : Error) → PanicsOnly (k e))
        → Blamed r s'
        → Blamed (recover r k s').0 (recover r k s').1
    recover-Blamed (returned a) s' k g h = tt
    recover-Blamed (failed e) s' k g h = (g e).at s'
    recover-Blamed panicked s' k g h = h

    pub PanicsOnly-on_error :
        (m : Exec A) (k : Error → Exec A)
        → PanicsOnly m
        → ((e : Error) → PanicsOnly (k e))
        → PanicsOnly (on_error m k)
    unfolding on_error
    PanicsOnly-on_error m k x g = record { at = λ s. recover-Blamed (m s).0 (m s).1 k g (x.at s) }
