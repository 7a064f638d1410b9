-- ===== src/Exec/Causal.antt =====
-- Events that are justified by what happened before them: an action may be run where some facts
-- about the log are known, and every event that it adds has its reason in the log so far.
use service_provider_kro.Base.{Bool, true, false, ◌∷◌, ◌⊎◌, inl, inr, ◌≡◌, ◌≢◌, refl, if◌then◌else◌}
use service_provider_kro.Go.{ApiError, Error}
use service_provider_kro.Kube.{Answer, ok, err}
use service_provider_kro.Api.Kro.{Kro}
use service_provider_kro.Env.{Event, Log}
use service_provider_kro.Exec.{
  Outcome, returned, failed, panicked, State, Exec, pure, fail, panic, gets, call, settle,
  from_either, modify, ◌>>=◌, on_error, continue, recover,
}
use service_provider_kro.Exec.Known.{Chain, OfRun, Known, and_seen}
use service_provider_kro.Exec.Laws.{Stops}

-- A chain that does not go on ends where its first part does.
stopped_at :
    {A B : Type 0} (P : State → Type 0) (r : Outcome A) (s' : State) (g : A → Exec B)
    → ((a : A) → r ≢ returned a)
    → P s'
    → P (continue r g s').1
stopped_at P (returned a) s' g never h = absurd (never a refl)
stopped_at P (failed e) s' g never h = h
stopped_at P panicked s' g never h = h

module _ (I : Event → Log → Type 0) where
  abbrev pub Holds : Known → State → Type 0
  Holds K s = K.Fact s.log × Chain I s.log

  pub record Causal (K : Known) {A : Type 0} (m : Exec A) : Type 0 where
    pub at : (s : State) → Holds K s → Holds K (m s).1

  module _ {K : Known} {A : Type 0} where
    pub Causal-pure : (a : A) → Causal K (pure a)
    unfolding ◌>>=◌
    Causal-pure a = record { at = λ s h. h }

    pub Causal-fail : (e : Error) → Causal K (fail {A = A} e)
    unfolding ◌>>=◌
    Causal-fail e = record { at = λ s h. h }

    pub Causal-panic : Causal K (panic {A = A})
    unfolding ◌>>=◌
    Causal-panic = record { at = λ s h. h }

    pub Causal-gets : (f : State → A) → Causal K (gets f)
    unfolding ◌>>=◌
    Causal-gets f = record { at = λ s h. h }

    pub Causal-settle : (f : ApiError → Error) (a : Answer A) → Causal K (settle f a)
    unfolding ◌>>=◌
    Causal-settle f (ok a) = Causal-pure a
    Causal-settle f (err e) = Causal-fail (f e)

    pub Causal-from_either : (x : Error ⊎ A) → Causal K (from_either x)
    unfolding ◌>>=◌
    Causal-from_either (inl e) = Causal-fail e
    Causal-from_either (inr a) = Causal-pure a

    pub Causal-if :
        (b : Bool) (m n : Exec A) → Causal K m → Causal K n → Causal K (if b then m else n)
    Causal-if true m n x y = x
    Causal-if false m n x y = y

    -- A call whose events need no reason but what is known.
    pub Causal-call :
        (ask : Log → A) (event : A → Event)
        → ((a : A) (log : Log) → K.Fact log → OfRun (event a) × I (event a) log)
        → Causal K (call ask event)
    unfolding ◌>>=◌
    Causal-call ask event reason = record {
      at = λ s h.
          let (of_run, why) = reason (ask s.log) s.log h.0 in
          (K.lasts (event (ask s.log)) s.log of_run h.0, (why, h.1));
    }

  pub Causal-modify : {K : Known} (f : Kro → Kro) → Causal K (modify f)
  unfolding ◌>>=◌
  Causal-modify f = record { at = λ s h. h }

  module _ {K : Known} {A B : Type 0} where
    continue-Holds :
        (r : Outcome A) (s' : State) (f : A → Exec B)
        → ((a : A) → Causal K (f a))
        → Holds K s'
        → Holds K (continue r f s').1
    continue-Holds (returned a) s' f g h = (g a).at s' h
    continue-Holds (failed e) s' f g h = h
    continue-Holds panicked s' f g h = h

    pub Causal-bind :
        (m : Exec A) (f : A → Exec B) → Causal K m → ((a : A) → Causal K (f a)) → Causal K (m >>= f)
    unfolding ◌>>=◌
    Causal-bind m f x g = record { at = λ s h. continue-Holds (m s).0 (m s).1 f g (x.at s h) }

    -- What follows a call knows its event.
    pub Causal-call_then :
        (ask : Log → A) (event : A → Event) (f : A → Exec B)
        → ((a : A) (log : Log) → K.Fact log → OfRun (event a) × I (event a) log)
        → ((a : A) → Causal (and_seen K (event a)) (f a))
        → Causal K (call ask event >>= f)
    unfolding ◌>>=◌
    Causal-call_then ask event f reason g = record {
      at = λ s h.
          let e = event (ask s.log) in
          let (of_run, why) = reason (ask s.log) s.log h.0 in
          let k = K.lasts e s.log of_run h.0 in
          let after =
            (g (ask s.log)).at (record s { log = e ∷ s.log }) ((k, inl refl), (why, h.1)) in
          (after.0.0, after.1);
    }

    -- What follows a settled answer knows that it was no error.
    pub Causal-settle_then :
        (f : ApiError → Error) (x : Answer A) (g : A → Exec B)
        → ((a : A) → x ≡ ok a → Causal K (g a))
        → Causal K (settle f x >>= g)
    unfolding ◌>>=◌
    Causal-settle_then f (ok a) g h = record { at = λ s k. (h a refl).at s k }
    Causal-settle_then f (err e) g h = record { at = λ s k. k }

    -- What follows a pure function that may fail knows its value.
    pub Causal-either_then :
        (x : Error ⊎ A) (g : A → Exec B)
        → ((a : A) → x ≡ inr a → Causal K (g a))
        → Causal K (from_either x >>= g)
    unfolding ◌>>=◌
    Causal-either_then (inl e) g h = record { at = λ s k. k }
    Causal-either_then (inr a) g h = record { at = λ s k. (h a refl).at s k }

  module _ {K : Known} {A : Type 0} where
    recover-Holds :
        (r : Outcome A) (s' : State) (k : Error → Exec A)
        → ((e : Error) → Causal K (k e))
        → Holds K s'
        → Holds K (recover r k s').1
    recover-Holds (returned a) s' k g h = h
    recover-Holds (failed e) s' k g h = (g e).at s' h
    recover-Holds panicked s' k g h = h

    pub Causal-on_error :
        (m : Exec A) (k : Error → Exec A)
        → Causal K m
        → ((e : Error) → Causal K (k e))
        → Causal K (on_error m k)
    unfolding on_error
    Causal-on_error m k x g = record { at = λ s h. recover-Holds (m s).0 (m s).1 k g (x.at s h) }

  module _ {K : Known} {A B : Type 0} where
    answered-Holds :
        (f : ApiError → Error) (event : Answer A → Event) (handler : Error → Exec A)
        (g : A → Exec B) (answer : Answer A) (s : State)
        → ((log : Log) → K.Fact log → OfRun (event answer) × I (event answer) log)
        → ((e : Error) → Causal K (handler e))
        → Stops handler
        → ((a : A) → Causal (and_seen K (event (ok a))) (g a))
        → Holds K s
        → let s' = record s { log = event answer ∷ s.log } in
          Holds K ((on_error (settle f answer) handler >>= g) s').1
    unfolding ◌>>=◌ on_error
    answered-Holds f event handler g (ok a) s reason h stops k known =
        let why = reason s.log known.0 in
        let after =
          (k a).at (record s { log = event (ok a) ∷ s.log })
            ((K.lasts (event (ok a)) s.log why.0 known.0, inl refl), (why.1, known.1)) in
        (after.0.0, after.1)
    answered-Holds f event handler g (err e) s reason h stops k known =
        let why = reason s.log known.0 in
        let s' = record s { log = event (err e) ∷ s.log } in
        let r = handler (f e) s' in
        stopped_at (Holds K) r.0 r.1 g (λ a. stops.never (f e) s' a)
          ((h (f e)).at s' (K.lasts (event (err e)) s.log why.0 known.0, (why.1, known.1)))

    -- What follows a call whose error is handled, and then returned, knows its answer.
    pub Causal-asked_then :
        (f : ApiError → Error) (ask : Log → Answer A) (event : Answer A → Event)
        (handler : Error → Exec A) (g : A → Exec B)
        → ((a : Answer A) (log : Log) → K.Fact log → OfRun (event a) × I (event a) log)
        → ((e : Error) → Causal K (handler e))
        → Stops handler
        → ((a : A) → Causal (and_seen K (event (ok a))) (g a))
        → Causal K (on_error (call ask event >>= λ a. settle f a) handler >>= g)
    unfolding ◌>>=◌ on_error
    Causal-asked_then f ask event handler g reason h stops k = record {
      at = λ s known.
          answered-Holds f event handler g (ask s.log) s (reason (ask s.log)) h stops k known;
    }

pub ruleset causal_rules = (
  Causal-pure, Causal-fail, Causal-panic, Causal-gets, Causal-settle, Causal-from_either, Causal-if,
  Causal-modify, Causal-bind, Causal-on_error,
)
