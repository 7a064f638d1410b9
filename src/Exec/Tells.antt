-- ===== src/Exec/Tells.antt =====
-- Actions whose result tells something of the log, for the reasons of the events that follow.
use service_provider_kro.Base.{Bool, true, false, ◌∷◌, ◌≡◌, ◌≢◌, inl, refl, if◌then◌else◌}
use service_provider_kro.Go.{ApiError, Error}
use service_provider_kro.Kube.{Answer, ok, err}
use service_provider_kro.Env.{Event, Log}
use service_provider_kro.Exec.Known.{and_known, always, Known, OfRun, and_seen}
use service_provider_kro.Exec.{
  Outcome, returned, failed, panicked, State, Exec, pure, fail, panic, call, settle, ◌>>=◌,
  on_error, continue, recover,
}
use service_provider_kro.Exec.Laws.{Stops}
use service_provider_kro.Exec.Causal.{Holds, Causal}

abbrev pub Told : {A : Type 0} → (A → Known) → Outcome A → Log → Type 0
Told P (returned a) log = (P a).Fact log
Told P (failed e) log = Unit
Told P panicked log = Unit

Told-never :
    {A : Type 0} (P : A → Known) (r : Outcome A) (log : Log)
    → ((a : A) → r ≢ returned a)
    → Told P r log
Told-never P (returned a) log other = absurd (other a refl)
Told-never P (failed e) log other = tt
Told-never P panicked log other = tt

Told-mono :
    {A : Type 0} (Q P : A → Known) (r : Outcome A) (log : Log)
    → ((a : A) → (Q a).Fact log → (P a).Fact log)
    → Told Q r log
    → Told P r log
Told-mono Q P (returned a) log weaken told = weaken a told
Told-mono Q P (failed e) log weaken told = tt
Told-mono Q P panicked log weaken told = tt

Told-anyway :
    {A : Type 0} (P : A → Known) (r : Outcome A) (log : Log)
    → ((a : A) → (P a).Fact log)
    → Told P r log
Told-anyway P (returned a) log tell = tell a
Told-anyway P (failed e) log tell = tt
Told-anyway P panicked log tell = tt

module _ (I : Event → Log → Type 0) where
  -- Its events have their reasons, and what it returns tells `P`.
  pub record Tells (K : Known) {A : Type 0} (P : A → Known) (m : Exec A) : Type 0 where
    pub at : (s : State) → Holds I K s → Holds I K (m s).1 × Told P (m s).0 (m s).1.log

  module _ {K : Known} {A : Type 0} where
    Told-recover :
        (P : A → Known) (r : Outcome A) (s' : State) (k : Error → Exec A)
        → ((e : Error) → Causal I K (k e))
        → Stops k
        → Holds I K s'
        → Told P r s'.log
        → Holds I K (recover r k s').1 × Told P (recover r k s').0 (recover r k s').1.log
    Told-recover P (returned a) s' k g stops h told = (h, told)
    Told-recover P (failed e) s' k g stops h told =
        ((g e).at s' h, Told-never P (k e s').0 (k e s').1.log (λ a. stops.never e s' a))
    Told-recover P panicked s' k g stops h told = (h, tt)

  module _ {K : Known} {A : Type 0} {P : A → Known} where
    pub Tells-pure : (a : A) → ((log : Log) → K.Fact log → (P a).Fact log) → Tells K P (pure a)
    unfolding ◌>>=◌
    Tells-pure a tell = record { at = λ s h. (h, tell s.log h.0) }

    pub Tells-fail : (e : Error) → Tells K P (fail {A = A} e)
    unfolding ◌>>=◌
    Tells-fail e = record { at = λ s h. (h, tt) }

    pub Tells-panic : Tells K P (panic {A = A})
    unfolding ◌>>=◌
    Tells-panic = record { at = λ s h. (h, tt) }

    pub Tells-mono :
        {Q : A → Known} (m : Exec A)
        → Tells K Q m
        → ((a : A) (log : Log) → K.Fact log → (Q a).Fact log → (P a).Fact log)
        → Tells K P m
    Tells-mono {Q} m x weaken = record {
      at = λ s h.
          let after = x.at s h in
          (
            after.0,
            Told-mono Q P (m s).0 (m s).1.log (λ a q. weaken a (m s).1.log after.0.0 q) after.1,
          );
    }

    -- What is known anyway is told by any action.
    pub Tells-anyway :
        (m : Exec A)
        → Causal I K m
        → ((a : A) (log : Log) → K.Fact log → (P a).Fact log)
        → Tells K P m
    Tells-anyway m x tell = record {
      at = λ s h.
          let after = x.at s h in
          (after, Told-anyway P (m s).0 (m s).1.log (λ a. tell a (m s).1.log after.0));
    }

    pub Tells-if :
        (b : Bool) (m n : Exec A) → Tells K P m → Tells K P n → Tells K P (if b then m else n)
    Tells-if true m n x y = x
    Tells-if false m n x y = y

    -- An error that is handled, and then returned
    pub Tells-on_error :
        (m : Exec A) (k : Error → Exec A)
        → Tells K P m
        → ((e : Error) → Causal I K (k e))
        → Stops k
        → Tells K P (on_error m k)
    unfolding on_error
    Tells-on_error m k x g stops = record {
      at = λ s h. let after = x.at s h in Told-recover P (m s).0 (m s).1 k g stops after.0 after.1;
    }

  module _ {K : Known} {A B : Type 0} {P : B → Known} where
    pub Tells-call_then :
        (ask : Log → A) (event : A → Event) (f : A → Exec B)
        → ((a : A) (log : Log) → K.Fact log → OfRun (event a) × I (event a) log)
        → ((a : A) → Tells (and_seen K (event a)) P (f a))
        → Tells K P (call ask event >>= f)
    unfolding ◌>>=◌
    Tells-call_then ask event f reason g = record {
      at = λ s h.
          let e = event (ask s.log) in
          let (of_run, why) = reason (ask s.log) s.log h.0 in
          let k = K.lasts e s.log of_run h.0 in
          let after =
            (g (ask s.log)).at (record s { log = e ∷ s.log }) ((k, inl refl), (why, h.1)) in
          ((after.0.0.0, after.0.1), after.1);
    }

    pub Tells-settle_then :
        (f : ApiError → Error) (x : Answer A) (g : A → Exec B)
        → ((a : A) → x ≡ ok a → Tells K P (g a))
        → Tells K P (settle f x >>= g)
    unfolding ◌>>=◌
    Tells-settle_then f (ok a) g h = record { at = λ s k. (h a refl).at s k }
    Tells-settle_then f (err e) g h = record { at = λ s k. (k, tt) }

  module _ {A B : Type 0} where
    Told-continue :
        {P : B → Known} (K : Known) (Q : A → Known) (r : Outcome A) (s' : State) (f : A → Exec B)
        → ((a : A) → Tells (and_known K (Q a)) P (f a))
        → Holds I K s'
        → Told Q r s'.log
        → Holds I K (continue r f s').1 × Told P (continue r f s').0 (continue r f s').1.log
    Told-continue K Q (returned a) s' f g h told =
        let after = (g a).at s' ((h.0, told), h.1) in ((after.0.0.0, after.0.1), after.1)
    Told-continue K Q (failed e) s' f g h told = (h, tt)
    Told-continue K Q panicked s' f g h told = (h, tt)

    -- What follows knows what it was told.
    pub Tells-told_then :
        {K : Known} {Q : A → Known} {P : B → Known} (m : Exec A) (f : A → Exec B)
        → Tells K Q m
        → ((a : A) → Tells (and_known K (Q a)) P (f a))
        → Tells K P (m >>= f)
    unfolding ◌>>=◌
    Tells-told_then {K} {Q} m f x g = record {
      at = λ s h. let after = x.at s h in Told-continue K Q (m s).0 (m s).1 f g after.0 after.1;
    }

    Told-cause :
        (K : Known) (Q : A → Known) (r : Outcome A) (s' : State) (f : A → Exec B)
        → ((a : A) → Causal I (and_known K (Q a)) (f a))
        → Holds I K s'
        → Told Q r s'.log
        → Holds I K (continue r f s').1
    Told-cause K Q (returned a) s' f g h told =
        let after = (g a).at s' ((h.0, told), h.1) in (after.0.0, after.1)
    Told-cause K Q (failed e) s' f g h told = h
    Told-cause K Q panicked s' f g h told = h

    pub Causal-told_then :
        {K : Known} {Q : A → Known} (m : Exec A) (f : A → Exec B)
        → Tells K Q m
        → ((a : A) → Causal I (and_known K (Q a)) (f a))
        → Causal I K (m >>= f)
    unfolding ◌>>=◌
    Causal-told_then {K} {Q} m f x g = record {
      at = λ s h. let after = x.at s h in Told-cause K Q (m s).0 (m s).1 f g after.0 after.1;
    }

    Told-learn :
        (K : Known) (P : A → Type 0) (r : Outcome A) (s' : State) (f : A → Exec B)
        → ((a : A) → P a → Causal I K (f a))
        → Holds I K s'
        → Told (λ a. always (P a)) r s'.log
        → Holds I K (continue r f s').1
    Told-learn K P (returned a) s' f g h told = (g a told).at s' h
    Told-learn K P (failed e) s' f g h told = h
    Told-learn K P panicked s' f g h told = h

    -- What is told without the log is known from then on.
    pub Causal-learned_then :
        {K : Known} {P : A → Type 0} (m : Exec A) (f : A → Exec B)
        → Tells K (λ a. always (P a)) m
        → ((a : A) → P a → Causal I K (f a))
        → Causal I K (m >>= f)
    unfolding ◌>>=◌
    Causal-learned_then {K} {P} m f x g = record {
      at = λ s h. let after = x.at s h in Told-learn K P (m s).0 (m s).1 f g after.0 after.1;
    }
