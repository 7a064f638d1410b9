-- ===== src/Exec/Follows.antt =====
-- A plan is a list of writes in their order. An action follows it if what it writes, whatever the
-- outcome, is an initial part of the plan, and all of it when the action returns.
use mathlib.Core.List.{append-nil, append_assoc}
use service_provider_kro.Base.{List, [], ◌∷◌, ◌++◌, ◌⊎◌, inl, inr, ◌≡◌, refl, sym, ◌∙◌, ap}
use service_provider_kro.Go.{ApiError, Error}
use service_provider_kro.Kube.{Answer, ok, err}
use service_provider_kro.Api.Kro.{Kro}
use service_provider_kro.Env.{Event, Log}
use service_provider_kro.Exec.{
  Outcome, returned, failed, panicked, State, Exec, pure, fail, panic, gets, call, settle,
  from_either, modify, ◌>>=◌, on_error, continue, recover,
}

-- What is left of the plan when the outcome is an error does not matter.
abbrev pub Complete : {W A : Type 0} → Outcome A → List W → Type 0
Complete (returned a) rest = rest ≡ []
Complete (failed e) rest = Unit
Complete panicked rest = Unit

-- `written` says which writes an event stands for.
module _ {W : Type 0} (written : Event → List W) where
  abbrev pub trace : Log → List W
  trace [] = []
  trace (e ∷ log) = trace log ++ written e

  -- From a log to a result, the writes in between are `done`, and `rest` is left of the plan.
  pub record Run {A : Type 0} (plan : List W) (before : Log) (r : Outcome A × State) : Type 0 where
    pub done : List W
    pub rest : List W
    pub split : plan ≡ done ++ rest
    pub wrote : trace r.1.log ≡ trace before ++ done
    pub complete : Complete r.0 rest

  pub record Follows {A : Type 0} (plan : List W) (m : Exec A) : Type 0 where
    pub at : (s : State) → Run plan s.log (m s)

  module _ {A : Type 0} where
    -- What a run wrote counts from any log with the same writes.
    pub Run-from :
        (plan : List W) (log log' : Log) (r : Outcome A × State)
        → trace log ≡ trace log'
        → Run plan log r
        → Run plan log' r
    Run-from plan log log' r same x = record {
      done = x.done;
      rest = x.rest;
      split = x.split;
      wrote = x.wrote ∙ ap (λ w. w ++ x.done) same;
      complete = x.complete;
    }

    -- Nothing is written, and the action does not return.
    stopped :
        (plan : List W) (log : Log) (r : Outcome A × State)
        → trace r.1.log ≡ trace log
        → Complete r.0 plan
        → Run plan log r
    stopped plan log r same c = record {
      done = [];
      rest = plan;
      split = refl;
      wrote = same ∙ sym (append-nil (trace log));
      complete = c;
    }

    pub Follows-pure : (a : A) → Follows [] (pure a)
    unfolding ◌>>=◌
    Follows-pure a = record { at = λ s. stopped [] s.log (pure a s) refl refl }

    pub Follows-fail : (plan : List W) (e : Error) → Follows plan (fail {A = A} e)
    unfolding ◌>>=◌
    Follows-fail plan e = record { at = λ s. stopped plan s.log (fail e s) refl tt }

    pub Follows-panic : (plan : List W) → Follows plan (panic {A = A})
    unfolding ◌>>=◌
    Follows-panic plan = record { at = λ s. stopped plan s.log (panic s) refl tt }

    pub Follows-gets : (f : State → A) → Follows [] (gets f)
    unfolding ◌>>=◌
    Follows-gets f = record { at = λ s. stopped [] s.log (gets f s) refl refl }

    -- A call that writes nothing.
    pub Follows-call :
        (ask : Log → A) (event : A → Event)
        → ((a : A) → written (event a) ≡ [])
        → Follows [] (call ask event)
    unfolding ◌>>=◌
    Follows-call ask event quiet = record {
      at = λ s.
          stopped [] s.log (call ask event s)
            (ap (λ w. trace s.log ++ w) (quiet (ask s.log)) ∙ append-nil (trace s.log)) refl;
    }

    -- A call that counts as `w` whatever its answer.
    pub Follows-attempt :
        (w : List W) (ask : Log → A) (event : A → Event)
        → ((a : A) → written (event a) ≡ w)
        → Follows w (call ask event)
    unfolding ◌>>=◌
    Follows-attempt w ask event tries = record {
      at = λ s. record {
        done = w;
        rest = [];
        split = sym (append-nil w);
        wrote = ap (λ v. trace s.log ++ v) (tries (ask s.log));
        complete = refl;
      };
    }

    pub Follows-settle : (f : ApiError → Error) (a : Answer A) → Follows [] (settle f a)
    unfolding ◌>>=◌
    Follows-settle f (ok a) = Follows-pure a
    Follows-settle f (err e) = Follows-fail [] _

    pub Follows-from_either : (r : Error ⊎ A) → Follows [] (from_either r)
    unfolding ◌>>=◌
    Follows-from_either (inl e) = Follows-fail [] e
    Follows-from_either (inr a) = Follows-pure a

  pub Follows-modify : (f : Kro → Kro) → Follows [] (modify f)
  unfolding ◌>>=◌
  Follows-modify f = record { at = λ s. stopped [] s.log (modify f s) refl refl }

  module _ {A B : Type 0} where
    -- The second part starts where the first ended.
    after_return :
        (p q : List W) (log : Log) (a : A) (s' : State) (f : A → Exec B)
        → Run p log (returned a, s')
        → Run q s'.log (f a s')
        → Run (p ++ q) log (f a s')
    after_return p q log a s' f x y = record {
      done = p ++ y.done;
      rest = y.rest;
      split = ap (λ w. p ++ w) y.split ∙ sym (append_assoc p y.done y.rest);
      wrote =
          y.wrote
          ∙ ap (λ w. w ++ y.done) (x.wrote ∙ ap (λ w. trace log ++ w) (sym whole))
          ∙ append_assoc (trace log) p y.done;
      complete = y.complete;
    }
      where
        whole : p ≡ x.done
        whole = x.split ∙ ap (λ w. x.done ++ w) x.complete ∙ append-nil x.done

    continue-Run :
        (p q : List W) (log : Log) (r : Outcome A) (s' : State) (f : A → Exec B)
        → ((a : A) → r ≡ returned a → Follows q (f a))
        → Run p log (r, s')
        → Run (p ++ q) log (continue r f s')
    continue-Run p q log (returned a) s' f g x = after_return p q log a s' f x ((g a refl).at s')
    continue-Run p q log (failed e) s' f g x = record {
      done = x.done;
      rest = x.rest ++ q;
      split = ap (λ w. w ++ q) x.split ∙ append_assoc x.done x.rest q;
      wrote = x.wrote;
      complete = tt;
    }
    continue-Run p q log panicked s' f g x = record {
      done = x.done;
      rest = x.rest ++ q;
      split = ap (λ w. w ++ q) x.split ∙ append_assoc x.done x.rest q;
      wrote = x.wrote;
      complete = tt;
    }

    -- The second part may use what the first can return.
    pub Follows-bind_returned :
        (p q : List W) (m : Exec A) (f : A → Exec B)
        → Follows p m
        → ((s : State) (a : A) → (m s).0 ≡ returned a → Follows q (f a))
        → Follows (p ++ q) (m >>= f)
    unfolding ◌>>=◌
    Follows-bind_returned p q m f x g = record {
      at = λ s. continue-Run p q s.log (m s).0 (m s).1 f (g s) (x.at s);
    }

    pub Follows-bind :
        (p q : List W) (m : Exec A) (f : A → Exec B)
        → Follows p m
        → ((a : A) → Follows q (f a))
        → Follows (p ++ q) (m >>= f)
    Follows-bind p q m f x g = Follows-bind_returned p q m f x (λ s a e. g a)

    -- A first part that writes nothing leaves the plan as it is.
    pub Follows-quiet :
        (q : List W) (m : Exec A) (f : A → Exec B)
        → Follows [] m
        → ((a : A) → Follows q (f a))
        → Follows q (m >>= f)
    Follows-quiet q m f x g = Follows-bind [] q m f x g

  module _ {A : Type 0} where
    recover-Run :
        (p : List W) (log : Log) (r : Outcome A) (s' : State) (h : Error → Exec A)
        → ((e : Error) (q : List W) → Follows q (h e))
        → Run p log (r, s')
        → Run p log (recover r h s')
    recover-Run p log (returned a) s' h stops x = x
    recover-Run p log panicked s' h stops x = x
    recover-Run p log (failed e) s' h stops x = record {
      done = x.done ++ y.done;
      rest = y.rest;
      split = x.split ∙ ap (λ w. x.done ++ w) y.split ∙ sym (append_assoc x.done y.done y.rest);
      wrote = y.wrote ∙ ap (λ w. w ++ y.done) x.wrote ∙ append_assoc (trace log) x.done y.done;
      complete = y.complete;
    }
      where
        y : Run x.rest s'.log (h e s')
        y = (stops e x.rest).at s'

    -- The handler of an error follows any plan: it writes nothing and never returns.
    pub Follows-on_error :
        (p : List W) (m : Exec A) (h : Error → Exec A)
        → Follows p m
        → ((e : Error) (q : List W) → Follows q (h e))
        → Follows p (on_error m h)
    unfolding on_error
    Follows-on_error p m h x stops = record {
      at = λ s. let (r, s') = m s in recover-Run p s.log r s' h stops (x.at s);
    }

    -- A call that writes `w` when it is answered with success. When it fails, the attempt counts
    -- as `w` or as nothing.
    written-Run :
        (w : List W) (f : ApiError → Error) (event : Answer A → Event) (s : State) (a : Answer A)
        → ((a : A) → written (event (ok a)) ≡ w)
        → ((e : ApiError) → (written (event (err e)) ≡ w) ⊎ (written (event (err e)) ≡ []))
        → Run w s.log (settle f a (record s { log = event a ∷ s.log }))
    unfolding ◌>>=◌
    written-Run w f event s (ok a) good bad = record {
      done = w;
      rest = [];
      split = sym (append-nil w);
      wrote = ap (λ v. trace s.log ++ v) (good a);
      complete = refl;
    }
    written-Run w f event s (err e) good bad = elim (bad e) [
      | inl attempt ↦ record {
        done = w;
        rest = [];
        split = sym (append-nil w);
        wrote = ap (λ v. trace s.log ++ v) attempt;
        complete = tt;
      }
      | inr lost ↦ record {
        done = [];
        rest = w;
        split = refl;
        wrote = ap (λ v. trace s.log ++ v) lost;
        complete = tt;
      }
    ]

    pub Follows-write :
        (w : List W) (f : ApiError → Error) (ask : Log → Answer A) (event : Answer A → Event)
        → ((a : A) → written (event (ok a)) ≡ w)
        → ((e : ApiError) → (written (event (err e)) ≡ w) ⊎ (written (event (err e)) ≡ []))
        → Follows w (call ask event >>= settle f)
    unfolding ◌>>=◌
    Follows-write w f ask event good bad = record {
      at = λ s. written-Run w f event s (ask s.log) good bad;
    }
