-- ===== src/Start/Rules.antt =====
-- Programs of statements whose calls have their reasons, and that end with exit code 0 only where
-- a given condition holds.
use service_provider_kro.Base.{
  Bool, true, false, Option, none, some, [], ◌∷◌, ◌++◌, ◌⊎◌, inl, inr, ◌≡◌, ◌≢◌, refl, subst,
  if◌then◌else◌,
}
use service_provider_kro.Go.{ApiError}
use service_provider_kro.Start.Outside.{Startup, Calls}
use service_provider_kro.Start.Steps.{
  End, exited, Result, goes_on, ended, Main, pure, end, ask, must, continue, ◌>>=◌,
}

-- The call was made.
abbrev pub Made : Startup → Calls → Type 0
Made x [] = ⊥
Made x (y ∷ calls) = (y ≡ x) ⊎ Made x calls

-- Each call has its reason among the earlier ones.
abbrev pub Reasons : (Startup → Calls → Type 0) → Calls → Type 0
Reasons I [] = Unit
Reasons I (x ∷ calls) = I x calls × Reasons I calls

pub Reasons-at :
    (I : Startup → Calls → Type 0) (after : Calls) (x : Startup) (before : Calls)
    → Reasons I (after ++ x ∷ before)
    → I x before
Reasons-at I [] x before reasons = reasons.0
Reasons-at I (y ∷ after) x before reasons = Reasons-at I after x before reasons.1

-- What is known of the calls stays known.
pub record Known : Type 1 where
  pub Fact : Calls → Type 0
  pub lasts : (x : Startup) (calls : Calls) → Fact calls → Fact (x ∷ calls)

abbrev pub nothing_known : Known
nothing_known = record { Fact = λ calls. Unit; lasts = λ x calls u. u }

abbrev pub and_made : Known → Startup → Known
and_made K x = record {
  Fact = λ calls. K.Fact calls × Made x calls;
  lasts = λ y calls h. (K.lasts y calls h.0, inr h.1);
}

module _ {A B C : Type 0} where
  assoc_at :
      (r : Result A) (calls : Calls) (n : A → Main B) (f : B → Main C)
      → continue r (λ a. n a >>= f) calls ≡ (continue r n >>= f) calls
  unfolding ◌>>=◌
  assoc_at (goes_on a) calls n f = refl
  assoc_at (ended e) calls n f = refl

module _ (I : Startup → Calls → Type 0) (Done : Calls → Type 0) where
  -- Where the exit code is 0, `Done` holds.
  abbrev pub EndsWell : {A : Type 0} → Result A → Calls → Type 0
  EndsWell (goes_on a) calls = Unit
  EndsWell (ended e) calls = e ≡ exited 0 → Done calls

  pub record Sure (K : Known) {A : Type 0} (m : Main A) : Type 0 where
    pub at :
        (calls : Calls)
        → K.Fact calls
        → Reasons I calls
        → Reasons I (m calls).1 × EndsWell (m calls).0 (m calls).1

  module _ {K : Known} {A : Type 0} where
    pub Sure-end : (e : End) → e ≢ exited 0 → Sure K (end {A = A} e)
    unfolding ◌>>=◌
    Sure-end e differs = record { at = λ calls k h. (h, λ same. absurd (differs same)) }

    pub Sure-done :
        (e : End) → ((calls : Calls) → K.Fact calls → Done calls) → Sure K (end {A = A} e)
    unfolding ◌>>=◌
    Sure-done e done = record { at = λ calls k h. (h, λ same. done calls k) }

    pub Sure-if :
        (b : Bool) (m n : Main A)
        → (b ≡ true → Sure K m)
        → (b ≡ false → Sure K n)
        → Sure K (if b then m else n)
    Sure-if true m n x y = x refl
    Sure-if false m n x y = y refl

  module _ {K : Known} {A B : Type 0} where
    pub Sure-pure_then : (a : A) (f : A → Main B) → Sure K (f a) → Sure K (pure a >>= f)
    unfolding ◌>>=◌
    Sure-pure_then a f x = record { at = λ calls k h. x.at calls k h }

    -- A call goes on with what is known of it.
    pub Sure-ask_then :
        (answer : Calls → A) (event : A → Startup) (f : A → Main B)
        → ((a : A) (calls : Calls) → K.Fact calls → I (event a) calls)
        → ((a : A) → Sure (and_made K (event a)) (f a))
        → Sure K (ask answer event >>= f)
    unfolding ◌>>=◌
    Sure-ask_then answer event f reason g = record {
      at = λ calls k h.
          let x = event (answer calls) in
          (g (answer calls)).at (x ∷ calls) (K.lasts x calls k, inl refl)
            (reason (answer calls) calls k, h);
    }

    -- Behind a test that ends the program where it fails, the test holds.
    pub Sure-unless_then :
        (b : Bool) (e : End) (a : A) (f : A → Main B)
        → e ≢ exited 0
        → (b ≡ true → Sure K (f a))
        → Sure K ((if b then pure a else end e) >>= f)
    unfolding ◌>>=◌
    Sure-unless_then true e a f differs g = record { at = λ calls k h. (g refl).at calls k h }
    Sure-unless_then false e a f differs g = record {
      at = λ calls k h. (h, λ same. absurd (differs same));
    }

    pub Sure-if_then :
        (b : Bool) (e : End) (a : A) (f : A → Main B)
        → e ≢ exited 0
        → (b ≡ false → Sure K (f a))
        → Sure K ((if b then end e else pure a) >>= f)
    unfolding ◌>>=◌
    Sure-if_then false e a f differs g = record { at = λ calls k h. (g refl).at calls k h }
    Sure-if_then true e a f differs g = record {
      at = λ calls k h. (h, λ same. absurd (differs same));
    }

  module _ (K : Known) {B : Type 0} where
    must_at :
        (error : Option ApiError) (event : Option ApiError → Startup) (f : Unit {0} → Main B)
        (calls : Calls)
        → Sure (and_made K (event none)) (f tt)
        → K.Fact calls
        → I (event error) calls
        → Reasons I calls
        → let r = (must (λ _. error) event >>= f) calls in Reasons I r.1 × EndsWell r.0 r.1
    unfolding must ◌>>=◌
    must_at none event f calls g k i h =
        g.at (event none ∷ calls) (K.lasts (event none) calls k, inl refl) (i, h)
    must_at (some e) event f calls g k i h = ((i, h), λ same. cc)

  module _ {K : Known} {B : Type 0} where
    -- A call that must succeed has succeeded in what follows.
    pub Sure-must_then :
        (answer : Calls → Option ApiError) (event : Option ApiError → Startup)
        (f : Unit {0} → Main B)
        → ((error : Option ApiError) (calls : Calls) → K.Fact calls → I (event error) calls)
        → Sure (and_made K (event none)) (f tt)
        → Sure K (must answer event >>= f)
    unfolding must ◌>>=◌
    Sure-must_then answer event f reason g = record {
      at =
          λ calls k h. must_at K (answer calls) event f calls g k (reason (answer calls) calls k) h;
    }

  module _ {K : Known} {A B C : Type 0} where
    pub Sure-assoc :
        (m : Main A) (n : A → Main B) (f : B → Main C)
        → Sure K (m >>= λ a. n a >>= f)
        → Sure K ((m >>= n) >>= f)
    unfolding ◌>>=◌
    Sure-assoc m n f x = record {
      at = λ calls k h.
          subst (λ r. Reasons I r.1 × EndsWell r.0 r.1) (assoc_at (m calls).0 (m calls).1 n f)
            (x.at calls k h);
    }
