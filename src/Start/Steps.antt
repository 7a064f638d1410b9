-- ===== src/Start/Steps.antt =====
-- Statements of a program that may end it: `os.Exit`, a return from `main`, a panic.
use service_provider_kro.Base.{ℕ, Option, none, some, ◌∷◌}
use service_provider_kro.Go.{ApiError}
use service_provider_kro.Start.Outside.{Startup, Calls}

-- How the program ends. A return from `main` is exit code 0.
pub data End : Type 0 where
  exited : ℕ → End
  panicked : End

pub data Result (A : Type 0) : Type 0 where
  goes_on : A → Result A
  ended : End → Result A

abbrev pub Main : Type 0 → Type 0
Main A = Calls → Result A × Calls

module _ {A : Type 0} where
  pub pure : A → Main A
  pure a calls = (goes_on a, calls)

  pub end : End → Main A
  end e calls = (ended e, calls)

  -- a call that leaves the program
  pub ask : (Calls → A) → (A → Startup) → Main A
  ask answer event calls = let a = answer calls in (goes_on a, event a ∷ calls)

-- `if err != nil { setupLog.Error(err, ...); os.Exit(1) }`
pub exit_on : Option ApiError → Main (Unit {0})
unfolding pure end
exit_on none = pure tt
exit_on (some e) = end (exited 1)

module _ {A B : Type 0} where
  abbrev pub continue : Result A → (A → Main B) → Main B
  continue (goes_on a) f calls = f a calls
  continue (ended e) f calls = (ended e, calls)

  infixl 10 ◌>>=◌ ◌>>◌
  -- opening this opens the other statements too
  unfoldable pub ◌>>=◌ : Main A → (A → Main B) → Main B
  unfolding pure end ask exit_on
  ◌>>=◌ m f calls = let (r, calls') = m calls in continue r f calls'

  abbrev pub ◌>>◌ : Main A → Main B → Main B
  m >> n = m >>= λ _. n

-- `if err := call(); err != nil { ...; os.Exit(1) }`
unfoldable pub must : (Calls → Option ApiError) → (Option ApiError → Startup) → Main (Unit {0})
unfolding ◌>>=◌
must answer event = ask answer event >>= exit_on
