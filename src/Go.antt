-- ===== src/Go.antt =====
-- What the program uses of Go itself: error values and `time.Duration`.
-- `fmt.Errorf` with `%w` is `wrap`, `errors.New` is `new`, `errors.Join` is `join_errors`, and
-- `errors.Is` against `ErrInvalidUserInput` of controller-utils is `is_invalid_user_input`.
use service_provider_kro.Base.{
  ℕ, zero, suc, String, ◌<>◌, Bool, true, false, ◌||◌, Option, none, some,
}

-- An error from outside the program, by what the program observes of it: `apierrors.IsNotFound`,
-- `meta.IsNoMatchError` and `Error()`.
pub record ApiError : Type 0 where
  pub not_found : Bool
  pub no_match : Bool
  pub text : String

pub data Error : Type 0 where
  api : ApiError → Error
  -- the sentinel `ErrInvalidUserInput`
  invalid_user_input : Error
  new : String → Error
  -- `fmt.Errorf` of a text with one `%w`: what stands before it, the wrapped error, what follows
  wrap : String → Error → String → Error
  join_one : Error → Error
  join_two : Error → Error → Error

-- `err.Error()`, from the text of the sentinel
unfoldable pub error_text : String → Error → String
error_text sentinel (api e) = e.text
error_text sentinel invalid_user_input = sentinel
error_text sentinel (new s) = s
error_text sentinel (wrap before e after) = before <> (error_text sentinel e <> after)
error_text sentinel (join_one e) = error_text sentinel e
error_text sentinel (join_two e f) = error_text sentinel e <> ("\n" <> error_text sentinel f)

-- `errors.Is(err, ErrInvalidUserInput)`
unfoldable pub is_invalid_user_input : Error → Bool
is_invalid_user_input (api e) = false
is_invalid_user_input invalid_user_input = true
is_invalid_user_input (new s) = false
is_invalid_user_input (wrap before e after) = is_invalid_user_input e
is_invalid_user_input (join_one e) = is_invalid_user_input e
is_invalid_user_input (join_two e f) = is_invalid_user_input e || is_invalid_user_input f

-- `errors.Join`, which drops nil errors
unfoldable pub join_errors : Option Error → Option Error → Option Error
join_errors none none = none
join_errors (some e) none = some (join_one e)
join_errors none (some f) = some (join_one f)
join_errors (some e) (some f) = some (join_two e f)

-- A signed 64 bit number that the program only copies and compares with 0. `negsuc n` is -(n + 1).
pub data ℤ : Type 0 where
  pos : ℕ → ℤ
  negsuc : ℕ → ℤ

-- `time.Duration`, in nanoseconds
abbrev pub Duration : Type 0
Duration = ℤ

-- `d > 0`
unfoldable pub is_positive : ℤ → Bool
is_positive (pos zero) = false
is_positive (pos (suc n)) = true
is_positive (negsuc n) = false

-- `d == 0`
unfoldable pub is_zero : ℤ → Bool
is_zero (pos zero) = true
is_zero (pos (suc n)) = false
is_zero (negsuc n) = false

-- `time.Minute`
abbrev pub minute : Duration
minute = pos 60000000000

-- `10 * time.Second`
abbrev pub ten_seconds : Duration
ten_seconds = pos 10000000000
