-- ===== src/ErrorCodes.antt =====
-- The exceptions of error_codes.h and of the standard library that the code throws and catches, and
-- the result type of code that may throw. Messages are not modelled: they only reach the log.
use taifex_cpp_sdk.Prelude.{◌≡◌, refl, Bool, true, false, ◌⊎◌, inl, inr}

pub data Exception : Type 0 where
  runtime_error : Exception
  core_utils_exception invalid_argument_error parsing_error configuration_error io_error : Exception
  out_of_range invalid_argument system_error : Exception

-- Caught by `catch (const std::runtime_error&)`: the classes of error_codes.h derive from it, and
-- std::out_of_range and std::invalid_argument do not.
unfoldable pub is_runtime_error : Exception → Bool
is_runtime_error out_of_range = false
is_runtime_error invalid_argument = false
is_runtime_error _ = true

pub data Result {ℓ} (A : Type ℓ) : Type ℓ where
  ok : A → Result A
  err : Exception → Result A

infixl 5 ◌>>=◌
abbrev pub ◌>>=◌ {ℓ κ} : {A : Type ℓ} {B : Type κ} → Result A → (A → Result B) → Result B
ok a >>= f = f a
err e >>= f = err e

-- `try { m } catch`, with a handler for every exception.
abbrev pub catch {ℓ} : {A : Type ℓ} → Result A → (Exception → Result A) → Result A
catch (ok a) handler = ok a
catch (err e) handler = handler e

pub Result-cases {ℓ} :
    {A : Type ℓ} (r : Result A) → ((a : A) × (r ≡ ok a)) ⊎ ((e : Exception) × (r ≡ err e))
Result-cases (ok a) = inl (a, refl)
Result-cases (err e) = inr (e, refl)
