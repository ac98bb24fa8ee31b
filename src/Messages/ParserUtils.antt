-- ===== src/Messages/ParserUtils.antt =====
-- messages/message_parser_utils.cpp, and the pattern in which the parsers read one decimal field.
use taifex_cpp_sdk.Prelude.{
  ℕ, ◌≡◌, refl, arith, Bool, true, false, ◌&&◌, Option, none, some, List, [], ltb, is_empty,
  if◌then◌else◌,
}
use taifex_cpp_sdk.Prelude.Int.{ℤ}
use taifex_cpp_sdk.ErrorCodes.{Result, ok, err}
use taifex_cpp_sdk.Conversion.{stoul, stoll}
use taifex_cpp_sdk.PackBcd.{pack_bcd_to_ascii}

infixl 5 ◌>>=◌ ◌>>◌
abbrev pub ◌>>=◌ {ℓ κ} : {A : Type ℓ} {B : Type κ} → Option A → (A → Option B) → Option B
none >>= f = none
some a >>= f = f a

abbrev pub ◌>>◌ {ℓ} : {B : Type ℓ} → Option (Unit {0}) → Option B → Option B
m >> k = m >>= λ _. k

-- `if (test) return false;`
abbrev pub reject_if : Bool → Option (Unit {0})
reject_if true = none
reject_if false = some tt

-- `try { … } catch (const std::exception&) { return false; }`
abbrev pub attempt {ℓ} : {A : Type ℓ} → Result A → Option A
attempt (ok a) = some a
attempt (err e) = none

-- `catch (const std::runtime_error&) { return ""; }`; the decoder throws nothing else.
or_empty : Result (List ℕ) → List ℕ
or_empty (ok s) = s
or_empty (err e) = []

unfoldable pub bcd_bytes_to_ascii_string_helper : List ℕ → ℕ → List ℕ
unfolding or_empty
bcd_bytes_to_ascii_string_helper bcd_data_view num_digits =
    if is_empty bcd_data_view then [] else or_empty (pack_bcd_to_ascii bcd_data_view num_digits)

-- `std::string s = helper(span, digits); if (s.empty() && digits > 0) return false;`
unfoldable pub read_digits : List ℕ → ℕ → Option (List ℕ)
read_digits bytes digits =
    let s = bcd_bytes_to_ascii_string_helper bytes digits in
    if is_empty s && ltb 0 digits then none else some s

-- The same, then std::stoul or std::stoll in a try block.
unfoldable pub read_unsigned : List ℕ → ℕ → Option ℕ
read_unsigned bytes digits = read_digits bytes digits >>= λ s. attempt (stoul s)

unfoldable pub read_signed : List ℕ → ℕ → Option ℤ
read_signed bytes digits = read_digits bytes digits >>= λ s. attempt (stoll s)

-- A chain that succeeds succeeds at each of its steps.
pub bind_some {ℓ κ} :
    {A : Type ℓ} {B : Type κ} (m : Option A) (f : A → Option B) (b : B)
    → (m >>= f) ≡ some b
    → (a : A) × (m ≡ some a) × (f a ≡ some b)
bind_some none f b e = absurd (ground arith)
bind_some (some a) f b e = (a, refl, e)

pub reject_if-some {ℓ} :
    {B : Type ℓ} (test : Bool) (k : Option B) (b : B)
    → (reject_if test >> k) ≡ some b
    → (test ≡ false) × (k ≡ some b)
reject_if-some true k b e = absurd (ground arith)
reject_if-some false k b e = (refl, e)
