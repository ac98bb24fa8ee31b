-- ===== src/Prelude/Bits.antt =====
-- Exclusive or of native numbers at variables, digit by digit: the library has no laws for it.
use Prim.Native.Nat.{
  ℕ, zero, suc, ◌+◌, ◌*◌, ◌/◌, ◌%◌, ◌^◌, ◌≤◌, ◌<◌, bit_xor, bit_or, digits, differ, bit_xor-bitwise,
}
use mathlib.Core.Path.{◌≡◌, refl, sym, ap, ◌∙◌}
use mathlib.Core.Bool.{Bool, true, false}
use native.Mathlib.Omega.{arith}
use native.Mathlib.Nat.{pow-suc}
use taifex_cpp_sdk.Prelude.Tests.{◌==◌, if◌then◌else◌}

abbrev xor_digits : ℕ → ℕ → ℕ → ℕ
xor_digits fuel = digits (λ y. y) differ fuel

xor_digits-zero : (fuel b : ℕ) → xor_digits fuel 0 b ≡ b
xor_digits-zero zero b = refl
xor_digits-zero (suc fuel) b = refl

-- Any two amounts of fuel that cover the first number give the same digits.
xor_fuel : (a b m n : ℕ) → a ≤ m → a ≤ n → xor_digits m a b ≡ xor_digits n a b
xor_fuel zero b m n p q = xor_digits-zero m b ∙ sym (xor_digits-zero n b)
xor_fuel (suc a) b zero n p q = absurd (omega arith)
xor_fuel (suc a) b (suc m) zero p q = absurd (omega arith)
xor_fuel (suc a) b (suc m) (suc n) p q =
    ap (λ (d : ℕ). d * 2 + differ (suc a % 2) (b % 2))
      (xor_fuel (suc a / 2) (b / 2) m n (omega arith) (omega arith))

differ-lt : (a b : ℕ) → a < 2 → b < 2 → differ a b ≡ (a + b) % 2
differ-lt zero zero p q = refl
differ-lt zero (suc zero) p q = refl
differ-lt (suc zero) zero p q = refl
differ-lt (suc zero) (suc zero) p q = refl
differ-lt (suc (suc a)) b p q = absurd (omega arith)
differ-lt a (suc (suc b)) p q = absurd (omega arith)

zero-bit_xor : (b : ℕ) → bit_xor 0 b ≡ b
zero-bit_xor b = bit_xor-bitwise 0 b

-- The lowest digit, and the rest.
pub bit_xor_step : (a b : ℕ) → bit_xor a b ≡ bit_xor (a / 2) (b / 2) * 2 + (a % 2 + b % 2) % 2
bit_xor_step zero b = omega (arith, zero-bit_xor b, zero-bit_xor (b / 2))
bit_xor_step (suc a) b =
    let half = bit_xor-bitwise (suc a / 2) (b / 2) in
    let spare = xor_fuel (suc a / 2) (b / 2) a (suc a / 2) (omega arith) (omega arith) in
    let digit = differ-lt (suc a % 2) (b % 2) (omega arith) (omega arith) in
    omega (arith, bit_xor-bitwise (suc a) b, half, spare, digit)

bit_xor_comm_fuel : (n a b : ℕ) → a ≤ n → b ≤ n → bit_xor a b ≡ bit_xor b a
bit_xor_comm_fuel zero zero zero p q = refl
bit_xor_comm_fuel zero (suc a) b p q = absurd (omega arith)
bit_xor_comm_fuel zero a (suc b) p q = absurd (omega arith)
bit_xor_comm_fuel (suc n) a b p q = omega (
  arith,
  bit_xor_step a b,
  bit_xor_step b a,
  bit_xor_comm_fuel n (a / 2) (b / 2) (omega arith) (omega arith),
)

pub bit_xor_comm : (a b : ℕ) → bit_xor a b ≡ bit_xor b a
bit_xor_comm a b = bit_xor_comm_fuel (a + b) a b (omega arith) (omega arith)

pub bit_xor-zero : (a : ℕ) → bit_xor a 0 ≡ a
bit_xor-zero a = bit_xor_comm a 0 ∙ zero-bit_xor a

bit_xor_assoc_fuel :
    (n a b c : ℕ) → a ≤ n → b ≤ n → c ≤ n → bit_xor (bit_xor a b) c ≡ bit_xor a (bit_xor b c)
bit_xor_assoc_fuel zero zero zero zero p q r = refl
bit_xor_assoc_fuel zero (suc a) b c p q r = absurd (omega arith)
bit_xor_assoc_fuel zero a (suc b) c p q r = absurd (omega arith)
bit_xor_assoc_fuel zero a b (suc c) p q r = absurd (omega arith)
bit_xor_assoc_fuel (suc n) a b c p q r = ground (
  arith,
  bit_xor_step a b,
  bit_xor_step b c,
  bit_xor_step (bit_xor a b) c,
  bit_xor_step a (bit_xor b c),
  bit_xor_assoc_fuel n (a / 2) (b / 2) (c / 2) (omega arith) (omega arith) (omega arith),
)

pub bit_xor_assoc : (a b c : ℕ) → bit_xor (bit_xor a b) c ≡ bit_xor a (bit_xor b c)
bit_xor_assoc a b c = bit_xor_assoc_fuel (a + b + c) a b c (omega arith) (omega arith) (omega arith)

bit_xor_self_fuel : (n a : ℕ) → a ≤ n → bit_xor a a ≡ 0
bit_xor_self_fuel n zero p = refl
bit_xor_self_fuel zero (suc a) p = absurd (omega arith)
bit_xor_self_fuel (suc n) (suc a) p =
    omega (arith, bit_xor_step (suc a) (suc a), bit_xor_self_fuel n (suc a / 2) (omega arith))

pub bit_xor_self : (a : ℕ) → bit_xor a a ≡ 0
bit_xor_self a = bit_xor_self_fuel a a (omega arith)

-- Exclusive or stays within the width of its arguments.
pub bit_xor-lt_pow : (k a b : ℕ) → a < 2 ^ k → b < 2 ^ k → bit_xor a b < 2 ^ k
bit_xor-lt_pow zero zero zero p q = omega arith
bit_xor-lt_pow zero (suc a) b p q = absurd (omega arith)
bit_xor-lt_pow zero a (suc b) p q = absurd (omega arith)
bit_xor-lt_pow (suc k) a b p q = omega (
  arith,
  pow-suc 2 k,
  bit_xor_step a b,
  bit_xor-lt_pow k (a / 2) (b / 2) (omega (arith, pow-suc 2 k)) (omega (arith, pow-suc 2 k)),
)

-- A test passed by every number below a bound.
pub passes : (ℕ → Bool) → ℕ → Bool
passes test zero = true
passes test (suc bound) = let rest = passes test bound in if test bound then rest else false

pub passes_at :
    (test : ℕ → Bool) (bound : ℕ) {n : ℕ} → passes test bound ≡ true → n < bound → test n ≡ true
unfolding passes
passes_at test zero checked below = elim below [ ]
passes_at test (suc bound) {n} checked below = ground (arith, passes_at test bound {n = n})

-- `(d1 << 4) | d2` for two nibbles, checked at all 256 pairs.
or_table : passes (λ x. bit_or (x / 16 * 16) (x % 16) == x) 256 ≡ true
unfolding passes
or_table = refl

pub bit_or_nibbles : (hi lo : ℕ) → hi < 16 → lo < 16 → bit_or (hi * 16) lo ≡ hi * 16 + lo
bit_or_nibbles hi lo p q = ground (
  arith,
  passes_at (λ x. bit_or (x / 16 * 16) (x % 16) == x) 256 {n = hi * 16 + lo} or_table (omega arith),
)
