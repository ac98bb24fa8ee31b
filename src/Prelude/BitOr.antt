-- ===== src/Prelude/BitOr.antt =====
-- Inclusive or of native numbers at variables.
use Prim.Native.Nat.{
  ℕ, zero, suc, ◌+◌, ◌*◌, ◌/◌, ◌%◌, ◌^◌, ◌≤◌, ◌<◌, max, bit_or, digits, bit_or-bitwise,
}
use mathlib.Core.Path.{◌≡◌, refl, sym, ap, ◌∙◌}
use native.Mathlib.Omega.{arith}
use native.Mathlib.Nat.{pow-suc}

abbrev or_digits : ℕ → ℕ → ℕ → ℕ
or_digits fuel = digits (λ y. y) max fuel

or_digits-zero : (fuel b : ℕ) → or_digits fuel 0 b ≡ b
or_digits-zero zero b = refl
or_digits-zero (suc fuel) b = refl

or_fuel : (a b m n : ℕ) → a ≤ m → a ≤ n → or_digits m a b ≡ or_digits n a b
or_fuel zero b m n p q = or_digits-zero m b ∙ sym (or_digits-zero n b)
or_fuel (suc a) b zero n p q = absurd (omega arith)
or_fuel (suc a) b (suc m) zero p q = absurd (omega arith)
or_fuel (suc a) b (suc m) (suc n) p q =
    ap (λ (d : ℕ). d * 2 + max (suc a % 2) (b % 2))
      (or_fuel (suc a / 2) (b / 2) m n (omega arith) (omega arith))

zero-bit_or : (b : ℕ) → bit_or 0 b ≡ b
zero-bit_or b = bit_or-bitwise 0 b

-- The lowest digit, and the rest.
pub bit_or_step : (a b : ℕ) → bit_or a b ≡ bit_or (a / 2) (b / 2) * 2 + max (a % 2) (b % 2)
bit_or_step zero b = omega (arith, zero-bit_or b, zero-bit_or (b / 2))
bit_or_step (suc a) b =
    let half = bit_or-bitwise (suc a / 2) (b / 2) in
    let spare = or_fuel (suc a / 2) (b / 2) a (suc a / 2) (omega arith) (omega arith) in
    omega (arith, bit_or-bitwise (suc a) b, half, spare)

bit_or-zero_fuel : (n a : ℕ) → a ≤ n → bit_or a 0 ≡ a
bit_or-zero_fuel n zero p = zero-bit_or 0
bit_or-zero_fuel zero (suc a) p = absurd (omega arith)
bit_or-zero_fuel (suc n) (suc a) p =
    omega (arith, bit_or_step (suc a) 0, bit_or-zero_fuel n (suc a / 2) (omega arith))

pub bit_or-zero : (a : ℕ) → bit_or a 0 ≡ a
bit_or-zero a = bit_or-zero_fuel a a (omega arith)

-- The lowest digit of an odd number is set already.
pub bit_or_odd : (c : ℕ) → c % 2 ≡ 1 → bit_or c 1 ≡ c
bit_or_odd c odd = omega (arith, bit_or_step c 1, bit_or-zero (c / 2))

twice_pow : (c k : ℕ) → c * 2 ^ suc k ≡ 2 * (c * 2 ^ k)
twice_pow c k = grind (arith, pow-suc 2 k)

-- `(c << k) | (d << k) | s` for s of k digits.
pub bit_or_shifted :
    (k c d s : ℕ) → s < 2 ^ k → bit_or (c * 2 ^ k) (d * 2 ^ k + s) ≡ bit_or c d * 2 ^ k + s
bit_or_shifted zero c d zero p = omega (
  arith,
  one c,
  one d,
  ap (λ (t : ℕ). bit_or t d) (one c),
  ap (λ (t : ℕ). bit_or (c * 2 ^ 0) t) (onep d),
)
  where
    one : (c : ℕ) → c * 2 ^ 0 ≡ c
    one c = omega arith

    onep : (c : ℕ) → c * 2 ^ 0 + 0 ≡ c
    onep c = omega arith
bit_or_shifted zero c d (suc s) p = absurd (omega arith)
bit_or_shifted (suc k) c d s p =
    let ih = bit_or_shifted k c d (s / 2) (omega (arith, pow-suc 2 k)) in
    let ec = twice_pow c k in
    let ed = twice_pow d k in
    let eo = twice_pow (bit_or c d) k in
    let half_c : c * 2 ^ suc k / 2 ≡ c * 2 ^ k = omega arith in
    let half_d : (d * 2 ^ suc k + s) / 2 ≡ d * 2 ^ k + s / 2 = omega arith in
    let digit : max (c * 2 ^ suc k % 2) ((d * 2 ^ suc k + s) % 2) ≡ s % 2 = omega arith in
    omega (
      arith,
      bit_or_step (c * 2 ^ suc k) (d * 2 ^ suc k + s),
      ap (λ (t : ℕ). bit_or t ((d * 2 ^ suc k + s) / 2)) half_c,
      ap (λ (t : ℕ). bit_or (c * 2 ^ k) t) half_d,
    )
