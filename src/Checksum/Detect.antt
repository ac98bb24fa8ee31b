-- ===== src/Checksum/Detect.antt =====
-- What the checksum of checksum.cpp detects, from its closed form.
use native.Mathlib.Nat.{ℕ_set}
use mathlib.Core.Logic.{∥∥₁_elim}
use mathlib.Core.List.{Perm, Permᴰ}
use taifex_cpp_sdk.Prelude.{
  ℕ, ◌%◌, ◌≡◌, ◌≢◌, refl, sym, ◌∙◌, true, false, List, [], ◌∷◌, ◌++◌, bit_xor, ◌==◌, All,
  All-append, IsByte, arith,
}
use taifex_cpp_sdk.Prelude.Bits.{
  bit_xor_comm, bit_xor_assoc, bit_xor-zero, bit_xor_self, bit_xor-lt_pow,
}
use taifex_cpp_sdk.Checksum.{
  xor_loop, calculate_xor_checksum, calculate_xor_checksum_vector, verify_xor_checksum,
  verify_xor_checksum_vector,
}

-- The exclusive or of all bytes, from the right.
unfoldable pub xor_all : List ℕ → ℕ
xor_all [] = 0
xor_all (b ∷ bs) = bit_xor b (xor_all bs)

pub xor_all-IsByte : (bs : List ℕ) → All IsByte bs → IsByte (xor_all bs)
unfolding xor_all
xor_all-IsByte [] h = omega arith
xor_all-IsByte (b ∷ bs) h = bit_xor-lt_pow 8 b (xor_all bs) h.0 (xor_all-IsByte bs h.1)

xor_loop-eq :
    (c : ℕ) (bs : List ℕ) → IsByte c → All IsByte bs → xor_loop c bs ≡ bit_xor c (xor_all bs)
unfolding xor_loop xor_all
xor_loop-eq c [] p h = sym (bit_xor-zero c)
xor_loop-eq c (b ∷ bs) p h = ground (
  arith,
  bit_xor-lt_pow 8 c b p h.0,
  bit_xor_assoc c b (xor_all bs),
  xor_loop-eq (bit_xor c b % 256) bs (omega arith) h.1,
)

xor_loop-zero : (bs : List ℕ) → All IsByte bs → xor_loop 0 bs ≡ xor_all bs
xor_loop-zero bs h =
    cc (xor_loop-eq 0 bs (omega arith) h, bit_xor_comm 0 (xor_all bs), bit_xor-zero (xor_all bs))

-- On bytes both overloads of the calculation give the exclusive or of all bytes, which is a byte.
pub calculate_xor_checksum-eq-xor_all :
    (bs : List ℕ)
    → All IsByte bs
    → (calculate_xor_checksum bs ≡ xor_all bs)
      × (calculate_xor_checksum_vector bs ≡ xor_all bs)
      × IsByte (xor_all bs)
unfolding calculate_xor_checksum calculate_xor_checksum_vector xor_all
calculate_xor_checksum-eq-xor_all [] h = (refl, refl, omega arith)
calculate_xor_checksum-eq-xor_all (b ∷ bs) h =
    let e : xor_loop 0 (b ∷ bs) ≡ xor_all (b ∷ bs) = xor_loop-zero (b ∷ bs) h in
    (e, e, xor_all-IsByte (b ∷ bs) h)

xor_all-append : (xs ys : List ℕ) → xor_all (xs ++ ys) ≡ bit_xor (xor_all xs) (xor_all ys)
unfolding xor_all
xor_all-append [] ys = cc (bit_xor_comm 0 (xor_all ys), bit_xor-zero (xor_all ys))
xor_all-append (x ∷ xs) ys = cc (xor_all-append xs ys, bit_xor_assoc x (xor_all xs) (xor_all ys))

bit_xor_cancel : (a b : ℕ) → bit_xor a (bit_xor a b) ≡ b
bit_xor_cancel a b = cc (bit_xor_assoc a a b, bit_xor_self a, bit_xor_comm 0 b, bit_xor-zero b)

-- A segment followed by its own checksum has checksum 0.
pub checksum_of_closed_segment :
    (bs : List ℕ)
    → All IsByte bs
    → calculate_xor_checksum (bs ++ calculate_xor_checksum bs ∷ []) ≡ 0
unfolding xor_all
checksum_of_closed_segment bs h =
    let (e, _, byte) = calculate_xor_checksum-eq-xor_all bs h in
    let (e', _, _) =
      calculate_xor_checksum-eq-xor_all (bs ++ xor_all bs ∷ [])
        (All-append IsByte bs (xor_all bs ∷ []) h (byte, tt)) in
    rw (e, e', xor_all-append bs (xor_all bs ∷ []), bit_xor-zero) (bit_xor_self (xor_all bs))

xor_all_middle :
    (xs : List ℕ) (b : ℕ) (ys : List ℕ)
    → xor_all (xs ++ b ∷ ys) ≡ bit_xor b (bit_xor (xor_all xs) (xor_all ys))
unfolding xor_all
xor_all_middle xs b ys = cc (
  xor_all-append xs (b ∷ ys),
  bit_xor_assoc (xor_all xs) b (xor_all ys),
  bit_xor_comm (xor_all xs) b,
  bit_xor_assoc b (xor_all xs) (xor_all ys),
)

bit_xor_injective : (a b c : ℕ) → bit_xor a c ≡ bit_xor b c → a ≡ b
bit_xor_injective a b c e =
    cc (bit_xor_comm a c, bit_xor_comm b c, bit_xor_cancel c a, bit_xor_cancel c b)

-- Every change of exactly one byte is detected: the checksum that verifies the segment does not
-- verify the changed one, by either overload.
pub verify_xor_checksum_one_byte :
    (xs : List ℕ) (a b : ℕ) (ys : List ℕ) (sum : ℕ)
    → All IsByte (xs ++ a ∷ ys)
    → All IsByte (xs ++ b ∷ ys)
    → a ≢ b
    → verify_xor_checksum (xs ++ a ∷ ys) sum ≡ true
    → (verify_xor_checksum (xs ++ b ∷ ys) sum ≡ false)
      × (verify_xor_checksum_vector (xs ++ b ∷ ys) sum ≡ false)
unfolding verify_xor_checksum verify_xor_checksum_vector
verify_xor_checksum_one_byte xs a b ys sum ha hb ne v =
    let rejected : (calculate_xor_checksum (xs ++ b ∷ ys) == sum) ≡ false = ground (
      arith,
      (calculate_xor_checksum-eq-xor_all (xs ++ a ∷ ys) ha).0,
      (calculate_xor_checksum-eq-xor_all (xs ++ b ∷ ys) hb).0,
      xor_all_middle xs a ys,
      xor_all_middle xs b ys,
      bit_xor_injective a b (bit_xor (xor_all xs) (xor_all ys)),
    ) in
    (rejected, rejected)

xor_all-Permᴰ : {xs ys : List ℕ} → Permᴰ xs ys → xor_all xs ≡ xor_all ys
unfolding xor_all
xor_all-Permᴰ Permᴰ.nil = refl
xor_all-Permᴰ (Permᴰ.cons e p) = cc (xor_all-Permᴰ p)
xor_all-Permᴰ (Permᴰ.swap {a = a} {b = b} {l = l} e f) =
    cc (bit_xor_assoc a b (xor_all l), bit_xor_assoc b a (xor_all l), bit_xor_comm a b)
xor_all-Permᴰ (Permᴰ.trans p q) = xor_all-Permᴰ p ∙ xor_all-Permᴰ q

-- A reordering of the bytes of a segment is never detected: the same checksums verify it.
pub verify_xor_checksum-Perm :
    (xs ys : List ℕ) (sum : ℕ)
    → All IsByte xs
    → All IsByte ys
    → Perm xs ys
    → verify_xor_checksum xs sum ≡ verify_xor_checksum ys sum
unfolding verify_xor_checksum
verify_xor_checksum-Perm xs ys sum hx hy p =
    let same : xor_all xs ≡ xor_all ys = ∥∥₁_elim p (ℕ_set _ _) xor_all-Permᴰ in
    cc (
      (calculate_xor_checksum-eq-xor_all xs hx).0,
      (calculate_xor_checksum-eq-xor_all ys hy).0,
      same,
    )
