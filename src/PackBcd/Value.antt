-- ===== src/PackBcd/Value.antt =====
-- The values of the decoders of pack_bcd.cpp, and of the conversions applied to them.
use native.Mathlib.Nat.{pow-le-pow_right, mod-eq_of_lt}
use taifex_cpp_sdk.Prelude.{
  ℕ, zero, suc, ◌+◌, ◌-◌, ◌*◌, ◌%◌, ◌^◌, ◌≤◌, ◌<◌, ◌≡◌, ◌≢◌, refl, sym, ap, inl, inr, ◌↔◌, Bool,
  true, false, ◌&&◌, List, [], ◌∷◌, ◌++◌, length, length-drop, length-append, length-replicate,
  is_empty, drop, replicate, arith, ltb, leb, ◌==◌, if◌then◌else◌, Bool-cases, ltb→lt,
}
use taifex_cpp_sdk.Prelude.Int.{pos}
use taifex_cpp_sdk.ErrorCodes.{ok, err, runtime_error}
use taifex_cpp_sdk.Conversion.{all_digits, digits_value, stoul, stoull, stoll}
use taifex_cpp_sdk.Conversion.Decimal.{
  all_digits-append, digits_value-append, digits_value-drop, digits_value-lt, drop-all_digits,
  convert_digits,
}
use taifex_cpp_sdk.PackBcd.{
  nibble1, nibble2, unpack, unpack_all, fit_digits, pack_bcd_to_ascii, pack_bcd_to_ascii_all,
}

-- Every nibble is a decimal digit.
abbrev pub all_bcd : List ℕ → Bool
all_bcd [] = true
all_bcd (byte ∷ bytes) = leb (nibble1 byte) 9 && leb (nibble2 byte) 9 && all_bcd bytes

unfoldable pub ascii : List ℕ → List ℕ
ascii [] = []
ascii (byte ∷ bytes) = (nibble1 byte + b'0') ∷ (nibble2 byte + b'0') ∷ ascii bytes

-- The number that the bytes spell, two digits each, after `acc`.
unfoldable pub bcd_from : ℕ → List ℕ → ℕ
bcd_from acc [] = acc
bcd_from acc (byte ∷ bytes) = bcd_from (acc * 100 + nibble1 byte * 10 + nibble2 byte) bytes

abbrev pub bcd_value : List ℕ → ℕ
bcd_value bytes = bcd_from 0 bytes

pub unpack-eq :
    (bs : List ℕ) → unpack bs ≡ (if all_bcd bs then ok (ascii bs) else err runtime_error)
unfolding unpack ascii
unpack-eq [] = refl
unpack-eq (b ∷ bs) = ground (arith, unpack-eq bs)

unpack_all-eq : (bs : List ℕ) → unpack_all bs ≡ unpack bs
unfolding unpack unpack_all
unpack_all-eq [] = refl
unpack_all-eq (b ∷ bs) = ground (arith, unpack_all-eq bs)

pub length-ascii : (bs : List ℕ) → length (ascii bs) ≡ 2 * length bs
unfolding ascii
length-ascii [] = omega arith
length-ascii (b ∷ bs) = omega (arith, length-ascii bs)

pub ascii-all_digits : (bs : List ℕ) → all_bcd bs ≡ true → all_digits (ascii bs) ≡ true
unfolding ascii all_digits
ascii-all_digits [] h = refl
ascii-all_digits (b ∷ bs) h = ground (arith, ascii-all_digits bs)

digits_value-ascii :
    (acc : ℕ) (bs : List ℕ) → all_bcd bs ≡ true → digits_value acc (ascii bs) ≡ bcd_from acc bs
unfolding ascii digits_value bcd_from
digits_value-ascii acc [] h = refl
digits_value-ascii acc (b ∷ bs) h = ground (
  arith,
  digits_value-ascii (acc * 100 + nibble1 b * 10 + nibble2 b) bs,
  ap (λ (t : ℕ). digits_value t (ascii bs)) (shift_digits acc (nibble1 b) (nibble2 b)),
)
  where
    shift_digits :
        (a x y : ℕ) → (a * 10 + (x + 48 - 48)) * 10 + (y + 48 - 48) ≡ a * 100 + x * 10 + y
    shift_digits a x y = omega arith

zeros-all_digits : (k : ℕ) → all_digits (replicate k b'0') ≡ true
unfolding all_digits
zeros-all_digits zero = refl
zeros-all_digits (suc k) = zeros-all_digits k

digits_value-zeros : (k : ℕ) → digits_value 0 (replicate k b'0') ≡ 0
unfolding digits_value
digits_value-zeros zero = refl
digits_value-zeros (suc k) = digits_value-zeros k

-- What a digit string with `n` digits that spells `v` modulo a power of ten satisfies.
abbrev pub IsField : ℕ → ℕ → List ℕ → Type 0
IsField n v s = (length s ≡ n) × (all_digits s ≡ true) × (digits_value 0 s ≡ v % 10 ^ n)

fit_digits-pad :
    (s : List ℕ) (n : ℕ)
    → all_digits s ≡ true
    → length s < n
    → IsField n (digits_value 0 s) (replicate (n - length s) b'0' ++ s)
fit_digits-pad s n h lt =
    let k = n - length s in
    let below : digits_value 0 s < 10 ^ n = omega (
      arith,
      digits_value-lt s h,
      pow-le-pow_right {n = 10} (omega arith) {i = length s} {j = n} (omega arith),
    ) in
    (
      omega (arith, length-append (replicate k b'0') s, length-replicate {A = ℕ} k b'0'),
      cc (all_digits-append (replicate k b'0') s, zeros-all_digits k),
      cc (
        digits_value-append 0 (replicate k b'0') s (zeros-all_digits k),
        digits_value-zeros k,
        mod-eq_of_lt below,
      ),
    )

fit_digits-drop :
    (s : List ℕ) (n : ℕ)
    → all_digits s ≡ true
    → n < length s
    → IsField n (digits_value 0 s) (drop (length s - n) s)
fit_digits-drop s n h lt =
    let k = length s - n in
    (
      omega (arith, length-drop k s),
      drop-all_digits k s h,
      cc (
        digits_value-drop k s h (omega arith),
        ap (λ (t : ℕ). digits_value 0 s % 10 ^ t) (sub_sub n (length s) (omega arith)),
      ),
    )
  where
    sub_sub : (n m : ℕ) → n ≤ m → m - (m - n) ≡ n
    sub_sub n m h = omega arith

fit_digits-same :
    (s : List ℕ) (n : ℕ) → all_digits s ≡ true → length s ≡ n → IsField n (digits_value 0 s) s
fit_digits-same s n h e = (e, h, sym (mod-eq_of_lt (rw e at (digits_value-lt s h))))

length_between :
    (s : List ℕ) (n : ℕ) → ltb (length s) n ≡ false → ltb n (length s) ≡ false → length s ≡ n
length_between s n h k = ground arith

fit_digits-IsField :
    (s : List ℕ) (n : ℕ) → all_digits s ≡ true → IsField n (digits_value 0 s) (fit_digits s n)
unfolding fit_digits
fit_digits-IsField s n h = elim (Bool-cases (ltb (length s) n)) [
  | inl short ↦ rw short (fit_digits-pad s n h (ltb→lt _ _ short))
  | inr enough ↦ rw enough (elim (Bool-cases (ltb n (length s))) [
    | inl long ↦ rw long (fit_digits-drop s n h (ltb→lt _ _ long))
    | inr same ↦ rw same (fit_digits-same s n h (length_between s n enough same))
  ])
]

-- With a positive number of digits, valid bytes decode to exactly that many digits, which spell the
-- value of the bytes modulo the power of ten.
pub pack_bcd_to_ascii-value :
    (bs : List ℕ) (n : ℕ)
    → all_bcd bs ≡ true
    → 0 < n
    → (s : List ℕ) × (pack_bcd_to_ascii bs n ≡ ok s) × IsField n (bcd_value bs) s
unfolding pack_bcd_to_ascii
pack_bcd_to_ascii-value bs n valid pos_n =
    let field = fit_digits-IsField (ascii bs) n (ascii-all_digits bs valid) in
    (
      fit_digits (ascii bs) n,
      rw (unpack-eq, valid) (ground arith),
      rw (digits_value-ascii 0 bs valid) at field,
    )

-- The decoder on every branch.
pub pack_bcd_to_ascii-eq :
    (bs : List ℕ) (n : ℕ)
    → pack_bcd_to_ascii bs n ≡ (
        if all_bcd bs
        then ok (if n == 0 then ascii bs else fit_digits (ascii bs) n)
        else err runtime_error)
unfolding pack_bcd_to_ascii ascii
pack_bcd_to_ascii-eq [] n = ground (arith, unpack-eq [])
pack_bcd_to_ascii-eq (b ∷ bs) n = ground (arith, unpack-eq (b ∷ bs))

pub pack_bcd_to_ascii-fit :
    (bs : List ℕ) (n : ℕ)
    → all_bcd bs ≡ true
    → 0 < n
    → pack_bcd_to_ascii bs n ≡ ok (fit_digits (ascii bs) n)
pack_bcd_to_ascii-fit bs n valid p = ground (arith, pack_bcd_to_ascii-eq bs n)

pub pack_bcd_to_ascii_empty : pack_bcd_to_ascii [] 0 ≡ ok []
unfolding pack_bcd_to_ascii
pack_bcd_to_ascii_empty = refl

-- Both overloads throw a runtime error exactly on a nibble above 9, and agree when all digits are
-- asked for.
pub pack_bcd_to_ascii_error :
    (bs : List ℕ) (n : ℕ)
    → ((pack_bcd_to_ascii bs n ≡ err runtime_error) ↔ (all_bcd bs ≡ false))
      × (pack_bcd_to_ascii_all bs ≡ pack_bcd_to_ascii bs 0)
unfolding pack_bcd_to_ascii_all ascii
pack_bcd_to_ascii_error [] n = ground (arith, pack_bcd_to_ascii-eq [] n, pack_bcd_to_ascii-eq [] 0)
pack_bcd_to_ascii_error (b ∷ bs) n = ground (
  arith,
  pack_bcd_to_ascii-eq (b ∷ bs) n,
  pack_bcd_to_ascii-eq (b ∷ bs) 0,
  unpack_all-eq (b ∷ bs),
  unpack-eq (b ∷ bs),
)

-- The field as the callers read it: the digits, which are not empty, and their conversions.
abbrev pub IsNumber : ℕ → ℕ → List ℕ → Type 0
IsNumber n v s =
    (is_empty s ≡ false)
    × (stoul s ≡ ok v)
    × (stoull s ≡ ok v)
    × (stoll s ≡ ok (pos v))
    × (v < 10 ^ n)

not_empty : (s : List ℕ) → 0 < length s → (is_empty s ≡ false) × (s ≢ [])
not_empty [] h = absurd (omega arith)
not_empty (c ∷ s) h = (refl, λ e. cc e)

pub pack_bcd_to_ascii-IsNumber :
    (bs : List ℕ) (n : ℕ)
    → all_bcd bs ≡ true
    → 0 < n
    → n ≤ 18
    → (s : List ℕ) × (pack_bcd_to_ascii bs n ≡ ok s) × IsNumber n (bcd_value bs % 10 ^ n) s
pack_bcd_to_ascii-IsNumber bs n valid p q =
    let (s, e, field) = pack_bcd_to_ascii-value bs n valid p in
    let (len, digits, value) = field in
    let (full, ne) = not_empty s (omega arith) in
    let bound : digits_value 0 s < 10 ^ n = rw len at (digits_value-lt s digits) in
    let small : digits_value 0 s < 2 ^ 63 =
      omega (arith, bound, pow-le-pow_right {n = 10} (omega arith) {i = n} {j = 18} q) in
    let (ul, ull, ll) = convert_digits s ne digits small in
    (s, e, (full, rw value at ul, rw value at ull, rw value at ll, rw value at bound))

pub bcd_value-lt : (bs : List ℕ) → all_bcd bs ≡ true → bcd_value bs < 10 ^ (2 * length bs)
bcd_value-lt bs valid =
    rw (digits_value-ascii 0 bs valid, length-ascii bs) at
      (digits_value-lt (ascii bs) (ascii-all_digits bs valid))
