-- ===== src/Prelude/Bits.antt =====
-- `|`, `&` and shifts of machine words, digit by digit.
use Prim.Native.Nat.{
  ℕ, zero, suc, ◌+◌, ◌-◌, ◌*◌, ◌/◌, ◌%◌, ◌^◌, ◌≤◌, ◌<◌, min, max, bit_and, bit_or, digits, bitwise,
  bit_and-bitwise, bit_or-bitwise,
}
use mathlib.Core.Path.{◌≡◌, refl, ap, ◌∙◌, sym, ap₂}
use mathlib.Core.Logic.{◌≢◌}
use native.Mathlib.Nat.{pow-suc, one-le-pow, div-one, mul-one, div-div-eq-div-mul}
use native.Mathlib.Omega.{arith}
use mathlib.Core.Logic.{inl, inr}
use medusa_os.Prelude.Tests.{ltb, ltb→lt, Bool-cases}

-- The native operations recurse on fuel. An operation with the digits `g`, which is `u` for a zero
-- on the left, needs no more fuel than its left operand.
module _ (u : ℕ → ℕ) (g : ℕ → ℕ → ℕ) where
  more_fuel : (k a b : ℕ) → a ≤ k → digits u g (suc k) a b ≡ digits u g k a b
  more_fuel zero (suc a) b h = absurd (omega arith)
  more_fuel zero zero b h = refl
  more_fuel (suc k) zero b h = refl
  more_fuel (suc k) (suc a) b h =
      let half : suc a / 2 ≤ k = omega arith in
      ap (λ t. t * 2 + g (suc a % 2) (b % 2)) (more_fuel k (suc a / 2) (b / 2) half)

  least_fuel : (k a b : ℕ) → a ≤ k → digits u g k a b ≡ digits u g a a b
  least_fuel zero (suc a) b h = absurd (omega arith)
  least_fuel zero zero b h = refl
  least_fuel (suc k) a b h = elim (Bool-cases (ltb k a)) [
    | inl e ↦ let full : suc k ≡ a = omega (arith, ltb→lt k a e) in ap (λ t. digits u g t a b) full
    | inr e ↦ let low : a ≤ k = ground arith in more_fuel k a b low ∙ least_fuel k a b low
  ]

  low_digit :
      (n b : ℕ)
      → bitwise u g (suc n) b ≡ g (suc n % 2) (b % 2) + 2 * bitwise u g (suc n / 2) (b / 2)
  low_digit n b = omega (arith, least_fuel n (suc n / 2) (b / 2) (omega arith))

-- The lowest digit and the others.
pub bit_or_step : (v w : ℕ) → bit_or v w ≡ max (v % 2) (w % 2) + 2 * bit_or (v / 2) (w / 2)
bit_or_step (suc n) w = simp bit_or-bitwise (low_digit (λ x. x) max n w)
bit_or_step zero w = simp bit_or-bitwise (omega arith)

pub bit_and_step : (v w : ℕ) → bit_and v w ≡ min (v % 2) (w % 2) + 2 * bit_and (v / 2) (w / 2)
bit_and_step (suc n) w = simp bit_and-bitwise (low_digit (λ x. 0) min n w)
bit_and_step zero w = simp bit_and-bitwise (omega arith)

-- Bit `k` of a word, as 0 or 1, by halving.
unfoldable pub bit_of : ℕ → ℕ → ℕ
bit_of w zero = w % 2
bit_of w (suc k) = bit_of (w / 2) k

pub bit_of_or : (k a b : ℕ) → bit_of (bit_or a b) k ≡ max (bit_of a k) (bit_of b k)
unfolding bit_of
bit_of_or zero a b = omega (arith, bit_or_step a b)
bit_of_or (suc k) a b =
    ap (λ t. bit_of t k) (omega (arith, bit_or_step a b)) ∙ bit_of_or k (a / 2) (b / 2)

pub bit_of_and : (k a b : ℕ) → bit_of (bit_and a b) k ≡ min (bit_of a k) (bit_of b k)
unfolding bit_of
bit_of_and zero a b = omega (arith, bit_and_step a b)
bit_of_and (suc k) a b =
    ap (λ t. bit_of t k) (omega (arith, bit_and_step a b)) ∙ bit_of_and k (a / 2) (b / 2)

pub bit_of_lt : (k w : ℕ) → bit_of w k < 2
unfolding bit_of
bit_of_lt zero w = omega arith
bit_of_lt (suc k) w = bit_of_lt k (w / 2)

-- Masking with one bit is zero exactly when the bit is.
half-pow : (k : ℕ) → 2 ^ suc k / 2 ≡ 2 ^ k
half-pow k = omega (arith, pow-suc 2 k)

pub bit_of_pow_self : (k : ℕ) → bit_of (2 ^ k) k ≡ 1
unfolding bit_of
bit_of_pow_self zero = refl
bit_of_pow_self (suc k) = ap (λ t. bit_of t k) (half-pow k) ∙ bit_of_pow_self k

pub bit_of_zero : (k : ℕ) → bit_of 0 k ≡ 0
unfolding bit_of
bit_of_zero zero = refl
bit_of_zero (suc k) = bit_of_zero k

pub bit_of_pow_ne : (k j : ℕ) → k ≢ j → bit_of (2 ^ k) j ≡ 0
unfolding bit_of
bit_of_pow_ne zero zero h = absurd (h refl)
bit_of_pow_ne zero (suc j) h = bit_of_zero j
bit_of_pow_ne (suc k) zero h = omega (arith, pow-suc 2 k)
bit_of_pow_ne (suc k) (suc j) h =
    ap (λ t. bit_of t j) (half-pow k) ∙ bit_of_pow_ne k j (λ e. h (ap suc e))

-- A zero on the right, for numbers up to a bound.
zero_on_right : (bound v : ℕ) → v ≤ bound → (bit_or v 0 ≡ v) × (bit_and v 0 ≡ 0)
zero_on_right bound zero below = (refl, refl)
zero_on_right zero (suc v) below = absurd (omega arith)
zero_on_right (suc bound) (suc v) below =
    let half = zero_on_right bound (suc v / 2) (omega arith) in
    (omega (arith, half.0, bit_or_step (suc v) 0), omega (arith, half.1, bit_and_step (suc v) 0))

pub bit_or-zero : (v : ℕ) → bit_or v 0 ≡ v
bit_or-zero v = (zero_on_right v v (omega arith)).0

pub bit_and-zero : (v : ℕ) → bit_and v 0 ≡ 0
bit_and-zero v = (zero_on_right v v (omega arith)).1

mul-pow-suc : (q k : ℕ) → q * 2 ^ suc k ≡ 2 * (q * 2 ^ k)
mul-pow-suc q k = omega (arith, ap (λ (t : ℕ). q * t) (pow-suc 2 k))

-- Masking with one bit keeps that bit.
pub bit_and-pow : (k w : ℕ) → bit_and w (2 ^ k) ≡ bit_of w k * 2 ^ k
unfolding bit_of
bit_and-pow zero w = omega (arith, bit_and_step w 1, bit_and-zero (w / 2))
bit_and-pow (suc k) w = omega (
  arith,
  bit_and_step w (2 ^ suc k),
  half-pow k,
  pow-suc 2 k,
  mul-pow-suc (bit_of (w / 2) k) k,
  ap (λ t. bit_and (w / 2) t) (half-pow k),
  bit_and-pow k (w / 2),
)

-- `|` of a multiple of 2^k and a number below 2^k adds them.
pub bit_or_fields : (k high low : ℕ) → low < 2 ^ k → bit_or (high * 2 ^ k) low ≡ high * 2 ^ k + low
bit_or_fields zero high low small = ground (arith, bit_or-zero high)
bit_or_fields (suc k) high low small =
    let rest = bit_or_fields k high (low / 2) (omega (arith, pow-suc 2 k)) in
    ground (arith, rest, pow-suc 2 k, mul-pow-suc high k, bit_or_step (high * 2 ^ suc k) low)

-- The same with the low part first.
pub bit_or_low_fields :
    (k high low : ℕ) → low < 2 ^ k → bit_or low (high * 2 ^ k) ≡ high * 2 ^ k + low
bit_or_low_fields zero high low small = ground (arith, zero_or high high (omega arith))
  where
    zero_or : (bound v : ℕ) → v ≤ bound → bit_or 0 v ≡ v
    zero_or zero v h = ground arith
    zero_or (suc bound) v h =
        ground (arith, bit_or_step 0 v, zero_or bound (v / 2) (omega (arith, h)))
bit_or_low_fields (suc k) high low small =
    let rest = bit_or_low_fields k high (low / 2) (omega (arith, pow-suc 2 k)) in
    ground (arith, rest, pow-suc 2 k, mul-pow-suc high k, bit_or_step low (high * 2 ^ suc k))

-- `|` of two numbers of which one has nothing in the low part.
pub bit_or_high :
    (k p q low : ℕ) → low < 2 ^ k → bit_or (p * 2 ^ k + low) (q * 2 ^ k) ≡ bit_or p q * 2 ^ k + low
bit_or_high zero p q low small =
    let none : low ≡ 0 = omega (arith, small) in
    let left : p * 2 ^ 0 + low ≡ p = omega (arith, none) in
    let right : q * 2 ^ 0 ≡ q = omega arith in ap₂ bit_or left right ∙ omega (arith, none)
bit_or_high (suc k) p q low small =
    let rest = bit_or_high k p q (low / 2) (omega (arith, small, pow-suc 2 k)) in
    let left : (p * 2 ^ suc k + low) / 2 ≡ p * 2 ^ k + low / 2 = omega (arith, mul-pow-suc p k) in
    let right : q * 2 ^ suc k / 2 ≡ q * 2 ^ k = omega (arith, mul-pow-suc q k) in
    let halves : bit_or ((p * 2 ^ suc k + low) / 2) (q * 2 ^ suc k / 2)
        ≡ bit_or p q * 2 ^ k + low / 2 =
      ap₂ bit_or left right ∙ rest in
    omega (
      arith,
      bit_or_step (p * 2 ^ suc k + low) (q * 2 ^ suc k),
      halves,
      mul-pow-suc p k,
      mul-pow-suc q k,
      mul-pow-suc (bit_or p q) k,
    )

bit_and_fields : (k q r : ℕ) → r < 2 ^ k → bit_and (q * 2 ^ k + r) (2 ^ k - 1) ≡ r
bit_and_fields zero q r fits = omega (arith, bit_and-zero (q * 1 + r))
bit_and_fields (suc k) q r fits = ground (
  arith,
  bit_and_step (q * 2 ^ suc k + r) (2 ^ suc k - 1),
  mul-pow-suc q k,
  pow-suc 2 k,
  one-le-pow k 2,
  bit_and_fields k q (r / 2) (omega (arith, pow-suc 2 k)),
)

-- A mask of `k` low bits is the remainder by `2 ^ k`.
pub bit_and_mask : (k a : ℕ) → bit_and a (2 ^ k - 1) ≡ a % 2 ^ k
bit_and_mask k a = ground (arith, one-le-pow k 2, bit_and_fields k (a / 2 ^ k) (a % 2 ^ k))

-- All bits of `2 ^ n - 1` are set, and all but bit `k` of `2 ^ n - 1 - 2 ^ k`.
pub bit_of_ones : (n j : ℕ) → j < n → bit_of (2 ^ n - 1) j ≡ 1
unfolding bit_of
bit_of_ones zero j h = elim h [ ]
bit_of_ones (suc n) zero h = omega (arith, pow-suc 2 n, one-le-pow n 2)
bit_of_ones (suc n) (suc j) h =
    ap (λ t. bit_of t j) (omega (arith, pow-suc 2 n, one-le-pow n 2))
    ∙ bit_of_ones n j (omega arith)

pub pow-lt-pow : (k n : ℕ) → k < n → 2 ^ k < 2 ^ n
pow-lt-pow k zero h = elim h [ ]
pow-lt-pow zero (suc n) h = omega (arith, pow-suc 2 n, one-le-pow n 2)
pow-lt-pow (suc k) (suc n) h = omega (arith, pow-suc 2 n, pow-suc 2 k, pow-lt-pow k n (omega arith))

pub bit_of_mask_ne : (n k j : ℕ) → k < n → j < n → k ≢ j → bit_of (2 ^ n - 1 - 2 ^ k) j ≡ 1
unfolding bit_of
bit_of_mask_ne zero k j h p ne = elim h [ ]
bit_of_mask_ne (suc n) zero zero h p ne = absurd (ne refl)
bit_of_mask_ne (suc n) zero (suc j) h p ne =
    ap (λ t. bit_of t j) (omega (arith, pow-suc 2 n, one-le-pow n 2))
    ∙ bit_of_ones n j (omega arith)
bit_of_mask_ne (suc n) (suc k) zero h p ne =
    omega (arith, pow-suc 2 n, pow-suc 2 k, pow-lt-pow k n (omega arith))
bit_of_mask_ne (suc n) (suc k) (suc j) h p ne =
    ap (λ t. bit_of t j) (omega (arith, pow-suc 2 n, pow-suc 2 k, pow-lt-pow k n (omega arith)))
    ∙ bit_of_mask_ne n k j (omega arith) (omega arith) (λ e. ne (ap suc e))

pub bit_of_mask_self : (n k : ℕ) → k < n → bit_of (2 ^ n - 1 - 2 ^ k) k ≡ 0
unfolding bit_of
bit_of_mask_self zero k h = elim h [ ]
bit_of_mask_self (suc n) zero h = omega (arith, pow-suc 2 n, one-le-pow n 2)
bit_of_mask_self (suc n) (suc k) h =
    ap (λ t. bit_of t k) (omega (arith, pow-suc 2 n, pow-suc 2 k, pow-lt-pow k n (omega arith)))
    ∙ bit_of_mask_self n k (omega arith)

pub bit_or-lt-pow : (n a b : ℕ) → a < 2 ^ n → b < 2 ^ n → bit_or a b < 2 ^ n
bit_or-lt-pow zero zero zero h p = omega (arith, bit_or-zero 0)
bit_or-lt-pow zero (suc a) b h p = absurd (omega arith)
bit_or-lt-pow zero a (suc b) h p = absurd (omega arith)
bit_or-lt-pow (suc n) a b h p = omega (
  arith,
  pow-suc 2 n,
  bit_or_step a b,
  bit_or-lt-pow n (a / 2) (b / 2) (omega (arith, pow-suc 2 n)) (omega (arith, pow-suc 2 n)),
)

bit_and-le_fuel : (n a b : ℕ) → a ≤ n → bit_and a b ≤ a
bit_and-le_fuel n zero b h = omega (arith, bit_and-bitwise 0 b)
bit_and-le_fuel zero (suc a) b h = absurd (omega arith)
bit_and-le_fuel (suc n) (suc a) b h =
    omega (arith, bit_and_step (suc a) b, bit_and-le_fuel n (suc a / 2) (b / 2) (omega arith))

pub bit_and-le : (a b : ℕ) → bit_and a b ≤ a
bit_and-le a b = bit_and-le_fuel a a b (omega arith)

-- Shifting right by `k` goes through `|` and `&`.
div-two-pow : (w k : ℕ) → w / 2 / 2 ^ k ≡ w / 2 ^ suc k
div-two-pow w k = div-div-eq-div-mul w 2 (2 ^ k) ∙ ap (λ t. w / t) (omega (arith, pow-suc 2 k))

pub bit_or-div_pow : (k a b : ℕ) → bit_or a b / 2 ^ k ≡ bit_or (a / 2 ^ k) (b / 2 ^ k)
bit_or-div_pow zero a b = omega (arith, ap₂ bit_or (div-one a) (div-one b), div-one (bit_or a b))
bit_or-div_pow (suc k) a b =
    sym (div-two-pow (bit_or a b) k)
    ∙ ap (λ t. t / 2 ^ k) (omega (arith, bit_or_step a b))
    ∙ bit_or-div_pow k (a / 2) (b / 2)
    ∙ ap₂ bit_or (div-two-pow a k) (div-two-pow b k)

pub bit_and-div_pow : (k a b : ℕ) → bit_and a b / 2 ^ k ≡ bit_and (a / 2 ^ k) (b / 2 ^ k)
bit_and-div_pow zero a b = omega (arith, ap₂ bit_and (div-one a) (div-one b), div-one (bit_and a b))
bit_and-div_pow (suc k) a b =
    sym (div-two-pow (bit_and a b) k)
    ∙ ap (λ t. t / 2 ^ k) (omega (arith, bit_and_step a b))
    ∙ bit_and-div_pow k (a / 2) (b / 2)
    ∙ ap₂ bit_and (div-two-pow a k) (div-two-pow b k)

bit_and-double : (w m : ℕ) → bit_and w (2 * m) ≡ bit_and (w / 2) m * 2
bit_and-double w m = omega (arith, bit_and_step w (2 * m), ap (bit_and (w / 2)) (half-double m))
  where
    half-double : (n : ℕ) → 2 * n / 2 ≡ n
    half-double n = omega arith

-- A mask with `k` low zeros.
pub bit_and-mul_pow : (k w m : ℕ) → bit_and w (m * 2 ^ k) ≡ bit_and (w / 2 ^ k) m * 2 ^ k
bit_and-mul_pow zero w m =
    omega (arith, ap₂ bit_and (div-one w) (mul-one m), ap₂ bit_and (sym (div-one w)) (mul-one m))
bit_and-mul_pow (suc k) w m =
    ap (bit_and w) (mul-pow-suc m k)
    ∙ bit_and-double w (m * 2 ^ k)
    ∙ ap (λ t. t * 2) (bit_and-mul_pow k (w / 2) m)
    ∙ omega (
      arith,
      mul-pow-suc (bit_and (w / 2 ^ suc k) m) k,
      ap (λ t. bit_and t m * 2 ^ k) (div-two-pow w k),
    )
