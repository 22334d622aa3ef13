-- ===== src/Misc.antt =====
-- The inline helpers of kernel/include/kernel/misc.h and the integer helpers of libc/math/math.c
-- that the memory managers call, on 32-bit words.
use native.Mathlib.Nat.{mod-lt, div-add-mod', mul-mod_left, div-le_self}
use medusa_os.Prelude.{
  ℕ, ◌+◌, ◌-◌, ◌*◌, ◌/◌, ◌%◌, ◌^◌, ◌≤◌, ◌<◌, ◌≡◌, ◌==◌, ltb, if◌then◌else◌, Bool, arith, Bool-cases,
  inl, inr, ==→eq, ==_false→ne, ◌≢◌, ◌∙◌, ap,
}

abbrev pub u32_mod : ℕ
u32_mod = 2 ^ 32

abbrev pub u32 : ℕ → ℕ
u32 n = n % 2 ^ 32

abbrev pub sub32 : ℕ → ℕ → ℕ
sub32 a b = (a + 2 ^ 32 - b % 2 ^ 32) % 2 ^ 32

-- `align_to`; the callers pass an `align` other than 0.
unfoldable pub align_to : ℕ → ℕ → ℕ
align_to n align = if n % align == 0 then n else u32 (n + (align - n % align))

-- `divide_up`
unfoldable pub divide_up : ℕ → ℕ → ℕ
divide_up n d = if n % d == 0 then n / d else u32 (1 + n / d)

-- `a > b` of the `int`s that two 32-bit words stand for.
abbrev pub gt_int : ℕ → ℕ → Bool
gt_int a b = ltb (u32 (b + 2 ^ 31)) (u32 (a + 2 ^ 31))

-- `max` takes its arguments as `int`.
unfoldable pub max_int : ℕ → ℕ → ℕ
max_int a b = if gt_int a b then a else b

-- `min`
unfoldable pub min_int : ℕ → ℕ → ℕ
min_int a b = if gt_int b a then a else b

-- Where the result fits a word, `align_to` is a multiple of `align`, less than `align` above `n`.
pub align_to-IsAligned :
    (n align : ℕ)
    → 0 < align
    → n + align < 2 ^ 32
    → (align_to n align % align ≡ 0) × (n ≤ align_to n align) × (align_to n align < n + align)
unfolding align_to
align_to-IsAligned n align pos fits = elim (Bool-cases (n % align == 0)) [
  | inl e ↦ rw e (==→eq (n % align) 0 e, omega arith, omega arith)
  | inr e ↦
      let ne : n % align ≢ 0 = ==_false→ne (n % align) 0 e in
      let lt : n % align < align = mod-lt n pos in
      let up : u32 (n + (align - n % align)) ≡ (n / align + 1) * align =
        omega (arith, div-add-mod' n align) in
      rw e (ap (λ t. t % align) up ∙ mul-mod_left (n / align + 1) align, omega arith, omega arith)
]

-- `divide_up` is the least number of pieces of `d` that cover `n`.
pub divide_up_lem :
    (n d : ℕ) → 0 < d → n < 2 ^ 32 - 1 → (n ≤ divide_up n d * d) × (divide_up n d * d < n + d)
unfolding divide_up
divide_up_lem n d pos fits = elim (Bool-cases (n % d == 0)) [
  | inl e ↦
      let whole : n / d * d ≡ n = omega (arith, div-add-mod' n d, ==→eq (n % d) 0 e) in
      rw e (omega arith, omega arith)
  | inr e ↦
      let ne : n % d ≢ 0 = ==_false→ne (n % d) 0 e in
      let lt : n % d < d = mod-lt n pos in
      let small : n / d ≤ n = div-le_self n d in
      let up : u32 (1 + n / d) ≡ 1 + n / d = omega arith in
      let whole : (1 + n / d) * d + n % d ≡ n + d = omega (arith, div-add-mod' n d) in
      rw (e, up) (omega arith, omega arith)
]
