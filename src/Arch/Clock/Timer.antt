-- ===== src/Arch/Clock/Timer.antt =====
-- The divisor of the interval timer.
use medusa_os.Prelude.{
  ℕ, zero, suc, ◌+◌, ◌*◌, ◌/◌, ◌%◌, ◌^◌, ◌≤◌, ◌<◌, ◌≡◌, refl, ap, ◌∙◌, arith, leb, ltb, ◌==◌,
  if◌then◌else◌, true, false, bit_and_mask, List, [], ◌∷◌, inl, inr, Bool-cases, bit_and,
}
use native.Mathlib.Nat.{mod-lt, div-add-mod', mul-le-mul_left}
use medusa_os.Misc.{u32}
use medusa_os.Arch.Clock.{pit_count, pit_init, pit_set_counter}

-- The bytes that a port gets, put together.
abbrev pub sixteen_bits : List (ℕ × ℕ) → ℕ
sixteen_bits ((p, low) ∷ (q, high) ∷ rest) = high * 2 ^ 8 + low
sixteen_bits (x ∷ []) = 0
sixteen_bits [] = 0

third-bounds : (f : ℕ) → 18 < f → f < 1193182 → (1 ≤ 3579546 / f / 3) × (3579546 / f / 3 ≤ 62799)
third-bounds f low high =
    let q : ℕ = 3579546 / f in
    let whole = div-add-mod' 3579546 f in
    let rest : 3579546 % f < f = mod-lt 3579546 (omega (arith, low)) in
    let upper : q * 19 ≤ q * f = mul-le-mul_left q (omega (arith, low)) in
    let three : 3 ≤ q = at_least q whole rest in (omega (arith, three), omega (arith, upper, whole))
  where
    at_least : (q : ℕ) → q * f + 3579546 % f ≡ 3579546 → 3579546 % f < f → 3 ≤ q
    at_least zero whole rest = absurd (omega (arith, whole, rest, high))
    at_least (suc zero) whole rest = absurd (omega (arith, whole, rest, high))
    at_least (suc (suc zero)) whole rest = absurd (omega (arith, whole, rest, high))
    at_least (suc (suc (suc q))) whole rest = omega arith

-- The count for the frequencies between.
pub pit_count-middle :
    (f : ℕ)
    → 18 < f
    → f < 1193182
    → pit_count f ≡ (if 3579546 / f / 3 % 3 == 0 then 3579546 / f / 3 else 3579546 / f / 3 + 1)
unfolding pit_count
pit_count-middle f low high =
    let (one, most) = third-bounds f low high in
    let rest : 3579546 % f < f = mod-lt 3579546 (omega (arith, low)) in
    let slow : leb f 18 ≡ false = ground arith in
    let fast : leb 1193182 f ≡ false = ground arith in
    let never : leb 1789773 (u32 (3579546 % f)) ≡ false = ground arith in
    let small : u32 (3579546 / f) ≡ 3579546 / f = omega (arith, most) in
    let up : u32 (3579546 / f / 3 + 1) ≡ 3579546 / f / 3 + 1 = omega (arith, most) in
    rw (slow, fast, never, small, up) (ground arith)

pit_count-slow : (f : ℕ) → f ≤ 18 → pit_count f ≡ 65535
unfolding pit_count
pit_count-slow f h = let e : leb f 18 ≡ true = ground arith in rw e refl

pit_count-fast : (f : ℕ) → 1193182 ≤ f → pit_count f ≡ 1
unfolding pit_count
pit_count-fast f h =
    let slow : leb f 18 ≡ false = ground arith in
    let e : leb 1193182 f ≡ true = ground arith in rw (slow, e) refl

pit_count-bounds : (f : ℕ) → (1 ≤ pit_count f) × (pit_count f ≤ 65535)
pit_count-bounds f = elim (Bool-cases (leb f 18)) [
  | inl e ↦ let c = pit_count-slow f (ground arith) in (omega (arith, c), omega (arith, c))
  | inr e ↦ elim (Bool-cases (leb 1193182 f)) [
    | inl q ↦ let c = pit_count-fast f (ground arith) in (omega (arith, c), omega (arith, c))
    | inr q ↦
        let low : 18 < f = ground arith in
        let high : f < 1193182 = ground arith in
        let (one, most) = third-bounds f low high in
        let middle = pit_count-middle f low high in
        (ground (arith, middle, one), ground (arith, middle, most))
  ]
]

-- For every frequency `pit_init` sets a divisor from 1 to 65535, which is the count, and writes the
-- command 0x34 to the control port and then to the data port the divisor's low byte and its high byte.
pub pit_init-bounds :
    (frequency : ℕ)
    → (1 ≤ (pit_init frequency).divisor)
      × ((pit_init frequency).divisor ≤ 65535)
      × ((pit_init frequency).divisor ≡ pit_count frequency)
      × ((pit_init frequency).writes
          ≡ (0x43, 0x34)
            ∷ (0x40, (pit_init frequency).divisor % 2 ^ 8)
            ∷ (0x40, (pit_init frequency).divisor / 2 ^ 8)
            ∷ [])
unfolding pit_init
pit_init-bounds frequency =
    let (one, most) = pit_count-bounds frequency in
    let same : bit_and (pit_count frequency) 65535 ≡ pit_count frequency =
      bit_and_mask 16 (pit_count frequency) ∙ omega (arith, most) in
    (
      omega (arith, same, one),
      omega (arith, same, most),
      same,
      ap
          (λ low.
            (0x43, 0x34) ∷ (0x40, low) ∷ (0x40, bit_and (pit_count frequency) 65535 / 2 ^ 8) ∷ [])
          (bit_and_mask 8 (bit_and (pit_count frequency) 65535)),
    )

-- `pit_set_counter` writes a count of 16 bits to the port of its channel, and nothing where there is
-- no such channel.
pub pit_set_counter_lem :
    (channel count : ℕ)
    → count < 2 ^ 16
    → sixteen_bits (pit_set_counter channel count) ≡ (if ltb channel 3 then count else 0)
unfolding pit_set_counter
pit_set_counter_lem channel count small = elim (Bool-cases (ltb channel 3)) [
  | inl e ↦ rw e (omega (arith, small, bit_and_mask 8 count, bit_and_mask 8 (count / 2 ^ 8)))
  | inr e ↦ rw e refl
]
