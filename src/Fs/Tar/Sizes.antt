-- ===== src/Fs/Tar/Sizes.antt =====
-- `getsize` reads the octal digits of the size field.
use medusa_os.Prelude.{
  ℕ, zero, suc, ◌+◌, ◌-◌, ◌*◌, ◌/◌, ◌%◌, ◌^◌, ◌≤◌, ◌<◌, ◌≡◌, refl, ap, subst, ◌∙◌, arith, lt→ltb,
  inl, inr, Bool-cases, ◌==◌, ==→eq, ==_false→ne,
}
use medusa_os.Misc.{u32}
use medusa_os.Fs.Tar.{Memory, char_word, getsize_from, getsize}

-- The `j` bytes from `base` are the octal digits of `n`, the highest first.
abbrev pub Octal : Memory → (base j n : ℕ) → Type 0
Octal memory base zero n = n ≡ 0
Octal memory base (suc j) n = (memory (base + j) ≡ 48 + n % 8) × Octal memory base j (n / 8)

digit : (d : ℕ) → d < 8 → char_word (48 + d) ≡ 48 + d
digit d h = rw (lt→ltb (48 + d) 128 (omega arith)) refl

getsize_from-zero :
    (memory : Memory) (base j count size : ℕ)
    → size < 2 ^ 32
    → Octal memory base j 0
    → getsize_from j count size memory base ≡ size
unfolding getsize_from
getsize_from-zero memory base zero count size small h = refl
getsize_from-zero memory base (suc j) count size small h =
    let none : u32 (size + (48 + 2 ^ 32 - 48) * count) ≡ size = omega arith in
    rw (h.0, none) (getsize_from-zero memory base j (u32 (count * 8)) size small h.1)

getsize_from-Octal :
    (memory : Memory) (base j n count size : ℕ)
    → Octal memory base j n
    → size + n * count < 2 ^ 32
    → 0 < count
    → getsize_from j count size memory base ≡ size + n * count
unfolding getsize_from
getsize_from-Octal memory base zero n count size h fits pos = omega (arith, ap (λ t. t * count) h)
getsize_from-Octal memory base (suc j) n count size h fits pos =
    let d : ℕ = n % 8 in
    let q : ℕ = n / 8 in
    let parts : n * count ≡ d * count + q * (count * 8) =
      ap (λ t. t * count) (split n) ∙ (omega arith) in
    let step : u32 (size + (48 + d + 2 ^ 32 - 48) * count) ≡ size + d * count =
      omega (arith, ap (λ t. t * count) (back d), parts, fits) in
    rw (h.0, digit d (omega arith), step)
      (elim (Bool-cases (q == 0)) [
        | inl e ↦
            let gone : q ≡ 0 = ==→eq q 0 e in
            let whole : n * count ≡ d * count =
              parts ∙ ap (λ t. d * count + t * (count * 8)) gone ∙ omega arith in
            getsize_from-zero memory base j (u32 (count * 8)) (size + d * count)
              (omega (arith, whole, fits)) (subst (Octal memory base j) gone h.1)
            ∙ omega (arith, whole)
        | inr e ↦
            let more : 0 < q = omega (arith, ==_false→ne q 0 e) in
            let small : count * 8 ≤ q * (count * 8) = le-mul q (count * 8) more in
            let word : u32 (count * 8) ≡ count * 8 = omega (arith, small, parts, fits) in
            rw word (
              getsize_from-Octal memory base j q (count * 8) (size + d * count) h.1
                (omega (arith, parts, fits)) (omega (arith, pos))
              ∙ omega (arith, parts))
      ])
  where
    split : (n : ℕ) → n ≡ n % 8 + n / 8 * 8
    split n = omega arith

    back : (d : ℕ) → 48 + d + 2 ^ 32 - 48 ≡ 2 ^ 32 + d
    back d = omega arith

    le-mul : (a b : ℕ) → 0 < a → b ≤ a * b
    le-mul zero b h = absurd (omega (arith, h))
    le-mul (suc a) b h = omega arith

-- Where the eleven bytes of a size field are the octal digits of a number below 2^32, with zeros in
-- front of it, `getsize` returns that number.
pub getsize_lem :
    (memory : Memory) (base n : ℕ) → Octal memory base 11 n → n < 2 ^ 32 → getsize memory base ≡ n
unfolding getsize
getsize_lem memory base n h fits =
    getsize_from-Octal memory base 11 n 1 0 h (omega (arith, fits)) (omega arith) ∙ omega arith
