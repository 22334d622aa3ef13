-- ===== src/Chip8/Execute/Arithmetic.antt =====
-- The instructions of the group 8 with a flag.
use medusa_os.Prelude.{
  ℕ, ◌+◌, ◌-◌, ◌*◌, ◌/◌, ◌%◌, ◌^◌, ◌<◌, ◌≡◌, ◌≢◌, refl, ◌∙◌, arith, ◌==◌, ltb, inl, inr, Bool-cases,
  eq→==, ne→==_false, if◌then◌else◌, true, false, bit_and, bit_and_mask, Outcome, ok,
}
use medusa_os.Chip8.{Chip8, u16}
use medusa_os.Chip8.Execute.{
  skip, execute_add, execute_sub, execute_shift, execute_8, execute_switch,
  chip8_execute_instruction,
}

-- An instruction at the state `c` succeeds, with `value` in the register `x` and `flag` in the register
-- 15; the counter goes on by 2, and everything else is kept.
abbrev pub Computes : (c : Chip8) → Outcome Chip8 → (x value flag : ℕ) → Type 0
Computes c result x value flag =
    (c' : Chip8) × (result ≡ ok c')
    × (c'.vregisters x ≡ value)
    × (c'.vregisters 15 ≡ flag)
    × ((r : ℕ) → r ≢ x → r ≢ 15 → c'.vregisters r ≡ c.vregisters r)
    × (c'.pc ≡ u16 (c.pc + 2))
    × (record c' { vregisters = c.vregisters; pc = c.pc } ≡ c)

chip8_execute_instruction-8 :
    (c : Chip8) (rand_nb x y n : ℕ)
    → x < 16
    → n < 16
    → chip8_execute_instruction c rand_nb (0x80 + x) (y * 16 + n) ≡ ok (execute_8 (skip c) x y n)
unfolding chip8_execute_instruction execute_switch
chip8_execute_instruction-8 c rand_nb x y n small digit =
    let op : (0x80 + x) / 2 ^ 4 ≡ 8 = omega (arith, small) in
    let register : bit_and (0x80 + x) 0xf ≡ x = bit_and_mask 4 (0x80 + x) ∙ omega (arith, small) in
    let other : (y * 16 + n) / 2 ^ 4 ≡ y = omega (arith, digit) in
    let last : bit_and (y * 16 + n) 0xf ≡ n = bit_and_mask 4 (y * 16 + n) ∙ omega (arith, digit) in
    rw (op, register, other, last) refl

execute_add-Computes :
    (c : Chip8) (x y : ℕ)
    → x < 15
    → Computes c (ok (execute_add (skip c) x y)) x ((c.vregisters x + c.vregisters y) % 2 ^ 8) 0
unfolding execute_add
execute_add-Computes c x y small = (
  execute_add (skip c) x y,
  refl,
  rw (eq→== x x refl) (omega arith),
  rw (ne→==_false 15 x (λ e. omega (arith, e, small))) refl,
  λ r nx nf. rw (ne→==_false r x nx, ne→==_false r 15 nf) refl,
  refl,
  refl,
)

execute_sub-Computes :
    (c : Chip8) (x y : ℕ)
    → x < 15
    → y < 15
    → c.vregisters x < 2 ^ 8
    → c.vregisters y < 2 ^ 8
    → Computes c
        (ok (execute_sub (skip c) x y))
        x
        (if ltb (c.vregisters x) (c.vregisters y)
          then c.vregisters x + 2 ^ 8 - c.vregisters y
          else c.vregisters x - c.vregisters y)
        (if ltb (c.vregisters y) (c.vregisters x) then 1 else 0)
unfolding execute_sub
execute_sub-Computes c x y small small' bx by =
    let nx : (x == 15) ≡ false = ne→==_false x 15 (λ e. omega (arith, e, small)) in
    let xn : (15 == x) ≡ false = ne→==_false 15 x (λ e. omega (arith, e, small)) in
    let ny : (y == 15) ≡ false = ne→==_false y 15 (λ e. omega (arith, e, small')) in
    let self : (x == x) ≡ true = eq→== x x refl in
    elim (Bool-cases (ltb (c.vregisters y) (c.vregisters x))) [
      | inl e ↦ (
        execute_sub (skip c) x y,
        refl,
        rw (nx, ny, e, self, nx, ny) (ground (arith, e, bx, by)),
        rw (nx, ny, e, xn) refl,
        λ r rx rf. rw (nx, ny, e, ne→==_false r x rx, ne→==_false r 15 rf) refl,
        rw (nx, ny, e) refl,
        rw (nx, ny, e) refl,
      )
      | inr e ↦ (
        execute_sub (skip c) x y,
        refl,
        rw (nx, ny, e, self, nx, ny) (ground (arith, e, bx, by)),
        rw (nx, ny, e, xn) refl,
        λ r rx rf. rw (nx, ny, e, ne→==_false r x rx, ne→==_false r 15 rf) refl,
        rw (nx, ny, e) refl,
        rw (nx, ny, e) refl,
      )
    ]

execute_shift-Computes :
    (c : Chip8) (x : ℕ)
    → x < 15
    → c.vregisters x < 2 ^ 8
    → Computes c (ok (execute_shift (skip c) x)) x (c.vregisters x / 2) (c.vregisters x % 2)
unfolding execute_shift
execute_shift-Computes c x small byte =
    let nx : (x == 15) ≡ false = ne→==_false x 15 (λ e. omega (arith, e, small)) in
    let xn : (15 == x) ≡ false = ne→==_false 15 x (λ e. omega (arith, e, small)) in
    let self : (x == x) ≡ true = eq→== x x refl in
    (
      execute_shift (skip c) x,
      refl,
      rw (self, nx) (omega (arith, byte)),
      rw xn (omega (arith, bit_and_mask 1 (c.vregisters x))),
      λ r rx rf. rw (ne→==_false r x rx, ne→==_false r 15 rf) refl,
      refl,
      refl,
    )

-- The instructions 8XY4, 8XY5 and 8XY6, for registers other than 15 that hold bytes. 8XY4 puts the sum
-- modulo 256 in the register X, and always 0 in the register 15, a carry or not. 8XY5 puts the
-- difference modulo 256 there, and 1 in the register 15 exactly if X was greater than Y. 8XY6 puts half
-- of X there, and in the register 15 the bit that is lost.
pub chip8_execute_instruction-Computes :
    (c : Chip8) (rand_nb x y : ℕ)
    → x < 15
    → y < 15
    → c.vregisters x < 2 ^ 8
    → c.vregisters y < 2 ^ 8
    → Computes c
        (chip8_execute_instruction c rand_nb (0x80 + x) (y * 16 + 4))
        x
        ((c.vregisters x + c.vregisters y) % 2 ^ 8)
        0
      × Computes c
          (chip8_execute_instruction c rand_nb (0x80 + x) (y * 16 + 5))
          x
          (if ltb (c.vregisters x) (c.vregisters y)
            then c.vregisters x + 2 ^ 8 - c.vregisters y
            else c.vregisters x - c.vregisters y)
          (if ltb (c.vregisters y) (c.vregisters x) then 1 else 0)
      × Computes c
          (chip8_execute_instruction c rand_nb (0x80 + x) (y * 16 + 6))
          x
          (c.vregisters x / 2)
          (c.vregisters x % 2)
unfolding execute_8
chip8_execute_instruction-Computes c rand_nb x y small small' bx by =
    let run : (n : ℕ)
        → n < 16
        → chip8_execute_instruction c rand_nb (0x80 + x) (y * 16 + n)
          ≡ ok (execute_8 (skip c) x y n) =
      λ n digit. chip8_execute_instruction-8 c rand_nb x y n (omega (arith, small)) digit in
    rw (run 4 (omega arith), run 5 (omega arith), run 6 (omega arith))
      (
        execute_add-Computes c x y small,
        execute_sub-Computes c x y small small' bx by,
        execute_shift-Computes c x small bx,
      )
