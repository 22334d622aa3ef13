-- ===== src/Chip8/Execute/Valid.antt =====
-- The states whose registers and memory hold values of their widths, and the changes that keep them.
use medusa_os.Prelude.{
  ℕ, ◌+◌, ◌^◌, ◌<◌, ◌≡◌, refl, arith, ◌==◌, if◌then◌else◌, Bool, true, false, List, Outcome, ok,
  bit_and_mask,
}
use medusa_os.Chip8.{Pointer, Draw, Chip8, u16, set_v}
use medusa_os.Chip8.Execute.{chip8_get_combined_opcode, address_of, skip, skip_if}

-- The registers and the memory hold values of their widths.
pub record IsValid (c : Chip8) : Type 0 where
  pub vregisters : (r : ℕ) → c.vregisters r < 2 ^ 8
  pub ram : (a : ℕ) → c.ram a < 2 ^ 8
  pub pc : c.pc < 2 ^ 16
  pub i : c.i < 2 ^ 16
  pub delay_timer : c.delay_timer < 2 ^ 8

-- The instruction ends in a valid state.
abbrev pub Succeeds : Outcome Chip8 → Type 0
Succeeds r = (c' : Chip8) × (r ≡ ok c') × IsValid c'

pub either :
    {A : Type 0} (P : A → Type 0) (t : Bool) {a b : A}
    → (t ≡ true → P a)
    → (t ≡ false → P b)
    → P (if t then a else b)
either P true f g = f refl
either P false f g = g refl

pub set_v-IsValid : (c : Chip8) (r v : ℕ) → IsValid c → IsValid (set_v c r v)
set_v-IsValid c r v h = record {
  vregisters = λ k. either (λ x. x < 2 ^ 8) (k == r) (λ e. omega arith) (λ e. h.vregisters k);
  ram = h.ram;
  pc = h.pc;
  i = h.i;
  delay_timer = h.delay_timer;
}

pub set_pc-IsValid : (c : Chip8) (a : ℕ) → a < 2 ^ 16 → IsValid c → IsValid (record c { pc = a })
set_pc-IsValid c a lt h = record {
  vregisters = h.vregisters;
  ram = h.ram;
  pc = lt;
  i = h.i;
  delay_timer = h.delay_timer;
}

pub set_i-IsValid : (c : Chip8) (a : ℕ) → a < 2 ^ 16 → IsValid c → IsValid (record c { i = a })
set_i-IsValid c a lt h = record {
  vregisters = h.vregisters;
  ram = h.ram;
  pc = h.pc;
  i = lt;
  delay_timer = h.delay_timer;
}

-- The calls that draw, and the stack, are free.
pub set_drawn-IsValid : (c : Chip8) (d : List Draw) → IsValid c → IsValid (record c { drawn = d })
set_drawn-IsValid c d h = record {
  vregisters = h.vregisters;
  ram = h.ram;
  pc = h.pc;
  i = h.i;
  delay_timer = h.delay_timer;
}

pub set_stack-IsValid :
    (c : Chip8) (s : List Pointer) → IsValid c → IsValid (record c { stack = s })
set_stack-IsValid c s h = record {
  vregisters = h.vregisters;
  ram = h.ram;
  pc = h.pc;
  i = h.i;
  delay_timer = h.delay_timer;
}

pub address_of-lt : (a b : ℕ) → address_of a b < 2 ^ 12
address_of-lt a b = omega (arith, bit_and_mask 12 (chip8_get_combined_opcode a b))

pub skip-IsValid : (c : Chip8) → IsValid c → IsValid (skip c)
skip-IsValid c h = set_pc-IsValid c (u16 (c.pc + 2)) (omega arith) h

pub skip_if-IsValid : (b : Bool) (c : Chip8) → IsValid c → IsValid (skip_if b c)
skip_if-IsValid b c h = either IsValid b (λ e. skip-IsValid c h) (λ e. h)
