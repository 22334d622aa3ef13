-- ===== src/Chip8.antt =====
-- kernel/kernel/chip8/emulator.c: the CHIP-8 emulator. `ram` and `vregisters` are the arrays of 4096
-- and 16 bytes, and an access behind them is a `fault`. The stack holds pointers, all to the field
-- `pc`. What is drawn is a list of the calls that reach the frame buffer, the last one first. The
-- result of `rand()` is an argument.
pub mod Execute
pub mod Cycle
use medusa_os.Prelude.{
  ℕ, zero, suc, ◌+◌, ◌-◌, ◌*◌, ◌/◌, ◌%◌, ◌^◌, ◌==◌, ltb, leb, if◌then◌else◌, Bool, true, false, not,
  List, [], ◌∷◌, bit_and, bit_or, Outcome, ok, fault, ◌>>=◌,
}

-- What `stack_push` is called with: `&emulator.pc`.
pub data Pointer : Type 0 where
  pc_address : Pointer

-- A call that draws: `fill_screen`, and `write_chip8_pixel(x, y, state)`.
pub data Draw : Type 0 where
  fill_screen : Draw
  pixel : (x y : ℕ) → Bool → Draw

-- `chip8_emulator_t`
pub record Chip8 : Type 0 where
  pub ram : ℕ → ℕ
  pub vregisters : ℕ → ℕ
  pub i : ℕ
  pub delay_timer : ℕ
  pub pc : ℕ
  pub stack : List Pointer
  pub speed : ℕ
  pub paused : Bool
  pub display : ℕ → Bool
  pub drawn : List Draw

abbrev pub screen_width : ℕ
screen_width = 64

abbrev pub screen_height : ℕ
screen_height = 32

abbrev pub u8 : ℕ → ℕ
u8 x = x % 2 ^ 8

abbrev pub u16 : ℕ → ℕ
u16 x = x % 2 ^ 16

-- An array with one element changed.
abbrev pub write_at {ℓ} : {A : Type ℓ} → (ℕ → A) → ℕ → A → ℕ → A
write_at f k v j = if j == k then v else f j

-- `emulator.ram[a]`, and a write to it
abbrev pub read_ram : Chip8 → ℕ → Outcome ℕ
read_ram c a = if ltb a 4096 then ok (c.ram a) else fault

abbrev pub write_ram : Chip8 → (a v : ℕ) → Outcome Chip8
write_ram c a v = if ltb a 4096 then ok (record c { ram = write_at c.ram a (u8 v) }) else fault

-- `emulator.vregisters[r]`, for any `r` and for a digit of an opcode
abbrev pub read_vregister : Chip8 → ℕ → Outcome ℕ
read_vregister c r = if ltb r 16 then ok (c.vregisters r) else fault

abbrev pub write_vregister : Chip8 → (r v : ℕ) → Outcome Chip8
write_vregister c r v =
    if ltb r 16 then ok (record c { vregisters = write_at c.vregisters r (u8 v) }) else fault

abbrev pub set_v : Chip8 → (r v : ℕ) → Chip8
set_v c r v = record c { vregisters = write_at c.vregisters r (u8 v) }

-- The call, whose body is not modelled: it colours a rectangle of the frame buffer, which for
-- coordinates past the screen lies outside it.
abbrev pub call_write_pixel : Chip8 → (x y : ℕ) → Bool → Chip8
call_write_pixel c x y state = record c { drawn = pixel (u8 x) (u8 y) state ∷ c.drawn }
