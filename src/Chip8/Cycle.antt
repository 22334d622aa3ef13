-- ===== src/Chip8/Cycle.antt =====
-- The loop of the emulator, and what it loads and shows.
pub mod Loading
mod Tests
use medusa_os.Prelude.{
  ℕ, zero, suc, ◌+◌, ◌-◌, ◌*◌, ◌/◌, ◌%◌, ◌^◌, ◌==◌, ltb, leb, if◌then◌else◌, Bool, true, false, not,
  ◌&&◌, Option, none, some, List, [], ◌∷◌, Outcome, ok, abort, fault, ◌>>=◌, access,
}
use medusa_os.Chip8.{
  Draw, Chip8, u8, u16, write_at, read_ram, write_ram, call_write_pixel, screen_width,
  screen_height,
}
use medusa_os.Chip8.Execute.{chip8_execute_instruction}

pub chip8_update_timers : Chip8 → Chip8
chip8_update_timers c =
    if ltb 0 c.delay_timer then record c { delay_timer = c.delay_timer - 1 } else c

-- The pixels of a column, `n` of them left. `index` is an 8-bit number.
abbrev pub show_column : (n y : ℕ) → (x : ℕ) → Chip8 → Chip8
show_column zero y x c = c
show_column (suc n) y x c =
    show_column n (y + 1) x (call_write_pixel c x y (c.display (u8 (x + y * screen_width))))

abbrev pub show_columns : (n x : ℕ) → Chip8 → Chip8
show_columns zero x c = c
show_columns (suc n) x c = show_columns n (x + 1) (show_column screen_height 0 x c)

pub chip8_update_framebuffer : Chip8 → Chip8
chip8_update_framebuffer c = show_columns screen_width 0 c

-- One turn of the loop of `chip8_cycle`, with the result of `rand()`.
pub step : Chip8 → (rand_nb : ℕ) → Outcome Chip8
step c rand_nb = if c.paused then ok c else do
  opcode_1 ← read_ram c c.pc
  opcode_2 ← read_ram c (c.pc + 1)
  chip8_execute_instruction c rand_nb opcode_1 opcode_2

-- The loop, with the results of `rand()` in turn.
abbrev pub steps : (n k : ℕ) → (rand : ℕ → ℕ) → Chip8 → Outcome Chip8
steps zero k rand c = ok c
steps (suc n) k rand c = do c' ← step c (rand k); steps n (k + 1) rand c'

-- The state and the returned number.
pub chip8_cycle : (rand : ℕ → ℕ) → Chip8 → Outcome (ℕ × Chip8)
unfolding step chip8_update_timers chip8_update_framebuffer
chip8_cycle rand c = do
  c1 ← steps c.speed 0 rand c
  ok (0, chip8_update_framebuffer (if c1.paused then c1 else chip8_update_timers c1))

-- The loop of `chip8_mainloop`, in at most as many turns as the fuel.
pub chip8_mainloop : (fuel : ℕ) → (rand : ℕ → ℕ → ℕ) → Chip8 → Option (Outcome Chip8)
chip8_mainloop zero rand c = none
chip8_mainloop (suc fuel) rand c = elim (chip8_cycle (rand fuel) c) [
  | ok r ↦ if r.0 == 0 then some (ok r.1) else chip8_mainloop fuel rand r.1
  | abort ↦ some fault
  | fault ↦ some fault
]

-- The loops that copy bytes into the memory, from `a` on.
abbrev pub load_bytes : (a : ℕ) → List ℕ → Chip8 → Outcome Chip8
load_bytes a [] c = ok c
load_bytes a (v ∷ vs) c = do c' ← write_ram c a v; load_bytes (a + 1) vs c'

pub chip8_load_program_into_ram : (buf : List ℕ) → Chip8 → Outcome Chip8
chip8_load_program_into_ram buf c = load_bytes 0x200 buf c

pub sprite_chars : List ℕ
sprite_chars =
    0xF0 ∷ 0x90 ∷ 0x90 ∷ 0x90 ∷ 0xF0 ∷ 0x20 ∷ 0x60 ∷ 0x20 ∷ 0x20 ∷ 0x70 ∷ 0xF0 ∷ 0x10 ∷ 0xF0 ∷ 0x80
    ∷ 0xF0 ∷ 0xF0 ∷ 0x10 ∷ 0xF0 ∷ 0x10 ∷ 0xF0 ∷ 0x90 ∷ 0x90 ∷ 0xF0 ∷ 0x10 ∷ 0x10 ∷ 0xF0 ∷ 0x80
    ∷ 0xF0 ∷ 0x10 ∷ 0xF0 ∷ 0xF0 ∷ 0x80 ∷ 0xF0 ∷ 0x90 ∷ 0xF0 ∷ 0xF0 ∷ 0x10 ∷ 0x20 ∷ 0x40 ∷ 0x40
    ∷ 0xF0 ∷ 0x90 ∷ 0xF0 ∷ 0x90 ∷ 0xF0 ∷ 0xF0 ∷ 0x90 ∷ 0xF0 ∷ 0x10 ∷ 0xF0 ∷ 0xF0 ∷ 0x90 ∷ 0xF0
    ∷ 0x90 ∷ 0x90 ∷ 0xE0 ∷ 0x90 ∷ 0xE0 ∷ 0x90 ∷ 0xE0 ∷ 0xF0 ∷ 0x80 ∷ 0x80 ∷ 0x80 ∷ 0xF0 ∷ 0xE0
    ∷ 0x90 ∷ 0x90 ∷ 0x90 ∷ 0xE0 ∷ 0xF0 ∷ 0x80 ∷ 0xF0 ∷ 0x80 ∷ 0xF0 ∷ 0xF0 ∷ 0x80 ∷ 0xF0 ∷ 0x80
    ∷ 0x80 ∷ []

pub chip8_load_sprites_into_ram : Chip8 → Outcome Chip8
unfolding sprite_chars
chip8_load_sprites_into_ram c = load_bytes 0 sprite_chars c

-- The state that `setup_chip8_emulator` runs on, with the bytes of the file.
pub setup_chip8_emulator : (rom : List ℕ) → Chip8 → Outcome Chip8
unfolding chip8_load_program_into_ram
setup_chip8_emulator rom c = do
  c' ← chip8_load_program_into_ram rom (record c {
    pc = 0x200;
    speed = 10;
    paused = false;
    display = λ j. if ltb j (screen_width * screen_height) then false else c.display j;
  })
  ok (record c' { pc = 0x200 })
