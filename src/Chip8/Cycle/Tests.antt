-- ===== src/Chip8/Cycle/Tests.antt =====
-- A program of two bytes, and a turn of the main loop.
use medusa_os.Prelude.{
  ℕ, ◌+◌, ◌%◌, ◌≡◌, ◌≤◌, ◌<◌, refl, true, false, some, [], ◌∷◌, get_elem?, Outcome, ok, fault,
}
use medusa_os.Chip8.{Chip8}
use medusa_os.Chip8.Cycle.{
  chip8_load_program_into_ram, chip8_cycle, chip8_mainloop, chip8_update_framebuffer,
}
use medusa_os.Chip8.Cycle.Loading.{chip8_load_program_into_ram_lem, chip8_mainloop_lem}

abbrev stopped : Chip8
stopped = record {
  ram = λ a. 0;
  vregisters = λ r. 0;
  i = 0;
  delay_timer = 0;
  pc = 0x200;
  stack = [];
  speed = 0;
  paused = true;
  display = λ j. false;
  drawn = [];
}

chip8_load_program_into_ram_example :
    (2 ≤ 3584
      → (c' : Chip8) × (chip8_load_program_into_ram (0x12 ∷ 0x00 ∷ []) stopped ≡ ok c')
        × ((k v : ℕ) → get_elem? (0x12 ∷ 0x00 ∷ []) k ≡ some v → c'.ram (0x200 + k) ≡ v % 256)
        × ((j : ℕ) → j < 0x200 → c'.ram j ≡ stopped.ram j)
        × ((j : ℕ) → 0x202 ≤ j → c'.ram j ≡ stopped.ram j)
        × (record c' { ram = stopped.ram } ≡ stopped))
    × (3584 < 2 → chip8_load_program_into_ram (0x12 ∷ 0x00 ∷ []) stopped ≡ fault)
chip8_load_program_into_ram_example = chip8_load_program_into_ram_lem (0x12 ∷ 0x00 ∷ []) stopped

-- One turn of the emulator that stands still.
abbrev shown : Chip8
shown = chip8_update_framebuffer stopped

cycle_run : ◌≡◌ {A = Outcome (ℕ × Chip8)} (chip8_cycle (λ k. 0) stopped) (ok (0, shown))
unfolding chip8_cycle
cycle_run = refl

chip8_mainloop_example : chip8_mainloop 3 (λ n k. 0) stopped ≡ some (ok shown)
chip8_mainloop_example = chip8_mainloop_lem 2 (λ n k. 0) stopped shown 0 cycle_run
