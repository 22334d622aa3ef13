-- ===== src/Chip8/Execute/Tests.antt =====
-- Instructions at a concrete state.
use medusa_os.Prelude.{◌≡◌, arith, false, [], ok}
use medusa_os.Chip8.{Chip8}
use medusa_os.Chip8.Execute.{chip8_execute_instruction}
use medusa_os.Chip8.Execute.Laws.{chip8_execute_instruction-Succeeds}
use medusa_os.Chip8.Execute.Arithmetic.{Computes, chip8_execute_instruction-Computes}
use medusa_os.Chip8.Execute.Valid.{IsValid}
use medusa_os.Chip8.Execute.Calls.{chip8_execute_instruction-return}

abbrev start : Chip8
start = record {
  ram = λ a. 0xff;
  vregisters = λ r. r;
  i = 0x300;
  delay_timer = 5;
  pc = 0x200;
  stack = [];
  speed = 10;
  paused = false;
  display = λ j. false;
  drawn = [];
}

-- The registers of `start` are smaller than 2^8 where they exist.
abbrev quiet : Chip8
quiet = record start { vregisters = λ r. 7 }

quiet-IsValid : IsValid quiet
quiet-IsValid = record {
  vregisters = λ r. omega arith;
  ram = λ a. omega arith;
  pc = omega arith;
  i = omega arith;
  delay_timer = omega arith;
}

chip8_execute_instruction_example :
    (c' : Chip8) × (chip8_execute_instruction quiet 0 0xd1 0x25 ≡ ok c') × IsValid c'
chip8_execute_instruction_example =
    chip8_execute_instruction-Succeeds quiet 0 0xd1 0x25 quiet-IsValid (λ e. omega arith)
      (λ e. absurd (omega (arith, e)))

chip8_execute_instruction-return_example :
    (c1 c2 : Chip8) × (chip8_execute_instruction start 0 0x23 0x45 ≡ ok c1)
    × (c1.pc ≡ 0x345)
    × (chip8_execute_instruction c1 0 0 0xee ≡ ok c2)
    × (c2.pc ≡ 0x347)
    × (c2.stack ≡ [])
chip8_execute_instruction-return_example =
    chip8_execute_instruction-return start 0 3 0x45 (omega arith) (omega arith)

-- 2 + 5, 2 - 5 and 2 / 2.
chip8_execute_instruction-Computes_example :
    Computes start (chip8_execute_instruction start 0 0x82 0x54) 2 7 0
    × Computes start (chip8_execute_instruction start 0 0x82 0x55) 2 253 0
    × Computes start (chip8_execute_instruction start 0 0x82 0x56) 2 1 0
chip8_execute_instruction-Computes_example =
    chip8_execute_instruction-Computes start 0 2 5 (omega arith) (omega arith) (omega arith)
      (omega arith)
