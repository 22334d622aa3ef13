-- ===== src/Chip8/Execute.antt =====
-- `chip8_execute_instruction`, one function for each group of opcodes.
pub mod Valid
pub mod Laws
pub mod Arithmetic
pub mod Calls
mod Tests
use medusa_os.Prelude.{
  ℕ, zero, suc, ◌+◌, ◌-◌, ◌*◌, ◌/◌, ◌%◌, ◌^◌, ◌==◌, ltb, leb, if◌then◌else◌, Bool, true, false, not,
  List, [], ◌∷◌, bit_and, bit_or, bit_xor, Outcome, ok, fault, ◌>>=◌,
}
use medusa_os.Chip8.{
  Pointer, pc_address, Draw, fill_screen, Chip8, u8, u16, write_at, read_ram, write_ram,
  read_vregister, write_vregister, set_v, call_write_pixel,
}

pub chip8_get_combined_opcode : (opcode_1 opcode_2 : ℕ) → ℕ
chip8_get_combined_opcode opcode_1 opcode_2 = u16 (bit_or (opcode_1 * 2 ^ 8) opcode_2)

-- `chip8_get_combined_opcode(opcode_1, opcode_2) & 0xFFF`
abbrev pub address_of : (opcode_1 opcode_2 : ℕ) → ℕ
address_of opcode_1 opcode_2 = bit_and (chip8_get_combined_opcode opcode_1 opcode_2) 0xfff

-- `emulator.pc += 2`
abbrev pub skip : Chip8 → Chip8
skip c = record c { pc = u16 (c.pc + 2) }

abbrev pub skip_if : Bool → Chip8 → Chip8
skip_if b c = if b then skip c else c

abbrev pub popped : List Pointer → List Pointer
popped [] = []
popped (p ∷ ps) = ps

-- 00E0 and 00EE
pub execute_0 : Chip8 → (opcode_2 : ℕ) → Chip8
execute_0 c opcode_2 =
    if opcode_2 == 0xe0
    then record c { drawn = fill_screen ∷ c.drawn }
    else if opcode_2 == 0xee
    then record c { stack = popped c.stack }
    else c

-- 8XY4: the sum, and a carry of zero
pub execute_add : Chip8 → (x y : ℕ) → Chip8
execute_add c x y =
    let sum = u8 (c.vregisters x + c.vregisters y) in set_v (set_v (set_v c x sum) 0xf 0) x sum

-- 8XY5: each statement reads the registers that the one before it left
pub execute_sub : Chip8 → (x y : ℕ) → Chip8
execute_sub c x y =
    let c1 = set_v c 0xf 0 in
    let c2 = if ltb (c1.vregisters y) (c1.vregisters x) then set_v c1 0xf 1 else c1 in
    set_v c2 x (c2.vregisters x + 2 ^ 8 - c2.vregisters y)

-- 8XY6
pub execute_shift : Chip8 → (x : ℕ) → Chip8
execute_shift c x =
    let c1 = set_v c 0xf (bit_and (c.vregisters x) 1) in set_v c1 x (c1.vregisters x / 2)

-- 8XYN
pub execute_8 : Chip8 → (x y n : ℕ) → Chip8
unfolding execute_add execute_sub execute_shift
execute_8 c x y n =
    if n == 0
    then set_v c x (c.vregisters y)
    else if n == 1
    then set_v c x (bit_or (c.vregisters x) (c.vregisters y))
    else if n == 2
    then set_v c x (bit_and (c.vregisters x) (c.vregisters y))
    else if n == 3
    then set_v c x (bit_xor (c.vregisters x) (c.vregisters y))
    else if n == 4
    then execute_add c x y
    else if n == 5
    then execute_sub c x y
    else if n == 6
    then execute_shift c x
    else c

-- The loop over the columns of a row, `n` of them left, with the row's byte.
abbrev pub draw_columns : (n col : ℕ) → Chip8 → (x y row sprite : ℕ) → Chip8
draw_columns zero col c x y row sprite = c
draw_columns (suc n) col c x y row sprite =
    let c' =
      if ltb 0 (bit_and sprite 0x80)
      then call_write_pixel c (c.vregisters x + col) (c.vregisters y + row) true
      else c in
    draw_columns n (col + 1) c' x y row (u8 (sprite * 2))

-- The loop over the rows.
abbrev pub draw_rows : (n row : ℕ) → Chip8 → (x y : ℕ) → Outcome Chip8
draw_rows zero row c x y = ok c
draw_rows (suc n) row c x y = do
  sprite ← read_ram c (c.i + row)
  draw_rows n (row + 1) (draw_columns 8 0 c x y row sprite) x y

-- DXYN
pub execute_draw : Chip8 → (x y n : ℕ) → Outcome Chip8
execute_draw c x y n = draw_rows n 0 (set_v c 0xf 0) x y

-- FX55 and FX65: the count is the register's value, read again at each turn. Turn 16 leaves the
-- loop or accesses `vregisters[16]`, so that 17 turns are enough.
abbrev pub store_from : (turns k : ℕ) → Chip8 → (x : ℕ) → Outcome Chip8
store_from zero k c x = fault
store_from (suc turns) k c x =
    if leb k (c.vregisters x)
    then (do v ← read_vregister c k; c' ← write_ram c (c.i + k) v; store_from turns (k + 1) c' x)
    else ok c

abbrev pub load_from : (turns k : ℕ) → Chip8 → (x : ℕ) → Outcome Chip8
load_from zero k c x = fault
load_from (suc turns) k c x =
    if leb k (c.vregisters x)
    then (do v ← read_ram c (c.i + k); c' ← write_vregister c k v; load_from turns (k + 1) c' x)
    else ok c

-- FXNN
pub execute_f : Chip8 → (x opcode_2 : ℕ) → Outcome Chip8
execute_f c x opcode_2 =
    if opcode_2 == 0x07
    then ok (set_v c x c.delay_timer)
    else if opcode_2 == 0x15
    then ok (record c { delay_timer = c.vregisters x })
    else if opcode_2 == 0x1e
    then ok (record c { i = u16 (c.i + c.vregisters x) })
    else if opcode_2 == 0x29
    then ok (record c { i = u16 (c.vregisters x * 5) })
    else if opcode_2 == 0x55
    then store_from 17 0 c x
    else if opcode_2 == 0x65
    then load_from 17 0 c x
    else ok c

-- The `switch`, with the digits of the opcode.
pub execute_switch : Chip8 → (rand_nb opcode_1 opcode_2 : ℕ) → Outcome Chip8
unfolding execute_0 execute_8 execute_draw execute_f
execute_switch c rand_nb opcode_1 opcode_2 =
    let x = bit_and opcode_1 0xf in
    let y = opcode_2 / 2 ^ 4 in
    let n = bit_and opcode_2 0xf in
    let nnn = address_of opcode_1 opcode_2 in
    let op = opcode_1 / 2 ^ 4 in
    if op == 0x0
    then ok (execute_0 c opcode_2)
    else if op == 0x1
    then ok (record c { pc = nnn })
    else if op == 0x2
    then ok (record c { stack = pc_address ∷ c.stack; pc = nnn })
    else if op == 0x3
    then ok (skip_if (c.vregisters x == opcode_2) c)
    else if op == 0x4
    then ok (skip_if (not (c.vregisters x == opcode_2)) c)
    else if op == 0x5
    then ok (skip_if (c.vregisters x == c.vregisters y) c)
    else if op == 0x6
    then ok (set_v c x opcode_2)
    else if op == 0x7
    then ok (set_v c x (c.vregisters x + opcode_2))
    else if op == 0x8
    then ok (execute_8 c x y n)
    else if op == 0x9
    then ok (skip_if (not (c.vregisters x == c.vregisters y)) c)
    else if op == 0xa
    then ok (record c { i = nnn })
    else if op == 0xb
    then ok (record c { pc = u16 (nnn + c.vregisters 0) })
    else if op == 0xc
    then ok (set_v c x (bit_and (rand_nb % 256) opcode_2))
    else if op == 0xd
    then execute_draw c x y n
    else if op == 0xf
    then execute_f c x opcode_2
    else ok c

pub chip8_execute_instruction : Chip8 → (rand_nb opcode_1 opcode_2 : ℕ) → Outcome Chip8
unfolding execute_switch
chip8_execute_instruction c rand_nb opcode_1 opcode_2 =
    execute_switch (skip c) rand_nb opcode_1 opcode_2
