-- ===== src/Chip8/Execute/Calls.antt =====
-- Subroutines: 2NNN, and 00EE after it.
use medusa_os.Prelude.{
  ℕ, ◌+◌, ◌*◌, ◌/◌, ◌^◌, ◌<◌, ◌≡◌, refl, arith, ◌∷◌, bit_or, ok, bit_and_mask, bit_or_fields,
}
use medusa_os.Chip8.{Chip8, pc_address, u16}
use medusa_os.Chip8.Execute.{
  chip8_get_combined_opcode, address_of, skip, execute_0, execute_switch, chip8_execute_instruction,
}

address_of_lem :
    (op hi lo : ℕ) → op < 16 → hi < 16 → lo < 256 → address_of (op * 16 + hi) lo ≡ hi * 256 + lo
unfolding chip8_get_combined_opcode
address_of_lem op hi lo h1 h2 h3 = omega (
  arith,
  bit_or_fields 8 (op * 16 + hi) lo h3,
  bit_and_mask 12 (u16 (bit_or ((op * 16 + hi) * 2 ^ 8) lo)),
)

-- A call 2NNN jumps to NNN, and a return 00EE executed right there takes the stack back to what it
-- was, but goes on behind itself, at NNN + 2, and not behind the call.
pub chip8_execute_instruction-return :
    (c : Chip8) (rand_nb hi lo : ℕ)
    → hi < 16
    → lo < 256
    → (c1 c2 : Chip8) × (chip8_execute_instruction c rand_nb (2 * 16 + hi) lo ≡ ok c1)
      × (c1.pc ≡ hi * 256 + lo)
      × (chip8_execute_instruction c1 rand_nb 0 0xee ≡ ok c2)
      × (c2.pc ≡ hi * 256 + lo + 2)
      × (c2.stack ≡ c.stack)
unfolding chip8_execute_instruction execute_switch execute_0
chip8_execute_instruction-return c rand_nb hi lo h1 h2 =
    let op : (2 * 16 + hi) / 2 ^ 4 ≡ 2 = omega arith in
    let at : address_of (2 * 16 + hi) lo ≡ hi * 256 + lo =
      address_of_lem 2 hi lo (omega arith) h1 h2 in
    let c1 : Chip8 = record c { pc = address_of (2 * 16 + hi) lo; stack = pc_address ∷ c.stack } in
    (c1, record (skip c1) { stack = c.stack }, rw op refl, at, refl, omega (arith, at), refl)
