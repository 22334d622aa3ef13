-- ===== src/Chip8/Execute/Laws.antt =====
-- What an instruction keeps, and what it does.
use medusa_os.Prelude.{
  ℕ, zero, suc, ◌+◌, ◌-◌, ◌*◌, ◌/◌, ◌%◌, ◌^◌, ◌≤◌, ◌<◌, ◌≡◌, ◌≢◌, refl, arith, inl, inr, ◌==◌, ltb,
  if◌then◌else◌, Bool, true, not, List, ◌∷◌, bit_and, bit_or, bit_xor, Bool-cases, ok, ==→eq,
  lt→ltb,
}
use medusa_os.Chip8.{
  Pointer, pc_address, Draw, fill_screen, Chip8, u8, u16, write_at, read_ram, write_ram, set_v,
  call_write_pixel,
}
use medusa_os.Chip8.Execute.{
  chip8_get_combined_opcode, address_of, skip, skip_if, execute_0, execute_add, execute_sub,
  execute_shift, execute_8, draw_columns, draw_rows, execute_draw, execute_f, execute_switch,
  chip8_execute_instruction,
}
use medusa_os.Chip8.Execute.Valid.{
  IsValid, Succeeds, either, set_v-IsValid, set_pc-IsValid, set_i-IsValid, set_drawn-IsValid,
  set_stack-IsValid, address_of-lt, skip-IsValid, skip_if-IsValid,
}

execute_0-IsValid : (c : Chip8) (o : ℕ) → IsValid c → IsValid (execute_0 c o)
unfolding execute_0
execute_0-IsValid c o h =
    either IsValid (o == 0xe0) (λ e. set_drawn-IsValid c (fill_screen ∷ c.drawn) h)
      λ e.
        either IsValid (o == 0xee)
          (λ e. set_stack-IsValid c (medusa_os.Chip8.Execute.popped c.stack) h) λ e. h

execute_8-IsValid : (c : Chip8) (x y n : ℕ) → IsValid c → IsValid (execute_8 c x y n)
unfolding execute_8 execute_add execute_sub execute_shift
execute_8-IsValid c x y n h =
    either IsValid (n == 0) (λ e. set_v-IsValid c x (c.vregisters y) h)
      λ e.
        either IsValid (n == 1)
          (λ e. set_v-IsValid c x (bit_or (c.vregisters x) (c.vregisters y)) h)
          λ e.
            either IsValid (n == 2)
              (λ e. set_v-IsValid c x (bit_and (c.vregisters x) (c.vregisters y)) h)
              λ e.
                either IsValid (n == 3)
                  (λ e. set_v-IsValid c x (bit_xor (c.vregisters x) (c.vregisters y)) h)
                  λ e.
                    either IsValid (n == 4) (λ e. add)
                      λ e.
                        either IsValid (n == 5) (λ e. subtract)
                          λ e. either IsValid (n == 6) (λ e. shift) λ e. h
  where
    add : IsValid (execute_add c x y)
    add =
        let sum = u8 (c.vregisters x + c.vregisters y) in
        set_v-IsValid (set_v (set_v c x sum) 0xf 0) x sum
          (set_v-IsValid (set_v c x sum) 0xf 0 (set_v-IsValid c x sum h))

    subtract : IsValid (execute_sub c x y)
    subtract =
        let c1 : Chip8 = set_v c 0xf 0 in
        let t = ltb (c1.vregisters y) (c1.vregisters x) in
        let c2 : Chip8 = if t then set_v c1 0xf 1 else c1 in
        let v1 : IsValid c1 = set_v-IsValid c 0xf 0 h in
        set_v-IsValid c2 x (c2.vregisters x + 2 ^ 8 - c2.vregisters y)
          (either IsValid t (λ e. set_v-IsValid c1 0xf 1 v1) (λ e. v1))

    shift : IsValid (execute_shift c x)
    shift =
        let c1 : Chip8 = set_v c 0xf (bit_and (c.vregisters x) 1) in
        set_v-IsValid c1 x (c1.vregisters x / 2)
          (set_v-IsValid c 0xf (bit_and (c.vregisters x) 1) h)

-- Drawing changes the drawing alone.
abbrev with_drawn : Chip8 → List Draw → Chip8
with_drawn c d = record c { drawn = d }

draw_columns-drawn :
    (n col : ℕ) (c : Chip8) (x y row sprite : ℕ)
    → (d : List Draw) × (draw_columns n col c x y row sprite ≡ with_drawn c d)
draw_columns-drawn zero col c x y row sprite = (c.drawn, refl)
draw_columns-drawn (suc n) col c x y row sprite = elim (Bool-cases (ltb 0 (bit_and sprite 0x80))) [
  | inl e ↦
      let c' = call_write_pixel c (c.vregisters x + col) (c.vregisters y + row) true in
      let (d, q) = draw_columns-drawn n (col + 1) c' x y row (u8 (sprite * 2)) in (d, rw e q)
  | inr e ↦ let (d, q) = draw_columns-drawn n (col + 1) c x y row (u8 (sprite * 2)) in (d, rw e q)
]

draw_rows-drawn :
    (n row : ℕ) (c : Chip8) (x y : ℕ)
    → c.i + row + n ≤ 4096
    → (d : List Draw) × (draw_rows n row c x y ≡ ok (with_drawn c d))
draw_rows-drawn zero row c x y h = (c.drawn, refl)
draw_rows-drawn (suc n) row c x y h =
    let (d, q) = draw_columns-drawn 8 0 c x y row (c.ram (c.i + row)) in
    let (d', q') = draw_rows-drawn n (row + 1) (with_drawn c d) x y (omega arith) in
    (d', rw (lt→ltb (c.i + row) 4096 (omega arith), q) q')

execute_draw-Succeeds :
    (c : Chip8) (x y n : ℕ) → c.i + n ≤ 4096 → IsValid c → Succeeds (execute_draw c x y n)
unfolding execute_draw
execute_draw-Succeeds c x y n fits h =
    let (d, q) = draw_rows-drawn n 0 (set_v c 0xf 0) x y (omega arith) in
    (with_drawn (set_v c 0xf 0) d, q, set_drawn-IsValid (set_v c 0xf 0) d (set_v-IsValid c 0xf 0 h))

execute_f-Succeeds :
    (c : Chip8) (x o : ℕ) → o ≢ 0x55 → o ≢ 0x65 → IsValid c → Succeeds (execute_f c x o)
unfolding execute_f
execute_f-Succeeds c x o no_store no_load h =
    either Succeeds (o == 0x07)
      (λ e. (set_v c x c.delay_timer, refl, set_v-IsValid c x c.delay_timer h))
      λ e.
        either Succeeds (o == 0x15) (λ e. (record c { delay_timer = c.vregisters x }, refl, timer))
          λ e.
            either Succeeds (o == 0x1e) (λ e. moved (u16 (c.i + c.vregisters x)) (omega arith))
              λ e.
                either Succeeds (o == 0x29) (λ e. moved (u16 (c.vregisters x * 5)) (omega arith))
                  λ e.
                    either Succeeds (o == 0x55) (λ e. absurd (no_store (==→eq o 0x55 e)))
                      λ e.
                        either Succeeds (o == 0x65) (λ e. absurd (no_load (==→eq o 0x65 e)))
                          λ e. (c, refl, h)
  where
    moved : (a : ℕ) → a < 2 ^ 16 → Succeeds (ok (record c { i = a }))
    moved a lt = (record c { i = a }, refl, set_i-IsValid c a lt h)

    timer : IsValid (record c { delay_timer = c.vregisters x })
    timer = record {
      vregisters = h.vregisters;
      ram = h.ram;
      pc = h.pc;
      i = h.i;
      delay_timer = h.vregisters x;
    }

-- The parts of an instruction, once the counter has moved.
module _ (c0 : Chip8) (rand_nb o1 o2 : ℕ) (h0 : IsValid c0) where
  abbrev c : Chip8
  c = skip c0

  abbrev op : ℕ
  op = o1 / 2 ^ 4

  abbrev x : ℕ
  x = bit_and o1 0xf

  abbrev y : ℕ
  y = o2 / 2 ^ 4

  abbrev n : ℕ
  n = bit_and o2 0xf

  h : IsValid c
  h = skip-IsValid c0 h0

  done : (c' : Chip8) → IsValid c' → Succeeds (ok c')
  done c' v = (c', refl, v)

  jump : (a : ℕ) → a < 2 ^ 16 → Succeeds (ok (record c { pc = a }))
  jump a lt = done (record c { pc = a }) (set_pc-IsValid c a lt h)

  call : Succeeds (ok (record c { stack = pc_address ∷ c.stack; pc = address_of o1 o2 }))
  call =
      let s : Chip8 = record c { stack = pc_address ∷ c.stack } in
      done (record s { pc = address_of o1 o2 })
        (set_pc-IsValid s (address_of o1 o2) (omega (arith, address_of-lt o1 o2))
          (set_stack-IsValid c (pc_address ∷ c.stack) h))

  skipped : (b : Bool) → Succeeds (ok (skip_if b c))
  skipped b = done (skip_if b c) (skip_if-IsValid b c h)

  written : (v : ℕ) → Succeeds (ok (set_v c x v))
  written v = done (set_v c x v) (set_v-IsValid c x v h)

  indexed : Succeeds (ok (record c { i = address_of o1 o2 }))
  indexed =
      done (record c { i = address_of o1 o2 })
        (set_i-IsValid c (address_of o1 o2) (omega (arith, address_of-lt o1 o2)) h)

  loaded : (o2 ≢ 0x55) × (o2 ≢ 0x65) → Succeeds (execute_f c x o2)
  loaded p = execute_f-Succeeds c x o2 p.0 p.1 h

  chip8_execute_instruction_lem :
      (o1 / 2 ^ 4 ≡ 0xd → c0.i + bit_and o2 0xf ≤ 4096)
      → (o1 / 2 ^ 4 ≡ 0xf → (o2 ≢ 0x55) × (o2 ≢ 0x65))
      → Succeeds (chip8_execute_instruction c0 rand_nb o1 o2)
  unfolding chip8_execute_instruction execute_switch
  chip8_execute_instruction_lem rows registers =
      either Succeeds (op == 0x0) (λ e. done (execute_0 c o2) (execute_0-IsValid c o2 h))
        λ e.
          either Succeeds (op == 0x1)
            (λ e. jump (address_of o1 o2) (omega (arith, address_of-lt o1 o2)))
            λ e.
              either Succeeds (op == 0x2) (λ e. call)
                λ e.
                  either Succeeds (op == 0x3) (λ e. skipped (c.vregisters x == o2))
                    λ e.
                      either Succeeds (op == 0x4) (λ e. skipped (not (c.vregisters x == o2)))
                        λ e.
                          either Succeeds (op == 0x5)
                            (λ e. skipped (c.vregisters x == c.vregisters y))
                            λ e.
                              either Succeeds (op == 0x6) (λ e. written o2)
                                λ e.
                                  either Succeeds (op == 0x7) (λ e. written (c.vregisters x + o2))
                                    λ e.
                                      either Succeeds (op == 0x8)
                                        (λ e.
                                          done (execute_8 c x y n) (execute_8-IsValid c x y n h))
                                        λ e.
                                          either Succeeds (op == 0x9)
                                            (λ e. skipped (not (c.vregisters x == c.vregisters y)))
                                            λ e.
                                              either Succeeds (op == 0xa) (λ e. indexed)
                                                λ e.
                                                  either Succeeds (op == 0xb)
                                                    (λ e.
                                                      jump (u16 (address_of o1 o2 + c.vregisters 0))
                                                        (omega arith))
                                                    λ e.
                                                      either Succeeds (op == 0xc)
                                                        (λ e. written (bit_and (rand_nb % 256) o2))
                                                        λ e.
                                                          either Succeeds (op == 0xd)
                                                            (λ e.
                                                            execute_draw-Succeeds c x y n
                                                            (rows (==→eq op 0xd e)) h)
                                                            λ e.
                                                            either Succeeds (op == 0xf)
                                                            (λ e.
                                                            loaded (registers (==→eq op 0xf e)))
                                                            λ e. done c h

-- From a valid state, every instruction but FX55 and FX65 succeeds in a valid state, as long as the
-- rows that DXYN reads lie in the memory.
pub chip8_execute_instruction-Succeeds :
    (c0 : Chip8) (rand_nb o1 o2 : ℕ)
    → IsValid c0
    → (o1 / 2 ^ 4 ≡ 0xd → c0.i + bit_and o2 0xf ≤ 4096)
    → (o1 / 2 ^ 4 ≡ 0xf → (o2 ≢ 0x55) × (o2 ≢ 0x65))
    → Succeeds (chip8_execute_instruction c0 rand_nb o1 o2)
chip8_execute_instruction-Succeeds c0 rand_nb o1 o2 h0 rows registers =
    chip8_execute_instruction_lem c0 rand_nb o1 o2 h0 rows registers
