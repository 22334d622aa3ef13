-- ===== src/Arch/Terminal/Screen.antt =====
-- Where the terminal writes.
use medusa_os.Prelude.{
  ℕ, ◌+◌, ◌*◌, ◌%◌, ◌^◌, ◌<◌, ◌≡◌, ◌≢◌, refl, ap, ◌∙◌, arith, ◌==◌, ltb, leb, Bool, true, false,
  Bool-cases, inl, inr, some, length, set, get_elem?, length-set, length-replicate,
  get_elem?-set_self, ok, fault, ◌>>=◌, lt→ltb, ne→==_false, le→not_ltb, ==→eq,
}
use medusa_os.Arch.Terminal.{
  Terminal, vga_entry, write_cell, next_column, terminal_clear, terminal_ps1, terminal_putentryat,
  put_default, terminal_putchar, move_cursor_next_line, update_cursor, vga_entry_color, prompt_char,
  move_cursor_right, move_cursor_last_line,
}

-- The next character goes to a cell of the screen.
pub record IsInside (t : Terminal) : Type 0 where
  pub rows : t.row < 25
  pub columns : t.column < 80
  pub cells : length t.buffer ≡ 2000

next_column-IsInside : (t : Terminal) → IsInside t → IsInside (next_column t)
unfolding next_column
next_column-IsInside t inside = elim (Bool-cases (t.column + 1 == 80)) [
  | inl e ↦
      rw e
        (record { rows = ground (arith, inside.rows); columns = omega arith; cells = inside.cells })
  | inr e ↦ rw e (record {
    rows = inside.rows;
    columns = ground (arith, inside.columns);
    cells = inside.cells;
  })
]

next_column-buffer : (t : Terminal) → (next_column t).buffer ≡ t.buffer
unfolding next_column
next_column-buffer t = elim (Bool-cases (t.column + 1 == 80)) [
  | inl e ↦ rw e refl
  | inr e ↦ rw e refl
]

-- The cell that the next character goes to.
abbrev pub place : Terminal → ℕ
place t = t.row * 80 + t.column

put_default-IsInside :
    (chip8 : Bool) (uc : ℕ) (t : Terminal)
    → IsInside t
    → (t' : Terminal) × (put_default chip8 uc t ≡ ok t')
      × IsInside t'
      × (get_elem? t'.buffer (place t) ≡ some (vga_entry uc t.color))
unfolding put_default terminal_putentryat write_cell
put_default-IsInside chip8 uc t inside =
    let on : leb 25 t.row ≡ false = ground (arith, inside.rows) in
    let cell : place t < length t.buffer =
      omega (arith, inside.rows, inside.columns, inside.cells) in
    let written : Terminal = record t { buffer = set t.buffer (place t) (vga_entry uc t.color) } in
    let inside' : IsInside written = record {
      rows = inside.rows;
      columns = inside.columns;
      cells = length-set t.buffer (place t) (vga_entry uc t.color) ∙ inside.cells;
    } in
    (
      next_column written,
      rw (on, lt→ltb (place t) (length t.buffer) cell) refl,
      next_column-IsInside written inside',
      ap (λ b. get_elem? b (place t)) (next_column-buffer written)
          ∙ get_elem?-set_self t.buffer (place t) (vga_entry uc t.color) cell,
    )

-- A newline in a row but the last; the next line starts in its second column.
newline-IsInside :
    (t : Terminal)
    → IsInside t
    → t.row < 24
    → IsInside (next_column (move_cursor_next_line (record t { row = t.row + 1; column = 0 })))
unfolding move_cursor_next_line update_cursor
newline-IsInside t inside above =
    next_column-IsInside (move_cursor_next_line (record t { row = t.row + 1; column = 0 }))
      (record { rows = omega (arith, above); columns = omega arith; cells = inside.cells })

-- Where the next character goes to a cell of the screen, `terminal_putchar` of any character succeeds
-- and the one after it goes to a cell of the screen again, except for a newline in the last row. A
-- character other than newline and tab stands in its cell afterwards, in the colour of the terminal.
pub terminal_putchar-IsInside :
    (chip8 : Bool) (uc : ℕ) (t : Terminal)
    → IsInside t
    → (uc ≡ 10 → t.row < 24)
    → (t' : Terminal) × (terminal_putchar chip8 uc t ≡ ok t')
      × IsInside t'
      × (uc ≢ 10 → uc ≢ 9 → get_elem? t'.buffer (place t) ≡ some (vga_entry uc t.color))
unfolding terminal_putchar
terminal_putchar-IsInside chip8 uc t inside above = elim (Bool-cases (uc == 10)) [
  | inl e ↦ (
    next_column (move_cursor_next_line (record t { row = t.row + 1; column = 0 })),
    rw e refl,
    newline-IsInside t inside (above (==→eq uc 10 e)),
    λ ne. absurd (ne (==→eq uc 10 e)),
  )
  | inr e ↦ elim (Bool-cases (uc == 9)) [
    | inl q ↦
        let (t1, w1, i1, c1) = put_default-IsInside chip8 32 t inside in
        let (t2, w2, i2, c2) = put_default-IsInside chip8 32 t1 i1 in
        let (t3, w3, i3, c3) = put_default-IsInside chip8 32 t2 i2 in
        let (t4, w4, i4, c4) = put_default-IsInside chip8 32 t3 i3 in
        let (t5, w5, i5, c5) = put_default-IsInside chip8 uc t4 i4 in
        (t5, rw (e, q, w1, w2, w3, w4) w5, i5, λ n ne. absurd (ne (==→eq uc 9 q)))
    | inr q ↦
        let (t', w, i, c) = put_default-IsInside chip8 uc t inside in
        (t', rw (e, q) w, i, λ n ne. c)
  ]
]

-- The prompt on the cleared screen.
prompt_char-IsInside :
    (c : ℕ) (t : Terminal) → IsInside t → (t' : Terminal) × (prompt_char c t ≡ ok t') × IsInside t'
unfolding write_cell
prompt_char-IsInside c t inside =
    let cell : place t < length t.buffer =
      omega (arith, inside.rows, inside.columns, inside.cells) in
    let written : Terminal = record t { buffer = set t.buffer (place t) (vga_entry c t.color) } in
    (
      next_column written,
      rw (lt→ltb (place t) (length t.buffer) cell) refl,
      next_column-IsInside written (record {
        rows = inside.rows;
        columns = inside.columns;
        cells = length-set t.buffer (place t) (vga_entry c t.color) ∙ inside.cells;
      }),
    )

terminal_clear-IsInside : (t : Terminal) → IsInside (terminal_clear t)
unfolding terminal_clear update_cursor
terminal_clear-IsInside t = record {
  rows = omega arith;
  columns = omega arith;
  cells = length-replicate 2000 (vga_entry 32 (vga_entry_color 7 0));
}

terminal_ps1-IsInside :
    (chip8 : Bool) (t : Terminal)
    → IsInside t
    → (t' : Terminal) × (terminal_ps1 chip8 t ≡ ok t') × IsInside t'
unfolding terminal_ps1
terminal_ps1-IsInside true t inside = (t, refl, inside)
terminal_ps1-IsInside false t inside =
    let (t1, w1, i1) = prompt_char-IsInside 62 t inside in
    let (t2, w2, i2) = prompt_char-IsInside 32 t1 i1 in (t2, rw (w1) w2, i2)

put_default-past :
    (chip8 : Bool) (uc : ℕ) (t : Terminal) → t.row ≡ 25 → put_default chip8 uc t ≡ fault
unfolding put_default terminal_putentryat write_cell move_cursor_right move_cursor_last_line
    update_cursor
put_default-past chip8 uc t past =
    let (t1, w1, i1) = terminal_ps1-IsInside chip8 (terminal_clear t) (terminal_clear-IsInside t) in
    let above : leb 25 t.row ≡ true = ground (arith, past) in
    let behind : ltb (t.row * 80 + t.column) (length t1.buffer) ≡ false =
      le→not_ltb (t.row * 80 + t.column) (length t1.buffer) (omega (arith, past, i1.cells)) in
    rw (above, w1, behind) refl

-- A newline in the last row, and then any character but another newline: the first succeeds, and the
-- second clears the screen and writes behind it.
pub terminal_putchar-past :
    (chip8 : Bool) (uc : ℕ) (t : Terminal)
    → t.row ≡ 24
    → uc ≢ 10
    → (terminal_putchar chip8 10 t >>= terminal_putchar chip8 uc) ≡ fault
unfolding terminal_putchar move_cursor_next_line update_cursor next_column
terminal_putchar-past chip8 uc t last other =
    let s : Terminal = record t {
      row = t.row + 1;
      column = 1;
      x_cursor = 3;
      y_cursor = (t.y_cursor + 1) % 2 ^ 16;
      cursor = ((t.y_cursor + 1) % 2 ^ 16 * 80 + 3) % 2 ^ 16;
    } in
    let gone : (c : ℕ) → put_default chip8 c s ≡ fault =
      λ c. put_default-past chip8 c s (omega (arith, last)) in
    elim (Bool-cases (uc == 9)) [
      | inl e ↦ rw (ne→==_false uc 10 other, e, gone 32) refl
      | inr e ↦ rw (ne→==_false uc 10 other, e) (gone uc)
    ]
