-- ===== src/Arch/Terminal.antt =====
-- kernel/arch/i386/tty.c and vga.h: the text terminal of 80 columns and 25 rows. The buffer is the
-- 2000 cells of the screen; a write behind them is a `fault`. `chip8` is `is_chip8_emulator_mode()`.
pub mod Screen
mod Tests
use medusa_os.Prelude.{
  ℕ, zero, suc, ◌+◌, ◌-◌, ◌*◌, ◌/◌, ◌%◌, ◌^◌, ◌==◌, ltb, leb, if◌then◌else◌, Bool, true, false,
  Option, none, some, List, [], ◌∷◌, length, set, replicate, bit_or, Outcome, ok, fault, ◌>>=◌,
  access,
}
use medusa_os.Misc.{u32}

abbrev pub vga_width : ℕ
vga_width = 80

abbrev pub vga_height : ℕ
vga_height = 25

-- The variables of tty.c; `cursor` is the position written to the ports of the display.
pub record Terminal : Type 0 where
  pub row : ℕ
  pub column : ℕ
  pub color : ℕ
  pub old_color : ℕ
  pub buffer : List ℕ
  pub keypress_index : ℕ
  pub tick_index : ℕ
  pub tick_animation : Bool
  pub keypress_animation : Bool
  pub x_cursor : ℕ
  pub y_cursor : ℕ
  pub cursor : ℕ

pub vga_entry_color : (fg bg : ℕ) → ℕ
vga_entry_color fg bg = bit_or fg (bg * 2 ^ 4) % 2 ^ 8

pub vga_entry : (uc color : ℕ) → ℕ
vga_entry uc color = bit_or uc (color * 2 ^ 8) % 2 ^ 16

pub update_cursor : (x y : ℕ) → Terminal → Terminal
update_cursor x y t = record t { x_cursor = x; y_cursor = y; cursor = (y * vga_width + x) % 2 ^ 16 }

pub move_cursor_right : Terminal → Terminal
unfolding update_cursor
move_cursor_right t = update_cursor ((t.x_cursor + 1) % 2 ^ 16) (t.y_cursor % 2 ^ 16) t

pub move_cursor_left : Terminal → Terminal
unfolding update_cursor
move_cursor_left t = update_cursor ((t.x_cursor + (2 ^ 16 - 1)) % 2 ^ 16) (t.y_cursor % 2 ^ 16) t

pub move_cursor_next_line : Terminal → Terminal
unfolding update_cursor
move_cursor_next_line t = update_cursor 3 ((t.y_cursor + 1) % 2 ^ 16) t

pub move_cursor_last_line : Terminal → Terminal
unfolding update_cursor
move_cursor_last_line t = update_cursor 3 ((t.y_cursor + (2 ^ 16 - 1)) % 2 ^ 16) t

pub terminal_clear : Terminal → Terminal
unfolding update_cursor vga_entry vga_entry_color
terminal_clear t =
    let color = vga_entry_color 7 0 in
    update_cursor 3 1 (record t {
      row = 0;
      column = 0;
      color = color;
      buffer = replicate (vga_height * vga_width) (vga_entry 32 color);
      tick_animation = false;
      keypress_animation = false;
    })

pub terminal_setcolor : (color : ℕ) → Terminal → Terminal
terminal_setcolor color t = record t { old_color = t.color; color = color }

pub terminal_setcolors : (fg bg : ℕ) → Terminal → Terminal
unfolding vga_entry_color
terminal_setcolors fg bg t = record t { old_color = t.color; color = vga_entry_color fg bg }

pub terminal_reset_color : Terminal → Terminal
terminal_reset_color t = record t { color = t.old_color }

-- `terminal_buffer[index] = vga_entry(c, color)`
pub write_cell : (c color index : ℕ) → Terminal → Outcome Terminal
unfolding vga_entry
write_cell c color index t =
    if ltb index (length t.buffer)
    then ok (record t { buffer = set t.buffer index (vga_entry c color) })
    else fault

-- The end of `terminal_putchar`.
pub next_column : Terminal → Terminal
next_column t =
    if t.column + 1 == vga_width
    then record t { column = 0; row = if t.row + 1 == vga_height then 0 else t.row + 1 }
    else record t { column = t.column + 1 }

-- A character of the prompt, which stands in the first row.
abbrev pub prompt_char : (c : ℕ) → Terminal → Outcome Terminal
prompt_char c t = do t' ← write_cell c t.color (t.row * vga_width + t.column) t; ok (next_column t')

pub terminal_ps1 : (chip8 : Bool) → Terminal → Outcome Terminal
unfolding write_cell next_column
terminal_ps1 chip8 t = if chip8 then ok t else (do t' ← prompt_char 62 t; prompt_char 32 t')

pub terminal_putentryat : (chip8 : Bool) → (c color x y : ℕ) → Terminal → Outcome Terminal
unfolding terminal_clear terminal_ps1 write_cell move_cursor_last_line move_cursor_right
terminal_putentryat chip8 c color x y t = do
  t' ←
      if leb vga_height y
      then (do
        t1 ← terminal_ps1 chip8 (terminal_clear t)
        ok (move_cursor_right (move_cursor_last_line t1)))
      else ok t
  write_cell c color (y * vga_width + x) t'

-- The default branch of `terminal_putchar`, and its end.
pub put_default : (chip8 : Bool) → (uc : ℕ) → Terminal → Outcome Terminal
unfolding terminal_putentryat next_column
put_default chip8 uc t = do
  t' ← terminal_putentryat chip8 uc t.color t.column t.row t
  ok (next_column t')

-- The branch of '\t' falls through to the default one.
pub terminal_putchar : (chip8 : Bool) → (uc : ℕ) → Terminal → Outcome Terminal
unfolding put_default next_column move_cursor_next_line
terminal_putchar chip8 uc t =
    if uc == 10
    then ok (next_column (move_cursor_next_line (record t { row = t.row + 1; column = 0 })))
    else if uc == 9
    then (do
      t1 ← put_default chip8 32 t
      t2 ← put_default chip8 32 t1
      t3 ← put_default chip8 32 t2
      t4 ← put_default chip8 32 t3
      put_default chip8 uc t4)
    else put_default chip8 uc t

-- The loop of `terminal_write`, with `n` characters left; `skip` is set behind an escape character and '['.
pub write_from : (chip8 : Bool) → (n : ℕ) → (skip : Bool) → List ℕ → Terminal → Outcome Terminal
unfolding terminal_putchar
write_from chip8 zero skip chars t = ok t
write_from chip8 (suc n) skip [] t = fault
write_from chip8 (suc n) true (c ∷ chars) t = write_from chip8 n false chars t
write_from chip8 (suc n) false (c ∷ []) t =
    if c == 27 then fault else (do t' ← terminal_putchar chip8 c t; write_from chip8 n false [] t')
write_from chip8 (suc n) false (c ∷ d ∷ chars) t =
    if c == 27
    then write_from chip8 n (d == 91) (d ∷ chars) t
    else (do t' ← terminal_putchar chip8 c t; write_from chip8 n false (d ∷ chars) t')

pub terminal_write : (chip8 : Bool) → List ℕ → (size : ℕ) → Terminal → Outcome Terminal
unfolding write_from
terminal_write chip8 chars size t = write_from chip8 size false chars t

-- The places of the animations.
pub terminal_keypress_init : (n : ℕ) → Terminal → Terminal
terminal_keypress_init n t = record t { keypress_index = u32 (vga_width * t.row + n) }

pub terminal_tick_init : (n : ℕ) → Terminal → Terminal
terminal_tick_init n t = record t { tick_index = u32 (vga_width * t.row + n) }

pub terminal_tick : (c : ℕ) → Terminal → Outcome Terminal
unfolding write_cell
terminal_tick c t = write_cell c t.color t.tick_index t

-- The screen of `terminal_keypress`, for the character `c` of the key.
pub terminal_keypress : (chip8 : Bool) → (c : ℕ) → Terminal → Outcome Terminal
unfolding write_cell terminal_putentryat move_cursor_right
terminal_keypress chip8 c t = do
  t1 ← if t.keypress_animation then write_cell c t.color t.keypress_index t else ok t
  t2 ← terminal_putentryat chip8 c t1.color t1.x_cursor (u32 (t1.y_cursor + (2 ^ 32 - 1))) t1
  ok (move_cursor_right t2)

pub remove_character : (chip8 : Bool) → Terminal → Outcome Terminal
unfolding terminal_putentryat move_cursor_left
remove_character chip8 t =
    if ltb 1 t.column
    then (do
      t' ← terminal_putentryat chip8 32 t.color t.column t.row (record t { column = t.column - 1 })
      ok (move_cursor_left t'))
    else ok t
