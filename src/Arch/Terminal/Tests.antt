-- ===== src/Arch/Terminal/Tests.antt =====
-- A cleared screen.
use medusa_os.Prelude.{
  ℕ, ◌≡◌, ◌≢◌, refl, arith, true, false, some, get_elem?, replicate, ok, fault, ◌>>=◌,
}
use medusa_os.Arch.Terminal.{Terminal, vga_entry, terminal_putchar}
use medusa_os.Arch.Terminal.Screen.{
  IsInside, place, terminal_putchar-IsInside, terminal_putchar-past,
}

abbrev letter : ℕ
letter = 65

abbrev at_row : ℕ → Terminal
at_row row = record {
  row = row;
  column = 79;
  color = 7;
  old_color = 7;
  buffer = replicate 2000 0;
  keypress_index = 0;
  tick_index = 0;
  tick_animation = false;
  keypress_animation = false;
  x_cursor = 3;
  y_cursor = 1;
  cursor = 83;
}

terminal_putchar-IsInside_example :
    (t : Terminal) × (terminal_putchar true letter (at_row 24) ≡ ok t)
    × IsInside t
    × (letter ≢ 10
        → letter ≢ 9
        → get_elem? t.buffer (place (at_row 24)) ≡ some (vga_entry letter 7))
terminal_putchar-IsInside_example =
    terminal_putchar-IsInside true letter (at_row 24)
      (record { rows = omega arith; columns = omega arith; cells = refl }) (λ e. omega (arith, e))

terminal_putchar-past_example :
    (terminal_putchar true 10 (at_row 24) >>= terminal_putchar true letter) ≡ fault
terminal_putchar-past_example =
    terminal_putchar-past true letter (at_row 24) refl (λ e. omega (arith, e))
