-- ===== src/Keyboard/Tests.antt =====
-- Single keys.
use medusa_os.Prelude.{ℕ, ◌≡◌, ◌≢◌, refl, arith, ok, fault}
use medusa_os.Keyboard.{kbd_make_shift, chip8_keyboard_handler}
use medusa_os.Keyboard.Laws.{kbd_make_shift_lem, chip8_keyboard_handler_lem}

kbd_make_shift_example : kbd_make_shift 122 ≡ ok 122
kbd_make_shift_example = kbd_make_shift_lem 122 (omega arith) (omega arith)

-- The key 'd', and a release.
handler_run : chip8_keyboard_handler 0 32 ≡ ok 8
unfolding chip8_keyboard_handler
handler_run = refl

chip8_keyboard_handler_example :
    ((key' : ℕ) × (chip8_keyboard_handler 0 32 ≡ ok key') × (key' ≢ 9))
    × (chip8_keyboard_handler 0 0x80 ≡ fault)
    × (chip8_keyboard_handler 0 200 ≡ ok 0)
chip8_keyboard_handler_example =
    chip8_keyboard_handler_lem 0 32 200 (λ e. omega (arith, e)) (omega arith) (omega arith)
