-- ===== src/Keyboard/Laws.antt =====
-- What the keys give.
use medusa_os.Prelude.{
  ℕ, ◌-◌, ◌≤◌, ◌<◌, ◌≡◌, ◌≢◌, refl, arith, ◌==◌, if◌then◌else◌, ok, fault, le→not_ltb, lt→ltb,
  get_elem?,
}
use medusa_os.Libc.Ctype.Laws.{toupper_lem}
use medusa_os.Keyboard.{
  keyboard_us, entry_or_zero, chip8_key_of, chip8_keyboard_handler, kbd_make_shift, key_or,
}

-- `kbd_make_shift` makes the letters from 'a' to 'y' their capitals, but keeps 'z'.
pub kbd_make_shift_lem :
    (c : ℕ) → 97 ≤ c → c ≤ 122 → kbd_make_shift c ≡ ok (if c == 122 then c else c - 32)
unfolding kbd_make_shift
kbd_make_shift_lem c lo hi = ground (arith, (toupper_lem c (omega arith)).0)

key_or-not-nine : (key c : ℕ) → key ≢ 9 → key_or key (chip8_key_of c) ≢ 9
unfolding chip8_key_of
key_or-not-nine key c ne = ground arith

-- A scan code below 0x80 is read in the table, and gives a key other than 9.
pressed :
    (key scan_code : ℕ)
    → key ≢ 9
    → scan_code < 0x80
    → (key' : ℕ) × (chip8_keyboard_handler key scan_code ≡ ok key') × (key' ≢ 9)
unfolding chip8_keyboard_handler
pressed key scan_code ne small =
    let c : ℕ = entry_or_zero (get_elem? keyboard_us scan_code) in
    (
      key_or key (chip8_key_of c),
      rw (lt→ltb scan_code 0x81 (omega arith), lt→ltb scan_code 128 small) refl,
      key_or-not-nine key c ne,
    )

-- `chip8_keyboard_handler` never sets the key to 9: with a key other than 9 before, every scan code below
-- 0x80 succeeds with a key other than 9 again, a scan code above 0x80 keeps the key, and the scan code 0x80 reads
-- past the table.
pub chip8_keyboard_handler_lem :
    (key scan_code release : ℕ)
    → key ≢ 9
    → scan_code < 0x80
    → 0x80 < release
    → ((key' : ℕ) × (chip8_keyboard_handler key scan_code ≡ ok key') × (key' ≢ 9))
      × (chip8_keyboard_handler key 0x80 ≡ fault)
      × (chip8_keyboard_handler key release ≡ ok key)
unfolding chip8_keyboard_handler
chip8_keyboard_handler_lem key scan_code release ne press above =
    (pressed key scan_code ne press, refl, rw (le→not_ltb release 0x81 (omega arith)) refl)
