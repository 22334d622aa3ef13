-- ===== src/Keyboard.antt =====
-- kernel/arch/i386/keyboard.c, and the keyboard handler of kernel/kernel/chip8/emulator.c. Characters
-- are their bytes: a character constant above ASCII is its last byte. An index past a table of 128
-- entries is a `fault`, and an entry that the initialiser does not name is 0.
mod Laws
mod Tests
use medusa_os.Prelude.{
  ℕ, ◌+◌, ◌==◌, ltb, leb, if◌then◌else◌, Bool, true, false, ◌&&◌, Option, none, some, List, [], ◌∷◌,
  bit_or, bit_xor, length, get_elem?, Outcome, ok, fault, ◌>>=◌, access,
}
use medusa_os.Libc.Ctype.{toupper}

pub keyboard_us : List ℕ
keyboard_us =
    0 ∷ 27 ∷ 49 ∷ 50 ∷ 51 ∷ 52 ∷ 53 ∷ 54 ∷ 55 ∷ 56 ∷ 57 ∷ 48 ∷ 45 ∷ 61 ∷ 8 ∷ 9 ∷ 113 ∷ 119 ∷ 101
    ∷ 114 ∷ 116 ∷ 121 ∷ 117 ∷ 105 ∷ 111 ∷ 112 ∷ 91 ∷ 93 ∷ 10 ∷ 0 ∷ 97 ∷ 115 ∷ 100 ∷ 102 ∷ 103 ∷ 104
    ∷ 106 ∷ 107 ∷ 108 ∷ 59 ∷ 39 ∷ 96 ∷ 0 ∷ 92 ∷ 122 ∷ 120 ∷ 99 ∷ 118 ∷ 98 ∷ 110 ∷ 109 ∷ 44 ∷ 46 ∷ 47
    ∷ 0 ∷ 42 ∷ 0 ∷ 32 ∷ 0 ∷ 0 ∷ 0 ∷ 0 ∷ 0 ∷ 0 ∷ 0 ∷ 0 ∷ 0 ∷ 0 ∷ 0 ∷ 0 ∷ 0 ∷ 0 ∷ 0 ∷ 0 ∷ 45 ∷ 0 ∷ 0
    ∷ 0 ∷ 43 ∷ 0 ∷ 0 ∷ 0 ∷ 0 ∷ 0 ∷ 0 ∷ 0 ∷ 0 ∷ 0 ∷ 0 ∷ 0 ∷ []

pub keyboard_us_shift : List ℕ
keyboard_us_shift =
    0 ∷ 27 ∷ 33 ∷ 34 ∷ 163 ∷ 36 ∷ 37 ∷ 94 ∷ 38 ∷ 42 ∷ 40 ∷ 41 ∷ 95 ∷ 43 ∷ 8 ∷ 9 ∷ 81 ∷ 87 ∷ 69 ∷ 82
    ∷ 84 ∷ 89 ∷ 85 ∷ 73 ∷ 79 ∷ 80 ∷ 123 ∷ 125 ∷ 10 ∷ 0 ∷ 65 ∷ 83 ∷ 68 ∷ 70 ∷ 71 ∷ 72 ∷ 74 ∷ 75 ∷ 76
    ∷ 58 ∷ 64 ∷ 126 ∷ 0 ∷ 92 ∷ 90 ∷ 88 ∷ 67 ∷ 86 ∷ 66 ∷ 78 ∷ 77 ∷ 44 ∷ 46 ∷ 47 ∷ 0 ∷ 42 ∷ 0 ∷ 32 ∷ 0
    ∷ 0 ∷ 0 ∷ 0 ∷ 0 ∷ 0 ∷ 0 ∷ 0 ∷ 0 ∷ 0 ∷ 0 ∷ 0 ∷ 0 ∷ 0 ∷ 0 ∷ 0 ∷ 45 ∷ 0 ∷ 0 ∷ 0 ∷ 43 ∷ 0 ∷ 0 ∷ 0
    ∷ 0 ∷ 0 ∷ 0 ∷ 0 ∷ 0 ∷ 0 ∷ 0 ∷ 0 ∷ []

-- An entry of a table of 128 entries.
abbrev pub entry_or_zero : Option ℕ → ℕ
entry_or_zero none = 0
entry_or_zero (some c) = c

abbrev pub read_table : List ℕ → ℕ → Outcome ℕ
read_table table i = if ltb i 128 then ok (entry_or_zero (get_elem? table i)) else fault

pub kbd_make_shift : ℕ → Outcome ℕ
kbd_make_shift c =
    if leb 97 c && leb c 122
    then toupper c
    else if c == 96
    then ok 126
    else if c == 49
    then ok 33
    else if c == 50
    then ok 64
    else if c == 51
    then ok 35
    else if c == 52
    then ok 36
    else if c == 53
    then ok 37
    else if c == 54
    then ok 94
    else if c == 55
    then ok 38
    else if c == 56
    then ok 42
    else if c == 57
    then ok 40
    else if c == 48
    then ok 41
    else if c == 45
    then ok 95
    else if c == 61
    then ok 43
    else if c == 91
    then ok 123
    else if c == 93
    then ok 125
    else if c == 59
    then ok 58
    else if c == 39
    then ok 34
    else if c == 44
    then ok 60
    else if c == 46
    then ok 62
    else if c == 47
    then ok 63
    else if c == 92
    then ok 124
    else ok c

-- `switch_led`: the new value of `leds_status`; what is sent to the device is that value.
pub switch_led : (leds_status led : ℕ) → ℕ
switch_led leds_status led =
    if led == 0
    then 0
    else if leds_status == bit_or leds_status led
    then bit_xor leds_status led
    else bit_or leds_status led

-- The `switch` of `chip8_keyboard_handler`: the new key, if there is one.
pub chip8_key_of : ℕ → Option ℕ
chip8_key_of c =
    if c == 49
    then some 1
    else if c == 50
    then some 2
    else if c == 51
    then some 3
    else if c == 52
    then some 12
    else if c == 113
    then some 4
    else if c == 119
    then some 5
    else if c == 101
    then some 6
    else if c == 114
    then some 13
    else if c == 97
    then some 7
    else if c == 115
    then some 8
    else if c == 100
    then some 8
    else if c == 102
    then some 14
    else if c == 122
    then some 10
    else if c == 120
    then some 0
    else if c == 99
    then some 11
    else if c == 118
    then some 15
    else none

abbrev pub key_or : ℕ → Option ℕ → ℕ
key_or key none = key
key_or key (some k) = k

-- `chip8_key` after the handler.
pub chip8_keyboard_handler : (chip8_key scan_code : ℕ) → Outcome ℕ
unfolding chip8_key_of keyboard_us
chip8_keyboard_handler chip8_key scan_code =
    if ltb scan_code 0x81
    then (do c ← read_table keyboard_us scan_code; ok (key_or chip8_key (chip8_key_of c)))
    else ok chip8_key
