-- ===== src/Libc/Ctype.antt =====
-- libc/include/ctype.h and libc/ctype/ctype.c: the table of character classes, and the macros
-- that read it. A read behind the table is a `fault`.
pub mod Laws
mod Tests
use medusa_os.Prelude.{
  ℕ, zero, suc, ◌+◌, ◌-◌, ◌*◌, ◌%◌, ◌^◌, ◌==◌, ltb, leb, if◌then◌else◌, Bool, true, false, not,
  ◌&&◌, ◌||◌, List, [], ◌∷◌, ◌++◌, bit_and, bit_or, get_elem?, Outcome, ok, abort, fault, ◌>>=◌,
  access,
}

abbrev is_upper : ℕ
is_upper = 1

abbrev is_lower : ℕ
is_lower = 2

abbrev is_digit : ℕ
is_digit = 4

abbrev is_space : ℕ
is_space = 8

abbrev is_punct : ℕ
is_punct = 16

abbrev is_cntrl : ℕ
is_cntrl = 32

abbrev is_blank : ℕ
is_blank = 64

abbrev is_xdigit : ℕ
is_xdigit = 128

-- `_ctype`, its entries for ASCII and the others
pub ctype_ascii : List ℕ
ctype_ascii =
    is_cntrl
    ∷ is_cntrl
    ∷ is_cntrl
    ∷ is_cntrl
    ∷ is_cntrl
    ∷ is_cntrl
    ∷ is_cntrl
    ∷ is_cntrl
    ∷ is_cntrl
    ∷ bit_or is_space is_cntrl
    ∷ bit_or is_space is_cntrl
    ∷ bit_or is_space is_cntrl
    ∷ bit_or is_space is_cntrl
    ∷ bit_or is_space is_cntrl
    ∷ is_cntrl
    ∷ is_cntrl
    ∷ is_cntrl
    ∷ is_cntrl
    ∷ is_cntrl
    ∷ is_cntrl
    ∷ is_cntrl
    ∷ is_cntrl
    ∷ is_cntrl
    ∷ is_cntrl
    ∷ is_cntrl
    ∷ is_cntrl
    ∷ is_cntrl
    ∷ is_cntrl
    ∷ is_cntrl
    ∷ is_cntrl
    ∷ is_cntrl
    ∷ is_cntrl
    ∷ bit_or is_space is_blank
    ∷ is_punct
    ∷ is_punct
    ∷ is_punct
    ∷ is_punct
    ∷ is_punct
    ∷ is_punct
    ∷ is_punct
    ∷ is_punct
    ∷ is_punct
    ∷ is_punct
    ∷ is_punct
    ∷ is_punct
    ∷ is_punct
    ∷ is_punct
    ∷ is_punct
    ∷ bit_or is_digit is_xdigit
    ∷ bit_or is_digit is_xdigit
    ∷ bit_or is_digit is_xdigit
    ∷ bit_or is_digit is_xdigit
    ∷ bit_or is_digit is_xdigit
    ∷ bit_or is_digit is_xdigit
    ∷ bit_or is_digit is_xdigit
    ∷ bit_or is_digit is_xdigit
    ∷ bit_or is_digit is_xdigit
    ∷ bit_or is_digit is_xdigit
    ∷ is_punct
    ∷ is_punct
    ∷ is_punct
    ∷ is_punct
    ∷ is_punct
    ∷ is_punct
    ∷ is_punct
    ∷ bit_or is_upper is_xdigit
    ∷ bit_or is_upper is_xdigit
    ∷ bit_or is_upper is_xdigit
    ∷ bit_or is_upper is_xdigit
    ∷ bit_or is_upper is_xdigit
    ∷ bit_or is_upper is_xdigit
    ∷ is_upper
    ∷ is_upper
    ∷ is_upper
    ∷ is_upper
    ∷ is_upper
    ∷ is_upper
    ∷ is_upper
    ∷ is_upper
    ∷ is_upper
    ∷ is_upper
    ∷ is_upper
    ∷ is_upper
    ∷ is_upper
    ∷ is_upper
    ∷ is_upper
    ∷ is_upper
    ∷ is_upper
    ∷ is_upper
    ∷ is_upper
    ∷ is_upper
    ∷ is_punct
    ∷ is_punct
    ∷ is_punct
    ∷ is_punct
    ∷ is_punct
    ∷ is_punct
    ∷ bit_or is_lower is_xdigit
    ∷ bit_or is_lower is_xdigit
    ∷ bit_or is_lower is_xdigit
    ∷ bit_or is_lower is_xdigit
    ∷ bit_or is_lower is_xdigit
    ∷ bit_or is_lower is_xdigit
    ∷ is_lower
    ∷ is_lower
    ∷ is_lower
    ∷ is_lower
    ∷ is_lower
    ∷ is_lower
    ∷ is_lower
    ∷ is_lower
    ∷ is_lower
    ∷ is_lower
    ∷ is_lower
    ∷ is_lower
    ∷ is_lower
    ∷ is_lower
    ∷ is_lower
    ∷ is_lower
    ∷ is_lower
    ∷ is_lower
    ∷ is_lower
    ∷ is_lower
    ∷ is_punct
    ∷ is_punct
    ∷ is_punct
    ∷ is_punct
    ∷ is_cntrl
    ∷ []

pub ctype_other : List ℕ
ctype_other =
    0 ∷ 0 ∷ 0 ∷ 0 ∷ 0 ∷ 0 ∷ 0 ∷ 0 ∷ 0 ∷ 0 ∷ 0 ∷ 0 ∷ 0 ∷ 0 ∷ 0 ∷ 0 ∷ 0 ∷ 0 ∷ 0 ∷ 0 ∷ 0 ∷ 0 ∷ 0 ∷ 0
    ∷ 0 ∷ 0 ∷ 0 ∷ 0 ∷ 0 ∷ 0 ∷ 0 ∷ 0 ∷ 0 ∷ 0 ∷ 0 ∷ 0 ∷ 0 ∷ 0 ∷ 0 ∷ 0 ∷ 0 ∷ 0 ∷ 0 ∷ 0 ∷ 0 ∷ 0 ∷ 0 ∷ 0
    ∷ 0 ∷ 0 ∷ 0 ∷ 0 ∷ 0 ∷ 0 ∷ 0 ∷ 0 ∷ 0 ∷ 0 ∷ 0 ∷ 0 ∷ 0 ∷ 0 ∷ 0 ∷ 0 ∷ 0 ∷ 0 ∷ 0 ∷ 0 ∷ 0 ∷ 0 ∷ 0 ∷ 0
    ∷ 0 ∷ 0 ∷ 0 ∷ 0 ∷ 0 ∷ 0 ∷ 0 ∷ 0 ∷ 0 ∷ 0 ∷ 0 ∷ 0 ∷ 0 ∷ 0 ∷ 0 ∷ 0 ∷ 0 ∷ 0 ∷ 0 ∷ 0 ∷ 0 ∷ 0 ∷ 0 ∷ 0
    ∷ 0 ∷ 0 ∷ 0 ∷ 0 ∷ 0 ∷ 0 ∷ 0 ∷ 0 ∷ 0 ∷ 0 ∷ 0 ∷ 0 ∷ 0 ∷ 0 ∷ 0 ∷ 0 ∷ 0 ∷ 0 ∷ 0 ∷ 0 ∷ 0 ∷ 0 ∷ 0 ∷ 0
    ∷ 0 ∷ 0 ∷ 0 ∷ 0 ∷ 0 ∷ 0 ∷ 0 ∷ 0 ∷ []

-- `(_ctype + 1)[(unsigned char)(c)] & mask`
pub ctype_test : (mask c : ℕ) → Outcome ℕ
unfolding ctype_ascii ctype_other
ctype_test mask c = do
  entry ← access (get_elem? (ctype_ascii ++ ctype_other) (c % 2 ^ 8 + 1))
  ok (bit_and entry mask)

abbrev ct_up : ℕ
ct_up = 0x01

abbrev ct_low : ℕ
ct_low = 0x02

abbrev ct_dig : ℕ
ct_dig = 0x04

abbrev ct_ctl : ℕ
ct_ctl = 0x08

abbrev ct_pun : ℕ
ct_pun = 0x10

abbrev ct_wht : ℕ
ct_wht = 0x20

abbrev ct_hex : ℕ
ct_hex = 0x40

abbrev ct_sp : ℕ
ct_sp = 0x80

pub isalnum : ℕ → Outcome ℕ
unfolding ctype_test
isalnum c = ctype_test (bit_or (bit_or ct_up ct_low) ct_dig) c

pub isalpha : ℕ → Outcome ℕ
unfolding ctype_test
isalpha c = ctype_test (bit_or ct_up ct_low) c

pub iscntrl : ℕ → Outcome ℕ
unfolding ctype_test
iscntrl c = ctype_test ct_ctl c

pub isdigit : ℕ → Outcome ℕ
unfolding ctype_test
isdigit c = ctype_test ct_dig c

pub isgraph : ℕ → Outcome ℕ
unfolding ctype_test
isgraph c = ctype_test (bit_or (bit_or (bit_or ct_pun ct_up) ct_low) ct_dig) c

pub islower : ℕ → Outcome ℕ
unfolding ctype_test
islower c = ctype_test ct_low c

pub isprint : ℕ → Outcome ℕ
unfolding ctype_test
isprint c = ctype_test (bit_or (bit_or (bit_or (bit_or ct_pun ct_up) ct_low) ct_dig) ct_sp) c

pub ispunct : ℕ → Outcome ℕ
unfolding ctype_test
ispunct c = ctype_test ct_pun c

pub isspace : ℕ → Outcome ℕ
unfolding ctype_test
isspace c = ctype_test ct_wht c

pub isupper : ℕ → Outcome ℕ
unfolding ctype_test
isupper c = ctype_test ct_up c

pub isxdigit : ℕ → Outcome ℕ
unfolding ctype_test
isxdigit c = ctype_test (bit_or ct_dig ct_hex) c

pub isblank : ℕ → Outcome Bool
unfolding ctype_test
isblank c = do entry ← ctype_test ct_sp c; ok (not (entry == 0) || (c == 9) || (c == 32))

pub isascii : ℕ → Bool
isascii c = leb c 0x7f

pub tolower : ℕ → Outcome ℕ
unfolding isupper
tolower c = do upper ← isupper c; ok (if upper == 0 then c else c + 97 - 65)

pub toupper : ℕ → Outcome ℕ
unfolding islower
toupper c = do lower ← islower c; ok (if lower == 0 then c else c + 65 - 97)
