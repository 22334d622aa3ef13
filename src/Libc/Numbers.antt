-- ===== src/Libc/Numbers.antt =====
-- libc/string: append.c, reverse.c, int_to_ascii.c and hex_to_ascii.c; libc/stdlib: strtol.c,
-- atoi.c, rand.c and srand.c. An `int` or a `long` is its 32-bit word. A pointer to characters is the
-- list of the bytes from it to the end of its object; an access past that end is a `fault`.
pub mod Reverse
pub mod DigitLoops
pub mod Decimal
mod Tests
use medusa_os.Prelude.{
  ℕ, zero, suc, ◌+◌, ◌-◌, ◌*◌, ◌/◌, ◌%◌, ◌^◌, ◌==◌, ltb, leb, if◌then◌else◌, Bool, true, false,
  ◌&&◌, ◌||◌, Option, none, some, List, [], ◌∷◌, length, get_elem?, set, bit_and, Outcome, ok,
  fault, ◌>>=◌, access,
}
use medusa_os.Misc.{u32, gt_int}
use medusa_os.Libc.Strings.{strlen}

-- `str[i] = c`
abbrev pub write_char : List ℕ → (i c : ℕ) → Outcome (List ℕ)
write_char str i c = if ltb i (length str) then ok (set str i (c % 2 ^ 8)) else fault

pub append : List ℕ → (n : ℕ) → Outcome (List ℕ)
append s n = do len ← strlen s; s' ← write_char s len n; write_char s' (len + 1) 0

-- The loop of `reverse`, with `n` turns left.
abbrev pub reverse_from : (n i len : ℕ) → List ℕ → Outcome (List ℕ)
reverse_from zero i len str1 = ok str1
reverse_from (suc n) i len str1 = do
  temp ← access (get_elem? str1 i)
  far ← access (get_elem? str1 (len - i - 1))
  half ← write_char str1 i far
  both ← write_char half (len - i - 1) temp
  reverse_from n (i + 1) len both

pub reverse : List ℕ → Outcome (List ℕ)
reverse str1 = do len ← strlen str1; reverse_from (len / 2) 0 len str1

-- The bytes written so far, and the next place `i`.
pub record Written : Type 0 where
  pub str : List ℕ
  pub i : ℕ

-- `str[i++] = c`
abbrev pub push_char : Written → (c : ℕ) → Outcome Written
push_char w c = do str ← write_char w.str w.i c; ok (record { str = str; i = w.i + 1 })

-- The loop on the digits, the lowest first; a number of 31 bits has at most ten.
abbrev pub digits_down : (turns n : ℕ) → Written → Outcome Written
digits_down zero n w = fault
digits_down (suc turns) n w = do
  next ← push_char w (n % 10 + 48)
  if n / 10 == 0 then ok next else digits_down turns (n / 10) next

pub write_digits : (n : ℕ) → Written → Outcome Written
write_digits n w = digits_down 10 n w

abbrev pub negative : ℕ → Bool
negative n = leb (2 ^ 31) n

-- `-n`; negating the least `int` is undefined.
abbrev pub magnitude : ℕ → Outcome ℕ
magnitude n = if negative n then (if n == 2 ^ 31 then fault else ok (2 ^ 32 - n)) else ok n

pub int_to_ascii_base : (n : ℕ) → List ℕ → (base : ℕ) → Outcome (List ℕ)
unfolding reverse write_digits
int_to_ascii_base n str base = do
  m ← magnitude n
  digits ← write_digits m (record { str = str; i = 0 })
  signed ← if negative n then push_char digits 45 else ok digits
  marked ← if base == 16 then (do x ← push_char signed 120; push_char x 48) else ok signed
  ended ← write_char marked.str marked.i 0
  reverse ended

pub int_to_ascii : (n : ℕ) → List ℕ → Outcome (List ℕ)
unfolding int_to_ascii_base
int_to_ascii n str = int_to_ascii_base n str 10

-- The nibble `(n >> i) & 0xF`.
abbrev pub nibble : (n i : ℕ) → ℕ
nibble n i = bit_and (n / 2 ^ i) 15

-- The loop of `hex_to_ascii` on the nibbles above the lowest: `n` turns are left, `i` is 4 times that.
abbrev pub hex_from : (turns n : ℕ) → (zeros : Bool) → List ℕ → Outcome (List ℕ)
hex_from zero n zeros str = ok str
hex_from (suc turns) n zeros str =
    let tmp = nibble n (4 * suc turns) in
    if (tmp == 0) && (if zeros then false else true) then hex_from turns n zeros str else (do
      str' ← append str (if ltb 10 tmp then tmp - 10 + 97 else tmp + 48)
      hex_from turns n true str')

-- `memset(str, 0, strlen(str) * sizeof(char))`
abbrev pub zero_first : (n : ℕ) → List ℕ → List ℕ
zero_first zero str = str
zero_first (suc n) [] = []
zero_first (suc n) (c ∷ str) = 0 ∷ zero_first n str

pub hex_to_ascii : (n : ℕ) → List ℕ → Outcome (List ℕ)
unfolding append
hex_to_ascii n str = do
  len ← strlen str
  str0 ← append (zero_first len str) 48
  str1 ← append str0 120
  str2 ← hex_from 7 n false str1
  let tmp = bit_and n 15
  append str2 (if leb 10 tmp then tmp - 10 + 97 else tmp + 48)

-- The white space that `strtol` skips.
abbrev pub skipped : ℕ → Bool
skipped c = (c == 32) || (c == 9) || (c == 10) || (c == 12) || (c == 13) || (c == 11)

pub skip_space : List ℕ → Outcome (List ℕ)
skip_space [] = fault
skip_space (c ∷ p) = if skipped c then skip_space p else ok (c ∷ p)

-- `neg`, and `p` behind the sign.
abbrev pub skip_sign : List ℕ → Outcome (Bool × List ℕ)
skip_sign [] = fault
skip_sign (c ∷ p) = if (c == 45) || (c == 43) then ok (c == 45, p) else ok (false, c ∷ p)

-- `p + 2`
abbrev pub behind_two : List ℕ → List ℕ
behind_two (a ∷ b ∷ p) = p
behind_two (a ∷ []) = []
behind_two [] = []

-- `p[1] == 'x' || p[1] == 'X'`
abbrev pub marks_hex : List ℕ → Outcome Bool
marks_hex p = do c ← access (get_elem? p 1); ok ((c == 120) || (c == 88))

-- The base that is used and where the digits begin; `none` is `goto Return`.
abbrev pub choose_base : List ℕ → (base : ℕ) → Outcome (Option (ℕ × List ℕ))
choose_base [] base = fault
choose_base (c ∷ p) base =
    if base == 0
    then if c == 48
      then (do
        hex ← marks_hex (c ∷ p)
        ok (some (if hex then (16, behind_two (c ∷ p)) else (8, c ∷ p))))
      else ok (some (10, c ∷ p))
    else if (base == 16) && (c == 48)
    then (do
      hex ← marks_hex (c ∷ p)
      ok (some (if hex then (16, behind_two (c ∷ p)) else (16, c ∷ p))))
    else if negative base || ltb 36 base
    then ok none
    else ok (some (base, c ∷ p))

-- `v`: the digit that a character stands for, or `base`.
abbrev pub digit_value : (c base : ℕ) → ℕ
digit_value c base =
    if leb 48 c && leb c 57
    then c - 48
    else if leb 97 c && leb c 122
    then c - 97 + 10
    else if leb 65 c && leb c 90
    then c - 65 + 10
    else base

-- The variables of the loop on the digits.
pub record Digits : Type 0 where
  pub n : ℕ
  pub ndig : ℕ
  pub ovfl : Bool
  pub p : List ℕ

pub digits_from : List ℕ → (base n ndig : ℕ) → (ovfl : Bool) → Outcome Digits
digits_from [] base n ndig ovfl = fault
digits_from (c ∷ p) base n ndig ovfl =
    let v = digit_value c base in
    let nn = u32 (n * base + v) in
    if leb base v
    then ok (record { n = n; ndig = ndig; ovfl = ovfl; p = c ∷ p })
    else digits_from p base nn (ndig + 1) (ovfl || gt_int n nn)

-- What `strtol` returns, `*endptr`, and whether `errno` was set to ERANGE.
pub record Parsed : Type 0 where
  pub value : ℕ
  pub endptr : List ℕ
  pub erange : Bool

abbrev pub finish : (nptr : List ℕ) → (neg : Bool) → Digits → Parsed
finish nptr neg d = record {
  value = if neg then u32 (2 ^ 32 - d.n) else d.n;
  endptr = if d.ndig == 0 then nptr else d.p;
  erange = d.ovfl;
}

pub strtol : (nptr : List ℕ) → (base : ℕ) → Outcome Parsed
strtol nptr base = do
  start ← skip_space nptr
  (neg, p) ← skip_sign start
  chosen ← choose_base p base
  digits ← elim chosen [
    | none ↦ ok (record { n = 0; ndig = 0; ovfl = false; p = p })
    | some (base', p') ↦ digits_from p' base' 0 0 false
  ]
  ok (finish nptr neg digits)

pub atoi : List ℕ → Outcome ℕ
unfolding strtol
atoi str = do parsed ← strtol str 10; ok parsed.value

-- `_Randseed` after a call of `rand`, and what the call returns; RAND_MAX is 32767.
pub rand : (randseed : ℕ) → ℕ × ℕ
rand randseed =
    let next = u32 (randseed * 1103515245 + 12345) in (next, bit_and (next / 2 ^ 16) 32767)

pub srand : (randseed seed : ℕ) → ℕ
srand randseed seed = seed
