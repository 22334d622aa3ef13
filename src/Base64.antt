-- ===== src/Base64.antt =====
-- kernel/kernel/tools/base64.c. Bytes and characters are numbers below 2^8, in lists; a character from
-- 0x80 on is negative, and an index of it into a table is a `fault`. `has_room` is a parameter: whether
-- `kmalloc` has that many bytes, since it aborts where it has not. The indices are of type `int`, and to
-- count them to 2^31 is a `fault`.
pub mod Round
pub mod Whole
mod Tests
use medusa_os.Prelude.{
  ℕ, zero, suc, ◌+◌, ◌-◌, ◌*◌, ◌/◌, ◌%◌, ◌^◌, ◌==◌, ltb, if◌then◌else◌, Bool, true, false, not,
  ◌&&◌, Option, none, some, List, [], ◌∷◌, ◌++◌, bit_and, length, get_elem?, set, Outcome, ok,
  abort, fault, ◌>>=◌, access, leb,
}
use medusa_os.Misc.{u32, sub32}

pub encoding_table : List ℕ
encoding_table =
    65 ∷ 66 ∷ 67 ∷ 68 ∷ 69 ∷ 70 ∷ 71 ∷ 72 ∷ 73 ∷ 74 ∷ 75 ∷ 76 ∷ 77 ∷ 78 ∷ 79 ∷ 80 ∷ 81 ∷ 82 ∷ 83
    ∷ 84 ∷ 85 ∷ 86 ∷ 87 ∷ 88 ∷ 89 ∷ 90 ∷ 97 ∷ 98 ∷ 99 ∷ 100 ∷ 101 ∷ 102 ∷ 103 ∷ 104 ∷ 105 ∷ 106
    ∷ 107 ∷ 108 ∷ 109 ∷ 110 ∷ 111 ∷ 112 ∷ 113 ∷ 114 ∷ 115 ∷ 116 ∷ 117 ∷ 118 ∷ 119 ∷ 120 ∷ 121 ∷ 122
    ∷ 48 ∷ 49 ∷ 50 ∷ 51 ∷ 52 ∷ 53 ∷ 54 ∷ 55 ∷ 56 ∷ 57 ∷ 43 ∷ 47 ∷ []

pub decoding_table : List ℕ
decoding_table =
    0 ∷ 0 ∷ 0 ∷ 0 ∷ 0 ∷ 0 ∷ 0 ∷ 0 ∷ 0 ∷ 0 ∷ 0 ∷ 0 ∷ 0 ∷ 0 ∷ 0 ∷ 0 ∷ 0 ∷ 0 ∷ 0 ∷ 0 ∷ 0 ∷ 0 ∷ 0 ∷ 0
    ∷ 0 ∷ 0 ∷ 0 ∷ 0 ∷ 0 ∷ 0 ∷ 0 ∷ 0 ∷ 0 ∷ 0 ∷ 0 ∷ 0 ∷ 0 ∷ 0 ∷ 0 ∷ 0 ∷ 0 ∷ 0 ∷ 0 ∷ 62 ∷ 0 ∷ 0 ∷ 0
    ∷ 63 ∷ 52 ∷ 53 ∷ 54 ∷ 55 ∷ 56 ∷ 57 ∷ 58 ∷ 59 ∷ 60 ∷ 61 ∷ 0 ∷ 0 ∷ 0 ∷ 0 ∷ 0 ∷ 0 ∷ 0 ∷ 0 ∷ 1 ∷ 2
    ∷ 3 ∷ 4 ∷ 5 ∷ 6 ∷ 7 ∷ 8 ∷ 9 ∷ 10 ∷ 11 ∷ 12 ∷ 13 ∷ 14 ∷ 15 ∷ 16 ∷ 17 ∷ 18 ∷ 19 ∷ 20 ∷ 21 ∷ 22
    ∷ 23 ∷ 24 ∷ 25 ∷ 0 ∷ 0 ∷ 0 ∷ 0 ∷ 0 ∷ 0 ∷ 26 ∷ 27 ∷ 28 ∷ 29 ∷ 30 ∷ 31 ∷ 32 ∷ 33 ∷ 34 ∷ 35 ∷ 36
    ∷ 37 ∷ 38 ∷ 39 ∷ 40 ∷ 41 ∷ 42 ∷ 43 ∷ 44 ∷ 45 ∷ 46 ∷ 47 ∷ 48 ∷ 49 ∷ 50 ∷ 51 ∷ 0 ∷ 0 ∷ 0 ∷ 0 ∷ 0
    ∷ 0 ∷ 0 ∷ 0 ∷ 0 ∷ 0 ∷ 0 ∷ 0 ∷ 0 ∷ 0 ∷ 0 ∷ 0 ∷ 0 ∷ 0 ∷ 0 ∷ 0 ∷ 0 ∷ 0 ∷ 0 ∷ 0 ∷ 0 ∷ 0 ∷ 0 ∷ 0 ∷ 0
    ∷ 0 ∷ 0 ∷ 0 ∷ 0 ∷ 0 ∷ 0 ∷ 0 ∷ 0 ∷ 0 ∷ 0 ∷ 0 ∷ 0 ∷ 0 ∷ 0 ∷ 0 ∷ 0 ∷ 0 ∷ 0 ∷ 0 ∷ 0 ∷ 0 ∷ 0 ∷ 0 ∷ 0
    ∷ 0 ∷ 0 ∷ 0 ∷ 0 ∷ 0 ∷ 0 ∷ 0 ∷ 0 ∷ 0 ∷ 0 ∷ 0 ∷ 0 ∷ 0 ∷ 0 ∷ 0 ∷ 0 ∷ 0 ∷ 0 ∷ 0 ∷ 0 ∷ 0 ∷ 0 ∷ 0 ∷ 0
    ∷ 0 ∷ 0 ∷ 0 ∷ 0 ∷ 0 ∷ 0 ∷ 0 ∷ 0 ∷ 0 ∷ 0 ∷ 0 ∷ 0 ∷ 0 ∷ 0 ∷ 0 ∷ 0 ∷ 0 ∷ 0 ∷ 0 ∷ 0 ∷ 0 ∷ 0 ∷ 0 ∷ 0
    ∷ 0 ∷ 0 ∷ 0 ∷ 0 ∷ 0 ∷ 0 ∷ 0 ∷ 0 ∷ 0 ∷ 0 ∷ 0 ∷ 0 ∷ 0 ∷ 0 ∷ 0 ∷ 0 ∷ 0 ∷ 0 ∷ 0 ∷ 0 ∷ 0 ∷ 0 ∷ 0 ∷ 0
    ∷ 0 ∷ 0 ∷ 0 ∷ 0 ∷ 0 ∷ 0 ∷ 0 ∷ 0 ∷ []

abbrev pub equals_sign : ℕ
equals_sign = 61

-- `strchr(encoding_table, c) != NULL`; the table has no NUL at its end, so that a character that is
-- not in it is searched for behind the table.
pub is_base64_from : List ℕ → ℕ → Outcome Bool
is_base64_from [] c = fault
is_base64_from (x ∷ xs) c = if x == c then ok true else is_base64_from xs c

pub is_base64 : ℕ → Outcome Bool
unfolding encoding_table is_base64_from
is_base64 c = if c == 0 then ok false else is_base64_from encoding_table c

-- `encoding_table[(triple >> k * 6) & 0x3F]`
abbrev pub sextet_char : (k triple : ℕ) → Outcome ℕ
sextet_char k triple = access (get_elem? encoding_table (bit_and (triple / 2 ^ (k * 6)) 0x3f))

-- The four characters of one turn.
pub encode_group : (a b c : ℕ) → Outcome (List ℕ)
unfolding encoding_table
encode_group a b c = do
  let triple = a * 2 ^ 0x10 + b * 2 ^ 0x08 + c
  w ← sextet_char 3 triple
  x ← sextet_char 2 triple
  y ← sextet_char 1 triple
  z ← sextet_char 0 triple
  ok (w ∷ x ∷ y ∷ z ∷ [])

-- The loop over the bytes, three in a turn, 0 for those behind the end.
pub encode_groups : List ℕ → Outcome (List ℕ)
unfolding encode_group
encode_groups [] = ok []
encode_groups (a ∷ []) = encode_group a 0 0
encode_groups (a ∷ b ∷ []) = encode_group a b 0
encode_groups (a ∷ b ∷ c ∷ rest) = do
  group ← encode_group a b c
  groups ← encode_groups rest
  ok (group ++ groups)

-- `mod_table`
abbrev pub padding : ℕ → ℕ
padding r = if r == 0 then 0 else if r == 1 then 2 else 1

-- `4 * ((input_length + 2) / 3)`
abbrev pub encoded_length : List ℕ → ℕ
encoded_length bytes = u32 (4 * (u32 (length bytes + 2) / 3))

-- The last `n` characters become '='.
abbrev pub pad : (n : ℕ) → List ℕ → List ℕ
pad zero out = out
pad (suc n) out = set (pad n out) (length out - 1 - n) equals_sign

pub base64_encode : (has_room : ℕ → Bool) → List ℕ → Outcome (List ℕ)
unfolding encode_groups
base64_encode has_room bytes =
    if not (has_room (encoded_length bytes))
    then abort
    else if leb (2 ^ 31) (encoded_length bytes)
    then fault
    else (do out ← encode_groups bytes; ok (pad (padding (length bytes % 3)) out))

-- `data[i] == '=' ? 0 & i++ : decoding_table[data[i++]]`
pub sextet : ℕ → Outcome ℕ
unfolding decoding_table
sextet c =
    if c == equals_sign
    then ok 0
    else if ltb c 0x80
    then access (get_elem? decoding_table c)
    else fault

-- `if (j < *output_length) decoded_data[j++] = v`, in front of what follows
abbrev pub emit : (j output_length v : ℕ) → (ℕ → Outcome (List ℕ)) → Outcome (List ℕ)
emit j output_length v next =
    if ltb j output_length then (do rest ← next (j + 1); ok (v ∷ rest)) else next j

-- The loop over the characters, four in a turn.
pub decode_from : (j output_length : ℕ) → List ℕ → Outcome (List ℕ)
unfolding sextet
decode_from j output_length (w ∷ x ∷ y ∷ z ∷ rest) = do
  a ← sextet w
  b ← sextet x
  c ← sextet y
  d ← sextet z
  let triple = a * 2 ^ 18 + b * 2 ^ 12 + c * 2 ^ 6 + d
  emit j output_length (bit_and (triple / 2 ^ 16) 0xff) (λ j1.
      emit j1 output_length (bit_and (triple / 2 ^ 8) 0xff) (λ j2.
        emit j2 output_length (bit_and triple 0xff) (λ j3. decode_from j3 output_length rest)))
decode_from j output_length (w ∷ x ∷ y ∷ []) = fault
decode_from j output_length (w ∷ x ∷ []) = fault
decode_from j output_length (w ∷ []) = fault
decode_from j output_length [] = ok []

abbrev pub is_padding : ℕ → ℕ
is_padding c = if c == equals_sign then 1 else 0

-- `none` is NULL.
pub base64_decode : (has_room : ℕ → Bool) → List ℕ → Outcome (Option (List ℕ))
unfolding decode_from
base64_decode has_room text = if not (length text % 4 == 0) then ok none else do
  last ← access (get_elem? text (sub32 (length text) 1))
  before ← access (get_elem? text (sub32 (length text) 2))
  let output_length = length text / 4 * 3 - is_padding last - is_padding before
  if not (has_room output_length)
      then abort
      else if leb (2 ^ 31) (length text)
      then fault
      else (do out ← decode_from 0 output_length text; ok (some out))
