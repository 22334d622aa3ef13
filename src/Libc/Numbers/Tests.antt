-- ===== src/Libc/Numbers/Tests.antt =====
-- Short texts and numbers.
use medusa_os.Prelude.{ℕ, ◌^◌, ◌-◌, ◌≡◌, refl, arith, List, [], ◌∷◌, ok, replicate}
use medusa_os.Libc.Strings.{strlen}
use medusa_os.Libc.Numbers.{append, reverse, int_to_ascii, atoi, hex_to_ascii}
use medusa_os.Libc.Numbers.Reverse.{reverse_lem}
use medusa_os.Libc.Numbers.Decimal.{atoi-int_to_ascii}

reverse_example : reverse (97 ∷ 98 ∷ 99 ∷ 0 ∷ 7 ∷ []) ≡ ok (99 ∷ 98 ∷ 97 ∷ 0 ∷ 7 ∷ [])
reverse_example = reverse_lem (97 ∷ 98 ∷ 99 ∷ []) (7 ∷ []) (omega arith)

-- -305
abbrev some_int : ℕ
some_int = 2 ^ 32 - 305

atoi-int_to_ascii_example :
    (s : List ℕ) × (int_to_ascii some_int (replicate 12 1) ≡ ok s) × (atoi s ≡ ok some_int)
atoi-int_to_ascii_example =
    atoi-int_to_ascii some_int (replicate 12 1) (omega arith) (λ e. omega (arith, e)) (omega arith)

-- The nibble 10 is written ':' in every place but the last.
hex_to_ascii_ten : hex_to_ascii 170 (replicate 11 0) ≡ ok (48 ∷ 120 ∷ 58 ∷ 97 ∷ replicate 7 0)
unfolding hex_to_ascii append strlen
hex_to_ascii_ten = refl
