-- ===== src/Libc/Tokens/Tests.antt =====
-- The text "x ab c" and the delimiters " ,".
use medusa_os.Prelude.{ℕ, ◌≡◌, refl, arith, none, some, List, [], ◌∷◌, ok}
use medusa_os.Libc.Tokens.{strtok, strtok_r, find_delimiter}
use medusa_os.Libc.Tokens.Laws.{strtok_lem}

abbrev spaces : List ℕ
spaces = 32 ∷ 44 ∷ 0 ∷ []

strtok_example :
    (strtok (120 ∷ 32 ∷ 97 ∷ 98 ∷ 44 ∷ 99 ∷ 0 ∷ []) spaces 1
      ≡ ok (record { token = some 2; str = 120 ∷ 32 ∷ 97 ∷ 98 ∷ 0 ∷ 99 ∷ 0 ∷ []; next_start = 5 }))
    × (strtok (120 ∷ 32 ∷ 97 ∷ 98 ∷ 0 ∷ 99 ∷ 0 ∷ []) spaces 1
        ≡ ok (record { token = none; str = 120 ∷ 32 ∷ 97 ∷ 98 ∷ 0 ∷ 99 ∷ 0 ∷ []; next_start = 4 }))
strtok_example =
    strtok_lem (32 ∷ 44 ∷ []) [] (120 ∷ []) (32 ∷ []) 97 (98 ∷ []) 44 (99 ∷ 0 ∷ [])
      (omega arith, omega arith, (omega arith, omega arith, tt))
      (omega arith, omega arith, refl, tt)
      (omega arith, omega arith, refl, (omega arith, omega arith, refl, tt))
      (omega arith, omega arith, refl, tt)

-- `strtok_r` of a new text without the delimiter returns NULL.
strtok_r_single :
    strtok_r (97 ∷ 0 ∷ []) (some 0) 32 none
    ≡ ok (record { token = none; str = 97 ∷ 0 ∷ []; saved = none })
unfolding strtok_r find_delimiter
strtok_r_single = refl
