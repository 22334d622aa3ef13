-- ===== src/Libc/Strings/Tests.antt =====
-- Short strings.
use medusa_os.Prelude.{ℕ, ◌≡◌, ◌↔◌, refl, arith, List, [], ◌∷◌, ok}
use medusa_os.Libc.Strings.{strlen, strcmp, strcat, Difference}
use medusa_os.Libc.Strings.Laws.{Characters, IsZero, strlen_lem, strcat_lem, strcmp_lem}

abbrev ab : List ℕ
ab = 97 ∷ 98 ∷ []

abbrev high : List ℕ
high = 97 ∷ 200 ∷ []

ab-Characters : Characters ab
ab-Characters = omega arith

high-Characters : Characters high
high-Characters = omega arith

strlen_example : strlen (97 ∷ 98 ∷ 0 ∷ 5 ∷ []) ≡ ok 2
strlen_example = strlen_lem ab (5 ∷ []) ab-Characters

strcat_example :
    strcat (97 ∷ 98 ∷ 0 ∷ 1 ∷ 2 ∷ 3 ∷ []) (97 ∷ 200 ∷ 0 ∷ []) ≡ ok (97 ∷ 98 ∷ 97 ∷ 200 ∷ 0 ∷ 3 ∷ [])
strcat_example = strcat_lem ab high (1 ∷ 2 ∷ []) (3 ∷ []) [] ab-Characters high-Characters refl

strcmp_example :
    (d : Difference) × (strcmp (97 ∷ 98 ∷ 0 ∷ []) (97 ∷ 200 ∷ 0 ∷ []) ≡ ok d)
    × (IsZero d ↔ (ab ≡ high))
strcmp_example = strcmp_lem ab high [] [] ab-Characters high-Characters
