-- ===== src/Libc/Strings.antt =====
-- libc/string: strlen.c, strchr.c, strcmp.c, memcmp.c, startswith.c and strcat.c. A pointer to
-- characters is the list of the bytes from it to the end of its object, and a read past that end is
-- a `fault`. A result that points into the string is the number of characters before it.
pub mod Laws
mod Tests
use medusa_os.Prelude.{
  ℕ, zero, suc, ◌+◌, ◌%◌, ◌^◌, ◌==◌, ltb, leb, if◌then◌else◌, Bool, true, false, not, Option, none,
  some, List, [], ◌∷◌, ◌++◌, Outcome, ok, fault, ◌>>=◌,
}

abbrev pub one_more : Outcome ℕ → Outcome ℕ
one_more r = do n ← r; ok (suc n)

unfoldable pub strlen : List ℕ → Outcome ℕ
strlen [] = fault
strlen (c ∷ cs) = if c == 0 then ok 0 else one_more (strlen cs)

abbrev pub behind : Option ℕ → Option ℕ
behind none = none
behind (some n) = some (suc n)

abbrev pub later : Outcome (Option ℕ) → Outcome (Option ℕ)
later r = do o ← r; ok (behind o)

-- `none` is NULL.
unfoldable pub strchr : List ℕ → (character : ℕ) → Outcome (Option ℕ)
strchr [] character = fault
strchr (c ∷ cs) character =
    if c == character % 2 ^ 8
    then ok (some 0)
    else if c == 0
    then ok none
    else later (strchr cs character)

-- The difference of two values of `char`, which is signed.
pub record Difference : Type 0 where
  pub plus : ℕ
  pub minus : ℕ

-- A signed character, moved up by 128.
abbrev pub moved_up : ℕ → ℕ
moved_up c = (c + 128) % 2 ^ 8

abbrev pub difference : ℕ → ℕ → Difference
difference a b = record { plus = moved_up a; minus = moved_up b }

pub strcmp : List ℕ → List ℕ → Outcome Difference
strcmp (a ∷ s1) (b ∷ s2) =
    if a == 0 then ok (difference a b) else if a == b then strcmp s1 s2 else ok (difference a b)
strcmp [] s2 = fault
strcmp (a ∷ s1) [] = fault

pub strncmp : List ℕ → List ℕ → (n : ℕ) → Outcome Difference
strncmp s1 s2 zero = ok (record { plus = 0; minus = 0 })
strncmp (a ∷ s1) (b ∷ s2) (suc n) =
    if a == 0 then ok (difference a b) else if b == a then strncmp s1 s2 n else ok (difference a b)
strncmp [] s2 (suc n) = fault
strncmp (a ∷ s1) [] (suc n) = fault

-- The three results of `memcmp`: -1, 0 and 1.
pub data Order : Type 0 where
  below equal above : Order

pub memcmp : List ℕ → List ℕ → (size : ℕ) → Outcome Order
memcmp a b zero = ok equal
memcmp (x ∷ a) (y ∷ b) (suc size) =
    if ltb x y then ok below else if ltb y x then ok above else memcmp a b size
memcmp [] b (suc size) = fault
memcmp (x ∷ a) [] (suc size) = fault

-- The loop of `startswith`, with the number of equal characters so far.
abbrev pub similar_from : (n : ℕ) → List ℕ → List ℕ → (similarity : ℕ) → Outcome ℕ
similar_from zero str line similarity = ok similarity
similar_from (suc n) (a ∷ str) (b ∷ line) similarity =
    similar_from n str line (if a == b then similarity + 1 else similarity)
similar_from (suc n) [] line similarity = fault
similar_from (suc n) (a ∷ str) [] similarity = fault

pub startswith : (str line : List ℕ) → Outcome Bool
unfolding strlen
startswith str line = do
  length ← strlen str
  similarity ← similar_from length str line 0
  ok (leb length similarity)

-- The second loop of `strcat`: `src` with its NUL over the bytes of `dest`.
abbrev pub copy_over : (dest src : List ℕ) → Outcome (List ℕ)
copy_over (d ∷ dest) (c ∷ src) =
    if c == 0 then ok (0 ∷ dest) else (do rest ← copy_over dest src; ok (c ∷ rest))
copy_over [] src = fault
copy_over (d ∷ dest) [] = fault

-- The bytes of `dest` afterwards; the first loop walks to its NUL.
pub strcat : (dest src : List ℕ) → Outcome (List ℕ)
strcat [] src = fault
strcat (d ∷ dest) src =
    if d == 0 then copy_over (d ∷ dest) src else (do rest ← strcat dest src; ok (d ∷ rest))
