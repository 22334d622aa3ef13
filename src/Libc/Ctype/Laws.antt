-- ===== src/Libc/Ctype/Laws.antt =====
-- The classes that the macros see, for every character that they can read.
use medusa_os.Prelude.{
  ℕ, zero, suc, ◌+◌, ◌-◌, ◌<◌, ◌≡◌, ◌==◌, leb, if◌then◌else◌, Bool, true, false, ◌&&◌, ◌||◌, refl,
  ap, ◌∙◌, arith, inl, inr, Outcome, ok, abort, fault, ==→eq, Bool-cases,
}
use medusa_os.Libc.Ctype.{isdigit, isupper, islower, isspace, iscntrl, toupper, tolower}

-- A test of every number below a bound, and what it shows.
abbrev pub all_below : ℕ → (ℕ → Bool) → Bool
all_below zero f = true
all_below (suc n) f = f n && all_below n f

pub all_below_lem : (n c : ℕ) (f : ℕ → Bool) → all_below n f ≡ true → c < n → f c ≡ true
all_below_lem zero c f h lt = absurd (omega arith)
all_below_lem (suc n) c f h lt = elim (Bool-cases (c == n)) [
  | inl e ↦ ap f (==→eq c n e) ∙ ground arith
  | inr e ↦ all_below_lem n c f (ground arith) (ground arith)
]

-- A result is the number that a test expects.
abbrev is_result : Outcome ℕ → ℕ → Bool
is_result (ok a) b = a == b
is_result abort b = false
is_result fault b = false

is_result_lem : (r : Outcome ℕ) (b : ℕ) → is_result r b ≡ true → r ≡ ok b
is_result_lem (ok a) b h = ap ok (==→eq a b h)
is_result_lem abort b h = cc
is_result_lem fault b h = cc

-- The value of a mask where a condition holds.
abbrev flag_when : (mask : ℕ) → Bool → ℕ
flag_when mask b = if b then mask else 0

abbrev pub between : (lo hi c : ℕ) → Bool
between lo hi c = leb lo c && leb c hi

abbrev pub Agrees : (f : ℕ → Outcome ℕ) (g : ℕ → ℕ) → Type 0
Agrees f g = (c : ℕ) → c < 255 → f c ≡ ok (g c)

agrees :
    (f : ℕ → Outcome ℕ) (g : ℕ → ℕ) → all_below 255 (λ c. is_result (f c) (g c)) ≡ true → Agrees f g
agrees f g h c lt =
    is_result_lem (f c) (g c) (all_below_lem 255 c (λ d. is_result (f d) (g d)) h lt)

-- For every character below 255, `isdigit` holds exactly from '/' to '8', `isupper` exactly from '@'
-- to 'Y', and `islower` exactly from '`' to 'y': each macro reads the entry of the next character.
pub isdigit_lem :
    (c : ℕ)
    → c < 255
    → (isdigit c ≡ ok (flag_when 4 (between 47 56 c)))
      × (isupper c ≡ ok (flag_when 1 (between 64 89 c)))
      × (islower c ≡ ok (flag_when 2 (between 96 121 c)))
unfolding isdigit isupper islower
isdigit_lem c lt = (
  agrees isdigit (λ d. flag_when 4 (between 47 56 d)) refl c lt,
  agrees isupper (λ d. flag_when 1 (between 64 89 d)) refl c lt,
  agrees islower (λ d. flag_when 2 (between 96 121 d)) refl c lt,
)

-- For every character below 255, `isspace` holds exactly where the next character is a control
-- character, and `iscntrl` exactly where the next character is one of the white space.
pub isspace_lem :
    (c : ℕ)
    → c < 255
    → (isspace c ≡ ok (flag_when 32 (leb c 30 || (c == 126))))
      × (iscntrl c ≡ ok (flag_when 8 (between 8 12 c || (c == 31))))
unfolding isspace iscntrl
isspace_lem c lt = (
  agrees isspace (λ d. flag_when 32 (leb d 30 || (d == 126))) refl c lt,
  agrees iscntrl (λ d. flag_when 8 (between 8 12 d || (d == 31))) refl c lt,
)

-- For every character below 255, `toupper` takes 32 off the characters from '`' to 'y' and keeps the
-- others, so that it keeps 'z', and `tolower` adds 32 to the characters from '@' to 'Y'.
pub toupper_lem :
    (c : ℕ)
    → c < 255
    → (toupper c ≡ ok (if between 96 121 c then c - 32 else c))
      × (tolower c ≡ ok (if between 64 89 c then c + 32 else c))
unfolding toupper tolower
toupper_lem c lt = (
  agrees toupper (λ d. if between 96 121 d then d - 32 else d) refl c lt,
  agrees tolower (λ d. if between 64 89 d then d + 32 else d) refl c lt,
)
