-- ===== src/Base64/Round.antt =====
-- One group of the text: its characters, and the bytes that they stand for.
use medusa_os.Prelude.{
  ℕ, ◌+◌, ◌*◌, ◌/◌, ◌%◌, ◌^◌, ◌<◌, ◌≡◌, refl, ap, arith, ◌==◌, Bool, true, false, not, ◌&&◌, Option,
  none, some, [], ◌∷◌, bit_and, get_elem?, Outcome, ok, abort, fault, ==→eq, bit_and_mask,
}
use medusa_os.Libc.Ctype.Laws.{all_below_lem}
use medusa_os.Base64.{encoding_table, sextet, encode_group, equals_sign}

abbrev gives : Outcome ℕ → ℕ → Bool
gives (ok a) s = a == s
gives abort s = false
gives fault s = false

gives_lem : (r : Outcome ℕ) (s : ℕ) → gives r s ≡ true → r ≡ ok s
gives_lem (ok a) s h = ap ok (==→eq a s h)
gives_lem abort s h = cc
gives_lem fault s h = cc

abbrev is_char_for : (s : ℕ) → Option ℕ → Bool
is_char_for s none = false
is_char_for s (some c) = not (c == equals_sign) && gives (sextet c) s

-- The character for a sextet.
pub record CharFor (s : ℕ) : Type 0 where
  pub char : ℕ
  pub entry : get_elem? encoding_table s ≡ some char
  pub visible : (char == equals_sign) ≡ false
  pub decoded : sextet char ≡ ok s

both : (p q : Bool) → (not p && q) ≡ true → (p ≡ false) × (q ≡ true)
both true q h = cc
both false q h = (refl, h)

char_for : (s : ℕ) → s < 64 → CharFor s
unfolding encoding_table sextet
char_for s h =
    from (get_elem? encoding_table s) refl
      (all_below_lem 64 s (λ t. is_char_for t (get_elem? encoding_table t)) refl h)
  where
    from : (o : Option ℕ) → get_elem? encoding_table s ≡ o → is_char_for s o ≡ true → CharFor s
    from none e q = cc
    from (some c) e q =
        let (shown, right) = both (c == equals_sign) (gives (sextet c) s) q in
        record { char = c; entry = e; visible = shown; decoded = gives_lem (sextet c) s right }

-- The four characters of three bytes.
pub record Group (a b c : ℕ) : Type 0 where
  pub w : CharFor (a / 4)
  pub x : CharFor (a % 4 * 16 + b / 16)
  pub y : CharFor (b % 16 * 4 + c / 64)
  pub z : CharFor (c % 64)
  pub encoded : encode_group a b c ≡ ok (w.char ∷ x.char ∷ y.char ∷ z.char ∷ [])

pub group : (a b c : ℕ) → a < 2 ^ 8 → b < 2 ^ 8 → c < 2 ^ 8 → Group a b c
unfolding encode_group
group a b c h1 h2 h3 =
    let t : ℕ = a * 2 ^ 0x10 + b * 2 ^ 0x08 + c in
    let w = char_for (a / 4) (omega arith) in
    let x = char_for (a % 4 * 16 + b / 16) (omega arith) in
    let y = char_for (b % 16 * 4 + c / 64) (omega arith) in
    let z = char_for (c % 64) (omega arith) in
    let w_at : bit_and (t / 2 ^ (3 * 6)) 0x3f ≡ a / 4 =
      omega (arith, bit_and_mask 6 (t / 2 ^ (3 * 6))) in
    let x_at : bit_and (t / 2 ^ (2 * 6)) 0x3f ≡ a % 4 * 16 + b / 16 =
      omega (arith, bit_and_mask 6 (t / 2 ^ (2 * 6))) in
    let y_at : bit_and (t / 2 ^ (1 * 6)) 0x3f ≡ b % 16 * 4 + c / 64 =
      omega (arith, bit_and_mask 6 (t / 2 ^ (1 * 6))) in
    let z_at : bit_and (t / 2 ^ (0 * 6)) 0x3f ≡ c % 64 =
      omega (arith, bit_and_mask 6 (t / 2 ^ (0 * 6))) in
    record {
      w = w;
      x = x;
      y = y;
      z = z;
      encoded = rw (w_at, w.entry, x_at, x.entry, y_at, y.entry, z_at, z.entry) refl;
    }

-- The bytes that a group of sextets stands for.
module _ (a b c : ℕ) (h1 : a < 2 ^ 8) (h2 : b < 2 ^ 8) (h3 : c < 2 ^ 8) where
  abbrev pub joined : ℕ
  joined = a / 4 * 2 ^ 18 + (a % 4 * 16 + b / 16) * 2 ^ 12 + (b % 16 * 4 + c / 64) * 2 ^ 6 + c % 64

  pub byte_a : bit_and (joined / 2 ^ 16) 0xff ≡ a
  byte_a = omega (arith, bit_and_mask 8 (joined / 2 ^ 16))

  pub byte_b : bit_and (joined / 2 ^ 8) 0xff ≡ b
  byte_b = omega (arith, bit_and_mask 8 (joined / 2 ^ 8))

  pub byte_c : bit_and joined 0xff ≡ c
  byte_c = omega (arith, bit_and_mask 8 joined)
