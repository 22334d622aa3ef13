-- ===== src/Libc/Numbers/DigitLoops.antt =====
-- The decimal digits of a number, as `int_to_ascii_base` writes them and `strtol` reads them.
use medusa_os.Prelude.{
  ℕ, zero, suc, ◌+◌, ◌*◌, ◌/◌, ◌%◌, ◌^◌, ◌≤◌, ◌<◌, ◌≡◌, refl, ap, ap₂, sym, ◌∙◌, arith, ◌==◌, leb,
  if◌then◌else◌, Bool-cases, false, ==→eq, ==_false→ne, inl, inr, List, [], ◌∷◌, ◌++◌, append_assoc,
  length, length-append, ok,
}
use medusa_os.Misc.{u32, gt_int}
use medusa_os.Libc.Strings.Laws.{Characters}
use medusa_os.Libc.Numbers.{digits_down, digit_value, digits_from}
use medusa_os.Libc.Numbers.Reverse.{rev, write-append}

-- The digits, the lowest first.
abbrev pub low_digits : (turns n : ℕ) → List ℕ
low_digits zero n = []
low_digits (suc turns) n = (n % 10 + 48) ∷ (if n / 10 == 0 then [] else low_digits turns (n / 10))

pub length-low_digits : (turns n : ℕ) → length (low_digits turns n) ≤ turns
length-low_digits zero n = omega arith
length-low_digits (suc turns) n = elim (Bool-cases (n / 10 == 0)) [
  | inl e ↦ rw e (omega arith)
  | inr e ↦ rw e (omega (arith, length-low_digits turns (n / 10)))
]

pub low_digits-Characters : (turns n : ℕ) → Characters (low_digits turns n)
low_digits-Characters zero n = omega arith
low_digits-Characters (suc turns) n = elim (Bool-cases (n / 10 == 0)) [
  | inl e ↦ rw e (omega arith, omega arith, omega arith)
  | inr e ↦ rw e (omega arith, omega arith, low_digits-Characters turns (n / 10))
]

tenth-lt : (t n : ℕ) → n < 10 ^ suc t → n / 10 < 10 ^ t
tenth-lt t n h = omega (arith, h)

turns_left : (t n : ℕ) → 0 < n / 10 → n < 10 ^ suc t → 0 < t
turns_left zero n more h = absurd (omega (arith, h, more))
turns_left (suc t) n more h = omega arith

-- The loop writes them from `i` on.
pub digits_down_lem :
    (turns n : ℕ) (pre old rest : List ℕ)
    → n < 10 ^ turns
    → 0 < turns
    → length old ≡ length (low_digits turns n)
    → digits_down turns n (record { str = pre ++ (old ++ rest); i = length pre })
      ≡ ok (record {
        str = pre ++ (low_digits turns n ++ rest);
        i = length pre + length (low_digits turns n);
      })
digits_down_lem zero n pre old rest small pos size = absurd (omega (arith, pos))
digits_down_lem (suc turns) n pre [] rest small pos size = absurd (omega (arith, size))
digits_down_lem (suc turns) n pre (o ∷ old) rest small pos size =
    let c : ℕ = n % 10 + 48 in
    let byte : c < 2 ^ 8 = omega arith in
    let at : length (pre ++ (c ∷ [])) ≡ length pre + 1 =
      omega (arith, length-append pre (c ∷ [])) in
    rw (write-append pre o c (old ++ rest) byte) (elim (Bool-cases (n / 10 == 0)) [
      | inl e ↦
          let none_left : old ≡ [] =
            empty_of old
              (size ∙ ap (λ b. suc (length (if b then [] else low_digits turns (n / 10)))) e) in
          rw (e, none_left) refl
      | inr e ↦
          let more : 0 < n / 10 = omega (arith, ==_false→ne (n / 10) 0 e) in
          let size' : length old ≡ length (low_digits turns (n / 10)) = omega (
            arith,
            size ∙ ap (λ b. suc (length (if b then [] else low_digits turns (n / 10)))) e,
          ) in
          let inner =
            digits_down_lem turns (n / 10) (pre ++ (c ∷ [])) old rest (tenth-lt turns n small)
              (turns_left turns n more small) size' in
          rw e (
            ap (λ w. digits_down turns (n / 10) w)
              (ap₂ (λ s k. record { str = s; i = k })
                (sym (append_assoc pre (c ∷ []) (old ++ rest))) (sym at))
            ∙ inner
            ∙ ap₂ (λ s k. ok (record { str = s; i = k }))
                (append_assoc pre (c ∷ []) (low_digits turns (n / 10) ++ rest)) (omega (arith, at)))
    ])
  where
    empty_of : (xs : List ℕ) → suc (length xs) ≡ 1 → xs ≡ []
    empty_of [] e = refl
    empty_of (x ∷ xs) e = absurd (omega (arith, e))

-- Reading a digit.
digits_from-digit :
    (d n ndig : ℕ) (t : List ℕ)
    → d < 10
    → n * 10 + d < 2 ^ 31
    → digits_from ((d + 48) ∷ t) 10 n ndig false ≡ digits_from t 10 (n * 10 + d) (ndig + 1) false
unfolding digits_from
digits_from-digit d n ndig t small fits =
    let v : digit_value (d + 48) 10 ≡ d = ground arith in
    let one : leb 10 d ≡ false = ground arith in
    let word : u32 (n * 10 + d) ≡ n * 10 + d = omega arith in
    let up : gt_int n (n * 10 + d) ≡ false = ground arith in rw (v, one, word, up) refl

pub digits_from-low_digits :
    (turns n ndig : ℕ) (t : List ℕ)
    → n < 10 ^ turns
    → 0 < turns
    → n < 2 ^ 31
    → digits_from (rev (low_digits turns n) ++ t) 10 0 ndig false
      ≡ digits_from t 10 n (ndig + length (low_digits turns n)) false
digits_from-low_digits zero n ndig t small pos fits = absurd (omega (arith, pos))
digits_from-low_digits (suc turns) n ndig t small pos fits = elim (Bool-cases (n / 10 == 0)) [
  | inl e ↦
      let zero_left : n / 10 ≡ 0 = ==→eq (n / 10) 0 e in
      let value : 0 * 10 + n % 10 ≡ n = omega (arith, zero_left) in
      rw e (
        digits_from-digit (n % 10) 0 ndig t (omega arith) (omega (arith, fits))
        ∙ ap (λ k. digits_from t 10 k (ndig + 1) false) value)
  | inr e ↦
      let more : 0 < n / 10 = omega (arith, ==_false→ne (n / 10) 0 e) in
      let value : n / 10 * 10 + n % 10 ≡ n = omega arith in
      let k : ℕ = length (low_digits turns (n / 10)) in
      let count : ndig + k + 1 ≡ ndig + suc k = omega arith in
      let inner =
        digits_from-low_digits turns (n / 10) ndig ((n % 10 + 48) ∷ t) (tenth-lt turns n small)
          (turns_left turns n more small) (omega (arith, fits)) in
      rw e (
        ap (λ l. digits_from l 10 0 ndig false)
          (append_assoc (rev (low_digits turns (n / 10))) ((n % 10 + 48) ∷ []) t)
        ∙ inner
        ∙ digits_from-digit (n % 10) (n / 10) (ndig + k) t (omega arith) (omega (arith, fits))
        ∙ ap₂ (λ v c. digits_from t 10 v c false) value count)
]

-- A text of digits starts with a digit.
first_digit :
    (turns n d : ℕ) (t : List ℕ)
    → 48 ≤ d
    → d < 58
    → (c : ℕ) × (q : List ℕ) × (rev (low_digits turns n) ++ (d ∷ t) ≡ c ∷ q) × (48 ≤ c) × (c < 58)
first_digit zero n d t ge lt = (d, t, refl, ge, lt)
first_digit (suc turns) n d t ge lt = elim (Bool-cases (n / 10 == 0)) [
  | inl e ↦ rw e (n % 10 + 48, d ∷ t, refl, omega arith, omega arith)
  | inr e ↦
      let (c, q, eq, ge', lt') =
        first_digit turns (n / 10) (n % 10 + 48) (d ∷ t) (omega arith) (omega arith) in
      rw e (
        c,
        q,
        append_assoc (rev (low_digits turns (n / 10))) ((n % 10 + 48) ∷ []) (d ∷ t) ∙ eq,
        ge',
        lt',
      )
]

pub digits-start :
    (turns n : ℕ) (t : List ℕ)
    → (c : ℕ) × (q : List ℕ) × (rev (low_digits (suc turns) n) ++ t ≡ c ∷ q) × (48 ≤ c) × (c < 58)
digits-start turns n t = elim (Bool-cases (n / 10 == 0)) [
  | inl e ↦ rw e (n % 10 + 48, t, refl, omega arith, omega arith)
  | inr e ↦
      let (c, q, eq, ge, lt) =
        first_digit turns (n / 10) (n % 10 + 48) t (omega arith) (omega arith) in
      rw e
        (c, q, append_assoc (rev (low_digits turns (n / 10))) ((n % 10 + 48) ∷ []) t ∙ eq, ge, lt)
]
