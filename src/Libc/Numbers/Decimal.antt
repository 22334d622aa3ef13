-- ===== src/Libc/Numbers/Decimal.antt =====
-- The decimal text that `int_to_ascii` writes, and what `atoi` reads from it.
use medusa_os.Prelude.{
  ℕ, zero, suc, ◌+◌, ◌-◌, ◌^◌, ◌≤◌, ◌<◌, ◌≡◌, ◌≢◌, refl, ap, sym, ◌∙◌, subst, arith, ◌==◌,
  if◌then◌else◌, Bool-cases, true, false, inl, inr, some, List, [], ◌∷◌, ◌++◌, append_assoc, length,
  length-append, ok,
}
use medusa_os.Misc.{u32}
use medusa_os.Libc.Strings.Laws.{Characters}
use medusa_os.Libc.Numbers.{
  write_char, negative, int_to_ascii_base, int_to_ascii, write_digits, digits_from, Digits, strtol,
  atoi, skip_space, skip_sign, choose_base,
}
use medusa_os.Libc.Numbers.Reverse.{rev, rev-append, reverse_lem, write-append, length-rev}
use medusa_os.Libc.Numbers.DigitLoops.{
  low_digits, length-low_digits, low_digits-Characters, digits_down_lem, digits_from-low_digits,
  digits-start,
}

pub decimal : ℕ → List ℕ
decimal n = low_digits 10 n

-- The text of an `int`: a minus sign where it is negative, and its digits.
abbrev pub text : ℕ → List ℕ
text n = if negative n then 45 ∷ rev (decimal (2 ^ 32 - n)) else rev (decimal n)

text-positive : (n : ℕ) → negative n ≡ false → text n ≡ rev (decimal n)
text-positive n e = rw e refl

text-negative : (n : ℕ) → negative n ≡ true → text n ≡ 45 ∷ rev (decimal (2 ^ 32 - n))
text-negative n e = rw e refl

length-decimal : (n : ℕ) → length (decimal n) ≤ 10
unfolding decimal
length-decimal n = length-low_digits 10 n

length-text : (n : ℕ) → length (text n) ≤ 11
length-text n = elim (Bool-cases (negative n)) [
  | inl e ↦ omega (
    arith,
    ap length (text-negative n e),
    length-rev (decimal (2 ^ 32 - n)),
    length-decimal (2 ^ 32 - n),
  )
  | inr e ↦ omega (arith, ap length (text-positive n e), length-rev (decimal n), length-decimal n)
]

-- The first bytes of a text, and the last of them.
record Cut (k : ℕ) (xs : List ℕ) : Type 0 where
  front : List ℕ
  next : ℕ
  back : List ℕ
  split : xs ≡ front ++ (next ∷ back)
  size : length front ≡ k

cut : (k : ℕ) (xs : List ℕ) → k < length xs → Cut k xs
cut k [] h = absurd (omega (arith, h))
cut zero (x ∷ xs) h = record { front = []; next = x; back = xs; split = refl; size = refl }
cut (suc k) (x ∷ xs) h =
    let c = cut k xs (omega (arith, h)) in
    record {
      front = x ∷ c.front;
      next = c.next;
      back = c.back;
      split = ap (λ t. x ∷ t) c.split;
      size = omega (arith, c.size);
    }

-- Writing the digits of a number of 31 bits.
written :
    (n : ℕ) (old rest : List ℕ)
    → n < 2 ^ 31
    → length old ≡ length (decimal n)
    → write_digits n (record { str = old ++ rest; i = 0 })
      ≡ ok (record { str = decimal n ++ rest; i = length (decimal n) })
unfolding write_digits decimal
written n old rest small size =
    digits_down_lem 10 n [] old rest (omega arith) (omega arith) size
    ∙ ap (λ k. ok (record { str = low_digits 10 n ++ rest; i = k })) (omega arith)

Characters-join : (xs ys : List ℕ) → Characters xs → Characters ys → Characters (xs ++ ys)
Characters-join [] ys h k = k
Characters-join (x ∷ xs) ys h k = (h.0, h.1, Characters-join xs ys h.2 k)

decimal-Characters : (n : ℕ) → Characters (decimal n)
unfolding decimal
decimal-Characters n = low_digits-Characters 10 n

ascii_positive :
    (n : ℕ) (old : List ℕ) (next : ℕ) (rest : List ℕ)
    → n < 2 ^ 31
    → length old ≡ length (decimal n)
    → int_to_ascii n (old ++ (next ∷ rest)) ≡ ok (rev (decimal n) ++ (0 ∷ rest))
unfolding int_to_ascii int_to_ascii_base
ascii_positive n old next rest small size =
    let sign : negative n ≡ false = ground arith in
    rw
      (
        sign,
        written n old (next ∷ rest) small size,
        write-append (decimal n) next 0 rest (omega arith),
      )
      (reverse_lem (decimal n) rest (decimal-Characters n))

ascii_negative :
    (n : ℕ) (old : List ℕ) (o next : ℕ) (rest : List ℕ)
    → 2 ^ 31 < n
    → n < 2 ^ 32
    → length old ≡ length (decimal (2 ^ 32 - n))
    → int_to_ascii n (old ++ (o ∷ next ∷ rest))
      ≡ ok (45 ∷ (rev (decimal (2 ^ 32 - n)) ++ (0 ∷ rest)))
unfolding int_to_ascii int_to_ascii_base
ascii_negative n old o next rest above small size =
    let m : ℕ = 2 ^ 32 - n in
    let sign : negative n ≡ true = ground arith in
    let least : (n == 2 ^ 31) ≡ false = ground arith in
    let ds : List ℕ = decimal m ++ (45 ∷ []) in
    let at : length ds ≡ length (decimal m) + 1 =
      omega (arith, length-append (decimal m) (45 ∷ [])) in
    let again : (c : ℕ) → decimal m ++ (45 ∷ c ∷ rest) ≡ ds ++ (c ∷ rest) =
      λ c. sym (append_assoc (decimal m) (45 ∷ []) (c ∷ rest)) in
    let end : write_char (decimal m ++ (45 ∷ next ∷ rest)) (length (decimal m) + 1) 0
        ≡ ok (ds ++ (0 ∷ rest)) =
      rw (again next, sym at) (write-append ds next 0 rest (omega arith)) in
    let chars : Characters ds =
      Characters-join (decimal m) (45 ∷ []) (decimal-Characters m) (omega arith) in
    rw
      (
        sign,
        least,
        written m old (o ∷ next ∷ rest) (omega arith) size,
        write-append (decimal m) o 45 (next ∷ rest) (omega arith),
        end,
      )
      (reverse_lem ds rest chars
        ∙ ap (λ t. ok (t ++ (0 ∷ rest))) (rev-append (decimal m) (45 ∷ [])))

-- `int_to_ascii` of an `int` other than the least, into any bytes that are at least one more than its
-- text: they become the text, a NUL, and what stood behind them.
pub int_to_ascii_lem :
    (n : ℕ) (str : List ℕ)
    → n < 2 ^ 32
    → n ≢ 2 ^ 31
    → length (text n) < length str
    → (rest : List ℕ) × (int_to_ascii n str ≡ ok (text n ++ (0 ∷ rest)))
int_to_ascii_lem n str small least room = elim (Bool-cases (negative n)) [
  | inr e ↦
      let below : n < 2 ^ 31 = ground arith in
      let size : length (decimal n) < length str =
        omega (arith, room, ap length (text-positive n e), length-rev (decimal n)) in
      let c = cut (length (decimal n)) str size in
      (
        c.back,
        subst (λ s. int_to_ascii n s ≡ ok (text n ++ (0 ∷ c.back))) (sym c.split)
            (ascii_positive n c.front c.next c.back below c.size
              ∙ ap (λ t. ok (t ++ (0 ∷ c.back))) (sym (text-positive n e))),
      )
  | inl e ↦
      let above : 2 ^ 31 < n = ground arith in
      let m : ℕ = 2 ^ 32 - n in
      let size : length (decimal m) + 1 < length str =
        omega (arith, room, ap length (text-negative n e), length-rev (decimal m)) in
      let c = cut (length (decimal m) + 1) str size in
      let d = cut (length (decimal m)) c.front (omega (arith, c.size)) in
      let one : d.back ≡ [] = empty_of d.back (
        omega
          (arith, c.size, d.size, ap length d.split, length-append d.front (d.next ∷ d.back))) in
      let whole : str ≡ d.front ++ (d.next ∷ c.next ∷ c.back) =
        c.split
        ∙ ap (λ t. t ++ (c.next ∷ c.back)) (d.split ∙ ap (λ t. d.front ++ (d.next ∷ t)) one)
        ∙ append_assoc d.front (d.next ∷ []) (c.next ∷ c.back) in
      (
        c.back,
        subst (λ s. int_to_ascii n s ≡ ok (text n ++ (0 ∷ c.back))) (sym whole)
            (ascii_negative n d.front d.next c.next c.back above small d.size
              ∙ ap (λ t. ok (t ++ (0 ∷ c.back))) (sym (text-negative n e))),
      )
]
  where
    empty_of : (xs : List ℕ) → length xs ≡ 0 → xs ≡ []
    empty_of [] e = refl
    empty_of (x ∷ xs) e = absurd (omega (arith, e))

-- `atoi` reads the text back.
digits_of-decimal :
    (n : ℕ) (t : List ℕ)
    → n < 2 ^ 31
    → digits_from (rev (decimal n) ++ (0 ∷ t)) 10 0 0 false
      ≡ ok (record { n = n; ndig = length (decimal n); ovfl = false; p = 0 ∷ t })
unfolding decimal digits_from
digits_of-decimal n t small =
    digits_from-low_digits 10 n 0 (0 ∷ t) (omega arith) (omega arith) small
    ∙ ap (λ k. ok (record { n = n; ndig = k; ovfl = false; p = 0 ∷ t })) (omega arith)

starts_with_digit :
    (n : ℕ) (t : List ℕ)
    → (c : ℕ) × (q : List ℕ) × (rev (decimal n) ++ t ≡ c ∷ q) × (48 ≤ c) × (c < 58)
unfolding decimal
starts_with_digit n t = digits-start 9 n t

-- `strtol` passes nothing over where the text starts with a digit.
at_digit :
    (c : ℕ) (q : List ℕ)
    → 48 ≤ c
    → c < 58
    → (skip_space (c ∷ q) ≡ ok (c ∷ q))
      × (skip_sign (c ∷ q) ≡ ok (false, c ∷ q))
      × (choose_base (c ∷ q) 10 ≡ ok (some (10, c ∷ q)))
unfolding skip_space
at_digit c q ge lt = (ground arith, ground arith, refl)

minus_space : (p : List ℕ) → skip_space (45 ∷ p) ≡ ok (45 ∷ p)
unfolding skip_space
minus_space p = refl

-- A text that starts with a digit, and one with a minus sign before it.
atoi-plain :
    (c : ℕ) (q p : List ℕ) (d : Digits)
    → p ≡ c ∷ q
    → 48 ≤ c
    → c < 58
    → digits_from p 10 0 0 false ≡ ok d
    → (atoi p ≡ ok d.n) × (atoi (45 ∷ p) ≡ ok (u32 (2 ^ 32 - d.n)))
unfolding atoi strtol
atoi-plain c q p d eq ge lt all =
    let (space, sign, chosen) = at_digit c q ge lt in
    let read : digits_from (c ∷ q) 10 0 0 false ≡ ok d =
      sym (ap (λ l. digits_from l 10 0 0 false) eq) ∙ all in
    rw eq (rw (space, sign, read) refl, rw (minus_space (c ∷ q), read) refl)

atoi-text : (n : ℕ) (rest : List ℕ) → n < 2 ^ 32 → n ≢ 2 ^ 31 → atoi (text n ++ (0 ∷ rest)) ≡ ok n
atoi-text n rest small least = elim (Bool-cases (negative n)) [
  | inr e ↦
      let below : n < 2 ^ 31 = ground arith in
      let (c, q, eq, ge, lt) = starts_with_digit n (0 ∷ rest) in
      let (plain, minus) = atoi-plain c q _ _ eq ge lt (digits_of-decimal n rest below) in
      ap (λ t. atoi (t ++ (0 ∷ rest))) (text-positive n e) ∙ plain
  | inl e ↦
      let above : 2 ^ 31 < n = ground arith in
      let m : ℕ = 2 ^ 32 - n in
      let (c, q, eq, ge, lt) = starts_with_digit m (0 ∷ rest) in
      let (plain, minus) =
        atoi-plain c q _ _ eq ge lt (digits_of-decimal m rest (omega (arith, above, small))) in
      let back : u32 (2 ^ 32 - m) ≡ n = omega (arith, above, small) in
      ap (λ t. atoi (t ++ (0 ∷ rest))) (text-negative n e) ∙ minus ∙ ap ok back
]

-- The round trip through text: `int_to_ascii` of an `int` other than the least, into any twelve bytes
-- or more, gives a text from which `atoi` reads the same `int`.
pub atoi-int_to_ascii :
    (n : ℕ) (str : List ℕ)
    → n < 2 ^ 32
    → n ≢ 2 ^ 31
    → 12 ≤ length str
    → (s : List ℕ) × (int_to_ascii n str ≡ ok s) × (atoi s ≡ ok n)
atoi-int_to_ascii n str small least room =
    let (rest, done) = int_to_ascii_lem n str small least (omega (arith, length-text n, room)) in
    (text n ++ (0 ∷ rest), done, atoi-text n rest small least)
