-- ===== src/Libc/Strings/Laws.antt =====
-- The functions on strings that end with NUL.
use medusa_os.Prelude.{
  ℕ, ◌+◌, ◌^◌, ◌<◌, ◌≡◌, ◌↔◌, inl, inr, refl, ap, arith, ◌==◌, false, List, [], ◌∷◌, ◌++◌, length,
  Bool-cases, ok, ne→==_false, ==→eq, ==_false→ne,
}
use medusa_os.Libc.Strings.{strlen, strcmp, Difference, moved_up, difference, strcat, copy_over}

-- The characters of a string: bytes other than NUL.
abbrev pub Characters : List ℕ → Type 0
Characters [] = Unit {0}
Characters (c ∷ cs) = (0 < c) × (c < 2 ^ 8) × Characters cs

-- `strlen` of a string with NUL and anything after it is the number of its characters.
pub strlen_lem : (s rest : List ℕ) → Characters s → strlen (s ++ (0 ∷ rest)) ≡ ok (length s)
unfolding strlen
strlen_lem [] rest h = refl
strlen_lem (c ∷ s) rest h =
    rw (ne→==_false c 0 (λ e. omega (arith, e, h.0)), strlen_lem s rest h.2) refl

-- The copy of a string over bytes that are as many, and one more for the NUL.
pub copy_over_lem :
    (old src rest more : List ℕ)
    → Characters src
    → length old ≡ length src + 1
    → copy_over (old ++ rest) (src ++ (0 ∷ more)) ≡ ok (src ++ (0 ∷ rest))
copy_over_lem [] src rest more h e = absurd (omega (arith, e))
copy_over_lem (o ∷ []) [] rest more h e = refl
copy_over_lem (o ∷ p ∷ old) [] rest more h e = absurd (omega (arith, e))
copy_over_lem (o ∷ old) (c ∷ src) rest more h e =
    rw
      (
        ne→==_false c 0 (λ q. omega (arith, q, h.0)),
        copy_over_lem old src rest more h.2 (omega (arith, e)),
      )
      refl

-- `strcat` of two strings with NUL, where behind the characters of the first there are the bytes
-- `old`, NUL first, one more than the second has characters, and then `rest`: the first string is
-- followed by the second, a NUL and `rest`.
pub strcat_lem :
    (s src old rest more : List ℕ)
    → Characters s
    → Characters src
    → length (0 ∷ old) ≡ length src + 1
    → strcat (s ++ (0 ∷ (old ++ rest))) (src ++ (0 ∷ more)) ≡ ok (s ++ (src ++ (0 ∷ rest)))
unfolding strcat
strcat_lem [] src old rest more hs hsrc e = copy_over_lem (0 ∷ old) src rest more hsrc e
strcat_lem (c ∷ s) src old rest more hs hsrc e =
    rw (ne→==_false c 0 (λ q. omega (arith, q, hs.0)), strcat_lem s src old rest more hs.2 hsrc e)
      refl

-- What `strcmp` returns is zero.
abbrev pub IsZero : Difference → Type 0
IsZero d = d.plus ≡ d.minus

moved_up-injective : (a b : ℕ) → a < 2 ^ 8 → b < 2 ^ 8 → moved_up a ≡ moved_up b → a ≡ b
moved_up-injective a b h1 h2 e = omega (arith, e)

-- `strcmp` of two strings with NUL succeeds, whatever follows them, and it returns zero exactly if the
-- strings are equal.
pub strcmp_lem :
    (s t rest more : List ℕ)
    → Characters s
    → Characters t
    → (d : Difference) × (strcmp (s ++ (0 ∷ rest)) (t ++ (0 ∷ more)) ≡ ok d) × (IsZero d ↔ (s ≡ t))
unfolding strcmp
strcmp_lem [] [] rest more hs ht = (difference 0 0, refl, (λ z. refl, λ e. refl))
strcmp_lem [] (b ∷ t) rest more hs ht = (
  difference 0 b,
  refl,
  (
    λ z. absurd (omega (arith, moved_up-injective 0 b (omega arith) ht.1 z, ht.0)),
    λ e. absurd (omega (arith, ap length e)),
  ),
)
strcmp_lem (a ∷ s) [] rest more hs ht =
    let ne : (a == 0) ≡ false = ne→==_false a 0 (λ q. omega (arith, q, hs.0)) in
    (
      difference a 0,
      rw ne refl,
      (
        λ z. absurd (omega (arith, moved_up-injective a 0 hs.1 (omega arith) z, hs.0)),
        λ e. absurd (omega (arith, ap length e)),
      ),
    )
strcmp_lem (a ∷ s) (b ∷ t) rest more hs ht =
    let ne : (a == 0) ≡ false = ne→==_false a 0 (λ q. omega (arith, q, hs.0)) in
    elim (Bool-cases (a == b)) [
      | inl e ↦
          let (d, q, (there, back)) = strcmp_lem s t rest more hs.2 ht.2 in
          let same : a ≡ b = ==→eq a b e in
          (d, rw (ne, e) q, (λ z. λ i. same i ∷ there z i, λ p. back (ap tail_of p)))
      | inr e ↦ (
        difference a b,
        rw (ne, e) refl,
        (
          λ z. absurd (==_false→ne a b e (moved_up-injective a b hs.1 ht.1 z)),
          λ p. absurd (==_false→ne a b e (ap (first_of a) p)),
        ),
      )
    ]
  where
    tail_of : List ℕ → List ℕ
    tail_of [] = []
    tail_of (x ∷ xs) = xs

    first_of : ℕ → List ℕ → ℕ
    first_of y [] = y
    first_of y (x ∷ xs) = x
