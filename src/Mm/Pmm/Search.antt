-- ===== src/Mm/Pmm/Search.antt =====
-- `mmap_find_free` finds the first free block of the words that it looks at.
use medusa_os.Prelude.{
  ℕ, zero, suc, ◌+◌, ◌-◌, ◌*◌, ◌/◌, ◌%◌, ◌^◌, ◌≤◌, ◌<◌, ◌≡◌, ◌≢◌, refl, ◌∙◌, ap, arith, ◌==◌,
  bit_and, bit_of, bit_and-pow, bit_of_lt, bit_of_ones, ==→eq, ==_false→ne, Outcome, ok, inl, inr,
  Bool-cases, Option, none, some, subst, lt→ltb, eq→==, ne→==_false,
}
use native.Mathlib.Decide.{dec_lt}
use native.Mathlib.Nat.{one-le-pow}
use medusa_os.Mm.Pmm.{
  Pmm, nth_bit, bitmap_words, read_word, find_in_word, find_free_from, mmap_find_free,
}
use medusa_os.Mm.Pmm.Marks.{mark}

-- The test of a bit, as both searches write it.
pub free_test : (w j : ℕ) → (bit_and w (nth_bit j) == 0) ≡ (bit_of w j == 0)
free_test w j = elim (Bool-cases (bit_of w j == 0)) [
  | inl e ↦
      rw e
        (eq→== _ 0 (bit_and-pow j w ∙ ap (λ t. t * 2 ^ j) (==→eq (bit_of w j) 0 e) ∙ omega arith))
  | inr e ↦
      let one : bit_of w j ≡ 1 = omega (arith, bit_of_lt j w, ==_false→ne (bit_of w j) 0 e) in
      rw e (
        ne→==_false _ 0
          λ z. omega (arith, bit_and-pow j w, ap (λ t. t * 2 ^ j) one, one-le-pow j 2, z))
]

-- What the inner loop finds among the bits `j .. j + left` of `w`.
abbrev FirstZero : (w j left : ℕ) → Option ℕ → Type 0
FirstZero w j left none = (k : ℕ) → j ≤ k → k < j + left → bit_of w k ≡ 1
FirstZero w j left (some k) =
    (j ≤ k) × (k < j + left) × (bit_of w k ≡ 0) × ((i : ℕ) → j ≤ i → i < k → bit_of w i ≡ 1)

FirstZero-later :
    (w j left : ℕ) (o : Option ℕ)
    → bit_of w j ≢ 0
    → FirstZero w (j + 1) left o
    → FirstZero w j (suc left) o
FirstZero-later w j left none ne h = λ k p q. elim (Bool-cases (j == k)) [
  | inl e ↦ omega (arith, bit_of_lt j w, ne, ap (bit_of w) (==→eq j k e))
  | inr e ↦ h k (omega (arith, ==_false→ne j k e)) (omega arith)
]
FirstZero-later w j left (some k) ne h = (
  omega (arith, h.0),
  omega (arith, h.1),
  h.2,
  λ i p q. elim (Bool-cases (j == i)) [
    | inl e ↦ omega (arith, bit_of_lt j w, ne, ap (bit_of w) (==→eq j i e))
    | inr e ↦ h.3 i (omega (arith, ==_false→ne j i e)) q
  ],
)

find_in_word-FirstZero : (w left j : ℕ) → FirstZero w j left (find_in_word w left j)
unfolding find_in_word
find_in_word-FirstZero w zero j = λ k p q. absurd (omega arith)
find_in_word-FirstZero w (suc left) j = elim (Bool-cases (bit_of w j == 0)) [
  | inl e ↦
      rw (free_test, e)
        (omega arith, omega arith, ==→eq (bit_of w j) 0 e, λ i p q. absurd (omega arith))
  | inr e ↦
      rw (free_test, e)
        (FirstZero-later w j left _ (==_false→ne (bit_of w j) 0 e)
          (find_in_word-FirstZero w left (j + 1)))
]

-- `r` is the first free block of `lo .. hi`, or 0 and there is none.
pub data FirstFree (s : Pmm) (lo hi r : ℕ) : Type 0 where
  first :
      lo ≤ r
      → r < hi
      → mark s r ≡ 0
      → ((b : ℕ) → lo ≤ b → b < r → mark s b ≡ 1)
      → FirstFree s lo hi r
  full : r ≡ 0 → ((b : ℕ) → lo ≤ b → b < hi → mark s b ≡ 1) → FirstFree s lo hi r

FirstFree-later :
    (s : Pmm) (lo mid hi r : ℕ)
    → lo ≤ mid
    → ((b : ℕ) → lo ≤ b → b < mid → mark s b ≡ 1)
    → FirstFree s mid hi r
    → FirstFree s lo hi r
FirstFree-later s lo mid hi r le below (first p q z used) =
    first (omega arith) q z
      (λ b p' q'. elim (dec_lt b mid) [ yes h ↦ below b p' h | no h ↦ used b (omega arith) q' ])
FirstFree-later s lo mid hi r le below (full z used) =
    full z
      (λ b p' q'. elim (dec_lt b mid) [ yes h ↦ below b p' h | no h ↦ used b (omega arith) q' ])

module _ (s : Pmm) (i : ℕ) where
  -- A bit of the word `i` is the mark of its block.
  mark-bit : (k : ℕ) → k < 32 → mark s (i * 32 + k) ≡ bit_of (s.bitmap i) k
  mark-bit k h =
      let e : (i * 32 + k) / 32 ≡ i = omega arith in
      let e' : (i * 32 + k) % 32 ≡ k = omega arith in rw (e, e')

  pub word_used :
      (n : ℕ)
      → n ≤ 32
      → ((k : ℕ) → k < n → bit_of (s.bitmap i) k ≡ 1)
      → (b : ℕ) → i * 32 ≤ b
      → b < i * 32 + n
      → mark s b ≡ 1
  word_used n le ones b p q =
      let e : b ≡ i * 32 + (b - i * 32) = omega arith in
      rw e (mark-bit (b - i * 32) (omega arith) ∙ ones (b - i * 32) (omega arith))

  step-FirstFree :
      (hi r : ℕ) (o : Option ℕ)
      → FirstZero (s.bitmap i) 0 32 o
      → i * 32 + 32 ≤ hi
      → FirstFree s ((i + 1) * 32) hi r
      → FirstFree s (i * 32) hi (elim o [ some j ↦ i * 32 + j | none ↦ r ])
  step-FirstFree hi r none h le rest =
      FirstFree-later s (i * 32) ((i + 1) * 32) hi r (omega arith)
        (λ b p q. word_used 32 (omega arith) (λ k t. h k (omega arith) t) b p (omega arith)) rest
  step-FirstFree hi r (some j) h le rest =
      first (omega arith) (omega (arith, h.1)) (mark-bit j h.1 ∙ h.2)
        (λ b p q. word_used j (omega (arith, h.1)) (λ k t. h.3 k (omega arith) t) b p q)

found_or :
    (i r : ℕ) (rest : Outcome ℕ) (o : Option ℕ)
    → rest ≡ ok r
    → (elim o [ some j ↦ ok (i * 32 + j) | none ↦ rest ])
      ≡ ok (elim o [ some j ↦ i * 32 + j | none ↦ r ])
found_or i r rest none h = h
found_or i r rest (some j) h = refl

find_free_from-FirstFree :
    (s : Pmm) (left i : ℕ)
    → i + left ≤ bitmap_words
    → (r : ℕ) × (find_free_from s left i ≡ ok r) × FirstFree s (i * 32) ((i + left) * 32) r
unfolding find_free_from read_word
find_free_from-FirstFree s zero i h = (0, refl, full refl (λ b p q. absurd (omega arith)))
find_free_from-FirstFree s (suc left) i h =
    let (r, e, f) = find_free_from-FirstFree s left (i + 1) (omega arith) in
    let f' : FirstFree s ((i + 1) * 32) ((i + suc left) * 32) r =
      subst (λ t. FirstFree s ((i + 1) * 32) (t * 32) r) (omega arith) f in
    let o : Option ℕ = find_in_word (s.bitmap i) 32 0 in
    elim (Bool-cases (s.bitmap i == 0xffffffff)) [
      | inl full_word ↦ (
        r,
        rw (lt→ltb i bitmap_words (omega arith), full_word) e,
        FirstFree-later s (i * 32) ((i + 1) * 32) ((i + suc left) * 32) r (omega arith)
            (λ b p q.
              word_used s i 32 (omega arith)
                (λ k t.
                  ap (λ w. bit_of w k) (==→eq (s.bitmap i) 0xffffffff full_word)
                  ∙ bit_of_ones 32 k t)
                b p (omega arith))
            f',
      )
      | inr other ↦ (
        elim o [ some j ↦ i * 32 + j | none ↦ r ],
        rw (lt→ltb i bitmap_words (omega arith), other) (found_or i r _ o e),
        step-FirstFree s i ((i + suc left) * 32) r o (find_in_word-FirstZero (s.bitmap i) 32 0)
            (omega arith) f',
      )
    ]

-- On a machine whose blocks fit the bitmap, `mmap_find_free` reads nothing outside the bitmap and
-- returns the first free block of the whole words below `max_blocks`, or 0 when all are in use.
pub mmap_find_free-FirstFree :
    (s : Pmm)
    → s.max_blocks < 2 ^ 20
    → (r : ℕ) × (mmap_find_free s ≡ ok r) × FirstFree s 0 (s.max_blocks / 32 * 32) r
unfolding mmap_find_free
mmap_find_free-FirstFree s h =
    let (r, e, f) = find_free_from-FirstFree s (s.max_blocks / 32) 0 (omega arith) in
    (r, e, subst (λ t. FirstFree s 0 (t * 32) r) (omega arith) f)
