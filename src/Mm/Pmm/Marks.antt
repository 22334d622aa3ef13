-- ===== src/Mm/Pmm/Marks.antt =====
-- What marking a block does to the bitmap, bit by bit.
use medusa_os.Prelude.{
  ℕ, zero, suc, ◌+◌, ◌/◌, ◌%◌, ◌^◌, ◌≤◌, ◌<◌, ◌≡◌, ◌≢◌, refl, ◌∙◌, ap, arith, ◌==◌, bit_and, bit_or,
  bit_of, bit_of_or, bit_of_and, bit_of_pow_self, bit_of_pow_ne, bit_of_mask_ne, bit_of_mask_self,
  bit_of_lt, bit_or-lt-pow, bit_and-le, pow-lt-pow, ==→eq, ==_false→ne, ok, ◌⊎◌, inl, inr,
  Bool-cases,
}
use medusa_os.Misc.{u32, sub32}
use medusa_os.Mm.Pmm.{
  Pmm, nth_bit, other_bits, update, mmap_set, mmap_unset, set_blocks, unset_blocks,
}

-- The bit of the block `b`: 1 when it is in use.
abbrev pub mark : Pmm → ℕ → ℕ
mark s b = bit_of (s.bitmap (b / 32)) (b % 32)

pub block_count : ℕ
block_count = 2 ^ 20

-- `s'` is `s` with the blocks `lo .. lo + n` marked `v`, and no other change but the counter.
pub record Marked (v lo n : ℕ) (s s' : Pmm) : Type 0 where
  pub inside : (b : ℕ) → lo ≤ b → b < lo + n → mark s' b ≡ v
  pub outside : (b : ℕ) → (b < lo) ⊎ (lo + n ≤ b) → mark s' b ≡ mark s b
  pub words : ((i : ℕ) → s.bitmap i < 2 ^ 32) → (i : ℕ) → s'.bitmap i < 2 ^ 32
  pub mem_size : s'.mem_size ≡ s.mem_size
  pub max_blocks : s'.max_blocks ≡ s.max_blocks
  pub kernel_end : s'.kernel_end ≡ s.kernel_end

set_mark_self : (w k : ℕ) → bit_of (bit_or w (nth_bit k)) k ≡ 1
set_mark_self w k = omega (arith, bit_of_or k w (2 ^ k), bit_of_pow_self k, bit_of_lt k w)

set_mark_ne : (w k j : ℕ) → k ≢ j → bit_of (bit_or w (nth_bit k)) j ≡ bit_of w j
set_mark_ne w k j ne = omega (arith, bit_of_or j w (2 ^ k), bit_of_pow_ne k j ne)

unset_mark_self : (w k : ℕ) → k < 32 → bit_of (bit_and w (other_bits k)) k ≡ 0
unset_mark_self w k h =
    omega (arith, bit_of_and k w (other_bits k), bit_of_mask_self 32 k h, bit_of_lt k w)

unset_mark_ne :
    (w k j : ℕ) → k < 32 → j < 32 → k ≢ j → bit_of (bit_and w (other_bits k)) j ≡ bit_of w j
unset_mark_ne w k j h p ne =
    omega (arith, bit_of_and j w (other_bits k), bit_of_mask_ne 32 k j h p ne, bit_of_lt j w)

-- Writing a word that differs in one bit marks one block.
module _ (s : Pmm) (bit v w' used : ℕ) where
  abbrev written : Pmm
  written = record s { bitmap = update s.bitmap (bit / 32) w'; used_blocks = used }

  written-Marked :
      bit_of w' (bit % 32) ≡ v
      → ((j : ℕ) → j < 32 → bit % 32 ≢ j → bit_of w' j ≡ bit_of (s.bitmap (bit / 32)) j)
      → (s.bitmap (bit / 32) < 2 ^ 32 → w' < 2 ^ 32)
      → Marked v bit 1 s written
  written-Marked self others small = record {
    inside = λ b p q. let e : b ≡ bit = omega arith in rw e (ground (arith, self));
    outside = λ b p. elim (Bool-cases (bit / 32 == b / 32)) [
      | inl e ↦ rw e (
          others (b % 32) (omega arith) (λ d. omega (arith, ==→eq (bit / 32) (b / 32) e))
          ∙ ap (λ i. bit_of (s.bitmap i) (b % 32)) (==→eq (bit / 32) (b / 32) e))
      | inr e ↦ rw e
    ];
    words = λ w i. elim (Bool-cases (bit / 32 == i)) [
      | inl e ↦ rw e (small (w (bit / 32)))
      | inr e ↦ rw e (w i)
    ];
    mem_size = refl;
    max_blocks = refl;
    kernel_end = refl;
  }

pub mmap_set-Marked :
    (s : Pmm) (bit : ℕ)
    → bit < 2 ^ 20
    → (s' : Pmm) × (mmap_set s bit ≡ ok s')
      × Marked 1 bit 1 s s'
      × (s'.used_blocks ≡ u32 (s.used_blocks + 1))
unfolding mmap_set
mmap_set-Marked s bit h =
    let w : ℕ = s.bitmap (bit / 32) in
    let w' : ℕ = bit_or w (nth_bit (bit % 32)) in
    (
      written s bit 1 w' (u32 (s.used_blocks + 1)),
      ground arith,
      written-Marked s bit 1 w' (u32 (s.used_blocks + 1)) (set_mark_self w (bit % 32))
          (λ j p ne. set_mark_ne w (bit % 32) j ne)
          (λ p. bit_or-lt-pow 32 w (nth_bit (bit % 32)) p (pow-lt-pow (bit % 32) 32 (omega arith))),
      refl,
    )

pub mmap_unset-Marked :
    (s : Pmm) (bit : ℕ)
    → bit < 2 ^ 20
    → (s' : Pmm) × (mmap_unset s bit ≡ ok s')
      × Marked 0 bit 1 s s'
      × (s'.used_blocks ≡ sub32 s.used_blocks 1)
unfolding mmap_unset
mmap_unset-Marked s bit h =
    let w : ℕ = s.bitmap (bit / 32) in
    let w' : ℕ = bit_and w (other_bits (bit % 32)) in
    (
      written s bit 0 w' (sub32 s.used_blocks 1),
      ground arith,
      written-Marked s bit 0 w' (sub32 s.used_blocks 1) (unset_mark_self w (bit % 32) (omega arith))
          (λ j p ne. unset_mark_ne w (bit % 32) j (omega arith) p ne)
          (λ p. omega (arith, bit_and-le w (other_bits (bit % 32)))),
      refl,
    )

Marked-here : (v lo : ℕ) (s : Pmm) → Marked v lo 0 s s
Marked-here v lo s = record {
  inside = λ b p q. absurd (omega arith);
  outside = λ b p. refl;
  words = λ w i. w i;
  mem_size = refl;
  max_blocks = refl;
  kernel_end = refl;
}

-- One block, and then the blocks after it.
Marked-next :
    (v lo n : ℕ) (s t u : Pmm)
    → Marked v lo 1 s t
    → Marked v (lo + 1) n t u
    → Marked v lo (suc n) s u
Marked-next v lo n s t u first rest = record {
  inside = λ b p q. elim (Bool-cases (lo == b)) [
    | inl e ↦
        rest.outside b (inl (omega (arith, ==→eq lo b e)))
        ∙ first.inside b p (omega (arith, ==→eq lo b e))
    | inr e ↦ rest.inside b (omega (arith, ==_false→ne lo b e)) (omega arith)
  ];
  outside = λ b p. rest.outside b (omega arith) ∙ first.outside b (omega arith);
  words = λ w i. rest.words (first.words w) i;
  mem_size = rest.mem_size ∙ first.mem_size;
  max_blocks = rest.max_blocks ∙ first.max_blocks;
  kernel_end = rest.kernel_end ∙ first.kernel_end;
}

-- Marking a run of blocks inside the bitmap succeeds, marks these blocks and no others, and adds
-- their number to the counter, modulo 2 ^ 32.
pub set_blocks-Marked :
    (n lo : ℕ) (s : Pmm)
    → lo + n ≤ 2 ^ 20
    → (s' : Pmm) × (set_blocks n lo s ≡ ok s')
      × Marked 1 lo n s s'
      × (u32 s'.used_blocks ≡ u32 (s.used_blocks + n))
unfolding set_blocks
set_blocks-Marked zero lo s h = (s, refl, Marked-here 1 lo s, omega arith)
set_blocks-Marked (suc n) lo s h =
    let (t, e, m, c) = mmap_set-Marked s lo (omega arith) in
    let (u, e', m', c') = set_blocks-Marked n (lo + 1) t (omega arith) in
    (u, rw e e', Marked-next 1 lo n s t u m m', omega arith)

pub unset_blocks-Marked :
    (n lo : ℕ) (s : Pmm)
    → lo + n ≤ 2 ^ 20
    → (s' : Pmm) × (unset_blocks n lo s ≡ ok s')
      × Marked 0 lo n s s'
      × (u32 (s'.used_blocks + n) ≡ u32 s.used_blocks)
unfolding unset_blocks
unset_blocks-Marked zero lo s h = (s, refl, Marked-here 0 lo s, omega arith)
unset_blocks-Marked (suc n) lo s h =
    let (t, e, m, c) = mmap_unset-Marked s lo (omega arith) in
    let (u, e', m', c') = unset_blocks-Marked n (lo + 1) t (omega arith) in
    (u, rw e e', Marked-next 0 lo n s t u m m', omega arith)
