-- ===== src/Arch/Elf/Relocating.antt =====
-- What a relocation writes.
use medusa_os.Prelude.{
  ℕ, ◌+◌, ◌^◌, ◌<◌, ◌≡◌, ◌≢◌, refl, arith, ◌==◌, eq→==, ne→==_false, true, false, ap,
}
use medusa_os.Misc.{u32, sub32}
use medusa_os.Arch.Elf.{Memory, word_at, write_word, apply_reloc, elf_reloc_err}

-- An address other than the four bytes from `ref`.
abbrev pub Outside : (ref a : ℕ) → Type 0
Outside ref a = (a ≢ u32 ref) × (a ≢ u32 (ref + 1)) × (a ≢ u32 (ref + 2)) × (a ≢ u32 (ref + 3))

write_word-Outside :
    (ref value a : ℕ) (memory : Memory) → Outside ref a → write_word ref value memory a ≡ memory a
unfolding write_word
write_word-Outside ref value a memory (n0, n1, n2, n3) =
    rw
      (
        ne→==_false a (u32 (ref + 3)) n3,
        ne→==_false a (u32 (ref + 2)) n2,
        ne→==_false a (u32 (ref + 1)) n1,
        ne→==_false a (u32 ref) n0,
      )
      refl

apart : (ref i j : ℕ) → i < 4 → j < 4 → i ≢ j → (u32 (ref + i) == u32 (ref + j)) ≡ false
apart ref i j hi hj ne =
    ne→==_false (u32 (ref + i)) (u32 (ref + j)) (λ e. ne (omega (arith, e, hi, hj)))

word_at-write_word :
    (ref value : ℕ) (memory : Memory)
    → value < 2 ^ 32
    → word_at (write_word ref value memory) ref ≡ value
unfolding write_word
word_at-write_word ref value memory fits =
    let at : u32 ref ≡ u32 (ref + 0) = omega arith in
    let here : (i : ℕ) → (u32 (ref + i) == u32 (ref + i)) ≡ true =
      λ i. eq→== (u32 (ref + i)) (u32 (ref + i)) refl in
    rw
      (
        at,
        here 0,
        here 1,
        here 2,
        here 3,
        apart ref 0 1 (omega arith) (omega arith) (λ e. omega (arith, e)),
        apart ref 0 2 (omega arith) (omega arith) (λ e. omega (arith, e)),
        apart ref 0 3 (omega arith) (omega arith) (λ e. omega (arith, e)),
        apart ref 1 2 (omega arith) (omega arith) (λ e. omega (arith, e)),
        apart ref 1 3 (omega arith) (omega arith) (λ e. omega (arith, e)),
        apart ref 2 3 (omega arith) (omega arith) (λ e. omega (arith, e)),
      )
      (omega (arith, fits))

-- A relocation of the two kinds with an effect, at any address: the word there becomes the sum of the
-- symbol's value and the word before, less the address where it is relative, modulo 2^32; every other
-- byte stays, and the symbol's value is returned. The kind 0 returns that value and leaves memory as it
-- was, and any other kind is the error and leaves memory as it was.
pub apply_reloc_lem :
    (memory : Memory) (symval ref kind a : ℕ)
    → Outside ref a
    → 2 < kind
    → (word_at (apply_reloc memory 1 symval ref).memory ref ≡ u32 (symval + word_at memory ref))
      × (word_at (apply_reloc memory 2 symval ref).memory ref
          ≡ sub32 (u32 (symval + word_at memory ref)) ref)
      × ((apply_reloc memory 1 symval ref).memory a ≡ memory a)
      × ((apply_reloc memory 2 symval ref).memory a ≡ memory a)
      × ((apply_reloc memory 1 symval ref).result ≡ symval)
      × ((apply_reloc memory 2 symval ref).result ≡ symval)
      × (apply_reloc memory 0 symval ref ≡ record { memory = memory; result = symval })
      × ((apply_reloc memory kind symval ref).memory ≡ memory)
      × ((apply_reloc memory kind symval ref).result ≡ elf_reloc_err)
unfolding apply_reloc
apply_reloc_lem memory symval ref kind a out big =
    let other : apply_reloc memory kind symval ref
        ≡ record { memory = memory; result = elf_reloc_err } =
      rw
        (
          ne→==_false kind 0 (λ e. omega (arith, e, big)),
          ne→==_false kind 1 (λ e. omega (arith, e, big)),
          ne→==_false kind 2 (λ e. omega (arith, e, big)),
        )
        refl in
    (
      word_at-write_word ref (u32 (symval + word_at memory ref)) memory (omega arith),
      word_at-write_word ref (sub32 (u32 (symval + word_at memory ref)) ref) memory (omega arith),
      write_word-Outside ref (u32 (symval + word_at memory ref)) a memory out,
      write_word-Outside ref (sub32 (u32 (symval + word_at memory ref)) ref) a memory out,
      refl,
      refl,
      refl,
      ap (λ r. r.memory) other,
      ap (λ r. r.result) other,
    )
