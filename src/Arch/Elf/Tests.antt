-- ===== src/Arch/Elf/Tests.antt =====
-- A relocation in memory of zeros.
use medusa_os.Prelude.{◌+◌, ◌≡◌, arith}
use medusa_os.Misc.{u32, sub32}
use medusa_os.Arch.Elf.{Memory, word_at, apply_reloc, elf_reloc_err}
use medusa_os.Arch.Elf.Relocating.{apply_reloc_lem}

abbrev zeros : Memory
zeros a = 0

apply_reloc_example :
    (word_at (apply_reloc zeros 1 305419896 4096).memory 4096
      ≡ u32 (305419896 + word_at zeros 4096))
    × (word_at (apply_reloc zeros 2 305419896 4096).memory 4096
        ≡ sub32 (u32 (305419896 + word_at zeros 4096)) 4096)
    × ((apply_reloc zeros 1 305419896 4096).memory 5 ≡ 0)
    × ((apply_reloc zeros 2 305419896 4096).memory 5 ≡ 0)
    × ((apply_reloc zeros 1 305419896 4096).result ≡ 305419896)
    × ((apply_reloc zeros 2 305419896 4096).result ≡ 305419896)
    × (apply_reloc zeros 0 305419896 4096 ≡ record { memory = zeros; result = 305419896 })
    × ((apply_reloc zeros 9 305419896 4096).memory ≡ zeros)
    × ((apply_reloc zeros 9 305419896 4096).result ≡ elf_reloc_err)
apply_reloc_example =
    apply_reloc_lem zeros 305419896 4096 9 5
      (
        (λ e. omega (arith, e)),
        (λ e. omega (arith, e)),
        (λ e. omega (arith, e)),
        λ e. omega (arith, e),
      )
      (omega arith)
