-- ===== src/Arch/Elf.antt =====
-- kernel/arch/i386/elf.c: the checks of an ELF file and its relocation, with the file in memory at the
-- address `header`. Memory is a function from addresses to bytes, and addresses are 32-bit words.
pub mod Relocating
mod Tests
use medusa_os.Prelude.{
  ℕ, zero, suc, ◌+◌, ◌-◌, ◌*◌, ◌/◌, ◌%◌, ◌^◌, ◌==◌, leb, if◌then◌else◌, Bool, true, false, not,
  ◌&&◌, ◌||◌, Option, none, some, bit_and, Outcome, ok, fault, ◌>>=◌,
}
use medusa_os.Misc.{u32, sub32}

abbrev pub Memory : Type 0
Memory = ℕ → ℕ

-- Little-endian fields.
abbrev pub half_at : Memory → (address : ℕ) → ℕ
half_at memory address = memory (u32 address) + memory (u32 (address + 1)) * 2 ^ 8

abbrev pub word_at : Memory → (address : ℕ) → ℕ
word_at memory address =
    memory (u32 address)
    + memory (u32 (address + 1)) * 2 ^ 8
    + memory (u32 (address + 2)) * 2 ^ 16
    + memory (u32 (address + 3)) * 2 ^ 24

abbrev pub write_byte : (address byte : ℕ) → Memory → Memory
write_byte address byte memory = λ a. if a == u32 address then byte else memory a

-- `*ref = value`
pub write_word : (address value : ℕ) → Memory → Memory
write_word address value memory = write_byte (address + 3) (value / 2 ^ 24 % 2 ^ 8) (
    write_byte (address + 2) (value / 2 ^ 16 % 2 ^ 8) (
      write_byte (address + 1) (value / 2 ^ 8 % 2 ^ 8) (write_byte address (value % 2 ^ 8) memory)))

-- The fields of the header.
abbrev pub e_type : Memory → (header : ℕ) → ℕ
e_type memory header = half_at memory (header + 16)

abbrev pub e_entry : Memory → (header : ℕ) → ℕ
e_entry memory header = word_at memory (header + 24)

abbrev pub e_shnum : Memory → (header : ℕ) → ℕ
e_shnum memory header = half_at memory (header + 48)

-- `header` is not NULL where it is not 0.
pub elf_check_file : Memory → (header : ℕ) → Bool
elf_check_file memory header =
    not (header == 0)
    && (memory (u32 header) == 127)
    && (memory (u32 (header + 1)) == 69)
    && (memory (u32 (header + 2)) == 76)
    && (memory (u32 (header + 3)) == 70)

pub elf_check_supported : Memory → (header : ℕ) → Bool
unfolding elf_check_file
elf_check_supported memory header =
    elf_check_file memory header
    && (memory (u32 (header + 4)) == 1)
    && (memory (u32 (header + 5)) == 1)
    && (half_at memory (header + 18) == 3)
    && (memory (u32 (header + 6)) == 1)
    && ((e_type memory header == 1) || (e_type memory header == 2))

-- The address of a section header.
abbrev pub elf_section : Memory → (header idx : ℕ) → ℕ
elf_section memory header idx = u32 (header + word_at memory (header + 32) + idx * 40)

-- The fields of a section header.
abbrev pub sh_type : Memory → (section : ℕ) → ℕ
sh_type memory section = word_at memory (section + 4)

abbrev pub sh_offset : Memory → (section : ℕ) → ℕ
sh_offset memory section = word_at memory (section + 16)

abbrev pub sh_size : Memory → (section : ℕ) → ℕ
sh_size memory section = word_at memory (section + 20)

-- `section->sh_size / section->sh_entsize`
abbrev pub entries : Memory → (section : ℕ) → Outcome ℕ
entries memory section =
    if word_at memory (section + 36) == 0
    then fault
    else ok (sh_size memory section / word_at memory (section + 36))

abbrev pub elf_reloc_err : ℕ
elf_reloc_err = 2 ^ 32 - 1

-- `idx` is a byte. `elf_lookup_symbol` finds nothing, so an external symbol is 0 where it is weak and an
-- error otherwise.
pub elf_get_symval : Memory → (header table idx : ℕ) → Outcome ℕ
elf_get_symval memory header table idx = if (table == 0) || (idx == 0) then ok 0 else (do
  let symtab = elf_section memory header table
  count ← entries memory symtab
  let symbol = header + sh_offset memory symtab + idx * 16
  let shndx = half_at memory (symbol + 14)
  let value = word_at memory (symbol + 4)
  if leb count idx
      then ok elf_reloc_err
      else if shndx == 0
      then ok (if bit_and (memory (u32 (symbol + 12)) / 2 ^ 4) 2 == 0 then elf_reloc_err else 0)
      else if shndx == 1
      then ok value
      else ok (u32 (header + value + sh_offset memory (elf_section memory header shndx))))

-- The result of a relocation: the memory, and what is returned.
pub record Relocated : Type 0 where
  pub memory : Memory
  pub result : ℕ

-- The switch on the type of the relocation at the address `ref`.
pub apply_reloc : Memory → (kind symval ref : ℕ) → Relocated
unfolding write_word
apply_reloc memory kind symval ref =
    if kind == 0
    then record { memory = memory; result = symval }
    else if kind == 1
    then record {
      memory = write_word ref (u32 (symval + word_at memory ref)) memory;
      result = symval;
    }
    else if kind == 2
    then record {
      memory = write_word ref (sub32 (u32 (symval + word_at memory ref)) ref) memory;
      result = symval;
    }
    else record { memory = memory; result = elf_reloc_err }

-- `rel` and `reltab` are the addresses of the relocation and of the header of its section.
pub elf_do_reloc : Memory → (header rel reltab : ℕ) → Outcome Relocated
unfolding elf_get_symval apply_reloc
elf_do_reloc memory header rel reltab = do
  let target = elf_section memory header (word_at memory (reltab + 28))
  let ref = u32 (header + sh_offset memory target + word_at memory rel)
  let info = word_at memory (rel + 4)
  let sym = info / 2 ^ 8
  symval ←
      if sym == 0
      then ok 0
      else elf_get_symval memory header (word_at memory (reltab + 24)) (sym % 2 ^ 8)
  if not (sym == 0) && (symval == elf_reloc_err)
      then ok (record { memory = memory; result = elf_reloc_err })
      else ok (apply_reloc memory (info % 2 ^ 8) symval ref)

-- The inner loop of `elf_load_stage2`: `n` turns are left, and the test reads the section again.
pub relocate_section : (turns idx : ℕ) → Memory → (header section : ℕ) → Outcome (Option Relocated)
unfolding elf_do_reloc
relocate_section zero idx memory header section = ok none
relocate_section (suc turns) idx memory header section = do
  count ← entries memory section
  if leb count idx then ok (some (record { memory = memory; result = 0 })) else (do
    done ← elf_do_reloc memory header (header + sh_offset memory section + idx * 8) section
    if done.result == elf_reloc_err
        then ok (some done)
        else relocate_section turns (idx + 1) done.memory header section)

-- The outer loop, from the section `i` on.
pub load_stage2_from : (turns i : ℕ) → Memory → (header : ℕ) → Outcome (Option Relocated)
unfolding relocate_section
load_stage2_from zero i memory header = ok none
load_stage2_from (suc turns) i memory header =
    if leb (e_shnum memory header) i
    then ok (some (record { memory = memory; result = 0 }))
    else if sh_type memory (elf_section memory header i) == 9
    then (do
      relocated ← relocate_section turns 0 memory header (elf_section memory header i)
      elim relocated [
        | none ↦ ok none
        | some done ↦
            if done.result == elf_reloc_err
            then ok (some done)
            else load_stage2_from turns (i + 1) done.memory header
      ])
    else load_stage2_from turns (i + 1) memory header

-- `memset(mem, 0, size)`
abbrev pub zero_bytes : (size address : ℕ) → Memory → Memory
zero_bytes zero address memory = memory
zero_bytes (suc size) address memory = zero_bytes size (address + 1) (write_byte address 0 memory)

-- The loop of `elf_load_stage1`; `allocated i` is what `kmalloc` returns for the section `i`.
pub load_stage1_from : (turns i : ℕ) → Memory → (header : ℕ) → (allocated : ℕ → ℕ) → Option Memory
unfolding write_word
load_stage1_from zero i memory header allocated = none
load_stage1_from (suc turns) i memory header allocated =
    let section = elf_section memory header i in
    let size = sh_size memory section in
    let wanted =
      (sh_type memory section == 8)
      && not (size == 0)
      && not (bit_and (word_at memory (section + 8)) 2 == 0) in
    if leb (e_shnum memory header) i
    then some memory
    else load_stage1_from turns (i + 1)
        (if wanted
          then write_word (section + 16) (sub32 (allocated i) header)
              (zero_bytes size (allocated i) memory)
          else memory)
        header allocated

-- What `elf_load_rel` returns, and the memory; `elf_load_stage1` has no error.
abbrev pub loaded : (header : ℕ) → Option Relocated → Option (ℕ × Memory)
loaded header none = none
loaded header (some done) =
    some ((if done.result == elf_reloc_err then 0 else e_entry done.memory header), done.memory)

pub elf_load_rel :
    (turns : ℕ) → Memory → (header : ℕ) → (allocated : ℕ → ℕ) → Outcome (Option (ℕ × Memory))
unfolding load_stage1_from load_stage2_from
elf_load_rel turns memory header allocated =
    elim (load_stage1_from turns 0 memory header allocated) [
      | none ↦ ok none
      | some memory' ↦ (do
        relocated ← load_stage2_from turns 0 memory' header
        ok (loaded header relocated))
    ]

pub elf_load_file :
    (turns : ℕ) → Memory → (file : ℕ) → (allocated : ℕ → ℕ) → Outcome (Option (ℕ × Memory))
unfolding elf_check_supported elf_load_rel
elf_load_file turns memory file allocated =
    if not (elf_check_supported memory file)
    then ok (some (0, memory))
    else if e_type memory file == 2
    then ok (some (0, memory))
    else if e_type memory file == 1
    then elf_load_rel turns memory file allocated
    else ok (some (0, memory))
