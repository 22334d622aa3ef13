-- ===== src/Arch/Descriptors/Laws.antt =====
-- The fields of a descriptor, as the processor puts them together, and the table of the kernel.
use medusa_os.Prelude.{
  ℕ, ◌+◌, ◌-◌, ◌*◌, ◌/◌, ◌%◌, ◌^◌, ◌<◌, ◌≡◌, refl, ap, ◌∙◌, arith, [], ◌∷◌, bit_and, bit_or,
  bit_and_mask, bit_or_low_fields, bit_and-mul_pow, ok, ltb, if◌then◌else◌,
}
use medusa_os.Misc.{u32}
use medusa_os.Arch.Descriptors.{
  GdtEntry, gdt_entry, set_gdt_entry, TssEntry, gdt_initialize, write_tss, halted, platform_irq,
  handle_exception, handle_unknown, x86_exception_handler,
}

-- What the processor reads from an entry.
abbrev pub entry_base : GdtEntry → ℕ
entry_base e = e.base_low + e.base_middle * 2 ^ 16 + e.base_high * 2 ^ 24

abbrev pub entry_limit : GdtEntry → ℕ
entry_limit e = e.limit_low + e.granularity % 2 ^ 4 * 2 ^ 16

abbrev pub entry_flags : GdtEntry → ℕ
entry_flags e = e.granularity / 2 ^ 4

flags-field :
    (high flags : ℕ)
    → high < 16
    → flags < 256
    → bit_or high (bit_and flags 240) ≡ flags / 16 * 16 + high
flags-field high flags h f =
    let masked : bit_and flags (15 * 2 ^ 4) ≡ flags / 16 * 2 ^ 4 =
      bit_and-mul_pow 4 flags 15
      ∙ ap (λ q. q * 2 ^ 4) (bit_and_mask 4 (flags / 2 ^ 4) ∙ omega (arith, f)) in
    ap (bit_or high) masked ∙ bit_or_low_fields 4 (flags / 16) high h ∙ omega arith

-- The round trip of a descriptor: of the entry that `set_gdt_entry` writes, the processor reads the
-- 32-bit base, the low 20 bits of the limit, the access byte, and the high four of the granularity
-- byte as the flags.
pub gdt_entry_lem :
    (base limit access_byte granularity : ℕ)
    → base < 2 ^ 32
    → granularity < 2 ^ 8
    → (entry_base (gdt_entry base limit access_byte granularity) ≡ base)
      × (entry_limit (gdt_entry base limit access_byte granularity) ≡ limit % 2 ^ 20)
      × ((gdt_entry base limit access_byte granularity).access_byte ≡ access_byte)
      × (entry_flags (gdt_entry base limit access_byte granularity) ≡ granularity / 2 ^ 4)
unfolding gdt_entry
gdt_entry_lem base limit access_byte granularity hb hg =
    let nibble : bit_and (limit / 2 ^ 16) 15 ≡ limit / 2 ^ 16 % 2 ^ 4 =
      bit_and_mask 4 (limit / 2 ^ 16) in
    let high : bit_or (bit_and (limit / 2 ^ 16) 15) (bit_and granularity 240)
        ≡ granularity / 16 * 16 + limit / 2 ^ 16 % 2 ^ 4 =
      ap (λ n. bit_or n (bit_and granularity 240)) nibble
      ∙ flags-field (limit / 2 ^ 16 % 2 ^ 4) granularity (omega arith) hg in
    (
      omega (
        arith,
        hb,
        bit_and_mask 16 base,
        bit_and_mask 8 (base / 2 ^ 16),
        bit_and_mask 8 (base / 2 ^ 24),
      ),
      omega (arith, bit_and_mask 16 limit, high),
      refl,
      omega (arith, high),
    )

-- The table that `gdt_initialize` makes of any six entries: it succeeds; the entries 1 to 4 have base 0, a
-- limit of 20 ones, and the flags 12; the entry 5 has the address of the task state as its base, and
-- as its limit the low 20 bits of that address plus the size.
pub gdt_initialize_lem :
    (address : ℕ) (a b c d e f : GdtEntry)
    → address < 2 ^ 32
    → (tss : TssEntry) × (n k1 k2 k3 k4 t : GdtEntry) × (gdt_initialize address
          (a ∷ b ∷ c ∷ d ∷ e ∷ f ∷ [])
        ≡ ok (tss, n ∷ k1 ∷ k2 ∷ k3 ∷ k4 ∷ t ∷ []))
      × (entry_base k1 ≡ 0)
      × (entry_limit k1 ≡ 2 ^ 20 - 1)
      × (entry_flags k4 ≡ 12)
      × (entry_base t ≡ address)
      × (entry_limit t ≡ u32 (address + 104) % 2 ^ 20)
unfolding gdt_initialize set_gdt_entry write_tss
gdt_initialize_lem address a b c d e f small =
    let t = gdt_entry_lem address (u32 (address + 104)) 233 0 small (omega arith) in
    let k = gdt_entry_lem 0 (2 ^ 32 - 1) 154 207 (omega arith) (omega arith) in
    let r = gdt_entry_lem 0 (2 ^ 32 - 1) 242 207 (omega arith) (omega arith) in
    (
      record { ss0 = 16; esp0 = 0; cs = 11; segments = 19; iomap_base = 104 },
      gdt_entry 0 0 0 0,
      gdt_entry 0 (2 ^ 32 - 1) 154 207,
      gdt_entry 0 (2 ^ 32 - 1) 146 207,
      gdt_entry 0 (2 ^ 32 - 1) 250 207,
      gdt_entry 0 (2 ^ 32 - 1) 242 207,
      gdt_entry address (u32 (address + 104)) 233 0,
      refl,
      k.0,
      k.1 ∙ omega arith,
      r.3 ∙ omega arith,
      t.0,
      t.1,
    )

-- Every vector is handled: `handle_exception` never reads behind its 32 messages. Those up to 31 halt
-- with their own message, those from 32 to 47 go to `handle_platform_irq`, and the others halt with
-- message 16.
pub x86_exception_handler_lem :
    (vector : ℕ)
    → x86_exception_handler vector
      ≡ ok (
          if ltb vector 32
          then halted vector
          else if ltb vector 48
          then platform_irq
          else halted 16)
unfolding x86_exception_handler handle_exception handle_unknown
x86_exception_handler_lem vector = ground arith
