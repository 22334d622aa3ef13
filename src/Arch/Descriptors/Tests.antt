-- ===== src/Arch/Descriptors/Tests.antt =====
-- Example descriptors and vectors.
use medusa_os.Prelude.{◌+◌, ◌-◌, ◌/◌, ◌%◌, ◌^◌, ◌≡◌, arith, List, [], ◌∷◌, ok}
use medusa_os.Misc.{u32}
use medusa_os.Arch.Descriptors.{
  GdtEntry, gdt_entry, TssEntry, gdt_initialize, platform_irq, x86_exception_handler,
}
use medusa_os.Arch.Descriptors.Laws.{
  entry_base, entry_limit, entry_flags, gdt_entry_lem, gdt_initialize_lem,
  x86_exception_handler_lem,
}

gdt_entry_example :
    (entry_base (gdt_entry 305419896 703710 154 207) ≡ 305419896)
    × (entry_limit (gdt_entry 305419896 703710 154 207) ≡ 703710 % 2 ^ 20)
    × ((gdt_entry 305419896 703710 154 207).access_byte ≡ 154)
    × (entry_flags (gdt_entry 305419896 703710 154 207) ≡ 207 / 2 ^ 4)
gdt_entry_example = gdt_entry_lem 305419896 703710 154 207 (omega arith) (omega arith)

abbrev empty_entry : GdtEntry
empty_entry = record {
  limit_low = 0;
  base_low = 0;
  base_middle = 0;
  access_byte = 0;
  granularity = 0;
  base_high = 0;
}

abbrev old_gdt : List GdtEntry
old_gdt = empty_entry ∷ empty_entry ∷ empty_entry ∷ empty_entry ∷ empty_entry ∷ empty_entry ∷ []

gdt_initialize_example :
    (tss : TssEntry) × (n k1 k2 k3 k4 t : GdtEntry) × (gdt_initialize 1048576 old_gdt
      ≡ ok (tss, n ∷ k1 ∷ k2 ∷ k3 ∷ k4 ∷ t ∷ []))
    × (entry_base k1 ≡ 0)
    × (entry_limit k1 ≡ 2 ^ 20 - 1)
    × (entry_flags k4 ≡ 12)
    × (entry_base t ≡ 1048576)
    × (entry_limit t ≡ u32 (1048576 + 104) % 2 ^ 20)
gdt_initialize_example =
    gdt_initialize_lem 1048576 empty_entry empty_entry empty_entry empty_entry empty_entry
      empty_entry (omega arith)

x86_exception_handler_example : x86_exception_handler 33 ≡ ok platform_irq
x86_exception_handler_example = x86_exception_handler_lem 33
