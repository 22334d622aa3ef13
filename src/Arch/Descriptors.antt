-- ===== src/Arch/Descriptors.antt =====
-- kernel/arch/i386: descriptor_tables.c, tss.c and pic.c. A write to a port is a pair of the port and
-- the byte.
pub mod Laws
mod Tests
use medusa_os.Prelude.{
  ℕ, zero, suc, ◌+◌, ◌-◌, ◌*◌, ◌/◌, ◌%◌, ◌^◌, ◌==◌, ltb, leb, if◌then◌else◌, Option, none, some,
  List, [], ◌∷◌, ◌++◌, length, get_elem?, set, replicate, bit_and, bit_or, Outcome, ok, fault,
  ◌>>=◌, access,
}
use medusa_os.Misc.{u32}

-- `struct gdt_entry`
pub record GdtEntry : Type 0 where
  pub limit_low : ℕ
  pub base_low : ℕ
  pub base_middle : ℕ
  pub access_byte : ℕ
  pub granularity : ℕ
  pub base_high : ℕ

-- The entry that `set_gdt_entry` writes.
pub gdt_entry : (base limit access_byte granularity : ℕ) → GdtEntry
gdt_entry base limit access_byte granularity = record {
  limit_low = bit_and limit 65535;
  base_low = bit_and base 65535;
  base_middle = bit_and (base / 2 ^ 16) 255;
  access_byte = access_byte;
  granularity = bit_or (bit_and (limit / 2 ^ 16) 15) (bit_and granularity 240);
  base_high = bit_and (base / 2 ^ 24) 255;
}

-- `gdt` has six entries; an index out of them is a fault.
pub set_gdt_entry :
    (index base limit access_byte granularity : ℕ) → List GdtEntry → Outcome (List GdtEntry)
unfolding gdt_entry
set_gdt_entry index base limit access_byte granularity gdt =
    if ltb index (length gdt)
    then ok (set gdt index (gdt_entry base limit access_byte granularity))
    else fault

-- `tss_entry_t`, the fields that are set; the others are zero.
pub record TssEntry : Type 0 where
  pub ss0 : ℕ
  pub esp0 : ℕ
  pub cs : ℕ
  pub segments : ℕ
  pub iomap_base : ℕ

-- `sizeof(tss_entry_t)`
abbrev pub tss_size : ℕ
tss_size = 104

-- `address` is `&tss_entry`.
pub write_tss : (address num ss0 esp0 : ℕ) → List GdtEntry → Outcome (TssEntry × List GdtEntry)
unfolding set_gdt_entry
write_tss address num ss0 esp0 gdt = do
  gdt' ← set_gdt_entry num address (u32 (address + tss_size)) 233 0 gdt
  ok (record { ss0 = ss0; esp0 = esp0; cs = 11; segments = 19; iomap_base = tss_size }, gdt')

pub set_kernel_stack : (stack : ℕ) → TssEntry → TssEntry
set_kernel_stack stack tss_entry = record tss_entry { esp0 = stack }

pub install_tss : TssEntry → TssEntry
install_tss tss_entry = record tss_entry { ss0 = 16; iomap_base = tss_size }

pub gdt_initialize : (address : ℕ) → List GdtEntry → Outcome (TssEntry × List GdtEntry)
unfolding set_gdt_entry write_tss
gdt_initialize address gdt = do
  gdt0 ← set_gdt_entry 0 0 0 0 0 gdt
  gdt1 ← set_gdt_entry 1 0 (2 ^ 32 - 1) 154 207 gdt0
  gdt2 ← set_gdt_entry 2 0 (2 ^ 32 - 1) 146 207 gdt1
  gdt3 ← set_gdt_entry 3 0 (2 ^ 32 - 1) 250 207 gdt2
  gdt4 ← set_gdt_entry 4 0 (2 ^ 32 - 1) 242 207 gdt3
  write_tss address 5 16 0 gdt4

-- What `x86_exception_handler` does: print `exception_messages[vector]` and halt, or call
-- `handle_platform_irq`.
pub data Dispatched : Type 0 where
  halted : (message : ℕ) → Dispatched
  platform_irq : Dispatched

-- `exception_messages` has 32 entries.
pub handle_exception : (vector : ℕ) → Outcome Dispatched
handle_exception vector = if ltb vector 32 then ok (halted vector) else fault

pub handle_unknown : Outcome Dispatched
unfolding handle_exception
handle_unknown = handle_exception 16

pub x86_exception_handler : (vector : ℕ) → Outcome Dispatched
unfolding handle_exception handle_unknown
x86_exception_handler vector =
    if leb vector 31
    then handle_exception vector
    else if leb vector 47
    then ok platform_irq
    else handle_unknown

abbrev pub PortWrites : Type 0
PortWrites = List (ℕ × ℕ)

pub pic_init : PortWrites
pic_init =
    (32, 17)
    ∷ (160, 17)
    ∷ (33, 32)
    ∷ (161, 40)
    ∷ (33, 4)
    ∷ (161, 2)
    ∷ (33, 1)
    ∷ (161, 1)
    ∷ (33, 0)
    ∷ (161, 0)
    ∷ []

pub pic_disable : PortWrites
pic_disable = (33, 255) ∷ (161, 255) ∷ []

pub pic_send_eoi : (irq : ℕ) → PortWrites
pic_send_eoi irq = (if leb 40 irq then (160, 32) ∷ [] else []) ++ ((32, 32) ∷ [])
