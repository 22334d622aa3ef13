-- ===== src/Mm/Pmm/Init.antt =====
-- `init_pmm`: the bitmap from the boot information, read through multiboot2.c.
-- The boot information is the list of the tags before the end tag; a tag holds what the code reads
-- of it. The linker's symbols and the address of the structure are arguments.
pub mod Regions
use medusa_os.Prelude.{
  ℕ, zero, suc, ◌+◌, ◌-◌, ◌*◌, ◌/◌, ◌%◌, ◌^◌, ◌≤◌, ◌<◌, ◌≡◌, ◌≢◌, refl, ◌∙◌, ap, sym, subst, arith,
  ◌==◌, Bool, true, false, ltb, ==→eq, ==_false→ne, Outcome, ok, ◌>>=◌, abort, fault, ◌⊎◌, inl, inr,
  Bool-cases, lt→ltb, eq→==, ne→==_false, le→not_ltb, if◌then◌else◌, List, [], ◌∷◌, Option, none,
  some, access, not,
}
use medusa_os.Misc.{u32, sub32, max_int}
use medusa_os.Mm.Pmm.{Pmm, block_size, pmm_init_region, pmm_deinit_region}

-- `mb2_mmap_entry_t`
pub record Entry : Type 0 where
  pub base_addr : ℕ
  pub length : ℕ
  pub available : Bool

pub data Tag : Type 0 where
  module_tag : (mod_end : ℕ) → Tag
  mmap_tag : List Entry → Tag
  other_tag : Tag

pub record Boot : Type 0 where
  pub address : ℕ
  pub total_size : ℕ
  pub tags : List Tag

-- `KERNEL_END` and `KERNEL_END_PHYS`, from the linker.
pub record Symbols : Type 0 where
  pub kernel_end : ℕ
  pub kernel_end_phys : ℕ

abbrev pub kernel_end_map : ℕ
kernel_end_map = 0xc0400000

-- The largest end of a module. `max` compares as `int`.
unfoldable pub modules_end : List Tag → ℕ → ℕ
modules_end [] e = e
modules_end (module_tag m ∷ tags) e = modules_end tags (max_int m e)
modules_end (mmap_tag es ∷ tags) e = modules_end tags e
modules_end (other_tag ∷ tags) e = modules_end tags e

-- `mb2_find_tag(boot, MB2_TAG_MMAP)`; `none` is the null pointer.
unfoldable pub find_mmap : List Tag → Option (List Entry)
find_mmap [] = none
find_mmap (mmap_tag es ∷ tags) = some es
find_mmap (module_tag m ∷ tags) = find_mmap tags
find_mmap (other_tag ∷ tags) = find_mmap tags

-- The loop over the memory map: the state, and the 64-bit sum of the available lengths.
pub init_regions : List Entry → Pmm → ℕ → Outcome (Pmm × ℕ)
init_regions [] s available = ok (s, available)
init_regions (e ∷ es) s available = elim e.available [
  | true ↦ do
    s' ← pmm_init_region s (u32 e.base_addr) (u32 e.length)
    init_regions es s' ((available + e.length) % 2 ^ 64)
  | false ↦ init_regions es s available
]

-- The end of what must be kept: the kernel and its modules.
unfoldable pub protected_end : Symbols → Pmm → List Tag → ℕ
unfolding modules_end
protected_end y s tags =
    let e = modules_end tags s.kernel_end in
    if ltb e y.kernel_end_phys then y.kernel_end_phys else e

-- `memset(bitmap, 0xFF, sizeof(bitmap))`, after `kernel_end` is set.
abbrev pub all_taken : Pmm → ℕ → Pmm
all_taken s e = record s { bitmap = λ i. 0xffffffff; kernel_end = e }

-- The sizes that the sum of the available lengths gives. All blocks count as used at first.
abbrev pub sized : Pmm → ℕ → Pmm
sized s available = record s {
  mem_size = u32 available;
  max_blocks = u32 available / block_size;
  used_blocks = u32 available / block_size;
}

abbrev pub has_tags : List Tag → Bool
has_tags [] = false
has_tags (t ∷ ts) = true

-- With no tag before the end tag, the first loop reads behind it; with no memory map, the second
-- loop reads through the null pointer.
pub init_pmm : Symbols → Boot → Pmm → Outcome Pmm
unfolding init_regions find_mmap protected_end
init_pmm y boot s =
    let e = protected_end y s boot.tags in
    if not (has_tags boot.tags)
    then fault
    else if ltb kernel_end_map y.kernel_end
    then abort
    else do
      entries ← access (find_mmap boot.tags)
      (s1, available) ← init_regions entries (all_taken s e) 0
      s2 ← pmm_deinit_region (sized s1 available) 0 e
      pmm_deinit_region s2 boot.address boot.total_size
