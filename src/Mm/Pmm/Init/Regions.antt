-- ===== src/Mm/Pmm/Init/Regions.antt =====
-- What the region functions and `init_pmm` mark, block by block.
use medusa_os.Prelude.{
  ℕ, ◌+◌, ◌*◌, ◌/◌, ◌%◌, ◌^◌, ◌≤◌, ◌<◌, ◌≡◌, ◌⊎◌, ◌∙◌, arith, ◌==◌, Bool, false, ltb, leb, ◌&&◌,
  ◌||◌, ok, if◌then◌else◌, List, [], ◌∷◌, some,
}
use medusa_os.Misc.{u32, divide_up_lem}
use medusa_os.Mm.Pmm.{Pmm, block_size, region_blocks, pmm_init_region, pmm_deinit_region}
use medusa_os.Mm.Pmm.Marks.{mark, Marked, mmap_set-Marked, set_blocks-Marked, unset_blocks-Marked}
use medusa_os.Mm.Pmm.Init.{Entry, Boot, Symbols, kernel_end_map, find_mmap, protected_end}

-- The block `b` holds a byte of the region.
abbrev pub covers : (addr size b : ℕ) → Bool
covers addr size b = leb (addr / block_size) b && ltb (b * block_size) (addr + size)

-- The region ends at least a page below the end of the address space.
abbrev pub Fits : (addr size : ℕ) → Type 0
Fits addr size = addr + size + block_size < 2 ^ 32

region_blocks_lem :
    (addr size : ℕ)
    → Fits addr size
    → let n = region_blocks addr size in
      (addr / block_size + n ≤ 2 ^ 20)
      × (addr + size ≤ (addr / block_size + n) * block_size)
      × ((addr / block_size + n) * block_size < addr + size + block_size)
region_blocks_lem addr size fits =
    let d = divide_up_lem (u32 (size + addr % block_size)) block_size (omega arith) (omega arith) in
    omega (arith, d)

mark_of_Marked :
    (v addr size : ℕ) (s s' : Pmm)
    → Fits addr size
    → Marked v (addr / block_size) (region_blocks addr size) s s'
    → (b : ℕ) → mark s' b ≡ (if covers addr size b then v else mark s b)
mark_of_Marked v addr size s s' fits m b =
    let bounds = region_blocks_lem addr size fits in ground (arith, bounds, m.inside b, m.outside b)

-- `pmm_deinit_region` marks the blocks of the region as used, and no others; the counter grows by
-- their number, modulo 2 ^ 32.
pub pmm_deinit_region_lem :
    (s : Pmm) (addr size : ℕ)
    → Fits addr size
    → (s' : Pmm) × (pmm_deinit_region s addr size ≡ ok s')
      × ((b : ℕ) → mark s' b ≡ (if covers addr size b then 1 else mark s b))
      × Marked 1 (addr / block_size) (region_blocks addr size) s s'
      × (u32 s'.used_blocks ≡ u32 (s.used_blocks + region_blocks addr size))
unfolding pmm_deinit_region
pmm_deinit_region_lem s addr size fits =
    let bounds = region_blocks_lem addr size fits in
    let (t, e, m, c) = set_blocks-Marked (region_blocks addr size) (addr / block_size) s bounds.0 in
    (t, e, mark_of_Marked 1 addr size s t fits m, m, c)

-- `pmm_init_region` marks the blocks of the region as free, and no others, but for block 0, which
-- it always marks as used.
pub pmm_init_region_lem :
    (s : Pmm) (addr size : ℕ)
    → Fits addr size
    → (s' : Pmm) × (pmm_init_region s addr size ≡ ok s')
      × ((b : ℕ) → mark s' b ≡ (if b == 0 then 1 else if covers addr size b then 0 else mark s b))
      × (((i : ℕ) → s.bitmap i < 2 ^ 32) → (i : ℕ) → s'.bitmap i < 2 ^ 32)
      × (s'.kernel_end ≡ s.kernel_end)
unfolding pmm_init_region
pmm_init_region_lem s addr size fits =
    let bounds = region_blocks_lem addr size fits in
    let (t, e, m, c) =
      unset_blocks-Marked (region_blocks addr size) (addr / block_size) s bounds.0 in
    let (u, e', m', c') = mmap_set-Marked t 0 (omega arith) in
    (
      u,
      rw e e',
      (λ b. ground (arith, mark_of_Marked 0 addr size s t fits m b, m'.inside b, m'.outside b)),
      (λ w. m'.words (m.words w)),
      m'.kernel_end ∙ m.kernel_end,
    )

-- Some available entry of the memory map holds a byte of the block, where its address and its length
-- are the 32-bit words that `pmm_init_region` is called with.
abbrev pub is_marked_free : List Entry → ℕ → Bool
is_marked_free [] b = false
is_marked_free (e ∷ es) b =
    (e.available && covers (u32 e.base_addr) (u32 e.length) b) || is_marked_free es b

abbrev pub AllFit : List Entry → Type 0
AllFit [] = Unit {0}
AllFit (e ∷ es) = Fits (u32 e.base_addr) (u32 e.length) × AllFit es

-- The bitmap after the loop over the memory map.
record Mapped (es : List Entry) (s s' : Pmm) : Type 0 where
  marks : (b : ℕ) → mark s' b ≡ (if b == 0 then 1 else if is_marked_free es b then 0 else mark s b)
  words : (i : ℕ) → s'.bitmap i < 2 ^ 32

-- What the boot information must be like for `init_pmm` to come through: there is a memory map
-- before the end tag, the kernel fits its first mapping, and the regions that the region functions are
-- called with fit 32-bit addresses.
pub record IsBootable (y : Symbols) (boot : Boot) (s : Pmm) (entries : List Entry) : Type 0 where
  pub mapped : find_mmap boot.tags ≡ some entries
  pub kernel_fits : y.kernel_end ≤ kernel_end_map
  pub entries_fit : AllFit entries
  pub end_fits : Fits 0 (protected_end y s boot.tags)
  pub boot_fits : Fits boot.address boot.total_size

-- The blocks that `init_pmm` keeps from the allocator.
abbrev pub is_protected : Symbols → Boot → Pmm → ℕ → Bool
is_protected y boot s b =
    covers 0 (protected_end y s boot.tags) b || covers boot.address boot.total_size b

-- How many blocks `init_pmm` counts for the two regions that it protects.
abbrev pub protected_count : Symbols → Boot → Pmm → ℕ
protected_count y boot s =
    region_blocks 0 (protected_end y s boot.tags) + region_blocks boot.address boot.total_size

-- Some available entry of the memory map holds a byte of the block.
abbrev pub is_available : List Entry → ℕ → Bool
is_available [] b = false
is_available (e ∷ es) b = (e.available && covers e.base_addr e.length b) || is_available es b

-- Every available entry has an address and a length of 32 bits.
abbrev pub AllInReach : List Entry → Type 0
AllInReach [] = Unit {0}
AllInReach (e ∷ es) =
    ((e.available ≡ false) ⊎ ((e.base_addr < 2 ^ 32) × (e.length < 2 ^ 32))) × AllInReach es
