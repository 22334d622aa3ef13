-- ===== src/Mm/Pmm.antt =====
-- kernel/kernel/mm/pmm.c: the allocator of physical pages. A bitmap of 2 ^ 20 bits, one for each
-- 4 KiB block, with a set bit for a block in use.
-- The file's static variables are the fields of `Pmm`; an access past the bitmap is a `fault`.
pub mod Marks
pub mod Search
pub mod Frames
pub mod Alloc
pub mod Init
mod Tests
use medusa_os.Prelude.{
  ℕ, zero, suc, ◌+◌, ◌-◌, ◌*◌, ◌/◌, ◌%◌, ◌^◌, ◌==◌, ltb, if◌then◌else◌, Option, none, some, bit_and,
  bit_or, bit_of, Outcome, ok, abort, fault, ◌>>=◌, not,
}
use medusa_os.Misc.{u32, sub32, divide_up}

pub record Pmm : Type 0 where
  pub bitmap : ℕ → ℕ
  pub mem_size : ℕ
  pub used_blocks : ℕ
  pub max_blocks : ℕ
  pub kernel_end : ℕ

abbrev pub block_size : ℕ
block_size = 4096

-- `bitmap[1024 * 1024 / 32]`
abbrev pub bitmap_words : ℕ
bitmap_words = 32768

-- `NTHBIT(n)`
abbrev pub nth_bit : ℕ → ℕ
nth_bit n = 2 ^ n

-- `~NTHBIT(n)`
abbrev pub other_bits : ℕ → ℕ
other_bits n = 2 ^ 32 - 1 - 2 ^ n

abbrev pub update : (ℕ → ℕ) → ℕ → ℕ → ℕ → ℕ
update f i v j = if i == j then v else f j

-- `bitmap[i]`
pub read_word : Pmm → ℕ → Outcome ℕ
read_word s i = if ltb i bitmap_words then ok (s.bitmap i) else fault

pub mmap_set : Pmm → ℕ → Outcome Pmm
unfolding read_word
mmap_set s bit = do
  w ← read_word s (bit / 32)
  ok (record s {
    bitmap = update s.bitmap (bit / 32) (bit_or w (nth_bit (bit % 32)));
    used_blocks = u32 (s.used_blocks + 1);
  })

pub mmap_unset : Pmm → ℕ → Outcome Pmm
unfolding read_word
mmap_unset s bit = do
  w ← read_word s (bit / 32)
  ok (record s {
    bitmap = update s.bitmap (bit / 32) (bit_and w (other_bits (bit % 32)));
    used_blocks = sub32 s.used_blocks 1;
  })

pub mmap_test : Pmm → ℕ → Outcome ℕ
unfolding read_word
mmap_test s bit = do w ← read_word s (bit / 32); ok (bit_and w (nth_bit (bit % 32)))

-- The inner loop of `mmap_find_free`, with `left` bits of the word to look at.
pub find_in_word : ℕ → (left j : ℕ) → Option ℕ
find_in_word w zero j = none
find_in_word w (suc left) j =
    let rest = find_in_word w left (j + 1) in if bit_and w (nth_bit j) == 0 then some j else rest

-- The outer loop, with `left` words to look at.
pub find_free_from : Pmm → (left i : ℕ) → Outcome ℕ
find_free_from s zero i = ok 0
find_free_from s (suc left) i =
    let rest = find_free_from s left (i + 1) in
    do
      w ← read_word s i
      if w == 0xffffffff
          then rest
          else elim (find_in_word w 32 0) [ some j ↦ ok (i * 32 + j) | none ↦ rest ]

pub mmap_find_free : Pmm → Outcome ℕ
unfolding find_free_from
mmap_find_free s = find_free_from s (s.max_blocks / 32) 0

-- What `mmap_find_free_frame` carries from bit to bit.
pub record Run : Type 0 where
  pub first : ℕ
  pub count : ℕ

abbrev pub no_run : Run
no_run = record { first = 0; count = 0 }

-- One round of the inner loop, up to the test of `count`.
pub run_step : ℕ → ℕ → Run → Run
run_step w at r =
    if bit_and w (nth_bit (at % 32)) == 0
    then record { first = if r.first == 0 then at else r.first; count = r.count + 1 }
    else no_run

pub data Scan : Type 0 where
  found : ℕ → Scan
  scanned : Run → Scan

-- The inner loop over the word of the block `at`.
pub scan_word : ℕ → ℕ → (left at : ℕ) → Run → Scan
unfolding run_step
scan_word size w zero at r = scanned r
scan_word size w (suc left) at r =
    let r' = run_step w at r in
    let rest = scan_word size w left (at + 1) r' in
    if r'.count == size then found r'.first else rest

-- A whole word of the bitmap, the word `i`.
pub scan_one : (size w i : ℕ) → Run → Scan
unfolding scan_word
scan_one size w i r = if w == 0xffffffff then scanned no_run else scan_word size w 32 (i * 32) r

pub scan_from : Pmm → ℕ → (left i : ℕ) → Run → Outcome ℕ
unfolding scan_one
scan_from s size zero i r = ok 0
scan_from s size (suc left) i r = do
  w ← read_word s i
  elim (scan_one size w i r) [
    | found first ↦ ok first
    | scanned r' ↦ scan_from s size left (i + 1) r'
  ]

pub mmap_find_free_frame : Pmm → ℕ → Outcome ℕ
unfolding scan_from
mmap_find_free_frame s size = scan_from s size (s.max_blocks / 32) 0 no_run

-- The loops that mark `num` blocks from `base` on, as used or as free.
pub set_blocks : (num base : ℕ) → Pmm → Outcome Pmm
set_blocks zero base s = ok s
set_blocks (suc num) base s = do s' ← mmap_set s base; set_blocks num (base + 1) s'

pub unset_blocks : (num base : ℕ) → Pmm → Outcome Pmm
unset_blocks zero base s = ok s
unset_blocks (suc num) base s = do s' ← mmap_unset s base; unset_blocks num (base + 1) s'

-- The number of blocks that a region touches, as both region functions compute it.
abbrev pub region_blocks : ℕ → ℕ → ℕ
region_blocks addr size = divide_up (u32 (size + addr % block_size)) block_size

pub pmm_init_region : Pmm → (addr size : ℕ) → Outcome Pmm
unfolding unset_blocks
pmm_init_region s addr size = do
  s' ← unset_blocks (region_blocks addr size) (addr / block_size) s
  mmap_set s' 0

pub pmm_deinit_region : Pmm → (addr size : ℕ) → Outcome Pmm
unfolding set_blocks
pmm_deinit_region s addr size = set_blocks (region_blocks addr size) (addr / block_size) s

pub pmm_used_memory : Pmm → ℕ
pmm_used_memory s = u32 (s.used_blocks * block_size)

pub pmm_total_memory : Pmm → ℕ
pmm_total_memory s = s.mem_size

-- The address of a page, and the state after the call. `max_blocks - used_blocks <= 0` compares
-- unsigned words.
pub pmm_alloc_page : Pmm → Outcome (ℕ × Pmm)
pmm_alloc_page s = if sub32 s.max_blocks s.used_blocks == 0 then abort else do
  block ← mmap_find_free s
  if block == 0 then ok (0, s) else do s' ← mmap_set s block; ok (u32 (block * block_size), s')

pub pmm_alloc_aligned_large_page : Pmm → Outcome (ℕ × Pmm)
pmm_alloc_aligned_large_page s =
    if ltb (sub32 s.max_blocks s.used_blocks) 2048 then ok (0, s) else do
      free_block ← mmap_find_free_frame s 2048
      if free_block == 0 then ok (0, s) else do
        let aligned_block = u32 ((free_block / 1024 + 1) * 1024)
        s' ← set_blocks 1024 aligned_block s
        ok (u32 (aligned_block * block_size), s')

pub pmm_alloc_pages : Pmm → ℕ → Outcome (ℕ × Pmm)
pmm_alloc_pages s num = if ltb (sub32 s.max_blocks s.used_blocks) num then ok (0, s) else do
  first_block ← mmap_find_free_frame s num
  if first_block == 0
      then ok (0, s)
      else do s' ← set_blocks num first_block s; ok (u32 (first_block * block_size), s')

pub pmm_free_page : Pmm → ℕ → Outcome Pmm
pmm_free_page s addr = mmap_unset s (addr / block_size)

pub pmm_free_pages : Pmm → (addr num : ℕ) → Outcome Pmm
pmm_free_pages s addr num = unset_blocks num (addr / block_size) s

pub pmm_get_kernel_end : Pmm → ℕ
pmm_get_kernel_end s = u32 (s.kernel_end + s.max_blocks / 8)
