-- ===== src/Mm/Pmm/Tests.antt =====
-- Runs of the page allocator, and its theorems at concrete states.
use medusa_os.Prelude.{
  ℕ, ◌/◌, ◌%◌, ◌*◌, ◌^◌, ◌≡◌, refl, arith, ◌==◌, if◌then◌else◌, bit_of, ok, abort, ◌⊎◌, List, [],
  ◌∷◌, true, false,
}
use medusa_os.Misc.{sub32}
use medusa_os.Mm.Pmm.{
  Pmm, mmap_set, mmap_find_free, mmap_find_free_frame, pmm_alloc_page, pmm_alloc_pages,
  pmm_alloc_aligned_large_page, pmm_free_pages, read_word, find_in_word, update, set_blocks,
}
use medusa_os.Mm.Pmm.Marks.{mark}
use medusa_os.Mm.Pmm.Search.{FirstFree, mmap_find_free-FirstFree}
use medusa_os.Mm.Pmm.Frames.{FrameResult, NoFrame, mmap_find_free_frame-FrameResult}
use medusa_os.Mm.Pmm.Alloc.{
  IsValid, AllocResult, Allocated, limit, pmm_alloc_pages-AllocResult, pmm_alloc_page-AllocResult,
  pmm_free_pages-alloc, pmm_alloc_aligned_large_page_lem,
}
use medusa_os.Mm.Pmm.Init.{Entry, Tag, Boot, Symbols, mmap_tag, module_tag, other_tag}

-- 16 MiB, with the blocks 0, 1 and 2 in use.
abbrev demo : Pmm
demo = record {
  bitmap = λ i. if i == 0 then 7 else 0;
  mem_size = 16777216;
  used_blocks = 3;
  max_blocks = 4096;
  kernel_end = 12288;
}

demo-IsValid : IsValid demo
unfolding bit_of
demo-IsValid = record { zero_used = refl; small = omega arith; words = λ i. ground arith }

find_free_run : mmap_find_free demo ≡ ok 3
unfolding mmap_find_free read_word find_in_word
find_free_run = refl

find_free_frame_run : mmap_find_free_frame demo 40 ≡ ok 3
unfolding mmap_find_free_frame read_word
find_free_frame_run = refl

mmap_find_free_example :
    (r : ℕ) × (mmap_find_free demo ≡ ok r) × FirstFree demo 0 (demo.max_blocks / 32 * 32) r
mmap_find_free_example = mmap_find_free-FirstFree demo (omega arith)

mmap_find_free_frame_example :
    (r : ℕ) × (mmap_find_free_frame demo 40 ≡ ok r)
    × FrameResult demo 40 (demo.max_blocks / 32 * 32) r
unfolding bit_of
mmap_find_free_frame_example =
    mmap_find_free_frame-FrameResult demo 40 (omega arith) (omega arith) refl

pmm_alloc_pages_example :
    (addr : ℕ) × (s' : Pmm) × (pmm_alloc_pages demo 40 ≡ ok (addr, s'))
    × AllocResult demo 40 addr s'
pmm_alloc_pages_example =
    pmm_alloc_pages-AllocResult demo 40 (omega arith) (omega arith) demo-IsValid

pmm_alloc_page_example :
    (sub32 demo.max_blocks demo.used_blocks ≡ 0 × (pmm_alloc_page demo ≡ abort))
    ⊎ ((addr : ℕ) × (s' : Pmm) × (pmm_alloc_page demo ≡ ok (addr, s')) × AllocResult demo 1 addr s')
pmm_alloc_page_example = pmm_alloc_page-AllocResult demo demo-IsValid

pmm_alloc_aligned_large_page_example :
    (addr : ℕ) × (s' : Pmm) × (pmm_alloc_aligned_large_page demo ≡ ok (addr, s'))
    × ((Allocated demo 1024 addr s' × (addr % 2 ^ 22 ≡ 0))
        ⊎ ((addr ≡ 0) × (s' ≡ demo) × NoFrame demo 2048 (limit demo)))
pmm_alloc_aligned_large_page_example =
    pmm_alloc_aligned_large_page_lem demo (omega arith) demo-IsValid

-- 128 MiB available above 1 MiB, with one module behind the kernel.
abbrev boot_tags : List Tag
boot_tags =
    other_tag
    ∷ module_tag 0x300000
    ∷ mmap_tag (
        record { base_addr = 0; length = 0x9fc00; available = true }
        ∷ record { base_addr = 0xf0000; length = 0x10000; available = false }
        ∷ record { base_addr = 0x100000; length = 0x7ee0000; available = true }
        ∷ [])
    ∷ []

abbrev entries : List Entry
entries =
    record { base_addr = 0; length = 0x9fc00; available = true }
    ∷ record { base_addr = 0xf0000; length = 0x10000; available = false }
    ∷ record { base_addr = 0x100000; length = 0x7ee0000; available = true }
    ∷ []

abbrev booted : Boot
booted = record { address = 0x310000; total_size = 1000; tags = boot_tags }

abbrev symbols : Symbols
symbols = record { kernel_end = 0xc0250000; kernel_end_phys = 0x250000 }

abbrev power_on : Pmm
power_on = record { bitmap = λ i. 0; mem_size = 0; used_blocks = 0; max_blocks = 0; kernel_end = 0 }

-- The demo state with two pages more in use.
abbrev after_two : Pmm
after_two = record demo { bitmap = update (update demo.bitmap 0 15) 0 31; used_blocks = 5 }

alloc_two_run : pmm_alloc_pages demo 2 ≡ ok (12288, after_two)
unfolding pmm_alloc_pages mmap_find_free_frame read_word set_blocks mmap_set
alloc_two_run = refl

pmm_free_pages-alloc_example :
    (s'' : Pmm) × (pmm_free_pages after_two 12288 2 ≡ ok s'') × ((b : ℕ) → mark s'' b ≡ mark demo b)
pmm_free_pages-alloc_example =
    pmm_free_pages-alloc demo after_two 2 12288 (omega arith) (omega arith) demo-IsValid
      alloc_two_run (omega arith)
