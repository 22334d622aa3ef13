-- ===== src/Mm/Kmalloc/Tests.antt =====
-- Runs of the kernel heap, and its theorems at concrete heaps.
use medusa_os.Prelude.{
  ℕ, ◌+◌, ◌≤◌, ◌<◌, ◌≡◌, ◌⊎◌, inl, inr, refl, arith, none, [], ◌∷◌, ◌++◌, ok, abort,
}
use medusa_os.Misc.{align_to}
use medusa_os.Mm.Paging.{Mm}
use medusa_os.Mm.Kmalloc.{
  Heap, heap_begin, mem_find_block, aligned_alloc, kfree, top_of, mem_block_size, mem_new_block,
}
use medusa_os.Mm.Kmalloc.Chain.{heap_end, chain_end, Live}
use medusa_os.Mm.Kmalloc.Laws.{IsValid, Allocated}
use medusa_os.Mm.Kmalloc.Grow.{aligned_alloc-Allocated, aligned_alloc-apart}
use medusa_os.Mm.Kmalloc.Free.{Freed, kfree-Freed}

abbrev tables : Mm
tables = record {
  pmm = record {
    bitmap = λ i. 0;
    mem_size = 16777216;
    used_blocks = 3;
    max_blocks = 4096;
    kernel_end = 12288;
  };
  entries = λ i. 0;
}

-- The empty block of the setup, 24 bytes in use, and 16 free bytes.
abbrev three_blocks : Heap
three_blocks = record {
  mm = tables;
  chain =
      record { addr = 0xc0400000; size = 1 }
      ∷ record { addr = 0xc040000c; size = 25 }
      ∷ record { addr = 0xc0400030; size = 16 }
      ∷ [];
  used_memory = 24;
  bytes = λ a. 0;
}

three_blocks-IsValid : IsValid three_blocks
three_blocks-IsValid = record { set_up = refl; ordered = omega arith; counted = refl }

middle-Live : Live three_blocks.chain 0xc0400014 24
middle-Live = inr (inl (refl, refl, refl))

aligned_alloc_example :
    ((aligned_alloc three_blocks 4 10 ≡ abort)
      × (mem_find_block three_blocks.chain (align_to 10 8) 4 ≡ none)
      × (heap_end < align_to (chain_end heap_begin three_blocks.chain + 8) 4 + align_to 10 8))
    ⊎ ((ptr : ℕ) × (h' : Heap) × (aligned_alloc three_blocks 4 10 ≡ ok (ptr, h'))
        × Allocated 4 10 three_blocks ptr h')
aligned_alloc_example =
    aligned_alloc-Allocated three_blocks 4 10 three_blocks-IsValid (omega arith) refl (omega arith)
      (omega arith)

abbrev grown : Heap
grown = record three_blocks {
  chain = three_blocks.chain ++ (record { addr = 0xc040004c; size = 41 } ∷ []);
  used_memory = 64;
}

alloc_run : aligned_alloc three_blocks 4 40 ≡ ok (0xc0400054, grown)
unfolding aligned_alloc align_to top_of mem_block_size mem_new_block
alloc_run = refl

aligned_alloc-apart_example : (0xc0400054 + 40 ≤ 0xc0400014) ⊎ (0xc0400014 + 24 ≤ 0xc0400054)
aligned_alloc-apart_example =
    aligned_alloc-apart three_blocks 4 40 0xc0400054 grown 0xc0400014 24 three_blocks-IsValid
      (omega arith) refl (omega arith) (omega arith) alloc_run middle-Live

kfree_example :
    (h' : Heap) × (kfree three_blocks 0xc0400014 ≡ ok h') × Freed three_blocks 0xc0400014 24 h'
kfree_example = kfree-Freed three_blocks 0xc0400014 24 three_blocks-IsValid middle-Live
