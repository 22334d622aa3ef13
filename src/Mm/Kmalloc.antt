-- ===== src/Mm/Kmalloc.antt =====
-- kernel/kernel/mm/kmalloc.c: the kernel heap, a chain of blocks from `bottom` to `top`.
-- `Heap.chain` holds the headers of the blocks in the order of their `next` pointers, and is empty
-- while `top` is null. A pointer to a block is its place in the chain; a pointer to a block that
-- is not there is a `fault`. `Heap.bytes` is the memory that the blocks hand out.
pub mod Chain
pub mod Places
pub mod Laws
pub mod Grow
pub mod Free
mod Tests
use medusa_os.Prelude.{
  ℕ, zero, suc, ◌+◌, ◌-◌, ◌*◌, ◌/◌, ◌%◌, ◌^◌, ◌==◌, ltb, leb, if◌then◌else◌, Bool, true, false, not,
  ◌&&◌, ◌||◌, Option, none, some, List, [], ◌∷◌, ◌++◌, bit_and, bit_or, Outcome, ok, abort, fault,
  ◌>>=◌, access,
}
use medusa_os.Misc.{u32, sub32, align_to}
use medusa_os.Mm.Pmm.{pmm_alloc_pages}
use medusa_os.Mm.Paging.{Mm, paging_map_pages, page_rw}

-- `mem_block_t`: its address, and its word of size and `used` flag.
pub record Block : Type 0 where
  pub addr : ℕ
  pub size : ℕ

pub record Heap : Type 0 where
  pub mm : Mm
  pub chain : List Block
  pub used_memory : ℕ
  pub bytes : ℕ → ℕ

abbrev pub min_align : ℕ
min_align = 4

abbrev pub heap_begin : ℕ
heap_begin = 0xc0400000

abbrev pub heap_size : ℕ
heap_size = 0x1e00000

-- `offsetof(mem_block_t, data)` and `sizeof(mem_block_t)`
abbrev pub header_size : ℕ
header_size = 8

abbrev pub block_struct : ℕ
block_struct = 12

-- `block->size & ~1`
abbrev pub payload : ℕ → ℕ
payload size = bit_and size 0xfffffffe

pub mem_block_size : Block → ℕ
mem_block_size b = u32 (block_struct + payload b.size)

-- `block->data`
abbrev pub data_address : Block → ℕ
data_address b = u32 (b.addr + header_size)

-- The address that `mem_get_block` computes.
pub mem_get_block : ℕ → ℕ
mem_get_block pointer = u32 (sub32 pointer block_struct + 4)

pub mem_is_aligned : Block → ℕ → Bool
mem_is_aligned b align = data_address b % align == 0

-- A place in the chain.
pub record Place : Type 0 where
  pub before : List Block
  pub here : Block
  pub after : List Block

abbrev pub later : Block → Option Place → Option Place
later b none = none
later b (some p) = some (record p { before = b ∷ p.before })

-- The first block that passes a test.
pub find_place : (Block → Bool) → List Block → Option Place
find_place test [] = none
find_place test (b ∷ bs) =
    if test b
    then some (record { before = []; here = b; after = bs })
    else later b (find_place test bs)

-- The test of the loop of `mem_find_block`, as the condition to stop.
abbrev pub is_suitable : (size align : ℕ) → Block → Bool
is_suitable size align b =
    not (ltb (payload b.size) size || not (bit_and b.size 1 == 0) || not (mem_is_aligned b align))

pub mem_find_block : List Block → (size align : ℕ) → Option Place
unfolding find_place mem_is_aligned
mem_find_block chain size align = find_place (is_suitable size align) chain

-- `top`
pub top_of : List Block → Option Block
top_of [] = none
top_of (b ∷ []) = some b
top_of (b ∷ c ∷ bs) = top_of (c ∷ bs)

-- The new block, and the filler before it if there is room for one.
pub mem_new_block : (top : Block) (size align : ℕ) → List Block
mem_new_block top size align =
    let next = u32 (top.addr + mem_block_size top) in
    let next_aligned = sub32 (align_to (u32 (next + header_size)) align) header_size in
    let next' = sub32 (align_to (u32 (next + header_size)) min_align) header_size in
    let block : Block = record { addr = next_aligned; size = bit_or size 1 } in
    let gap = sub32 next_aligned next' in
    let filler : Block = record { addr = next'; size = sub32 gap block_struct } in
    if ltb (block_struct + min_align) gap then filler ∷ block ∷ [] else block ∷ []

-- The first allocation maps the heap, and makes an empty used block.
pub setup_heap : Heap → Outcome Heap
setup_heap h = do
  (heap_phys, pmm') ← pmm_alloc_pages h.mm.pmm (heap_size / 0x1000)
  mm' ←
      paging_map_pages (heap_size / 0x1000) (record h.mm { pmm = pmm' }) heap_begin heap_phys
        page_rw
  ok (record h { mm = mm'; chain = record { addr = heap_begin; size = 1 } ∷ [] })

abbrev pub put_block : Place → Block → List Block
put_block p b = p.before ++ (b ∷ p.after)

-- The `else` branch: a block behind `top`, if it ends inside the heap.
pub alloc_new : Heap → (align size : ℕ) → Outcome (ℕ × Heap)
alloc_new h align size = do
  top ← access (top_of h.chain)
  let end = u32 (align_to (u32 (u32 (top.addr + mem_block_size top) + header_size)) align + size)
  if ltb (heap_begin + heap_size) end then abort else do
    let blocks = mem_new_block top size align
    block ← access (top_of blocks)
    ok (
      data_address block,
      record h { chain = h.chain ++ blocks; used_memory = u32 (h.used_memory + size) },
    )

-- What follows the setup, for a size that is aligned to 8.
pub alloc_in : Heap → (align size : ℕ) → Outcome (ℕ × Heap)
unfolding alloc_new mem_find_block
alloc_in h align size = elim (mem_find_block h.chain size align) [
  | some p ↦ ok (
    data_address p.here,
    record h {
      chain = put_block p (record p.here { size = bit_or p.here.size 1 });
      used_memory = u32 (h.used_memory + p.here.size);
    },
  )
  | none ↦ alloc_new h align size
]

abbrev pub is_empty : List Block → Bool
is_empty [] = true
is_empty (b ∷ bs) = false

pub aligned_alloc : Heap → (align size : ℕ) → Outcome (ℕ × Heap)
unfolding alloc_in setup_heap
aligned_alloc h align size = do
  h' ← if is_empty h.chain then setup_heap h else ok h
  alloc_in h' align (align_to size 8)

pub kmalloc : Heap → ℕ → Outcome (ℕ × Heap)
unfolding aligned_alloc
kmalloc h size = aligned_alloc h min_align size

pub kamalloc : Heap → (size align : ℕ) → Outcome (ℕ × Heap)
unfolding aligned_alloc
kamalloc h size align = aligned_alloc h align size

-- The block whose address `mem_get_block` computes, read as `mem_get_block(pointer)->size`.
pub block_at : Heap → ℕ → Option Place
unfolding find_place mem_get_block
block_at h pointer = find_place (λ b. b.addr == mem_get_block pointer) h.chain

pub kfree : Heap → ℕ → Outcome Heap
unfolding block_at
kfree h pointer = if pointer == 0 then ok h else do
  p ← access (block_at h pointer)
  ok (record h {
    chain = put_block p (record p.here { size = payload p.here.size });
    used_memory = sub32 h.used_memory (payload p.here.size);
  })

-- `memset(p, v, n)` and `memcpy(to, from, n)` on the bytes. A write past the payload of the block
-- at `p` would reach the next header, and is a `fault`.
pub fill_bytes : Heap → (pointer v n : ℕ) → Outcome Heap
unfolding block_at
fill_bytes h pointer v n = do
  p ← access (block_at h pointer)
  if ltb (payload p.here.size) n
      then fault
      else ok
          (record h { bytes = λ a. if leb pointer a && ltb a (pointer + n) then v else h.bytes a })

pub copy_bytes : Heap → (to from n : ℕ) → Outcome Heap
unfolding block_at
copy_bytes h to from n = do
  p ← access (block_at h to)
  if ltb (payload p.here.size) n
      then fault
      else ok (record h {
        bytes = λ a. if leb to a && ltb a (to + n) then h.bytes (from + (a - to)) else h.bytes a;
      })

pub calloc : Heap → (nmemb size : ℕ) → Outcome (ℕ × Heap)
unfolding kmalloc fill_bytes
calloc h nmemb size = do
  (ptr, h1) ← kmalloc h (u32 (nmemb * size))
  h2 ← fill_bytes h1 ptr 0 (u32 (nmemb * size))
  ok (ptr, h2)

pub zalloc : Heap → ℕ → Outcome (ℕ × Heap)
unfolding calloc
zalloc h size = calloc h 1 size

pub krealloc : Heap → (ptr size : ℕ) → Outcome (ℕ × Heap)
unfolding kmalloc kfree copy_bytes
krealloc h ptr size =
    if ptr == 0 then kmalloc h size else if size == 0 then (do h1 ← kfree h ptr; ok (0, h1)) else do
      (new, h1) ← kmalloc h size
      p ← access (block_at h1 ptr)
      h2 ← copy_bytes h1 new ptr (payload p.here.size)
      h3 ← kfree h2 ptr
      ok (new, h3)

pub memory_usage : Heap → ℕ
memory_usage h = h.used_memory
