-- ===== src/Mm/Kmalloc/Grow.antt =====
-- A block behind `top`.
use native.Mathlib.Nat.{mod-mod_of_dvd, dvd_of_mod-eq-zero}
use medusa_os.Prelude.{
  ℕ, ◌+◌, ◌-◌, ◌%◌, ◌^◌, ◌≤◌, ◌<◌, ◌≡◌, ◌≢◌, ◌⊎◌, inl, inr, refl, ap, ◌∙◌, sym, subst, arith, ltb,
  false, none, some, List, [], ◌∷◌, ◌++◌, Bool-cases, bit_or, ok, abort, ltb→lt, Option-cases,
}
use medusa_os.Misc.{u32, sub32, align_to, align_to-IsAligned}
use medusa_os.Mm.Kmalloc.{
  Block, Heap, heap_begin, mem_block_size, data_address, mem_find_block, mem_new_block, top_of,
  alloc_new, alloc_in, is_empty, aligned_alloc, Place, is_suitable,
}
use medusa_os.Mm.Kmalloc.Chain.{
  heap_end, bytes_of, payload_lem, set_flag_lem, Ordered, chain_end, used_sum, Live, used_sum-le,
  chain_end-bounds, Live-bounds, Live-disjoint,
}
use medusa_os.Mm.Kmalloc.Places.{
  append-Ordered, used_sum-append, append-Live_left, append-Live_right, chain_end-top, IsPlace,
  find_place-IsPlace,
}
use medusa_os.Mm.Kmalloc.Laws.{IsValid, Allocated, IsRequest, after_reuse, after_reuse-Allocated}

-- The address that a new block hands out, behind a chain that ends at `e`.
abbrev new_address : (e align : ℕ) → ℕ
new_address e align = align_to (e + 8) align

record IsNewAddress (e align a : ℕ) : Type 0 where
  aligned : a % align ≡ 0
  four : a % 4 ≡ 0
  above : e + 8 ≤ a
  near : a < e + 8 + align

new_address-IsNewAddress :
    (e align size : ℕ)
    → e ≤ heap_end + 4
    → IsRequest align size
    → IsNewAddress e align (new_address e align)
new_address-IsNewAddress e align size small r =
    let (m, lo, hi) = align_to-IsAligned (e + 8) align r.align_pos (omega (arith, r.align_small)) in
    record {
      aligned = m;
      four =
          sym (mod-mod_of_dvd 4 (new_address e align) (dvd_of_mod-eq-zero 4 r.align_four))
          ∙ ap (λ t. t % 4) m;
      above = lo;
      near = omega (arith, hi);
    }

-- What `mem_new_block` adds to the chain.
record IsNew (e a size : ℕ) (blocks : List Block) : Type 0 where
  block : Block
  is_top : top_of blocks ≡ some block
  address : data_address block ≡ a
  ordered : Ordered e blocks
  live : Live blocks a size
  used : used_sum blocks ≡ size

top_end :
    (top : Block) (e : ℕ)
    → top.addr + 12 + bytes_of top ≡ e
    → e ≤ heap_end + 4
    → u32 (top.addr + mem_block_size top) ≡ e
unfolding mem_block_size
top_end top e h small = omega (arith, payload_lem top.size (omega arith))

-- The two shapes of what is added, with the word arithmetic gone.
module _ (e a f size : ℕ) (low : e + 8 ≤ f) (fa : f ≤ a) (four_a : a % 4 ≡ 0) (four_f : f % 4 ≡ 0)
    (fits : a + size ≤ heap_end) (even : size % 8 ≡ 0) where
  abbrev new_block : Block
  new_block = record { addr = a - 8; size = bit_or size 1 }

  abbrev filler_block : Block
  filler_block = record { addr = f - 8; size = a - f - 12 }

  alone-IsNew : IsNew e a size (new_block ∷ [])
  unfolding top_of
  alone-IsNew = record {
    block = new_block;
    is_top = refl;
    address = omega arith;
    ordered = omega (arith, set_flag_lem size);
    live = inl (omega arith, omega (arith, set_flag_lem size), omega (arith, set_flag_lem size));
    used = ground (arith, set_flag_lem size);
  }

  filled-IsNew : 16 < a - f → IsNew e a size (filler_block ∷ new_block ∷ [])
  unfolding top_of
  filled-IsNew room = record {
    block = new_block;
    is_top = refl;
    address = omega arith;
    ordered = omega (arith, set_flag_lem size);
    live =
        inr (inl (omega arith, omega (arith, set_flag_lem size), omega (arith, set_flag_lem size)));
    used = ground (arith, set_flag_lem size);
  }

mem_new_block-IsNew :
    (top : Block) (e align size : ℕ)
    → top.addr + 12 + bytes_of top ≡ e
    → e ≤ heap_end + 4
    → heap_begin ≤ e
    → IsRequest align size
    → new_address e align + size ≤ heap_end
    → IsNew e (new_address e align) size (mem_new_block top size align)
unfolding mem_new_block
mem_new_block-IsNew top e align size h small lo r fits =
    let a : ℕ = new_address e align in
    let f : ℕ = new_address e 4 in
    let n = new_address-IsNewAddress e align size small r in
    let (four_f, low, high) = align_to-IsAligned (e + 8) 4 (omega arith) (omega arith) in
    let fa : f ≤ a = omega (arith, n.four, n.above, four_f, high) in
    let word : u32 (e + 8) ≡ e + 8 = omega arith in
    let at_a : sub32 a 8 ≡ a - 8 = omega (arith, n.above) in
    let at_f : sub32 f 8 ≡ f - 8 = omega arith in
    let gap : sub32 (a - 8) (f - 8) ≡ a - f = omega (arith, fa, low) in
    rw (top_end top e h small, word, at_a, at_f, gap)
      (elim (Bool-cases (ltb 16 (a - f))) [
        | inl c ↦
            let room : 16 < a - f = ltb→lt 16 (a - f) c in
            let rest : sub32 (a - f) 12 ≡ a - f - 12 = omega arith in
            rw (c, rest) (filled-IsNew e a f size low fa n.four four_f fits r.size_even room)
        | inr c ↦ rw c (alone-IsNew e a f size low fa n.four four_f fits r.size_even)
      ])

-- A heap that grows by such blocks.
module _ (h : Heap) (align size : ℕ) (v : IsValid h) (r : IsRequest align size) where
  abbrev end_of : ℕ
  end_of = chain_end heap_begin h.chain

  abbrev grown : List Block → Heap
  grown blocks = record h { chain = h.chain ++ blocks; used_memory = u32 (h.used_memory + size) }

  end_bounds : (heap_begin ≤ end_of) × (end_of ≤ heap_end + 4)
  end_bounds = chain_end-bounds heap_begin h.chain (omega arith) v.ordered

  grown-Allocated :
      (blocks : List Block)
      → IsNew end_of (new_address end_of align) size blocks
      → Allocated align size h (new_address end_of align) (grown blocks)
  grown-Allocated blocks new =
      let n = new_address-IsNewAddress end_of align size end_bounds.1 r in
      let o = append-Ordered h.chain heap_begin blocks v.ordered new.ordered in
      record {
        length = size;
        enough = omega arith;
        live = append-Live_right h.chain blocks (new_address end_of align) size new.live;
        fresh = λ k l. omega (
          arith,
          Live-bounds heap_begin h.chain (new_address end_of align) k v.ordered l,
          n.above,
        );
        aligned = n.aligned;
        kept = λ q k l. append-Live_left h.chain blocks q k l;
        bytes = refl;
        mm = refl;
        valid = record {
          set_up = append-nonempty h.chain blocks v.set_up;
          ordered = o;
          counted = omega (
            arith,
            v.counted,
            used_sum-append h.chain blocks,
            new.used,
            used_sum-le heap_begin (h.chain ++ blocks) (omega arith) o,
          );
        };
      }
    where
      append-nonempty : (xs ys : List Block) → is_empty xs ≡ false → is_empty (xs ++ ys) ≡ false
      append-nonempty [] ys e = cc
      append-nonempty (x ∷ xs) ys e = refl

  -- The kernel aborts exactly where the new block would end behind the heap.
  alloc_new_lem :
      (alloc_new h align size ≡ abort × (heap_end < new_address end_of align + size))
      ⊎ ((ptr : ℕ) × (h' : Heap) × (alloc_new h align size ≡ ok (ptr, h'))
          × Allocated align size h ptr h')
  unfolding alloc_new
  alloc_new_lem =
      let (top, is_top, ends) = chain_end-top heap_begin h.chain v.set_up in
      let (lo, hi) = end_bounds in
      let a : ℕ = new_address end_of align in
      let n = new_address-IsNewAddress end_of align size hi r in
      let word : u32 (end_of + 8) ≡ end_of + 8 = omega arith in
      let end : u32 (a + size) ≡ a + size = omega (arith, n.near, r.align_small, r.size_small) in
      rw (is_top, top_end top end_of ends hi, word, end)
        (elim (Bool-cases (ltb heap_end (a + size))) [
          | inl c ↦ inl (rw c, ltb→lt heap_end (a + size) c)
          | inr c ↦
              let fits : a + size ≤ heap_end = ground arith in
              let new = mem_new_block-IsNew top end_of align size ends hi lo r fits in
              inr (
                a,
                grown (mem_new_block top size align),
                rw (c, new.is_top, new.address),
                grown-Allocated (mem_new_block top size align) new,
              )
        ])

-- The same for the part behind the setup, where the size is aligned.
pub alloc_in-Allocated :
    (h : Heap) (align size : ℕ)
    → IsValid h
    → IsRequest align size
    → ((alloc_in h align size ≡ abort)
        × (mem_find_block h.chain size align ≡ none)
        × (heap_end < align_to (chain_end heap_begin h.chain + 8) align + size))
      ⊎ ((ptr : ℕ) × (h' : Heap) × (alloc_in h align size ≡ ok (ptr, h'))
          × Allocated align size h ptr h')
unfolding alloc_in
alloc_in-Allocated h align size v r = elim (Option-cases (mem_find_block h.chain size align)) [
  | inl e ↦ elim (alloc_new_lem h align size v r) [
    | inl (q, big) ↦ inl (rw (e, alloc_in) q, e, big)
    | inr (ptr, h', q, a) ↦ inr (ptr, h', rw (e, alloc_in) q, a)
  ]
  | inr (p, e) ↦ inr (
    data_address p.here,
    after_reuse h align size p v (found p e),
    rw (e, alloc_in),
    after_reuse-Allocated h align size p v (found p e),
  )
]
  where
    found :
        (p : Place)
        → mem_find_block h.chain size align ≡ some p
        → IsPlace (is_suitable size align) h.chain p
    found p e = unfold mem_find_block in find_place-IsPlace (is_suitable size align) h.chain p e

-- On a valid heap, for an alignment that is a multiple of 4 up to 2^24 and a size up to 2^29,
-- `aligned_alloc` hands out an aligned pointer to at least `size` bytes that was not live, and keeps
-- all that was live, every byte, the page tables and the heap's validity; or it aborts, and then no
-- block is suitable and a new block would end behind the heap.
pub aligned_alloc-Allocated :
    (h : Heap) (align size : ℕ)
    → IsValid h
    → 0 < align
    → align % 4 ≡ 0
    → align ≤ 2 ^ 24
    → size ≤ 2 ^ 29
    → ((aligned_alloc h align size ≡ abort)
        × (mem_find_block h.chain (align_to size 8) align ≡ none)
        × (heap_end < align_to (chain_end heap_begin h.chain + 8) align + align_to size 8))
      ⊎ ((ptr : ℕ) × (h' : Heap) × (aligned_alloc h align size ≡ ok (ptr, h'))
          × Allocated align size h ptr h')
unfolding aligned_alloc
aligned_alloc-Allocated h align size v pos four small fits =
    let (even, le, lt) = align_to-IsAligned size 8 (omega arith) (omega arith) in
    let r : IsRequest align (align_to size 8) = record {
      align_pos = pos;
      align_four = four;
      align_small = small;
      size_even = even;
      size_small = omega arith;
    } in
    rw v.set_up (elim (alloc_in-Allocated h align (align_to size 8) v r) [
      | inl (e, no_block, big) ↦ inl (e, no_block, big)
      | inr (ptr, h', e, a) ↦ inr (ptr, h', e, shrink ptr h' le a)
    ])
  where
    shrink :
        (ptr : ℕ) (h' : Heap)
        → size ≤ align_to size 8
        → Allocated align (align_to size 8) h ptr h'
        → Allocated align size h ptr h'
    shrink ptr h' le a = record {
      length = a.length;
      enough = omega (arith, le, a.enough);
      live = a.live;
      fresh = a.fresh;
      aligned = a.aligned;
      kept = a.kept;
      bytes = a.bytes;
      mm = a.mm;
      valid = a.valid;
    }

-- On a valid heap, the bytes that a successful `aligned_alloc` hands out, for an alignment that is a
-- multiple of 4 up to 2^24 and a size up to 2^29, overlap the bytes of no live pointer.
pub aligned_alloc-apart :
    (h : Heap) (align size ptr : ℕ) (h' : Heap) (q k : ℕ)
    → IsValid h
    → 0 < align
    → align % 4 ≡ 0
    → align ≤ 2 ^ 24
    → size ≤ 2 ^ 29
    → aligned_alloc h align size ≡ ok (ptr, h')
    → Live h.chain q k
    → (ptr + size ≤ q) ⊎ (q + k ≤ ptr)
aligned_alloc-apart h align size ptr h' q k v pos four small fits e l =
    elim (aligned_alloc-Allocated h align size v pos four small fits) [
      | inl (e', no_block, big) ↦ cc
      | inr (p, g, e', a) ↦ apart p g a cc
    ]
  where
    apart :
        (p : ℕ) (g : Heap)
        → Allocated align size h p g
        → ◌≡◌ {A = ℕ × Heap} (p, g) (ptr, h')
        → (ptr + size ≤ q) ⊎ (q + k ≤ ptr)
    apart p g a same =
        let ne : p ≢ q = λ at. a.fresh k (subst (λ x. Live h.chain x k) (sym at) l) in
        let at : p ≡ ptr = ap (λ r. r.0) same in
        elim (Live-disjoint heap_begin g.chain p a.length q k a.valid.ordered a.live (a.kept q k l)
          ne) [ inl d ↦ inl (omega (arith, d, a.enough, at)) | inr d ↦ inr (omega (arith, d, at)) ]
