-- ===== src/Mm/Kmalloc/Laws.antt =====
-- The heap's promises: what is handed out, and what is kept.
use medusa_os.Prelude.{
  ℕ, ◌+◌, ◌%◌, ◌^◌, ◌≤◌, ◌<◌, ◌≡◌, refl, ap, sym, subst, subst₂, arith, true, false, List, [], ◌∷◌,
  ◌++◌, bit_and, bit_or,
}
use medusa_os.Misc.{u32}
use medusa_os.Mm.Kmalloc.{
  Block, Heap, Place, heap_begin, payload, mem_is_aligned, data_address, is_suitable, put_block,
  is_empty,
}
use medusa_os.Mm.Kmalloc.Chain.{
  heap_end, bytes_of, payload_lem, flag_lem, set_flag_lem, Ordered, used_sum, Live, used_sum-le,
}
use medusa_os.Mm.Kmalloc.Places.{
  IsPlace, replace-Ordered, used_sum-replace, replace-Live, put-Live, free-not-Live,
}

-- The heap is set up, its blocks lie in order, and `used_memory` is the bytes of those in use.
pub record IsValid (h : Heap) : Type 0 where
  pub set_up : is_empty h.chain ≡ false
  pub ordered : Ordered heap_begin h.chain
  pub counted : h.used_memory ≡ used_sum h.chain

-- `ptr` is new in `h'`, aligned, with at least `size` bytes; all else that was live in `h` is live
-- in `h'`, and no byte has changed.
pub record Allocated (align size : ℕ) (h : Heap) (ptr : ℕ) (h' : Heap) : Type 0 where
  pub length : ℕ
  pub enough : size ≤ length
  pub live : Live h'.chain ptr length
  pub fresh : (k : ℕ) → ¬ Live h.chain ptr k
  pub aligned : ptr % align ≡ 0
  pub kept : (q k : ℕ) → Live h.chain q k → Live h'.chain q k
  pub bytes : h'.bytes ≡ h.bytes
  pub mm : h'.mm ≡ h.mm
  pub valid : IsValid h'

-- What the alignments and sizes of a call must be for the word arithmetic not to wrap.
pub record IsRequest (align size : ℕ) : Type 0 where
  pub align_pos : 0 < align
  pub align_four : align % 4 ≡ 0
  pub align_small : align ≤ 2 ^ 24
  pub size_even : size % 8 ≡ 0
  pub size_small : size ≤ 2 ^ 29

pub Ordered-place :
    (lo : ℕ) (xs : List Block) (b : Block) (ys : List Block)
    → Ordered lo (xs ++ (b ∷ ys))
    → (lo ≤ b.addr) × (b.addr + 8 + bytes_of b ≤ heap_end)
Ordered-place lo [] b ys o = (o.0, o.1)
Ordered-place lo (x ∷ xs) b ys o =
    let (p, q) = Ordered-place (x.addr + 12 + bytes_of x) xs b ys o.2 in (omega (arith, p, o.0), q)

suitable_lem :
    (size align : ℕ) (b : Block)
    → is_suitable size align b ≡ true
    → (size ≤ payload b.size) × (bit_and b.size 1 ≡ 0) × (data_address b % align ≡ 0)
unfolding mem_is_aligned
suitable_lem size align b h = ground arith

pub put-nonempty :
    (xs : List Block) (b : Block) (ys : List Block) → is_empty (xs ++ (b ∷ ys)) ≡ false
put-nonempty [] b ys = refl
put-nonempty (x ∷ xs) b ys = refl

-- The free block at a place of the chain, marked as used.
module _ (h : Heap) (align size : ℕ) (p : Place) (v : IsValid h)
    (place : IsPlace (is_suitable size align) h.chain p) where
  abbrev pub taken : Block
  taken = record p.here { size = bit_or p.here.size 1 }

  abbrev pub after_reuse : Heap
  after_reuse = record h {
    chain = put_block p taken;
    used_memory = u32 (h.used_memory + p.here.size);
  }

  -- The facts about the block that the parts of the proof share.
  record Facts : Type 0 where
    ordered : Ordered heap_begin (put_block p p.here)
    is_free : p.here.size % 2 ≡ 0
    same : bytes_of p.here ≡ bytes_of taken
    used : taken.size % 2 ≡ 1
    address : data_address p.here ≡ p.here.addr + 8
    word : p.here.size < 2 ^ 32
    at_begin : heap_begin ≤ p.here.addr
    ends : p.here.addr + 8 + bytes_of p.here ≤ heap_end

  facts : Facts
  facts =
      let o : Ordered heap_begin (put_block p p.here) =
        subst (Ordered heap_begin) place.splits v.ordered in
      let (lo, hi) = Ordered-place heap_begin p.before p.here p.after o in
      let (enough, free, aligned) = suitable_lem size align p.here place.passes in
      record {
        ordered = o;
        is_free = omega (arith, free, flag_lem p.here.size);
        same = omega (arith, set_flag_lem p.here.size);
        used = omega (arith, set_flag_lem p.here.size);
        address = omega arith;
        word = omega arith;
        at_begin = lo;
        ends = hi;
      }

  after_reuse-Ordered : Ordered heap_begin (put_block p taken)
  after_reuse-Ordered =
      replace-Ordered p.here taken refl facts.same p.before heap_begin p.after facts.ordered

  after_reuse-IsValid : IsValid after_reuse
  after_reuse-IsValid = record {
    set_up = put-nonempty p.before taken p.after;
    ordered = after_reuse-Ordered;
    counted = ground (
      arith,
      facts,
      v.counted,
      ap used_sum place.splits,
      used_sum-replace p.here taken refl facts.same p.before p.after,
      used_sum-le heap_begin (put_block p taken) (omega arith) after_reuse-Ordered,
      set_flag_lem p.here.size,
    );
  }

  pub after_reuse-Allocated : Allocated align size h (data_address p.here) after_reuse
  after_reuse-Allocated = record {
    length = bytes_of p.here;
    enough =
        omega
          (arith, suitable_lem size align p.here place.passes, payload_lem p.here.size facts.word);
    live =
        subst₂ (Live (put_block p taken)) (sym facts.address) (sym facts.same)
          (put-Live p.before p.after taken facts.used);
    fresh = λ k l.
        free-not-Live p.before heap_begin p.here p.after k facts.ordered facts.is_free
          (subst₂ (λ c q. Live c q k) place.splits facts.address l);
    aligned = (suitable_lem size align p.here place.passes).2;
    kept = λ q k l.
        replace-Live p.here taken refl facts.same p.before p.after q k
          (λ at odd. omega (arith, odd, facts.is_free)) (subst (λ c. Live c q k) place.splits l);
    bytes = refl;
    mm = refl;
    valid = after_reuse-IsValid;
  }
