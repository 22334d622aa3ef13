-- ===== src/Mm/Kmalloc/Free.antt =====
-- Giving blocks back, and moving them.
use medusa_os.Prelude.{
  ℕ, ◌+◌, ◌-◌, ◌%◌, ◌≤◌, ◌≡◌, ◌≢◌, refl, ap, ◌∙◌, sym, subst, arith, ◌==◌, some, ok, ne→==_false,
}
use medusa_os.Misc.{sub32}
use medusa_os.Mm.Kmalloc.{
  Block, Heap, Place, heap_begin, payload, mem_get_block, put_block, kfree, block_at, find_place,
}
use medusa_os.Mm.Kmalloc.Chain.{
  heap_end, bytes_of, payload_lem, Ordered, used_sum, Live, used_sum-le, Live-bounds,
}
use medusa_os.Mm.Kmalloc.Places.{
  find_place-Live, replace-Ordered, used_sum-replace, replace-Live, free-not-Live,
}
use medusa_os.Mm.Kmalloc.Laws.{IsValid, put-nonempty}

-- `ptr`, live in `h`, has been given back in `h'`.
pub record Freed (h : Heap) (ptr n : ℕ) (h' : Heap) : Type 0 where
  pub gone : (k : ℕ) → ¬ Live h'.chain ptr k
  pub kept : (q k : ℕ) → q ≢ ptr → Live h.chain q k → Live h'.chain q k
  pub less : h'.used_memory + n ≡ h.used_memory
  pub bytes : h'.bytes ≡ h.bytes
  pub valid : IsValid h'

-- The block of a live pointer, as `mem_get_block` finds it.
pub record IsAt (h : Heap) (ptr n : ℕ) (p : Place) : Type 0 where
  pub splits : h.chain ≡ put_block p p.here
  pub address : p.here.addr + 8 ≡ ptr
  pub length : bytes_of p.here ≡ n
  pub used : p.here.size % 2 ≡ 1
  pub ordered : Ordered heap_begin (put_block p p.here)
  pub word : payload p.here.size ≡ n
  pub at_begin : heap_begin + 8 ≤ ptr
  pub ends : ptr + n ≤ heap_end

get_lem : (ptr n : ℕ) → heap_begin + 8 ≤ ptr → ptr + n ≤ heap_end → mem_get_block ptr ≡ ptr - 8
unfolding mem_get_block
get_lem ptr n lo hi = omega arith

pub block_at-Live :
    (h : Heap) (ptr n : ℕ)
    → IsValid h
    → Live h.chain ptr n
    → (p : Place) × (block_at h ptr ≡ some p) × IsAt h ptr n p
unfolding block_at mem_get_block
block_at-Live h ptr n v l =
    let (lo, hi, e) = Live-bounds heap_begin h.chain ptr n v.ordered l in
    let l' : Live h.chain (ptr - 8 + 8) n = subst (λ q. Live h.chain q n) (omega arith) l in
    let (p, e, s, a, k, u) = find_place-Live heap_begin (ptr - 8) h.chain n v.ordered l' in
    (
      p,
      ap (λ a. find_place (λ b. b.addr == a) h.chain) (get_lem ptr n lo hi) ∙ e,
      record {
        splits = s;
        address = omega arith;
        length = k;
        used = u;
        ordered = subst (Ordered heap_begin) s v.ordered;
        word = omega (arith, payload_lem p.here.size (omega arith));
        at_begin = lo;
        ends = hi;
      },
    )

module _ (h : Heap) (ptr n : ℕ) (v : IsValid h) (p : Place) (at : IsAt h ptr n p) where
  abbrev released : Block
  released = record p.here { size = payload p.here.size }

  abbrev after_free : Heap
  after_free = record h {
    chain = put_block p released;
    used_memory = sub32 h.used_memory (payload p.here.size);
  }

  same_bytes : bytes_of p.here ≡ bytes_of released
  same_bytes = omega (arith, at.word, at.length)

  released_free : released.size % 2 ≡ 0
  released_free = omega (arith, at.word, at.length)

  after_free-Ordered : Ordered heap_begin (put_block p released)
  after_free-Ordered =
      replace-Ordered p.here released refl same_bytes p.before heap_begin p.after at.ordered

  after_free-used : used_sum (put_block p released) + n ≡ h.used_memory
  after_free-used = ground (
    arith,
    v.counted,
    ap used_sum at.splits,
    used_sum-replace p.here released refl same_bytes p.before p.after,
    released_free,
    at.used,
    at.length,
  )

  counted_lem : sub32 h.used_memory (payload p.here.size) ≡ used_sum (put_block p released)
  counted_lem = omega (
    arith,
    at.word,
    after_free-used,
    v.counted,
    used_sum-le heap_begin h.chain (omega arith) v.ordered,
  )

  after_free-Freed : Freed h ptr n after_free
  after_free-Freed = record {
    gone = λ k l.
        free-not-Live p.before heap_begin released p.after k after_free-Ordered released_free
          (subst (λ q. Live (put_block p released) q k) (sym at.address) l);
    kept = λ q k ne l.
        replace-Live p.here released refl same_bytes p.before p.after q k
          (λ e u. absurd (ne (sym e ∙ at.address))) (subst (λ c. Live c q k) at.splits l);
    less = omega (arith, counted_lem, after_free-used);
    bytes = refl;
    valid = record {
      set_up = put-nonempty p.before released p.after;
      ordered = after_free-Ordered;
      counted = counted_lem;
    };
  }

-- `kfree` of a live pointer succeeds: the pointer is no longer live, the others are kept,
-- `used_memory` falls by the bytes of the block, no byte changes, and the heap stays valid.
pub kfree-Freed :
    (h : Heap) (ptr n : ℕ)
    → IsValid h
    → Live h.chain ptr n
    → (h' : Heap) × (kfree h ptr ≡ ok h') × Freed h ptr n h'
unfolding kfree
kfree-Freed h ptr n v l =
    let (p, e, at) = block_at-Live h ptr n v l in
    (
      after_free h ptr n v p at,
      rw (ne→==_false ptr 0 (omega (arith, at.at_begin)), e),
      after_free-Freed h ptr n v p at,
    )
