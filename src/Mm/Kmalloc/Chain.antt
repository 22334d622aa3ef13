-- ===== src/Mm/Kmalloc/Chain.antt =====
-- The order of the blocks in the chain, and which of them are in use.
use medusa_os.Prelude.{
  ℕ, ◌+◌, ◌*◌, ◌/◌, ◌%◌, ◌^◌, ◌≤◌, ◌<◌, ◌≡◌, ◌≢◌, ◌⊎◌, inl, inr, arith, ◌==◌, if◌then◌else◌, List,
  [], ◌∷◌, bit_and, bit_or, bit_and-mul_pow, bit_and_mask, bit_or_step, bit_or-zero,
}
use medusa_os.Mm.Kmalloc.{Block, heap_begin, heap_size, payload}

abbrev pub heap_end : ℕ
heap_end = heap_begin + heap_size

-- The bytes of a block, as arithmetic.
abbrev pub bytes_of : Block → ℕ
bytes_of b = b.size / 2 * 2

pub payload_lem : (w : ℕ) → w < 2 ^ 32 → payload w ≡ w / 2 * 2
payload_lem w h = omega (arith, bit_and-mul_pow 1 w 0x7fffffff, bit_and_mask 31 (w / 2 ^ 1))

pub flag_lem : (w : ℕ) → bit_and w 1 ≡ w % 2
flag_lem w = bit_and_mask 1 w

pub set_flag_lem : (w : ℕ) → bit_or w 1 ≡ w / 2 * 2 + 1
set_flag_lem w = omega (arith, bit_or_step w 1, bit_or-zero (w / 2))

-- From `lo` on the blocks lie one behind the other, four spare bytes between them, and the bytes
-- of each end inside the heap.
abbrev pub Ordered : ℕ → List Block → Type 0
Ordered lo [] = Unit {0}
Ordered lo (b ∷ bs) =
    (lo ≤ b.addr) × (b.addr + 8 + bytes_of b ≤ heap_end) × Ordered (b.addr + 12 + bytes_of b) bs

abbrev pub chain_end : ℕ → List Block → ℕ
chain_end lo [] = lo
chain_end lo (b ∷ bs) = chain_end (b.addr + 12 + bytes_of b) bs

abbrev pub used_bytes : Block → ℕ
used_bytes b = if b.size % 2 == 0 then 0 else bytes_of b

-- The bytes of all blocks in use.
abbrev pub used_sum : List Block → ℕ
used_sum [] = 0
used_sum (b ∷ bs) = used_bytes b + used_sum bs

-- `ptr` is handed out, with `n` bytes.
abbrev pub Live : List Block → (ptr n : ℕ) → Type 0
Live [] ptr n = ⊥
Live (b ∷ bs) ptr n = ((b.addr + 8 ≡ ptr) × (bytes_of b ≡ n) × (b.size % 2 ≡ 1)) ⊎ Live bs ptr n

pub chain_end-bounds :
    (lo : ℕ) (bs : List Block)
    → lo ≤ heap_end + 4
    → Ordered lo bs
    → (lo ≤ chain_end lo bs) × (chain_end lo bs ≤ heap_end + 4)
chain_end-bounds lo [] h o = (omega arith, h)
chain_end-bounds lo (b ∷ bs) h o =
    let (p, q) = chain_end-bounds (b.addr + 12 + bytes_of b) bs (omega arith) o.2 in
    (omega (arith, p, o.0), q)

pub used_sum-le :
    (lo : ℕ) (bs : List Block) → lo ≤ heap_end + 4 → Ordered lo bs → used_sum bs + lo ≤ heap_end + 4
used_sum-le lo [] h o = omega arith
used_sum-le lo (b ∷ bs) h o =
    ground (arith, used_sum-le (b.addr + 12 + bytes_of b) bs (omega arith) o.2)

pub Live-bounds :
    (lo : ℕ) (bs : List Block) (q k : ℕ)
    → Ordered lo bs
    → Live bs q k
    → (lo + 8 ≤ q) × (q + k ≤ heap_end) × (q + k + 4 ≤ chain_end lo bs)
Live-bounds lo [] q k o l = elim l [ ]
Live-bounds lo (b ∷ bs) q k o (inl l) = (
  omega (arith, l),
  omega (arith, l),
  omega (arith, l, chain_end-le (b.addr + 12 + bytes_of b) bs o.2),
)
  where
    chain_end-le : (x : ℕ) (cs : List Block) → Ordered x cs → x ≤ chain_end x cs
    chain_end-le x [] o' = omega arith
    chain_end-le x (c ∷ cs) o' = omega (arith, o', chain_end-le (c.addr + 12 + bytes_of c) cs o'.2)
Live-bounds lo (b ∷ bs) q k o (inr l) =
    let (p, e, t) = Live-bounds (b.addr + 12 + bytes_of b) bs q k o.2 l in (omega (arith, p), e, t)

-- Two different live pointers have disjoint bytes.
pub Live-disjoint :
    (lo : ℕ) (bs : List Block) (p n q k : ℕ)
    → Ordered lo bs
    → Live bs p n
    → Live bs q k
    → p ≢ q
    → (p + n ≤ q) ⊎ (q + k ≤ p)
Live-disjoint lo [] p n q k o l l' ne = elim l [ ]
Live-disjoint lo (b ∷ bs) p n q k o (inl l) (inl l') ne = absurd (ne (omega (arith, l, l')))
Live-disjoint lo (b ∷ bs) p n q k o (inl l) (inr l') ne =
    inl (omega (arith, l, Live-bounds (b.addr + 12 + bytes_of b) bs q k o.2 l'))
Live-disjoint lo (b ∷ bs) p n q k o (inr l) (inl l') ne =
    inr (omega (arith, l', Live-bounds (b.addr + 12 + bytes_of b) bs p n o.2 l))
Live-disjoint lo (b ∷ bs) p n q k o (inr l) (inr l') ne =
    Live-disjoint (b.addr + 12 + bytes_of b) bs p n q k o.2 l l' ne
