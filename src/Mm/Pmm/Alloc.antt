-- ===== src/Mm/Pmm/Alloc.antt =====
-- The page allocator's promises: what it hands out was free, is marked, and nothing else changes.
use native.Mathlib.Decide.{dec_lt}
use medusa_os.Prelude.{
  ℕ, zero, suc, ◌+◌, ◌*◌, ◌/◌, ◌%◌, ◌^◌, ◌≤◌, ◌<◌, ◌≡◌, refl, ◌∙◌, sym, subst, subst₂, arith, ◌==◌,
  ==→eq, Outcome, ok, ◌>>=◌, abort, ◌⊎◌, inl, inr, Bool-cases, eq→==, ne→==_false, le→not_ltb,
  if◌then◌else◌,
}
use medusa_os.Misc.{u32, sub32}
use medusa_os.Mm.Pmm.{
  Pmm, block_size, pmm_alloc_page, pmm_alloc_pages, pmm_alloc_aligned_large_page, pmm_free_page,
  pmm_free_pages, set_blocks, mmap_set,
}
use medusa_os.Mm.Pmm.Marks.{
  mark, Marked, mmap_set-Marked, mmap_unset-Marked, set_blocks-Marked, unset_blocks-Marked,
}
use medusa_os.Mm.Pmm.Search.{FirstFree, first, full, mmap_find_free-FirstFree}
use medusa_os.Mm.Pmm.Frames.{
  FrameResult, frame, no_frame, IsFrame, NoFrame, AllFree, mmap_find_free_frame-FrameResult,
}

-- What every operation keeps: block 0 stands for the null address and is in use, the managed
-- blocks fit the bitmap, and its words are 32 bits wide.
pub record IsValid (s : Pmm) : Type 0 where
  pub zero_used : mark s 0 ≡ 1
  pub small : s.max_blocks < 2 ^ 20
  pub words : (i : ℕ) → s.bitmap i < 2 ^ 32

-- The counter leaves room for `num` blocks, as the code computes it.
abbrev pub HasRoom : Pmm → ℕ → Type 0
HasRoom s num = num ≤ sub32 s.max_blocks s.used_blocks

-- The first block behind the whole bitmap words that are searched.
abbrev pub limit : Pmm → ℕ
limit s = s.max_blocks / 32 * 32

-- `addr` is the address of `num` blocks that were free in `s`; in `s'` they are in use, and no
-- other block has changed.
pub record Allocated (s : Pmm) (num addr : ℕ) (s' : Pmm) : Type 0 where
  pub nonzero : 0 < addr
  pub aligned : addr % block_size ≡ 0
  pub below : addr / block_size + num ≤ limit s
  pub was_free : AllFree s (addr / block_size) (addr / block_size + num)
  pub marked : Marked 1 (addr / block_size) num s s'

-- What a call of an allocator returns: an address of blocks, or 0 in the same state when there
-- are no such blocks.
pub data AllocResult (s : Pmm) (num addr : ℕ) (s' : Pmm) : Type 0 where
  allocated : Allocated s num addr s' → AllocResult s num addr s'
  exhausted : addr ≡ 0 → s' ≡ s → NoFrame s num (limit s) → AllocResult s num addr s'

pub Marked-IsValid :
    {v lo n : ℕ} {s s' : Pmm} → (v ≡ 1) ⊎ (0 < lo) → Marked v lo n s s' → IsValid s → IsValid s'
Marked-IsValid {v} {lo} {n} {s} {s'} c m i = record {
  zero_used = elim (dec_lt 0 lo) [
    | yes p ↦ m.outside 0 (inl p) ∙ i.zero_used
    | no p ↦ elim (dec_lt 0 n) [
      | yes q ↦ m.inside 0 (omega arith) (omega arith) ∙ omega arith
      | no q ↦ m.outside 0 (inr (omega arith)) ∙ i.zero_used
    ]
  ];
  small = omega (arith, m.max_blocks, i.small);
  words = λ k. m.words i.words k;
}

Allocated-of_Marked :
    (s s' : Pmm) (num b : ℕ)
    → 0 < num
    → s.max_blocks < 2 ^ 20
    → IsFrame s num (limit s) b
    → Marked 1 b num s s'
    → Allocated s num (u32 (b * block_size)) s'
Allocated-of_Marked s s' num b pos small f m =
    let e : u32 (b * block_size) / block_size ≡ b = omega (arith, f.below) in
    record {
      nonzero = omega (arith, f.below, f.nonzero);
      aligned = omega arith;
      below = rw e f.below;
      was_free = rw e f.free;
      marked = rw e m;
    }

-- `pmm_alloc_pages` for a positive number of pages, where the counter leaves room for them,
-- returns a run of pages that were free and marks exactly these, or returns 0 and changes nothing
-- when there is no such run.
pub pmm_alloc_pages-AllocResult :
    (s : Pmm) (num : ℕ)
    → 0 < num
    → HasRoom s num
    → IsValid s
    → (addr : ℕ) × (s' : Pmm) × (pmm_alloc_pages s num ≡ ok (addr, s')) × AllocResult s num addr s'
unfolding pmm_alloc_pages
pmm_alloc_pages-AllocResult s num pos room v =
    let (r, e, f) = mmap_find_free_frame-FrameResult s num pos v.small v.zero_used in
    rw (le→not_ltb (sub32 s.max_blocks s.used_blocks) num room, e) (take r f)
  where
    take :
        (r : ℕ)
        → FrameResult s num (limit s) r
        → (addr : ℕ) × (s' : Pmm) × (if◌then◌else◌ {A = Outcome (ℕ × Pmm)}
              (r == 0)
              (ok (0, s))
              (do t ← set_blocks num r s; ok (u32 (r * block_size), t))
            ≡ ok (addr, s'))
          × AllocResult s num addr s'
    take r (no_frame z none) = (0, s, rw (eq→== r 0 z), exhausted refl refl none)
    take r (frame f) =
        let (t, e, m, c) = set_blocks-Marked num r s (omega (arith, f.below, v.small)) in
        (
          u32 (r * block_size),
          t,
          rw (ne→==_false r 0 (omega (arith, f.nonzero)), e),
          allocated (Allocated-of_Marked s t num r pos v.small f m),
        )

-- Whatever an allocator returns, the state stays valid.
pub AllocResult-IsValid :
    {s s' : Pmm} (num addr : ℕ) → AllocResult s num addr s' → IsValid s → IsValid s'
AllocResult-IsValid num addr (allocated a) v = Marked-IsValid (inl refl) a.marked v
AllocResult-IsValid num addr (exhausted z e n) v = subst IsValid (sym e) v

-- `pmm_alloc_page`, where the counter is not equal to `max_blocks`, returns a page that was free
-- and marks exactly it, or returns 0 and changes nothing when no page is free; where the counter
-- is equal to `max_blocks` it aborts.
pub pmm_alloc_page-AllocResult :
    (s : Pmm)
    → IsValid s
    → (sub32 s.max_blocks s.used_blocks ≡ 0 × (pmm_alloc_page s ≡ abort))
      ⊎ ((addr : ℕ) × (s' : Pmm) × (pmm_alloc_page s ≡ ok (addr, s')) × AllocResult s 1 addr s')
unfolding pmm_alloc_page
pmm_alloc_page-AllocResult s v = elim (Bool-cases (sub32 s.max_blocks s.used_blocks == 0)) [
  | inl e ↦ inl (==→eq (sub32 s.max_blocks s.used_blocks) 0 e, rw e)
  | inr e ↦ let (r, q, f) = mmap_find_free-FirstFree s v.small in inr (rw (e, q) (take r f))
]
  where
    take :
        (r : ℕ)
        → FirstFree s 0 (limit s) r
        → (addr : ℕ) × (s' : Pmm) × (if◌then◌else◌ {A = Outcome (ℕ × Pmm)}
              (r == 0)
              (ok (0, s))
              (do t ← mmap_set s r; ok (u32 (r * block_size), t))
            ≡ ok (addr, s'))
          × AllocResult s 1 addr s'
    take r (full z used) = (
      0,
      s,
      rw (eq→== r 0 z),
      exhausted refl refl
          (λ f le. (f, omega arith, omega arith, used f (omega arith) (omega arith))),
    )
    take zero (first p q free below) = absurd (omega (arith, v.zero_used, free))
    take (suc b) (first p q free below) =
        let (t, e, m, c) = mmap_set-Marked s (suc b) (omega (arith, q, v.small)) in
        (
          u32 (suc b * block_size),
          t,
          rw (ne→==_false (suc b) 0 (omega arith), e),
          allocated (
              Allocated-of_Marked s t 1 (suc b) (omega arith) v.small
                (record {
                  nonzero = omega arith;
                  below = omega (arith, q);
                  free = λ k p' q'. subst (λ i. mark s i ≡ 0) (omega arith) free;
                })
                m),
        )

-- Freeing pages inside the bitmap marks exactly these as free.
pub pmm_free_pages-Marked :
    (s : Pmm) (addr num : ℕ)
    → addr / block_size + num ≤ 2 ^ 20
    → (s' : Pmm) × (pmm_free_pages s addr num ≡ ok s') × Marked 0 (addr / block_size) num s s'
unfolding pmm_free_pages
pmm_free_pages-Marked s addr num h =
    let (t, e, m, c) = unset_blocks-Marked num (addr / block_size) s h in (t, e, m)

pub pmm_free_page-Marked :
    (s : Pmm) (addr : ℕ)
    → addr < 2 ^ 32
    → (s' : Pmm) × (pmm_free_page s addr ≡ ok s') × Marked 0 (addr / block_size) 1 s s'
unfolding pmm_free_page
pmm_free_page-Marked s addr h =
    let (t, e, m, c) = mmap_unset-Marked s (addr / block_size) (omega arith) in (t, e, m)

pmm_free_pages-Allocated :
    (s s' : Pmm) (num addr : ℕ)
    → IsValid s
    → Allocated s num addr s'
    → (s'' : Pmm) × (pmm_free_pages s' addr num ≡ ok s'') × ((b : ℕ) → mark s'' b ≡ mark s b)
pmm_free_pages-Allocated s s' num addr v a =
    let (t, e, m) = pmm_free_pages-Marked s' addr num (omega (arith, a.below, v.small)) in
    (t, e, λ b. same t m b)
  where
    lo : ℕ
    lo = addr / block_size

    same : (t : Pmm) → Marked 0 lo num s' t → (b : ℕ) → mark t b ≡ mark s b
    same t m b = elim (dec_lt b lo) [
      | yes p ↦ m.outside b (inl p) ∙ a.marked.outside b (inl p)
      | no p ↦ elim (dec_lt b (lo + num)) [
        | yes q ↦ m.inside b (omega arith) q ∙ sym (a.was_free b (omega arith) q)
        | no q ↦ m.outside b (inr (omega arith)) ∙ a.marked.outside b (inr (omega arith))
      ]
    ]

-- Where `pmm_alloc_pages` has returned an address other than 0, `pmm_free_pages` of that address
-- and number succeeds, and every block is marked as it was before the allocation.
pub pmm_free_pages-alloc :
    (s s' : Pmm) (num addr : ℕ)
    → 0 < num
    → HasRoom s num
    → IsValid s
    → pmm_alloc_pages s num ≡ ok (addr, s')
    → 0 < addr
    → (s'' : Pmm) × (pmm_free_pages s' addr num ≡ ok s'') × ((b : ℕ) → mark s'' b ≡ mark s b)
pmm_free_pages-alloc s s' num addr pos room v e nonzero =
    let (a, t, q, r) = pmm_alloc_pages-AllocResult s num pos room v in back a t (sym q ∙ e) r
  where
    back :
        (a : ℕ) (t : Pmm)
        → ◌≡◌ {A = Outcome (ℕ × Pmm)} (ok (a, t)) (ok (addr, s'))
        → AllocResult s num a t
        → (s'' : Pmm) × (pmm_free_pages s' addr num ≡ ok s'') × ((b : ℕ) → mark s'' b ≡ mark s b)
    back a t q r = elim ended [
      | allocated d ↦ pmm_free_pages-Allocated s s' num addr v d
      | exhausted z same none ↦ absurd (omega arith)
    ]
      where
        ended : AllocResult s num addr s'
        ended = subst₂ (AllocResult s num) (cc) (cc) r

-- `pmm_alloc_aligned_large_page`, where the counter leaves room for 2048 blocks, returns an
-- address aligned to 4 MiB whose 1024 pages were free and are the ones marked, or returns 0 and
-- changes nothing when there is no run of 2048 free blocks.
pub pmm_alloc_aligned_large_page_lem :
    (s : Pmm)
    → HasRoom s 2048
    → IsValid s
    → (addr : ℕ) × (s' : Pmm) × (pmm_alloc_aligned_large_page s ≡ ok (addr, s'))
      × ((Allocated s 1024 addr s' × (addr % 2 ^ 22 ≡ 0))
          ⊎ ((addr ≡ 0) × (s' ≡ s) × NoFrame s 2048 (limit s)))
unfolding pmm_alloc_aligned_large_page
pmm_alloc_aligned_large_page_lem s room v =
    let (r, e, f) = mmap_find_free_frame-FrameResult s 2048 (omega arith) v.small v.zero_used in
    rw (le→not_ltb (sub32 s.max_blocks s.used_blocks) 2048 room, e) (take r f)
  where
    take :
        (r : ℕ)
        → FrameResult s 2048 (limit s) r
        → (addr : ℕ) × (s' : Pmm) × (if◌then◌else◌ {A = Outcome (ℕ × Pmm)} (r == 0) (ok (0, s)) (do
          t ← set_blocks 1024 (u32 ((r / 1024 + 1) * 1024)) s
          ok (u32 (u32 ((r / 1024 + 1) * 1024) * block_size), t))
            ≡ ok (addr, s'))
          × ((Allocated s 1024 addr s' × (addr % 2 ^ 22 ≡ 0))
              ⊎ ((addr ≡ 0) × (s' ≡ s) × NoFrame s 2048 (limit s)))
    take r (no_frame z none) = (0, s, rw (eq→== r 0 z), inr (refl, refl, none))
    take r (frame f) =
        let b : ℕ = u32 ((r / 1024 + 1) * 1024) in
        let inside : IsFrame s 1024 (limit s) b = record {
          nonzero = omega (arith, f.below, v.small);
          below = omega (arith, f.below, v.small);
          free =
              λ k p q. f.free k (omega (arith, f.below, v.small)) (omega (arith, f.below, v.small));
        } in
        let (t, e, m, c) = set_blocks-Marked 1024 b s (omega (arith, f.below, v.small)) in
        (
          u32 (b * block_size),
          t,
          rw (ne→==_false r 0 (omega (arith, f.nonzero)), e),
          inl (Allocated-of_Marked s t 1024 b (omega arith) v.small inside m, omega arith),
        )
