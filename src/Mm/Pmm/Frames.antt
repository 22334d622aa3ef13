-- ===== src/Mm/Pmm/Frames.antt =====
-- `mmap_find_free_frame` finds a run of free blocks of the wanted length when there is one.
use native.Mathlib.Decide.{dec_lt, dec_le}
use medusa_os.Prelude.{
  ℕ, zero, suc, ◌+◌, ◌-◌, ◌*◌, ◌/◌, ◌%◌, ◌^◌, ◌≤◌, ◌<◌, ◌≡◌, refl, ◌∙◌, ap, sym, subst, arith, ◌==◌,
  bit_of, bit_of_ones, ==→eq, ==_false→ne, Outcome, ok, inl, inr, Bool-cases, if◌then◌else◌,
  bit_of_lt, lt→ltb, eq→==, ne→==_false,
}
use medusa_os.Mm.Pmm.{
  Pmm, bitmap_words, read_word, Run, no_run, run_step, Scan, found, scanned, scan_word, scan_one,
  scan_from, mmap_find_free_frame,
}
use medusa_os.Mm.Pmm.Marks.{mark}
use medusa_os.Mm.Pmm.Search.{free_test, word_used}

-- Every run of `size` blocks below `hi` has a block in use.
abbrev pub NoFrame : Pmm → (size hi : ℕ) → Type 0
NoFrame s size hi = (f : ℕ) → f + size ≤ hi → (b : ℕ) × (f ≤ b) × (b < f + size) × (mark s b ≡ 1)

abbrev pub AllFree : Pmm → (lo hi : ℕ) → Type 0
AllFree s lo hi = (b : ℕ) → lo ≤ b → b < hi → mark s b ≡ 0

pub record IsFrame (s : Pmm) (size hi r : ℕ) : Type 0 where
  pub nonzero : 0 < r
  pub below : r + size ≤ hi
  pub free : AllFree s r (r + size)

-- A free run of `size` blocks, or 0 and there is none.
pub data FrameResult (s : Pmm) (size hi r : ℕ) : Type 0 where
  frame : IsFrame s size hi r → FrameResult s size hi r
  no_frame : r ≡ 0 → NoFrame s size hi → FrameResult s size hi r

-- The free run that ends before the block `at`, and starts behind a block in use.
record Busy (s : Pmm) (at : ℕ) (r : Run) : Type 0 where
  nonzero : 0 < r.first
  ends : r.first + r.count ≡ at
  behind : mark s (r.first - 1) ≡ 1
  free : AllFree s r.first at

data Current (s : Pmm) (at : ℕ) (r : Run) : Type 0 where
  idle : r.first ≡ 0 → r.count ≡ 0 → (0 < at → mark s (at - 1) ≡ 1) → Current s at r
  busy : Busy s at r → Current s at r

record Good (s : Pmm) (size at : ℕ) (r : Run) : Type 0 where
  short : r.count < size
  current : Current s at r
  none_before : NoFrame s size at

-- A round over a free block.
abbrev longer : ℕ → Run → Run
longer at r = record { first = if r.first == 0 then at else r.first; count = r.count + 1 }

run_step-free : (w at : ℕ) (r : Run) → bit_of w (at % 32) ≡ 0 → run_step w at r ≡ longer at r
unfolding run_step
run_step-free w at r e = rw (free_test, eq→== (bit_of w (at % 32)) 0 e)

run_step-used : (w at : ℕ) (r : Run) → bit_of w (at % 32) ≡ 1 → run_step w at r ≡ no_run
unfolding run_step
run_step-used w at r e = rw (free_test, ne→==_false (bit_of w (at % 32)) 0 (omega arith))

read_word-ok : (s : Pmm) (i : ℕ) → i < bitmap_words → read_word s i ≡ ok (s.bitmap i)
unfolding read_word
read_word-ok s i h = rw (lt→ltb i bitmap_words h)

module _ (s : Pmm) (size : ℕ) (pos : 0 < size) (zero_used : mark s 0 ≡ 1) where
  extend :
      (at : ℕ)
      → NoFrame s size at
      → (b : ℕ) → mark s b ≡ 1
      → at < b + size
      → b ≤ at
      → NoFrame s size (at + 1)
  extend at none b used wide le f h = elim (dec_le (f + size) at) [
    | yes p ↦ none f p
    | no p ↦ (b, omega arith, omega arith, used)
  ]

  used_step : (at : ℕ) (r : Run) → mark s at ≡ 1 → Good s size at r → Good s size (at + 1) no_run
  used_step at r used g = record {
    short = pos;
    current = idle refl refl (λ p. subst (λ t. mark s t ≡ 1) (omega arith) used);
    none_before = extend at g.none_before at used (omega arith) (omega arith);
  }

  grow : (lo at : ℕ) → mark s at ≡ 0 → AllFree s lo at → AllFree s lo (at + 1)
  grow lo at free before b p q = elim (dec_lt b at) [
    | yes h ↦ before b p h
    | no h ↦ subst (λ t. mark s t ≡ 0) (omega arith) free
  ]

  longer-Busy : (at : ℕ) (r : Run) → mark s at ≡ 0 → Current s at r → Busy s (at + 1) (longer at r)
  longer-Busy at r free (idle z c before) =
      let at_pos : 0 < at = at_nonzero at free in
      rw (eq→== r.first 0 z) (record {
        nonzero = at_pos;
        ends = omega arith;
        behind = before at_pos;
        free = grow at at free (λ b p q. absurd (omega arith));
      })
    where
      at_nonzero : (b : ℕ) → mark s b ≡ 0 → 0 < b
      at_nonzero zero e = absurd (omega arith)
      at_nonzero (suc b) e = omega arith
  longer-Busy at r free (busy g) = rw (ne→==_false r.first 0 (omega (arith, g.nonzero))) (record {
    nonzero = g.nonzero;
    ends = omega (arith, g.ends);
    behind = g.behind;
    free = grow r.first at free g.free;
  })

  longer-IsFrame : (at : ℕ) (r : Run) → r.count ≡ size → Busy s at r → IsFrame s size at r.first
  longer-IsFrame at r full g = record {
    nonzero = g.nonzero;
    below = omega (arith, g.ends);
    free = λ b p q. g.free b p (omega (arith, g.ends));
  }

  longer-Good :
      (at : ℕ) (r : Run)
      → r.count < size
      → NoFrame s size at
      → Busy s (at + 1) r
      → Good s size (at + 1) r
  longer-Good at r short none g = record {
    short = short;
    current = busy g;
    none_before =
        extend at none (r.first - 1) g.behind (omega (arith, g.ends, g.nonzero))
          (omega (arith, g.ends, short, pos));
  }

  -- What the inner loop leaves at the end of its word.
  abbrev ScanResult : ℕ → Scan → Type 0
  ScanResult hi (found r) = IsFrame s size hi r
  ScanResult hi (scanned r) = Good s size hi r

  IsFrame-wider : (lo hi r : ℕ) → lo ≤ hi → IsFrame s size lo r → IsFrame s size hi r
  IsFrame-wider lo hi r le f = record {
    nonzero = f.nonzero;
    below = omega (arith, f.below);
    free = f.free;
  }

  scan_word-ScanResult :
      (i left at : ℕ) (r : Run)
      → at + left ≡ (i + 1) * 32
      → left ≤ 32
      → Good s size at r
      → ScanResult ((i + 1) * 32) (scan_word size (s.bitmap i) left at r)
  unfolding scan_word
  scan_word-ScanResult i zero at r e le g = subst (λ t. Good s size t r) (omega arith) g
  scan_word-ScanResult i (suc left) at r e le g = elim (Bool-cases (mark s at == 0)) [
    | inl h ↦
        let free : mark s at ≡ 0 = ==→eq (mark s at) 0 h in
        let g' = longer-Busy at r free g.current in
        rw (run_step-free (s.bitmap i) at r (ap bit_here (sym word) ∙ free))
          (elim (Bool-cases (r.count + 1 == size)) [
            | inl full ↦ rw full (
                IsFrame-wider (at + 1) ((i + 1) * 32) (longer at r).first (omega arith)
                  (longer-IsFrame (at + 1) (longer at r) (==→eq (r.count + 1) size full) g'))
            | inr more ↦ rw more (
                scan_word-ScanResult i left (at + 1) (longer at r) (omega arith) (omega arith) (
                  longer-Good at (longer at r)
                    (omega (arith, g.short, ==_false→ne (r.count + 1) size more)) g.none_before g'))
          ])
    | inr h ↦
        let used : mark s at ≡ 1 =
          omega (arith, ==_false→ne (mark s at) 0 h, bit_of_lt (at % 32) (s.bitmap (at / 32))) in
        rw
          (
            run_step-used (s.bitmap i) at r (ap bit_here (sym word) ∙ used),
            ne→==_false 0 size (omega (arith, pos)),
          )
          (scan_word-ScanResult i left (at + 1) no_run (omega arith) (omega arith)
            (used_step at r used g))
  ]
    where
      word : at / 32 ≡ i
      word = omega arith

      bit_here : ℕ → ℕ
      bit_here k = bit_of (s.bitmap k) (at % 32)

  full_word-Good :
      (i : ℕ) (r : Run)
      → s.bitmap i ≡ 0xffffffff
      → Good s size (i * 32) r
      → Good s size ((i + 1) * 32) no_run
  full_word-Good i r ones g = record {
    short = pos;
    current = idle refl refl (λ p. used ((i + 1) * 32 - 1) (omega arith) (omega arith));
    none_before = λ f le. elim (dec_le (f + size) (i * 32)) [
      | yes p ↦ g.none_before f p
      | no p ↦
          (f + size - 1, omega arith, omega arith, used (f + size - 1) (omega arith) (omega arith))
    ];
  }
    where
      used : (b : ℕ) → i * 32 ≤ b → b < i * 32 + 32 → mark s b ≡ 1
      used = word_used s i 32 (omega arith) (λ k t. ap (λ w. bit_of w k) ones ∙ bit_of_ones 32 k t)

  scan_one-ScanResult :
      (i : ℕ) (r : Run)
      → Good s size (i * 32) r
      → ScanResult ((i + 1) * 32) (scan_one size (s.bitmap i) i r)
  unfolding scan_one
  scan_one-ScanResult i r g = elim (Bool-cases (s.bitmap i == 0xffffffff)) [
    | inl e ↦ rw e (full_word-Good i r (==→eq (s.bitmap i) 0xffffffff e) g)
    | inr e ↦ rw e (scan_word-ScanResult i 32 (i * 32) r (omega arith) (omega arith) g)
  ]

  scan_from-FrameResult :
      (left i : ℕ) (r : Run)
      → i + left ≤ bitmap_words
      → Good s size (i * 32) r
      → (a : ℕ) × (scan_from s size left i r ≡ ok a) × FrameResult s size ((i + left) * 32) a
  unfolding scan_from
  scan_from-FrameResult zero i r h g =
      (0, refl, no_frame refl (λ f le. g.none_before f (omega arith)))
  scan_from-FrameResult (suc left) i r h g =
      let (a, e, x) =
        continue (scan_one size (s.bitmap i) i r) (scan_one-ScanResult i r g)
          (λ r' g'. scan_from-FrameResult left (i + 1) r' (omega arith) g') in
      (
        a,
        rw (read_word-ok s i (omega arith)) e,
        subst (λ t. FrameResult s size (t * 32) a) (omega arith) x,
      )
    where
      Ends : Outcome ℕ → Type 0
      Ends m = (a : ℕ) × (m ≡ ok a) × FrameResult s size ((i + 1 + left) * 32) a

      continue :
          (o : Scan)
          → ScanResult ((i + 1) * 32) o
          → ((r' : Run) → Good s size ((i + 1) * 32) r' → Ends (scan_from s size left (i + 1) r'))
          → Ends (elim o [ found a ↦ ok a | scanned r' ↦ scan_from s size left (i + 1) r' ])
      continue (found a) f k =
          (a, refl, frame (IsFrame-wider ((i + 1) * 32) ((i + 1 + left) * 32) a (omega arith) f))
      continue (scanned r') g' k = k r' g'

-- With block 0 in use and blocks that fit the bitmap, `mmap_find_free_frame` reads nothing outside
-- the bitmap. What it returns is the start of a run of `size` free blocks below the blocks looked
-- at, or 0, and then every such run has a block in use.
pub mmap_find_free_frame-FrameResult :
    (s : Pmm) (size : ℕ)
    → 0 < size
    → s.max_blocks < 2 ^ 20
    → mark s 0 ≡ 1
    → (r : ℕ) × (mmap_find_free_frame s size ≡ ok r) × FrameResult s size (s.max_blocks / 32 * 32) r
unfolding mmap_find_free_frame
mmap_find_free_frame-FrameResult s size pos small zero_used =
    let (r, e, f) =
      scan_from-FrameResult s size pos zero_used (s.max_blocks / 32) 0 no_run (omega arith) start in
    (r, e, subst (λ t. FrameResult s size (t * 32) r) (omega arith) f)
  where
    start : Good s size (0 * 32) no_run
    start = record {
      short = pos;
      current = idle refl refl (λ p. absurd (omega arith));
      none_before = λ f le. absurd (omega arith);
    }
