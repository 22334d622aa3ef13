-- ===== src/Mm/Kmalloc/Places.antt =====
-- Changing one block of the chain, and adding blocks behind it.
use medusa_os.Prelude.{
  ℕ, ◌+◌, ◌%◌, ◌≤◌, ◌≡◌, inl, inr, refl, ap, subst, arith, ◌==◌, Bool, true, false, Option, none,
  some, List, [], ◌∷◌, ◌++◌, Bool-cases,
}
use medusa_os.Mm.Kmalloc.{Block, Place, find_place, later, top_of, put_block, is_empty}
use medusa_os.Mm.Kmalloc.Chain.{
  bytes_of, Ordered, chain_end, used_bytes, used_sum, Live, Live-bounds,
}

-- What a search returns.
pub record IsPlace (test : Block → Bool) (bs : List Block) (p : Place) : Type 0 where
  pub splits : bs ≡ put_block p p.here
  pub passes : test p.here ≡ true

pub find_place-IsPlace :
    (test : Block → Bool) (bs : List Block) (p : Place)
    → find_place test bs ≡ some p
    → IsPlace test bs p
unfolding find_place
find_place-IsPlace test [] p h = cc
find_place-IsPlace test (b ∷ bs) p h = elim (Bool-cases (test b)) [
  | inl e ↦
      let p0 : Place = record { before = []; here = b; after = bs } in
      let q : some p0 ≡ some p = rw e at h in
      let same : p0 ≡ p = cc in
      subst (IsPlace test (b ∷ bs)) same (record { splits = refl; passes = e })
  | inr e ↦ behind (find_place test bs) refl (rw e at h) (λ p'. find_place-IsPlace test bs p')
]
  where
    behind :
        (o : Option Place)
        → find_place test bs ≡ o
        → later b o ≡ some p
        → ((p' : Place) → find_place test bs ≡ some p' → IsPlace test bs p')
        → IsPlace test (b ∷ bs) p
    behind none q r rec = cc
    behind (some p') q r rec =
        let g = rec p' q in
        let e : record p' { before = b ∷ p'.before } ≡ p = cc in
        subst (IsPlace test (b ∷ bs)) e
          (record { splits = ap (λ t. b ∷ t) g.splits; passes = g.passes })

-- A live pointer is found by its address.
pub find_place-Live :
    (lo a : ℕ) (bs : List Block) (n : ℕ)
    → Ordered lo bs
    → Live bs (a + 8) n
    → (p : Place) × (find_place (λ b. b.addr == a) bs ≡ some p)
      × (bs ≡ put_block p p.here)
      × (p.here.addr ≡ a)
      × (bytes_of p.here ≡ n)
      × (p.here.size % 2 ≡ 1)
unfolding find_place
find_place-Live lo a [] n o l = elim l [ ]
find_place-Live lo a (b ∷ bs) n o (inl l) =
    let e : b.addr ≡ a = omega (arith, l) in
    (record { before = []; here = b; after = bs }, ground arith, refl, e, l.1, l.2)
find_place-Live lo a (b ∷ bs) n o (inr l) =
    let (p, e, s, q, k, u) = find_place-Live (b.addr + 12 + bytes_of b) a bs n o.2 l in
    let bounds = Live-bounds (b.addr + 12 + bytes_of b) bs (a + 8) n o.2 l in
    (record p { before = b ∷ p.before }, ground (arith, bounds), ap (λ t. b ∷ t) s, q, k, u)

-- One block is replaced by another of the same address and length.
module _ (b b' : Block) (same_addr : b.addr ≡ b'.addr) (same_bytes : bytes_of b ≡ bytes_of b') where
  pub replace-Ordered :
      (xs : List Block) (lo : ℕ) (ys : List Block)
      → Ordered lo (xs ++ (b ∷ ys))
      → Ordered lo (xs ++ (b' ∷ ys))
  replace-Ordered [] lo ys o =
      (omega (arith, o.0), omega (arith, o.1), subst (λ t. Ordered t ys) (omega arith) o.2)
  replace-Ordered (x ∷ xs) lo ys o =
      (o.0, o.1, replace-Ordered xs (x.addr + 12 + bytes_of x) ys o.2)

  pub used_sum-replace :
      (xs ys : List Block)
      → used_sum (xs ++ (b' ∷ ys)) + used_bytes b ≡ used_sum (xs ++ (b ∷ ys)) + used_bytes b'
  used_sum-replace [] ys = omega arith
  used_sum-replace (x ∷ xs) ys = omega (arith, used_sum-replace xs ys)

  -- The other live pointers stay live.
  pub replace-Live :
      (xs ys : List Block) (q k : ℕ)
      → (b.addr + 8 ≡ q → b.size % 2 ≡ 1 → ⊥)
      → Live (xs ++ (b ∷ ys)) q k
      → Live (xs ++ (b' ∷ ys)) q k
  replace-Live [] ys q k ne (inl l) = absurd (ne l.0 l.2)
  replace-Live [] ys q k ne (inr l) = inr l
  replace-Live (x ∷ xs) ys q k ne (inl l) = inl l
  replace-Live (x ∷ xs) ys q k ne (inr l) = inr (replace-Live xs ys q k ne l)

pub put-Live :
    (xs ys : List Block) (b : Block)
    → b.size % 2 ≡ 1
    → Live (xs ++ (b ∷ ys)) (b.addr + 8) (bytes_of b)
put-Live [] ys b u = inl (refl, refl, u)
put-Live (x ∷ xs) ys b u = inr (put-Live xs ys b u)

Ordered-here :
    (xs : List Block) (lo : ℕ) (b : Block) (ys : List Block)
    → Ordered lo (xs ++ (b ∷ ys))
    → lo ≤ b.addr
Ordered-here [] lo b ys o = o.0
Ordered-here (x ∷ xs) lo b ys o =
    omega (arith, o.0, Ordered-here xs (x.addr + 12 + bytes_of x) b ys o.2)

-- The pointer of a free block is not live.
pub free-not-Live :
    (xs : List Block) (lo : ℕ) (b : Block) (ys : List Block) (k : ℕ)
    → Ordered lo (xs ++ (b ∷ ys))
    → b.size % 2 ≡ 0
    → ¬ Live (xs ++ (b ∷ ys)) (b.addr + 8) k
free-not-Live [] lo b ys k o free (inl l) = absurd (omega (arith, l.2, free))
free-not-Live [] lo b ys k o free (inr l) =
    absurd (omega (arith, Live-bounds (b.addr + 12 + bytes_of b) ys (b.addr + 8) k o.2 l))
free-not-Live (x ∷ xs) lo b ys k o free (inl l) =
    absurd (omega (arith, l.0, Ordered-here xs (x.addr + 12 + bytes_of x) b ys o.2))
free-not-Live (x ∷ xs) lo b ys k o free (inr l) =
    free-not-Live xs (x.addr + 12 + bytes_of x) b ys k o.2 free l

pub append-Ordered :
    (xs : List Block) (lo : ℕ) (ys : List Block)
    → Ordered lo xs
    → Ordered (chain_end lo xs) ys
    → Ordered lo (xs ++ ys)
append-Ordered [] lo ys o o' = o'
append-Ordered (x ∷ xs) lo ys o o' =
    (o.0, o.1, append-Ordered xs (x.addr + 12 + bytes_of x) ys o.2 o')

pub used_sum-append : (xs ys : List Block) → used_sum (xs ++ ys) ≡ used_sum xs + used_sum ys
used_sum-append [] ys = omega arith
used_sum-append (x ∷ xs) ys = omega (arith, used_sum-append xs ys)

pub append-Live_left : (xs ys : List Block) (q k : ℕ) → Live xs q k → Live (xs ++ ys) q k
append-Live_left [] ys q k l = elim l [ ]
append-Live_left (x ∷ xs) ys q k (inl l) = inl l
append-Live_left (x ∷ xs) ys q k (inr l) = inr (append-Live_left xs ys q k l)

pub append-Live_right : (xs ys : List Block) (q k : ℕ) → Live ys q k → Live (xs ++ ys) q k
append-Live_right [] ys q k l = l
append-Live_right (x ∷ xs) ys q k l = inr (append-Live_right xs ys q k l)

-- The end of the chain is the end of `top`.
pub chain_end-top :
    (lo : ℕ) (bs : List Block)
    → is_empty bs ≡ false
    → (t : Block) × (top_of bs ≡ some t) × (t.addr + 12 + bytes_of t ≡ chain_end lo bs)
unfolding top_of
chain_end-top lo [] h = cc
chain_end-top lo (b ∷ []) h = (b, refl, refl)
chain_end-top lo (b ∷ c ∷ bs) h = chain_end-top (b.addr + 12 + bytes_of b) (c ∷ bs) refl
