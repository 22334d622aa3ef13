-- ===== src/DataStructures/Slots/Laws.antt =====
-- The array list as the sequence of what was appended.
use medusa_os.Prelude.{
  ℕ, zero, suc, ◌+◌, ◌*◌, ◌^◌, ◌≤◌, ◌<◌, ◌≡◌, ◌==◌, if◌then◌else◌, Option, some, List, [], ◌∷◌,
  ◌++◌, length, set, map, refl, ap, ◌∙◌, arith, inl, inr, Bool-cases, ok, length-append,
  append_assoc, lt→ltb,
}
use medusa_os.Misc.{u32}
use medusa_os.DataStructures.Slots.{Slots, resize, capacity, write_slot, grow, list_append}

-- `l` holds the items `xs`: they fill the front of the array, whose length is `size`.
pub record Holds (l : Slots) (xs : List ℕ) : Type 0 where
  pub rest : List (Option ℕ)
  pub array : l.list ≡ map some xs ++ rest
  pub counted : l.used ≡ length xs
  pub measured : length l.list ≡ l.size
  pub roomy : 0 < l.size

pub length-map : (xs : List ℕ) → length (map some xs) ≡ length xs
length-map [] = refl
length-map (x ∷ xs) = ap suc (length-map xs)

pub length-resize : (n : ℕ) (xs : List (Option ℕ)) → length (resize n xs) ≡ n
length-resize zero xs = refl
length-resize (suc n) [] = ap suc (length-resize n [])
length-resize (suc n) (x ∷ xs) = ap suc (length-resize n xs)

-- A longer array keeps its items.
abbrev spare : ℕ → List (Option ℕ) → List (Option ℕ)
spare n [] = resize n []
spare zero (x ∷ xs) = []
spare (suc n) (x ∷ xs) = spare n xs

resize-append : (n : ℕ) (xs : List (Option ℕ)) → length xs ≤ n → resize n xs ≡ xs ++ spare n xs
resize-append zero [] h = refl
resize-append (suc n) [] h = refl
resize-append zero (x ∷ xs) h = absurd (omega arith)
resize-append (suc n) (x ∷ xs) h = ap (λ t. x ∷ t) (resize-append n xs (omega arith))

pub length-set_slot :
    (xs : List (Option ℕ)) (i : ℕ) (v : Option ℕ) → length (set xs i v) ≡ length xs
length-set_slot [] i v = refl
length-set_slot (x ∷ xs) zero v = refl
length-set_slot (x ∷ xs) (suc i) v = ap suc (length-set_slot xs i v)

-- A write behind the items.
abbrev tail_of : List (Option ℕ) → List (Option ℕ)
tail_of [] = []
tail_of (x ∷ xs) = xs

set-append :
    (xs : List ℕ) (rest : List (Option ℕ)) (d : ℕ)
    → 0 < length rest
    → set (map some xs ++ rest) (length xs) (some d) ≡ map some (xs ++ (d ∷ [])) ++ tail_of rest
set-append [] [] d h = absurd (omega arith)
set-append [] (r ∷ rest) d h = refl
set-append (x ∷ xs) rest d h = ap (λ t. some x ∷ t) (set-append xs rest d h)

append-roomy :
    (d : ℕ) (l : Slots) (xs : List ℕ)
    → Holds l xs
    → l.used < l.size
    → l.size < 2 ^ 30
    → (l' : Slots) × (write_slot l.used d l ≡ ok l')
      × (u32 (l'.used + 1) ≡ l.used + 1)
      × (l'.size ≡ l.size)
      × Holds (record l' { used = u32 (l'.used + 1) }) (xs ++ (d ∷ []))
unfolding write_slot
append-roomy d l xs h room small =
    let n : length h.rest + length xs ≡ l.size =
      omega
        (arith, ap length h.array, length-append (map some xs) h.rest, length-map xs, h.measured) in
    (
      record l { list = set l.list l.used (some d) },
      rw (lt→ltb l.used (length l.list) (omega (arith, h.measured))),
      omega arith,
      refl,
      record {
        rest = tail_of h.rest;
        array =
            (λ i. set (h.array i) (h.counted i) (some d))
            ∙ set-append xs h.rest d (omega (arith, n, h.counted));
        counted = omega (arith, h.counted, length-append xs (d ∷ []));
        measured = length-set_slot l.list l.used (some d) ∙ h.measured;
        roomy = h.roomy;
      },
    )

grow-Holds :
    (l : Slots) (xs : List ℕ)
    → Holds l xs
    → l.size < 2 ^ 29
    → Holds (grow l) xs × ((grow l).size ≡ l.size * 2) × ((grow l).used ≡ l.used)
unfolding grow
grow-Holds l xs h small =
    let size : u32 (l.size * 2) ≡ l.size * 2 = omega arith in
    let cap : capacity (u32 (l.size * 2)) ≡ l.size * 2 = omega arith in
    (
      record {
        rest = h.rest ++ spare (capacity (u32 (l.size * 2))) l.list;
        array =
            resize-append (capacity (u32 (l.size * 2))) l.list (omega (arith, cap, h.measured))
            ∙ ap (λ t. t ++ spare (capacity (u32 (l.size * 2))) l.list) h.array
            ∙ append_assoc (map some xs) h.rest (spare (capacity (u32 (l.size * 2))) l.list);
        counted = h.counted;
        measured = omega (arith, length-resize (capacity (u32 (l.size * 2))) l.list, cap);
        roomy = omega (arith, h.roomy);
      },
      size,
      refl,
    )

-- On a list of fewer than 2^29 slots that holds `xs`, `list_append` succeeds, and the list then
-- holds `xs` with the new item at its end; a list with a free slot keeps its size, and a full one
-- doubles it.
pub list_append-Holds :
    (d : ℕ) (l : Slots) (xs : List ℕ)
    → Holds l xs
    → l.size < 2 ^ 29
    → (l' : Slots) × (list_append d l ≡ ok l')
      × Holds l' (xs ++ (d ∷ []))
      × (l'.size ≡ (if l.used == l.size then l.size * 2 else l.size))
unfolding list_append
list_append-Holds d l xs h small =
    let n : length h.rest + length xs ≡ l.size =
      omega
        (arith, ap length h.array, length-append (map some xs) h.rest, length-map xs, h.measured) in
    elim (Bool-cases (l.used == l.size)) [
      | inl e ↦
          let (g, size, used) = grow-Holds l xs h small in
          let (l', w, u, s, k) =
            append-roomy d (grow l) xs g (ground (arith, size, used, h.roomy))
              (omega (arith, size)) in
          (record l' { used = u32 (l'.used + 1) }, rw (e, w), k, rw e (s ∙ size))
      | inr e ↦
          let lt : l.used < l.size = ground (arith, n, h.counted) in
          let (l', w, u, s, k) = append-roomy d l xs h lt (omega arith) in
          (record l' { used = u32 (l'.used + 1) }, rw (e, w), k, rw e s)
    ]
