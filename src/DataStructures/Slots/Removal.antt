-- ===== src/DataStructures/Slots/Removal.antt =====
-- Searching the list, and removing from it.
use medusa_os.Prelude.{
  ℕ, zero, suc, ◌+◌, ◌^◌, ◌≤◌, ◌<◌, ◌≡◌, ◌==◌, if◌then◌else◌, Bool, true, false, Option, some, List,
  [], ◌∷◌, ◌++◌, length, get_elem?, set, map, refl, ap, sym, ◌∙◌, subst, arith, inl, inr,
  Bool-cases, ok, length-append, append_assoc, append-nil, lt→ltb, ==→eq,
}
use medusa_os.DataStructures.Slots.{
  Slots, resize, capacity, list_create_ext, list_find_at, write_slot, clear_from, list_append,
  remove_from, list_remove, remove_index_from, list_remove_index, find_from, list_find,
}
use medusa_os.DataStructures.Slots.Laws.{
  Holds, list_append-Holds, length-set_slot, length-map, length-resize,
}

-- `xs` without the items equal to `w`.
abbrev pub without : (w : ℕ) → List ℕ → List ℕ
without w [] = []
without w (x ∷ xs) = if x == w then without w xs else x ∷ without w xs

-- `xs` without the item at an index.
abbrev pub erase_at : (index : ℕ) → List ℕ → List ℕ
erase_at index [] = []
erase_at zero (x ∷ xs) = xs
erase_at (suc index) (x ∷ xs) = x ∷ erase_at index xs

abbrev pub contains : (w : ℕ) → List ℕ → Bool
contains w [] = false
contains w (x ∷ xs) = if x == w then true else contains w xs

get-middle :
    (pre : List ℕ) (x : ℕ) (post : List ℕ) (rest : List (Option ℕ))
    → get_elem? (map some (pre ++ (x ∷ post)) ++ rest) (length pre) ≡ some (some x)
get-middle [] x post rest = refl
get-middle (y ∷ pre) x post rest = get-middle pre x post rest

list_find_at-middle :
    (l : Slots) (pre : List ℕ) (x : ℕ) (post : List ℕ)
    → Holds l (pre ++ (x ∷ post))
    → list_find_at (length pre) l ≡ ok x
unfolding list_find_at
list_find_at-middle l pre x post h = rw (h.array, get-middle pre x post h.rest) refl

next_lem : (pre : List ℕ) (x : ℕ) → length (pre ++ (x ∷ [])) ≡ length pre + 1
next_lem pre x = length-append pre (x ∷ [])

clear_from-ok :
    (n i : ℕ) (l : Slots) → i + n ≤ length l.list → (l' : Slots) × (clear_from n i l ≡ ok l')
unfolding write_slot
clear_from-ok zero i l h = (l, refl)
clear_from-ok (suc n) i l h =
    let (l', e) =
      clear_from-ok n (i + 1) (record l { list = set l.list i (some 0) })
        (omega (arith, length-set_slot l.list i (some 0))) in
    (l', rw (lt→ltb i (length l.list) (omega arith)) e)

items-fit : (l : Slots) (xs : List ℕ) → Holds l xs → length xs ≤ l.size
items-fit l xs h =
    omega (arith, ap length h.array, length-append (map some xs) h.rest, length-map xs, h.measured)

clear-ok : (l : Slots) (xs : List ℕ) → Holds l xs → (l' : Slots) × (clear_from l.used 0 l ≡ ok l')
clear-ok l xs h = clear_from-ok l.used 0 l (omega (arith, items-fit l xs h, h.counted, h.measured))

create-Holds : (n : ℕ) → 0 < n → n < 2 ^ 29 → Holds (list_create_ext 0 n) []
unfolding list_create_ext
create-Holds n pos small = record {
  rest = resize (capacity n) [];
  array = refl;
  counted = refl;
  measured = omega (arith, length-resize (capacity n) []);
  roomy = pos;
}

-- One more item in a list with a free slot.
append-small :
    (x : ℕ) (new : Slots) (ys : List ℕ)
    → Holds new ys
    → length ys < new.size
    → new.size < 2 ^ 29
    → (new' : Slots) × (list_append x new ≡ ok new')
      × Holds new' (ys ++ (x ∷ []))
      × (new'.size ≡ new.size)
append-small x new ys h room small =
    let (new', e, k, s) = list_append-Holds x new ys h small in
    (new', e, k, ground (arith, s, h.counted))

module _ (l : Slots) (small : l.size < 2 ^ 29) where
  remove_from-Holds :
      (w : ℕ) (pre post ys : List ℕ) (new : Slots)
      → Holds l (pre ++ post)
      → Holds new ys
      → new.size ≡ l.size
      → length ys ≤ length pre
      → (new' : Slots) × (remove_from w l (length post) (length pre) new ≡ ok new')
        × Holds new' (ys ++ without w post)
  remove_from-Holds w pre [] ys new h k s le =
      (new, refl, subst (Holds new) (sym (append-nil ys)) k)
  remove_from-Holds w pre (x ∷ post) ys new h k s le =
      let h' : Holds l ((pre ++ (x ∷ [])) ++ post) =
        subst (Holds l) (sym (append_assoc pre (x ∷ []) post)) h in
      rw (list_find_at-middle l pre x post h, ← next_lem pre x)
        (elim (Bool-cases (x == w)) [
          | inl e ↦ rw e (
              remove_from-Holds w (pre ++ (x ∷ [])) post ys new h' k s
                (omega (arith, next_lem pre x, le)))
          | inr e ↦
              let fits = items-fit l (pre ++ (x ∷ post)) h in
              let room : length ys < new.size =
                omega (arith, fits, length-append pre (x ∷ post), s, le) in
              let (a, q, ka, sa) = append-small x new ys k room (omega (arith, s, small)) in
              let (new', r, kr) =
                remove_from-Holds w (pre ++ (x ∷ [])) post (ys ++ (x ∷ [])) a h' ka (sa ∙ s)
                  (omega (arith, next_lem pre x, next_lem ys x, le)) in
              (
                new',
                rw (e, q) r,
                rw e (subst (Holds new') (append_assoc ys (x ∷ []) (without w post)) kr),
              )
        ])

  -- What the loop of `list_remove_index` keeps from the place `i` on.
  abbrev kept_from : (index i : ℕ) → List ℕ → List ℕ
  kept_from index i [] = []
  kept_from index i (x ∷ xs) =
      if i == index then kept_from index (i + 1) xs else x ∷ kept_from index (i + 1) xs

  remove_index_from-Holds :
      (index : ℕ) (pre post ys : List ℕ) (new : Slots)
      → Holds l (pre ++ post)
      → Holds new ys
      → new.size ≡ l.size
      → length ys ≤ length pre
      → (new' : Slots) × (remove_index_from index l (length post) (length pre) new ≡ ok new')
        × Holds new' (ys ++ kept_from index (length pre) post)
  remove_index_from-Holds index pre [] ys new h k s le =
      (new, refl, subst (Holds new) (sym (append-nil ys)) k)
  remove_index_from-Holds index pre (x ∷ post) ys new h k s le =
      let h' : Holds l ((pre ++ (x ∷ [])) ++ post) =
        subst (Holds l) (sym (append_assoc pre (x ∷ []) post)) h in
      rw (list_find_at-middle l pre x post h, ← next_lem pre x)
        (elim (Bool-cases (length pre == index)) [
          | inl e ↦ rw e (
              remove_index_from-Holds index (pre ++ (x ∷ [])) post ys new h' k s
                (omega (arith, next_lem pre x, le)))
          | inr e ↦
              let fits = items-fit l (pre ++ (x ∷ post)) h in
              let room : length ys < new.size =
                omega (arith, fits, length-append pre (x ∷ post), s, le) in
              let (a, q, ka, sa) = append-small x new ys k room (omega (arith, s, small)) in
              let (new', r, kr) =
                remove_index_from-Holds index (pre ++ (x ∷ [])) post (ys ++ (x ∷ [])) a h' ka
                  (sa ∙ s) (omega (arith, next_lem pre x, next_lem ys x, le)) in
              (
                new',
                rw (e, q) r,
                rw e (
                    subst (Holds new')
                      (append_assoc ys (x ∷ []) (kept_from index (length (pre ++ (x ∷ []))) post))
                      kr),
              )
        ])

  kept_from-after : (index i : ℕ) (xs : List ℕ) → index < i → kept_from index i xs ≡ xs
  kept_from-after index i [] h = refl
  kept_from-after index i (x ∷ xs) h =
      ground (arith, kept_from-after index (i + 1) xs (omega arith))

  kept_from-erase : (k i : ℕ) (xs : List ℕ) → kept_from (i + k) i xs ≡ erase_at k xs
  kept_from-erase k i [] = elim k [ zero ↦ refl | suc j ↦ refl ]
  kept_from-erase zero i (x ∷ xs) = ground (arith, kept_from-after (i + 0) (i + 1) xs (omega arith))
  kept_from-erase (suc k) i (x ∷ xs) =
      let e : i + 1 + k ≡ i + suc k = omega arith in
      ground (arith, ap (λ t. kept_from t (i + 1) xs) e, kept_from-erase k (i + 1) xs)

-- On a list of fewer than 2^29 slots that holds `xs`, `list_remove` succeeds, and its list holds `xs`
-- without every item equal to the given one.
pub list_remove-Holds :
    (w : ℕ) (l : Slots) (xs : List ℕ)
    → Holds l xs
    → l.size < 2 ^ 29
    → (l' : Slots) × (list_remove w l ≡ ok l') × Holds l' (without w xs)
unfolding list_remove
list_remove-Holds w l xs h small =
    let (l', e, k) =
      remove_from-Holds l small w [] xs [] (list_create_ext 0 l.size) h
        (create-Holds l.size h.roomy small) (unfold list_create_ext in refl) (omega arith) in
    let (gone, d) = clear-ok l xs h in
    let q : remove_from w l l.used 0 (list_create_ext 0 l.size) ≡ ok l' =
      (λ i. remove_from w l (h.counted i) 0 (list_create_ext 0 l.size)) ∙ e in
    (l', rw (q, d) refl, k)

-- On a list of fewer than 2^29 slots that holds `xs`, `list_remove_index` succeeds, and its list
-- holds `xs` without the item at the index, if there is one.
pub list_remove_index-Holds :
    (index : ℕ) (l : Slots) (xs : List ℕ)
    → Holds l xs
    → l.size < 2 ^ 29
    → (l' : Slots) × (list_remove_index index l ≡ ok l') × Holds l' (erase_at index xs)
unfolding list_remove_index
list_remove_index-Holds index l xs h small =
    let (l', e, k) =
      remove_index_from-Holds l small index [] xs [] (list_create_ext 0 l.size) h
        (create-Holds l.size h.roomy small) (unfold list_create_ext in refl) (omega arith) in
    let (gone, d) = clear-ok l xs h in
    let q : remove_index_from index l l.used 0 (list_create_ext 0 l.size) ≡ ok l' =
      (λ i. remove_index_from index l (h.counted i) 0 (list_create_ext 0 l.size)) ∙ e in
    let at : index ≡ 0 + index = omega arith in
    let kept : kept_from l small index 0 xs ≡ erase_at index xs =
      ap (λ t. kept_from l small t 0 xs) at ∙ kept_from-erase l small index 0 xs in
    (l', rw (q, d) refl, subst (Holds l') kept k)

find_from-Holds :
    (w : ℕ) (l : Slots) (pre post : List ℕ)
    → Holds l (pre ++ post)
    → find_from w l (length post) (length pre) ≡ ok (if contains w post then w else 0)
find_from-Holds w l pre [] h = refl
find_from-Holds w l pre (x ∷ post) h =
    let h' : Holds l ((pre ++ (x ∷ [])) ++ post) =
      subst (Holds l) (sym (append_assoc pre (x ∷ []) post)) h in
    rw (list_find_at-middle l pre x post h, ← next_lem pre x)
      (elim (Bool-cases (x == w)) [
        | inl e ↦ rw e (ap ok (==→eq x w e))
        | inr e ↦ rw e (find_from-Holds w l (pre ++ (x ∷ [])) post h')
      ])

-- On a list that holds `xs`, `list_find` returns the given item if it is in `xs`, and NULL if not.
pub list_find-Holds :
    (w : ℕ) (l : Slots) (xs : List ℕ)
    → Holds l xs
    → list_find w l ≡ ok (if contains w xs then w else 0)
unfolding list_find
list_find-Holds w l xs h = rw h.counted (find_from-Holds w l [] xs h)
