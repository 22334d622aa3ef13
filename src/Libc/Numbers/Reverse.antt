-- ===== src/Libc/Numbers/Reverse.antt =====
-- `reverse` turns a string round in its place.
use medusa_os.Prelude.{
  ℕ, zero, suc, ◌+◌, ◌-◌, ◌/◌, ◌%◌, ◌^◌, ◌<◌, ◌≡◌, refl, ap, sym, ◌∙◌, subst, arith, lt→ltb, List,
  [], ◌∷◌, ◌++◌, append-nil, append_assoc, length, length-append, get_elem?, set, ok, access,
}
use medusa_os.Libc.Strings.Laws.{Characters, strlen_lem}
use medusa_os.Libc.Numbers.{write_char, reverse_from, reverse}

-- The characters in the opposite order.
abbrev pub rev : List ℕ → List ℕ
rev [] = []
rev (x ∷ xs) = rev xs ++ (x ∷ [])

-- Reading and writing the byte behind `pre`.
pub read-append :
    (pre : List ℕ) (x : ℕ) (post : List ℕ)
    → access (get_elem? (pre ++ (x ∷ post)) (length pre)) ≡ ok x
read-append [] x post = refl
read-append (c ∷ pre) x post = read-append pre x post

pub set-append :
    (pre : List ℕ) (x v : ℕ) (post : List ℕ)
    → set (pre ++ (x ∷ post)) (length pre) v ≡ pre ++ (v ∷ post)
set-append [] x v post = refl
set-append (c ∷ pre) x v post = ap (λ t. c ∷ t) (set-append pre x v post)

pub write-append :
    (pre : List ℕ) (x v : ℕ) (post : List ℕ)
    → v < 2 ^ 8
    → write_char (pre ++ (x ∷ post)) (length pre) v ≡ ok (pre ++ (v ∷ post))
write-append pre x v post small =
    let inside : length pre < length (pre ++ (x ∷ post)) =
      omega (arith, length-append pre (x ∷ post)) in
    let same : v % 2 ^ 8 ≡ v = omega arith in
    rw (lt→ltb (length pre) (length (pre ++ (x ∷ post))) inside, same, set-append pre x v post) refl

-- The last character of a text, and those before it.
record Last (xs : List ℕ) : Type 0 where
  before : List ℕ
  last : ℕ
  split : xs ≡ before ++ (last ∷ [])
  size : length xs ≡ length before + 1

split_end : (x : ℕ) (xs : List ℕ) → Last (x ∷ xs)
split_end x [] = record { before = []; last = x; split = refl; size = refl }
split_end x (y ∷ xs) =
    let l = split_end y xs in
    record {
      before = x ∷ l.before;
      last = l.last;
      split = ap (λ t. x ∷ t) l.split;
      size = omega (arith, l.size);
    }

pub rev-append : (xs ys : List ℕ) → rev (xs ++ ys) ≡ rev ys ++ rev xs
rev-append [] ys = sym (append-nil (rev ys))
rev-append (x ∷ xs) ys = rw (rev-append xs ys) (append_assoc (rev ys) (rev xs) (x ∷ []))

pub rev-rev : (xs : List ℕ) → rev (rev xs) ≡ xs
rev-rev [] = refl
rev-rev (x ∷ xs) = rw (rev-append (rev xs) (x ∷ []), rev-rev xs) refl

pub length-rev : (xs : List ℕ) → length (rev xs) ≡ length xs
length-rev [] = refl
length-rev (x ∷ xs) = omega (arith, length-rev xs, length-append (rev xs) (x ∷ []))

Characters-append : (xs ys : List ℕ) → Characters (xs ++ ys) → Characters xs × Characters ys
Characters-append [] ys h = (refl_unit, h)
  where
    refl_unit : Characters []
    refl_unit = omega arith
Characters-append (x ∷ xs) ys h = let (l, r) = Characters-append xs ys h.2 in ((h.0, h.1, l), r)

-- One turn: the two ends of what is left change places.
swap_ends :
    (n x y len : ℕ) (pre mid post : List ℕ)
    → x < 2 ^ 8
    → y < 2 ^ 8
    → len ≡ length pre + length mid + 2 + length pre
    → reverse_from (suc n) (length pre) len (pre ++ (x ∷ (mid ++ (y ∷ post))))
      ≡ reverse_from n (length pre + 1) len (pre ++ (y ∷ (mid ++ (x ∷ post))))
swap_ends n x y len pre mid post hx hy size =
    let again : (c : ℕ)
        → (rest : List ℕ) → (pre ++ (c ∷ mid)) ++ rest ≡ pre ++ (c ∷ (mid ++ rest)) =
      λ c rest. append_assoc pre (c ∷ mid) rest in
    let at : (c : ℕ) → len - length pre - 1 ≡ length (pre ++ (c ∷ mid)) =
      λ c. omega (arith, length-append pre (c ∷ mid)) in
    let far : access (get_elem? (pre ++ (x ∷ (mid ++ (y ∷ post)))) (len - length pre - 1)) ≡ ok y =
      rw (at x, sym (again x (y ∷ post))) (read-append (pre ++ (x ∷ mid)) y post) in
    let last : write_char (pre ++ (y ∷ (mid ++ (y ∷ post)))) (len - length pre - 1) x
        ≡ ok (pre ++ (y ∷ (mid ++ (x ∷ post)))) =
      rw (at y, sym (again y (y ∷ post)), sym (again y (x ∷ post)))
        (write-append (pre ++ (y ∷ mid)) y x post hx) in
    rw
      (
        read-append pre x (mid ++ (y ∷ post)),
        far,
        write-append pre x y (mid ++ (y ∷ post)) hy,
        last,
      )
      refl

reverse_from-middle :
    (n len : ℕ) (pre mid post : List ℕ)
    → Characters mid
    → n ≡ length mid / 2
    → len ≡ length pre + length mid + length pre
    → reverse_from n (length pre) len (pre ++ (mid ++ post)) ≡ ok (pre ++ (rev mid ++ post))
reverse_from-middle zero len pre [] post h turns size = refl
reverse_from-middle zero len pre (x ∷ []) post h turns size = refl
reverse_from-middle zero len pre (x ∷ z ∷ mid) post h turns size = absurd (omega (arith, turns))
reverse_from-middle (suc n) len pre [] post h turns size = absurd (omega (arith, turns))
reverse_from-middle (suc n) len pre (x ∷ []) post h turns size = absurd (omega (arith, turns))
reverse_from-middle (suc n) len pre (x ∷ z ∷ mid) post h turns size =
    let l = split_end z mid in
    let (hb, hy) = Characters-append l.before (l.last ∷ []) (subst Characters l.split h.2) in
    let turns' : n ≡ length l.before / 2 = omega (arith, turns, l.size) in
    let size' : len ≡ length pre + length l.before + 2 + length pre = omega (arith, size, l.size) in
    let front : length (pre ++ (l.last ∷ [])) ≡ length pre + 1 =
      omega (arith, length-append pre (l.last ∷ [])) in
    let inner =
      reverse_from-middle n len (pre ++ (l.last ∷ [])) l.before (x ∷ post) hb turns'
        (omega (arith, size', front)) in
    let turned : reverse_from n (length pre + 1) len (pre ++ (l.last ∷ (l.before ++ (x ∷ post))))
        ≡ ok (pre ++ (l.last ∷ (rev l.before ++ (x ∷ post)))) =
      rw
        (
          sym front,
          sym (append_assoc pre (l.last ∷ []) (l.before ++ (x ∷ post))),
          sym (append_assoc pre (l.last ∷ []) (rev l.before ++ (x ∷ post))),
        )
        inner in
    let back : pre ++ (l.last ∷ (rev l.before ++ (x ∷ post)))
        ≡ pre ++ ((rev (l.before ++ (l.last ∷ [])) ++ (x ∷ [])) ++ post) =
      rw (rev-append l.before (l.last ∷ []), append_assoc (l.last ∷ rev l.before) (x ∷ []) post)
        refl in
    let whole =
      ap (λ t. reverse_from (suc n) (length pre) len (pre ++ (x ∷ t)))
        (append_assoc l.before (l.last ∷ []) post)
      ∙ swap_ends n x l.last len pre l.before post h.1 hy.1 size'
      ∙ turned
      ∙ ap ok back in
    subst
      (λ m.
        reverse_from (suc n) (length pre) len (pre ++ (x ∷ (m ++ post)))
        ≡ ok (pre ++ ((rev m ++ (x ∷ [])) ++ post)))
      (sym l.split) whole

-- `reverse` of a string with NUL, whatever follows it, puts its characters in the opposite order and
-- leaves the rest as it was.
pub reverse_lem :
    (s rest : List ℕ) → Characters s → reverse (s ++ (0 ∷ rest)) ≡ ok (rev s ++ (0 ∷ rest))
unfolding reverse
reverse_lem s rest h =
    rw (strlen_lem s rest h)
      (reverse_from-middle (length s / 2) (length s) [] s (0 ∷ rest) h refl (omega arith))
