-- ===== src/Fs/Names.antt =====
-- The loops that look for a name with `strcmp`: `vfs_tree_find_child_with_name` in
-- kernel/kernel/fs/vfs.c, `initrd_finddir` and `initrd_get_file_size` in kernel/kernel/fs/initrd.c
-- and `devfs_register_device` in kernel/kernel/fs/devfs.c. A name is the bytes of its array.
use medusa_os.Prelude.{
  ℕ, zero, suc, ◌≤◌, ◌≡◌, ◌≢◌, refl, arith, ◌==◌, if◌then◌else◌, Bool, Bool-cases, true, false,
  Option, none, some, List, [], ◌∷◌, ◌++◌, length, Outcome, ok, fault, take, ◌>>=◌, inl, inr, ==→eq,
  ==_false→ne,
}
use medusa_os.Libc.Strings.{strcmp}
use medusa_os.Libc.Strings.Laws.{Characters, strcmp_lem}

-- `strcmp(a, b) == 0`
pub names_equal : List ℕ → List ℕ → Outcome Bool
names_equal a b = do d ← strcmp a b; ok (d.plus == d.minus)

abbrev pub next_index : Option ℕ → Option ℕ
next_index none = none
next_index (some i) = some (suc i)

-- The index of the first of the first `turns` of `names` that is equal to `name`.
pub find_name : (turns : ℕ) → (name : List ℕ) → (names : List (List ℕ)) → Outcome (Option ℕ)
find_name zero name names = ok none
find_name (suc turns) name [] = fault
find_name (suc turns) name (n ∷ names) = do
  same ← names_equal name n
  if same then ok (some 0) else (do rest ← find_name turns name names; ok (next_index rest))

-- Arrays that hold `strings`, in their order.
abbrev pub Hold : List (List ℕ) → List (List ℕ) → Type 0
Hold [] [] = Unit {0}
Hold [] (s ∷ strings) = ⊥
Hold (n ∷ names) [] = ⊥
Hold (n ∷ names) (s ∷ strings) =
    (rest : List ℕ) × (n ≡ s ++ (0 ∷ rest)) × Characters s × Hold names strings

-- `i` is the first index at which `strings` has `s`.
abbrev pub FirstAt : List ℕ → List (List ℕ) → Option ℕ → Type 0
FirstAt s [] none = Unit {0}
FirstAt s [] (some i) = ⊥
FirstAt s (t ∷ strings) none = (s ≢ t) × FirstAt s strings none
FirstAt s (t ∷ strings) (some zero) = s ≡ t
FirstAt s (t ∷ strings) (some (suc i)) = (s ≢ t) × FirstAt s strings (some i)

pub names_equal_lem :
    (s t rest more : List ℕ)
    → Characters s
    → Characters t
    → (same : Bool) × (names_equal (s ++ (0 ∷ rest)) (t ++ (0 ∷ more)) ≡ ok same)
      × (same ≡ true → s ≡ t)
      × (same ≡ false → s ≢ t)
unfolding names_equal
names_equal_lem s t rest more hs ht =
    let (d, eq, (there, back)) = strcmp_lem s t rest more hs ht in
    (
      d.plus == d.minus,
      rw eq refl,
      (λ e. there (==→eq d.plus d.minus e)),
      λ e p. ==_false→ne d.plus d.minus e (back p),
    )

later_first :
    (s t : List ℕ) (strings : List (List ℕ)) (o : Option ℕ)
    → s ≢ t
    → FirstAt s strings o
    → FirstAt s (t ∷ strings) (next_index o)
later_first s t strings none ne first = (ne, first)
later_first s t strings (some i) ne first = (ne, first)

-- Over the first `turns` of the arrays, the loops find the first one that holds the string, and NULL
-- where there is none.
pub find_name_lem :
    (s rest : List ℕ) (turns : ℕ) (names strings : List (List ℕ))
    → Characters s
    → turns ≤ length names
    → Hold (take turns names) strings
    → (o : Option ℕ) × (find_name turns (s ++ (0 ∷ rest)) names ≡ ok o) × FirstAt s strings o
unfolding find_name
find_name_lem s rest zero names [] hs few hold = (none, refl, omega arith)
find_name_lem s rest zero names (t ∷ strings) hs few hold = elim hold [ ]
find_name_lem s rest (suc turns) [] strings hs few hold = absurd (omega (arith, few))
find_name_lem s rest (suc turns) (n ∷ names) [] hs few hold = elim hold [ ]
find_name_lem s rest (suc turns) (n ∷ names) (t ∷ strings) hs few hold =
    let (more, n_eq, ht, tail) = hold in
    let (same, eq, yes_eq, no_eq) = names_equal_lem s t rest more hs ht in
    elim (Bool-cases same) [
      | inl e ↦ (some 0, rw (n_eq, eq, e) refl, yes_eq e)
      | inr e ↦
          let (o, found, first) =
            find_name_lem s rest turns names strings hs (omega (arith, few)) tail in
          (next_index o, rw (n_eq, eq, e, found) refl, later_first s t strings o (no_eq e) first)
    ]
