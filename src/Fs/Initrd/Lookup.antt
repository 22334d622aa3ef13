-- ===== src/Fs/Initrd/Lookup.antt =====
-- Finding a file of the ramdisk by its name.
pub mod Opening
use medusa_os.Prelude.{
  ℕ, zero, suc, ◌+◌, ◌*◌, ◌^◌, ◌≤◌, ◌<◌, ◌≡◌, ◌≢◌, refl, ap, sym, ◌∙◌, subst, arith, ◌==◌, leb,
  if◌then◌else◌, Bool, true, false, Bool-cases, inl, inr, ==→eq, ==_false→ne, eq→==, ne→==_false,
  Option, none, some, List, [], ◌∷◌, ◌++◌, length, get_elem?, take, drop, Outcome, ok, ◌>>=◌,
}
use medusa_os.Misc.{u32}
use medusa_os.Libc.Strings.Laws.{Characters}
use medusa_os.Fs.Names.{names_equal, names_equal_lem, find_name, find_name_lem, Hold, FirstAt}
use medusa_os.Fs.Nodes.{FsNode, dev_string}
use medusa_os.Fs.Initrd.{
  Ramdisk, root_pointer, initrd_readdir_pointer, pointed_node, node_pointer, pointer_to, names_of,
  initrd_finddir, vfs_get_depth, depths_from, initrd_readdir,
}

-- The first `n` nodes have the names `strings`, and `initrd_readdir` as their `readdir`.
abbrev pub Serve : ℕ → List FsNode → List (List ℕ) → Type 0
Serve zero nodes [] = Unit {0}
Serve zero nodes (t ∷ strings) = ⊥
Serve (suc n) [] strings = ⊥
Serve (suc n) (c ∷ nodes) [] = ⊥
Serve (suc n) (c ∷ nodes) (t ∷ strings) =
    (rest : List ℕ) × (c.name ≡ t ++ (0 ∷ rest))
    × Characters t
    × (c.readdir_fn ≡ initrd_readdir_pointer)
    × Serve n nodes strings

Serve-Hold :
    (n : ℕ) (nodes : List FsNode) (strings : List (List ℕ))
    → Serve n nodes strings
    → (n ≤ length (names_of nodes)) × Hold (take n (names_of nodes)) strings
Serve-Hold zero nodes [] h = (omega arith, omega arith)
Serve-Hold zero nodes (t ∷ strings) h = elim h [ ]
Serve-Hold (suc n) [] strings h = elim h [ ]
Serve-Hold (suc n) (c ∷ nodes) [] h = elim h [ ]
Serve-Hold (suc n) (c ∷ nodes) (t ∷ strings) h =
    let (rest, name, chars, dirs, tail) = h in
    let (few, hold) = Serve-Hold n nodes strings tail in
    (omega (arith, few), (rest, name, chars, hold))

dev_chars : List ℕ
dev_chars = 100 ∷ 101 ∷ 118 ∷ []

-- `initrd_finddir` of a string other than "dev" returns the pointer to the first node with that name,
-- and NULL where there is none.
pub initrd_finddir_lem :
    (r : Ramdisk) (strings : List (List ℕ)) (node : ℕ) (s rest : List ℕ)
    → Serve r.nroot_nodes r.root_nodes strings
    → Characters s
    → s ≢ 100 ∷ 101 ∷ 118 ∷ []
    → (o : Option ℕ) × (initrd_finddir r node (s ++ (0 ∷ rest)) ≡ ok (pointer_to o))
      × FirstAt s strings o
unfolding initrd_finddir
initrd_finddir_lem r strings node s rest h hs not_dev =
    let (few, hold) = Serve-Hold r.nroot_nodes r.root_nodes strings h in
    let (o, found, first) =
      find_name_lem s rest r.nroot_nodes (names_of r.root_nodes) strings hs few hold in
    let (same, eq, there, back) =
      names_equal_lem s (100 ∷ 101 ∷ 118 ∷ []) rest [] hs (omega arith) in
    let other : same ≡ false = elim (Bool-cases same) [
      | inl e ↦ absurd (not_dev (there e))
      | inr e ↦ e
    ] in
    let asked : (if node == root_pointer
          then names_equal (s ++ (0 ∷ rest)) dev_string
          else ok false)
        ≡ ok false =
      elim (Bool-cases (node == root_pointer)) [
        | inl e ↦ rw e (eq ∙ ap ok other)
        | inr e ↦ rw e refl
      ] in
    (o, rw (asked, found) refl, first)

-- The depths that `initrd_readdir` reads.
vfs_get_depth-ok :
    (s rest : List ℕ) → Characters s → (d : ℕ) × (vfs_get_depth (s ++ (0 ∷ rest)) ≡ ok d)
unfolding vfs_get_depth
vfs_get_depth-ok [] rest h = (0, refl)
vfs_get_depth-ok (c ∷ s) rest h =
    let (d, eq) = vfs_get_depth-ok s rest h.2 in
    (
      (if c == 47 then u32 (d + 1) else d),
      rw (ne→==_false c 0 (λ e. omega (arith, e, h.0)), eq) refl,
    )

depths_from-ok :
    (n : ℕ) (nodes : List FsNode) (strings : List (List ℕ))
    → Serve n nodes strings
    → depths_from n nodes ≡ ok 0
unfolding depths_from
depths_from-ok zero nodes strings h = refl
depths_from-ok (suc n) [] strings h = elim h [ ]
depths_from-ok (suc n) (c ∷ nodes) [] h = elim h [ ]
depths_from-ok (suc n) (c ∷ nodes) (t ∷ strings) h =
    let (rest, name, chars, dirs, tail) = h in
    let (d, eq) = vfs_get_depth-ok t rest chars in
    rw (name, eq) (depths_from-ok n nodes strings tail)

-- The node at `i`.
pub record ServedAt (n : ℕ) (nodes : List FsNode) (strings : List (List ℕ)) (i : ℕ) : Type 0 where
  pub node : FsNode
  pub string : List ℕ
  pub rest : List ℕ
  pub at : get_elem? nodes i ≡ some node
  pub name : node.name ≡ string ++ (0 ∷ rest)
  pub chars : Characters string
  pub readdir : node.readdir_fn ≡ initrd_readdir_pointer
  pub inside : i < n
  pub split : drop i strings ≡ string ∷ drop (suc i) strings

pub served_below :
    (n : ℕ) (nodes : List FsNode) (strings : List (List ℕ)) (i : ℕ)
    → Serve n nodes strings
    → i < n
    → ServedAt n nodes strings i
served_below zero nodes strings i h below = absurd (omega (arith, below))
served_below (suc n) [] strings i h below = elim h [ ]
served_below (suc n) (c ∷ nodes) [] i h below = elim h [ ]
served_below (suc n) (c ∷ nodes) (t ∷ strings) zero h below = record {
  node = c;
  string = t;
  rest = h.0;
  at = refl;
  name = h.1;
  chars = h.2;
  readdir = h.3;
  inside = omega arith;
  split = refl;
}
served_below (suc n) (c ∷ nodes) (t ∷ strings) (suc i) h below =
    let v = served_below n nodes strings i h.4 (omega (arith, below)) in
    record {
      node = v.node;
      string = v.string;
      rest = v.rest;
      at = v.at;
      name = v.name;
      chars = v.chars;
      readdir = v.readdir;
      inside = omega (arith, v.inside);
      split = v.split;
    }

pub Serve-length :
    (n : ℕ) (nodes : List FsNode) (strings : List (List ℕ))
    → Serve n nodes strings
    → length strings ≡ n
Serve-length zero nodes [] h = refl
Serve-length zero nodes (t ∷ strings) h = elim h [ ]
Serve-length (suc n) [] strings h = elim h [ ]
Serve-length (suc n) (c ∷ nodes) [] h = elim h [ ]
Serve-length (suc n) (c ∷ nodes) (t ∷ strings) h = ap suc (Serve-length n nodes strings h.4)

first-inside :
    (strings : List (List ℕ)) (i k : ℕ) (s : List ℕ)
    → FirstAt s (drop i strings) (some k)
    → i < length strings
first-inside [] zero k s first = elim first [ ]
first-inside [] (suc i) k s first = elim first [ ]
first-inside (t ∷ strings) zero k s first = omega arith
first-inside (t ∷ strings) (suc i) k s first = omega (arith, first-inside strings i k s first)

pub served_at :
    (n : ℕ) (nodes : List FsNode) (strings : List (List ℕ)) (i k : ℕ) (s : List ℕ)
    → Serve n nodes strings
    → FirstAt s (drop i strings) (some k)
    → ServedAt n nodes strings i
served_at n nodes strings i k s h first =
    served_below n nodes strings i h
      (omega (arith, first-inside strings i k s first, Serve-length n nodes strings h))

pub initrd_readdir-past :
    (r : Ramdisk) (dir index : ℕ)
    → r.nroot_nodes ≤ index
    → initrd_readdir r dir index ≡ ok (0, record r { initrd_readdir_call = true })
unfolding initrd_readdir
initrd_readdir-past r dir index past =
    let above : leb r.nroot_nodes index ≡ true = ground arith in rw above refl

-- A node that `initrd_readdir` can list: the root or one of the others.
pub record Listing (p : Ramdisk) (pointer : ℕ) : Type 0 where
  pub node : FsNode
  pub string : List ℕ
  pub rest : List ℕ
  pub at : pointed_node p pointer ≡ some node
  pub name : node.name ≡ string ++ (0 ∷ rest)
  pub chars : Characters string
  pub readdir : node.readdir_fn ≡ initrd_readdir_pointer

pub initrd_readdir-inside :
    (r : Ramdisk) (strings : List (List ℕ)) (dir index : ℕ)
    → Serve r.nroot_nodes r.root_nodes strings
    → Listing r dir
    → index < r.nroot_nodes
    → initrd_readdir r dir index ≡ ok (node_pointer index, record r { initrd_readdir_call = true })
unfolding initrd_readdir
initrd_readdir-inside r strings dir index h l inside =
    let below : leb r.nroot_nodes index ≡ false = ground arith in
    let (d, eq) = vfs_get_depth-ok l.string l.rest l.chars in
    rw (below, l.at, l.name, eq, depths_from-ok r.nroot_nodes r.root_nodes strings h) refl
