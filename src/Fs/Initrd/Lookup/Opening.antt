-- ===== src/Fs/Initrd/Lookup/Opening.antt =====
-- `vfs_search_node` of vfs.c over the ramdisk.
use medusa_os.Prelude.{
  ℕ, zero, suc, ◌+◌, ◌<◌, ◌≡◌, ◌≢◌, refl, ap, sym, ◌∙◌, subst, arith, ◌==◌, if◌then◌else◌, true,
  false, Bool-cases, inl, inr, ne→==_false, Option, none, some, List, [], ◌∷◌, ◌++◌, drop, Outcome,
  ok, abort, fault, ◌>>=◌,
}
use medusa_os.Libc.Strings.Laws.{Characters}
use medusa_os.Fs.Names.{names_equal, names_equal_lem, FirstAt}
use medusa_os.Fs.Nodes.{Calls, ft_directory, readdir_fs, unless_found, vfs_search_node}
use medusa_os.Fs.Initrd.{
  Ramdisk, root_pointer, initrd_readdir_pointer, pointed_node, write_pointed, node_pointer,
  initrd_readdir, initrd_read, initrd_read_pointer, initrd_finddir, initrd_finddir_pointer,
  initrd_get_file_size, initrd_get_file_size_pointer,
}
use medusa_os.Fs.Initrd.Lookup.{Serve, ServedAt, served_at, Listing, initrd_readdir-inside}

-- The functions behind the pointers of the ramdisk's nodes.
abbrev pub ramdisk_calls : Calls Ramdisk
ramdisk_calls = record {
  node_at = pointed_node;
  write_node = write_pointed;
  call_io = λ pointer r node offset size buffer.
      if pointer == initrd_read_pointer then initrd_read r node offset size buffer else fault;
  call_node = λ pointer r node. fault;
  call_readdir = λ pointer r node index.
      if pointer == initrd_readdir_pointer then initrd_readdir r node index else fault;
  call_finddir = λ pointer r node name.
      if pointer == initrd_finddir_pointer
      then (do found ← initrd_finddir r node name; ok (found, r))
      else fault;
  call_size = λ pointer r node.
      if pointer == initrd_get_file_size_pointer
      then (do size ← initrd_get_file_size r node; ok (size, r))
      else fault;
}

abbrev called : Ramdisk → Ramdisk
called r = record r { initrd_readdir_call = true }

-- `readdir_fs` over the ramdisk.
readdir_fs-inside :
    (r : Ramdisk) (strings : List (List ℕ)) (dir index : ℕ)
    → Serve r.nroot_nodes r.root_nodes strings
    → Listing r dir
    → (v : ServedAt r.nroot_nodes r.root_nodes strings index)
    → readdir_fs ramdisk_calls r dir index ≡ ok (node_pointer index, called r)
unfolding readdir_fs
readdir_fs-inside r strings dir index h l v =
    let listed = initrd_readdir-inside r strings dir index h l v.inside in
    let (same, eq, there, back) =
      names_equal_lem (100 ∷ 101 ∷ 118 ∷ []) v.string [] v.rest (omega arith) v.chars in
    rw (l.at, l.readdir, listed, v.at, v.name, eq) refl

found_child :
    (r : Ramdisk) (strings : List (List ℕ)) (index : ℕ)
    → ServedAt r.nroot_nodes r.root_nodes strings index
    → Listing (called r) (node_pointer index)
found_child r strings index v = record {
  node = v.node;
  string = v.string;
  rest = v.rest;
  at = v.at;
  name = v.name;
  chars = v.chars;
  readdir = v.readdir;
}

parent-ne : (r : Ramdisk) (parent : ℕ) → Listing r parent → (parent == 0) ≡ false
parent-ne r zero l = let at = l.at in cc
parent-ne r (suc parent) l = ne→==_false (suc parent) 0 (λ e. omega (arith, e))

-- The ends of a search that the call for a directory passes on: a pointer other than NULL, and a fault.
abbrev IsEnd : Outcome (Option (ℕ × Ramdisk)) → Type 0
IsEnd (ok (some (p, r))) = (p == 0) ≡ false
IsEnd (ok none) = ⊥
IsEnd abort = ⊥
IsEnd fault = Unit {0}

-- One turn that finds the name, and one that goes on.
turn-found :
    (turns : ℕ) (r : Ramdisk) (strings : List (List ℕ)) (parent index : ℕ) (path : List ℕ)
    → Serve r.nroot_nodes r.root_nodes strings
    → Listing r parent
    → (v : ServedAt r.nroot_nodes r.root_nodes strings index)
    → names_equal v.node.name path ≡ ok true
    → vfs_search_node ramdisk_calls (suc turns) r parent path index
      ≡ ok (some (node_pointer index, called r))
unfolding vfs_search_node
turn-found turns r strings parent index path h l v same =
    let child : (node_pointer index == 0) ≡ false =
      ne→==_false (node_pointer index) 0 (λ e. omega (arith, e)) in
    rw (parent-ne r parent l, readdir_fs-inside r strings parent index h l v, child, v.at, same)
      refl

turn-next :
    (turns : ℕ) (r : Ramdisk) (strings : List (List ℕ)) (parent index : ℕ) (path : List ℕ)
    (end : Outcome (Option (ℕ × Ramdisk)))
    → Serve r.nroot_nodes r.root_nodes strings
    → Listing r parent
    → (v : ServedAt r.nroot_nodes r.root_nodes strings index)
    → names_equal v.node.name path ≡ ok false
    → IsEnd end
    → ((p : ℕ)
        → Listing (called r) p
        → vfs_search_node ramdisk_calls turns (called r) p path (index + 1) ≡ end)
    → vfs_search_node ramdisk_calls (suc turns) r parent path index ≡ end
unfolding vfs_search_node
turn-next turns r strings parent index path end h l v same ends later =
    let child : (node_pointer index == 0) ≡ false =
      ne→==_false (node_pointer index) 0 (λ e. omega (arith, e)) in
    let again : Listing (called r) parent = record {
      node = l.node;
      string = l.string;
      rest = l.rest;
      at = pointed_called r parent ∙ l.at;
      name = l.name;
      chars = l.chars;
      readdir = l.readdir;
    } in
    rw
      (
        parent-ne r parent l,
        readdir_fs-inside r strings parent index h l v,
        child,
        v.at,
        same,
        later (node_pointer index) (found_child r strings index v),
        later parent again,
      )
      (elim (Bool-cases (v.node.node_type == ft_directory)) [
        | inl e ↦ rw e (stays end _ ends)
        | inr e ↦ rw e refl
      ])
  where
    pointed_called : (r : Ramdisk) (p : ℕ) → pointed_node (called r) p ≡ pointed_node r p
    pointed_called r zero = refl
    pointed_called r (suc zero) = refl
    pointed_called r (suc (suc i)) = refl

    stays :
        (end : Outcome (Option (ℕ × Ramdisk))) (rest : Ramdisk → Outcome (Option (ℕ × Ramdisk)))
        → IsEnd end
        → (end >>= λ below. unless_found ramdisk_calls below rest) ≡ end
    stays (ok (some (p, r))) rest ends = rw ends refl
    stays (ok none) rest ends = elim ends [ ]
    stays abort rest ends = elim ends [ ]
    stays fault rest ends = refl

-- The search from `index` on, from the root or any other node, finds the node whose name is the first
-- with the string: where a directory comes first, the call for it goes on through the same list.
ramdisk_search_lem :
    (turns : ℕ) (r : Ramdisk) (strings : List (List ℕ)) (parent index k : ℕ) (s rest : List ℕ)
    → Serve r.nroot_nodes r.root_nodes strings
    → Characters s
    → Listing r parent
    → FirstAt s (drop index strings) (some k)
    → k < turns
    → vfs_search_node ramdisk_calls turns r parent (s ++ (0 ∷ rest)) index
      ≡ ok (some (node_pointer (index + k), called r))
unfolding vfs_search_node
ramdisk_search_lem zero r strings parent index k s rest h hs l first enough =
    absurd (omega (arith, enough))
ramdisk_search_lem (suc turns) r strings parent index zero s rest h hs l first enough =
    let v = served_at r.nroot_nodes r.root_nodes strings index 0 s h first in
    let first' : s ≡ v.string = subst (λ t. FirstAt s t (some 0)) v.split first in
    let (same, eq, there, back) = names_equal_lem v.string s v.rest rest v.chars hs in
    let found : same ≡ true = elim (Bool-cases same) [
      | inl e ↦ e
      | inr e ↦ absurd (back e (sym first'))
    ] in
    let named : names_equal v.node.name (s ++ (0 ∷ rest)) ≡ ok true =
      ap (λ t. names_equal t (s ++ (0 ∷ rest))) v.name ∙ eq ∙ ap ok found in
    turn-found turns r strings parent index (s ++ (0 ∷ rest)) h l v named
    ∙ ap (λ i. ok (some (node_pointer i, called r))) (omega arith)
ramdisk_search_lem (suc turns) r strings parent index (suc k) s rest h hs l first enough =
    let v = served_at r.nroot_nodes r.root_nodes strings index (suc k) s h first in
    let first' : (s ≢ v.string) × FirstAt s (drop (suc index) strings) (some k) =
      subst (λ t. FirstAt s t (some (suc k))) v.split first in
    let (same, eq, there, back) = names_equal_lem v.string s v.rest rest v.chars hs in
    let other : same ≡ false = elim (Bool-cases same) [
      | inl e ↦ absurd (first'.0 (sym (there e)))
      | inr e ↦ e
    ] in
    let named : names_equal v.node.name (s ++ (0 ∷ rest)) ≡ ok false =
      ap (λ t. names_equal t (s ++ (0 ∷ rest))) v.name ∙ eq ∙ ap ok other in
    let next : suc index ≡ index + 1 = omega arith in
    let first'' : FirstAt s (drop (index + 1) strings) (some k) =
      subst (λ i. FirstAt s (drop i strings) (some k)) next first'.1 in
    turn-next turns r strings parent index (s ++ (0 ∷ rest))
      (ok (some (node_pointer (index + 1 + k), called r))) h l v named
      (ne→==_false (node_pointer (index + 1 + k)) 0 (λ e. omega (arith, e)))
      (λ p listing.
        ramdisk_search_lem turns (called r) strings p (index + 1) k s rest h hs listing first''
          (omega (arith, enough)))
    ∙ ap (λ i. ok (some (node_pointer i, called r))) (omega arith)

-- A search of the ramdisk from its root, of whatever `node_type` its nodes are, with more turns than
-- the place of the first node that has the name: it returns the pointer to that node, and the state
-- differs only in `initrd_readdir_call`.
pub vfs_search_node-initrd :
    (turns : ℕ) (r : Ramdisk) (strings : List (List ℕ)) (k : ℕ) (s rest : List ℕ)
    → Serve r.nroot_nodes r.root_nodes strings
    → Listing r root_pointer
    → Characters s
    → FirstAt s strings (some k)
    → k < turns
    → vfs_search_node ramdisk_calls turns r root_pointer (s ++ (0 ∷ rest)) 0
      ≡ ok (some (node_pointer k, record r { initrd_readdir_call = true }))
vfs_search_node-initrd turns r strings k s rest h l hs first enough =
    ramdisk_search_lem turns r strings root_pointer 0 k s rest h hs l first enough
    ∙ ap (λ i. ok (some (node_pointer i, called r))) (omega arith)
