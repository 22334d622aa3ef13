-- ===== src/Fs/Nodes.antt =====
-- kernel/include/kernel/vfs.h and kernel/kernel/fs/vfs.c: the nodes of file systems, and the calls
-- through their function pointers. A pointer is a number, and NULL is 0.
use medusa_os.Prelude.{
  ℕ, zero, suc, ◌+◌, ◌-◌, ◌^◌, ◌==◌, if◌then◌else◌, ◌&&◌, not, Option, none, some, List, [], ◌∷◌,
  bit_and, bit_or, Outcome, ok, ◌>>=◌, access,
}
use medusa_os.Fs.Names.{names_equal}

-- `fs_node_t`
pub record FsNode : Type 0 where
  pub name : List ℕ
  pub mask : ℕ
  pub uid : ℕ
  pub gid : ℕ
  pub mode : ℕ
  pub flags : ℕ
  pub inode : ℕ
  pub length : ℕ
  pub impl : ℕ
  pub read_fn : ℕ
  pub write_fn : ℕ
  pub open_fn : ℕ
  pub close_fn : ℕ
  pub readdir_fn : ℕ
  pub finddir_fn : ℕ
  pub read_block_fn : ℕ
  pub write_block_fn : ℕ
  pub get_file_size_fn : ℕ
  pub mount_point : ℕ
  pub parent : ℕ
  pub private_node_data : ℕ
  pub node_type : ℕ

-- `FileType`
abbrev pub ft_file : ℕ
ft_file = 1

abbrev pub ft_directory : ℕ
ft_directory = 128

-- `FS_FILE` and `FS_DIRECTORY`
abbrev pub fs_file : ℕ
fs_file = 1

abbrev pub fs_directory : ℕ
fs_directory = 2

-- `"dev"`, `"r"` and `"w"`
abbrev pub dev_string : List ℕ
dev_string = 100 ∷ 101 ∷ 118 ∷ 0 ∷ []

abbrev pub r_string : List ℕ
r_string = 114 ∷ 0 ∷ []

abbrev pub w_string : List ℕ
w_string = 119 ∷ 0 ∷ []

-- What the nodes' functions read and change is `S`; `node_at` is what a pointer points to, and the
-- `call_` fields are the functions that the function pointers point to.
pub record Calls (S : Type 0) : Type 0 where
  pub node_at : S → ℕ → Option FsNode
  pub write_node : S → ℕ → FsNode → S
  pub call_io : ℕ → S → (node offset size buffer : ℕ) → Outcome (ℕ × S)
  pub call_node : ℕ → S → (node : ℕ) → Outcome S
  pub call_readdir : ℕ → S → (node index : ℕ) → Outcome (ℕ × S)
  pub call_finddir : ℕ → S → (node : ℕ) → (name : List ℕ) → Outcome (ℕ × S)
  pub call_size : ℕ → S → (node : ℕ) → Outcome (ℕ × S)

module _ {S : Type 0} (calls : Calls S) where
  pub get_file_size_fs : S → (node : ℕ) → Outcome (ℕ × S)
  get_file_size_fs s node = if node == 0 then ok (2 ^ 32 - 1, s) else (do
    n ← access (calls.node_at s node)
    if not (n.get_file_size_fn == 0)
        then calls.call_size n.get_file_size_fn s node
        else ok (2 ^ 32 - 1, s))

  pub read_fs : S → (node offset size buffer : ℕ) → Outcome (ℕ × S)
  read_fs s node offset size buffer = if node == 0 then ok (2 ^ 32 - 1, s) else (do
    n ← access (calls.node_at s node)
    if not (n.read_fn == 0) then calls.call_io n.read_fn s node offset size buffer else ok (0, s))

  unfoldable pub open_fs : S → (node flags : ℕ) → Outcome S
  open_fs s node flags = do
    n ← access (calls.node_at s node)
    if not (n.open_fn == 0)
        then calls.call_node n.open_fn s node
        else ok (calls.write_node s node (record n { mode = flags }))

  pub close_fs : S → (node : ℕ) → Outcome S
  close_fs s node = if node == 0 then ok s else (do
    n ← access (calls.node_at s node)
    if not (n.close_fn == 0)
        then calls.call_node n.close_fn s node
        else ok (calls.write_node s node (record n { mode = 0 })))

  pub write_fs : S → (node offset size buffer : ℕ) → Outcome (ℕ × S)
  write_fs s node offset size buffer = do
    n ← access (calls.node_at s node)
    if not (n.write_fn == 0) then calls.call_io n.write_fn s node offset size buffer else ok (0, s)

  -- Both branches behind `strcmp` return `dir`.
  unfoldable pub readdir_fs : S → (node index : ℕ) → Outcome (ℕ × S)
  readdir_fs s node index = do
    n ← access (calls.node_at s node)
    if n.readdir_fn == 0 then ok (0, s) else (do
      (dir, s') ← calls.call_readdir n.readdir_fn s node index
      d ← access (calls.node_at s' dir)
      same ← names_equal dev_string d.name
      ok (dir, s'))

  pub finddir_fs : S → (node : ℕ) → (name : List ℕ) → Outcome (ℕ × S)
  finddir_fs s node name = do
    n ← access (calls.node_at s node)
    if (bit_and n.flags 7 == fs_directory) && not (n.finddir_fn == 0)
        then calls.call_finddir n.finddir_fn s node name
        else ok (0, s)

  -- `if (recursive_child != NULL) return recursive_child;`
  abbrev pub unless_found :
      Option (ℕ × S) → (S → Outcome (Option (ℕ × S))) → Outcome (Option (ℕ × S))
  unless_found none rest = ok none
  unless_found (some (found, s)) rest = if found == 0 then rest s else ok (some (found, s))

  -- The loop of `vfs_search_node`, the call for a directory included; `none` is a search of more than
  -- `turns` children.
  unfoldable pub vfs_search_node :
      (turns : ℕ)
      → S
      → (parent : ℕ) → (path : List ℕ) → (index_child : ℕ) → Outcome (Option (ℕ × S))
  unfolding readdir_fs
  vfs_search_node zero s parent path index_child = ok none
  vfs_search_node (suc turns) s parent path index_child =
      if parent == 0 then ok (some (0, s)) else (do
        (child, s1) ← readdir_fs s parent index_child
        if child == 0 then ok (some (0, s1)) else (do
          c ← access (calls.node_at s1 child)
          same ← names_equal c.name path
          if same
              then ok (some (child, s1))
              else if c.node_type == ft_directory
              then (do
                below ← vfs_search_node turns s1 child path (index_child + 1)
                unless_found below (λ s2. vfs_search_node turns s2 parent path (index_child + 1)))
              else vfs_search_node turns s1 parent path (index_child + 1)))

  -- The flags that `vfs_open` makes of its mode.
  pub open_flags : (mode : List ℕ) → Outcome ℕ
  open_flags mode = do
    reads ← names_equal mode r_string
    writes ← names_equal mode w_string
    let flags = if reads then bit_or 0 0 else 0
    ok (if writes then bit_or flags 1 else flags)

  -- `fs_root` is the root node; the result 0 is NULL.
  unfoldable pub vfs_open :
      (turns : ℕ) → S → (fs_root : ℕ) → (path mode : List ℕ) → Outcome (Option (ℕ × S))
  unfolding vfs_search_node open_flags open_fs
  vfs_open turns s fs_root path mode = if fs_root == 0 then ok (some (0, s)) else (do
    searched ← vfs_search_node turns s fs_root path 0
    elim searched [
      | none ↦ ok none
      | some (file, s1) ↦ if file == 0 then ok (some (0, s1)) else (do
        n ← access (calls.node_at s1 file)
        if not (n.node_type == ft_file)
            then ok (some (0, s1))
            else (do flags ← open_flags mode; s2 ← open_fs s1 file flags; ok (some (file, s2))))
    ])
