-- ===== src/Fs/Vfs.antt =====
-- kernel/kernel/fs/vfs.c: paths, the tree of mounts, and the file descriptors. What a string holds
-- before it is written is unknown: `none` is the 4096 bytes of `temp_path` as `kmalloc` returns them.
pub mod Paths
use medusa_os.Prelude.{
  ℕ, zero, suc, ◌+◌, ◌==◌, ltb, if◌then◌else◌, Bool, true, false, not, Option, none, some, List, [],
  ◌∷◌, ◌++◌, length, Outcome, ok, fault, ◌>>=◌, access,
}
use medusa_os.Fs.Names.{find_name}

abbrev pub slash : ℕ
slash = 47

-- `append(temp_path, c)`
abbrev pub append_temp : Option (List ℕ) → (c : ℕ) → Outcome (List ℕ)
append_temp temp_path c = do
  t ← access temp_path
  if ltb (length t + 1) 4096 then ok (t ++ (c ∷ [])) else fault

-- The loop of `parse_path`, with the folders so far.
pub parse_from :
    List ℕ
    → (is_first_slash : Bool) → (temp_path : Option (List ℕ)) → (folders : List (List ℕ))
    → Outcome (List (List ℕ))
parse_from [] is_first_slash temp_path folders = fault
parse_from (c ∷ path) is_first_slash temp_path folders =
    if c == 0
    then ok folders
    else if c == slash
    then (do
      longer ←
          if is_first_slash then ok folders else (do t ← access temp_path; ok (folders ++ (t ∷ [])))
      parse_from path false (some []) longer)
    else (do t ← append_temp temp_path c; parse_from path is_first_slash (some t) folders)

pub parse_path : (path_string : List ℕ) → Outcome (List (List ℕ))
unfolding parse_from
parse_path path_string = parse_from path_string true none []

mutual
  -- `vfs_tree_node_t`
  pub data TreeNode : Type 0 where
    tree_node :
        (is_mount_point : Bool) (mount_point_fs_node : ℕ) (is_folder : Bool) (name : List ℕ)
        (childrens : TreeNodes)
        → TreeNode

  -- The nodes of a `list_t`.
  pub data TreeNodes : Type 0 where
    no_nodes : TreeNodes
    one_node : TreeNode → TreeNodes → TreeNodes

pub vfs_tree_node_create : (name : List ℕ) → (is_folder : Bool) → TreeNode
vfs_tree_node_create name is_folder = tree_node false 0 is_folder name no_nodes

-- The root of the tree.
pub vfs_tree_init : TreeNode
unfolding vfs_tree_node_create
vfs_tree_init = vfs_tree_node_create (slash ∷ 0 ∷ []) true

pub vfs_tree_set_root : TreeNode → TreeNode
unfolding vfs_tree_node_create
vfs_tree_set_root root = vfs_tree_node_create (0 ∷ []) true

abbrev pub child_names : TreeNodes → List (List ℕ)
child_names no_nodes = []
child_names (one_node (tree_node m f d name cs) nodes) = name ∷ child_names nodes

-- The index of the child, or NULL.
pub vfs_tree_find_child_with_name : (name : List ℕ) → TreeNodes → Outcome (Option ℕ)
vfs_tree_find_child_with_name name childrens =
    find_name (length (child_names childrens)) name (child_names childrens)

abbrev pub child_at : TreeNodes → ℕ → Option TreeNode
child_at no_nodes i = none
child_at (one_node n nodes) zero = some n
child_at (one_node n nodes) (suc i) = child_at nodes i

abbrev pub replace_child : TreeNodes → ℕ → TreeNode → TreeNodes
replace_child no_nodes i new = no_nodes
replace_child (one_node n nodes) zero new = one_node new nodes
replace_child (one_node n nodes) (suc i) new = one_node n (replace_child nodes i new)

abbrev pub append_child : TreeNodes → TreeNode → TreeNodes
append_child no_nodes new = one_node new no_nodes
append_child (one_node n nodes) new = one_node n (append_child nodes new)

-- The walk of `vfs_mount` from a node down the folders, and the mount at its end; a node that is no
-- folder ends it early.
pub mount_from : (folders : List (List ℕ)) → TreeNode → (local_root : ℕ) → Outcome TreeNode
unfolding vfs_tree_find_child_with_name vfs_tree_node_create
mount_from [] (tree_node m f d name cs) local_root = ok (tree_node true local_root d name cs)
mount_from (folder ∷ folders) (tree_node m f d name cs) local_root =
    if not d then ok (tree_node m f d name cs) else (do
      found ← vfs_tree_find_child_with_name folder cs
      elim found [
        | some i ↦ (do
          child ← access (child_at cs i)
          new ← mount_from folders child local_root
          ok (tree_node m f d name (replace_child cs i new)))
        | none ↦ (do
          new ← mount_from folders (vfs_tree_node_create folder true) local_root
          ok (tree_node m f d name (append_child cs new)))
      ])

-- `fs_tree->root->mount_point_fs_node = local_root`, and `is_mount_point`.
abbrev pub mount_root : TreeNode → (local_root : ℕ) → TreeNode
mount_root (tree_node m f d name cs) local_root = tree_node true local_root d name cs

-- The root of the tree afterwards.
pub vfs_mount : TreeNode → (path : List ℕ) → (local_root : ℕ) → Outcome TreeNode
unfolding parse_path mount_from
vfs_mount root [] local_root = fault
vfs_mount root (c ∷ path) local_root =
    if c == slash
    then ok (mount_root root local_root)
    else (do folders ← parse_path (c ∷ path); mount_from folders root local_root)

-- The loop of `vfs_tree_find_local_root`. `strcat` to `path_to_use` reads what `kmalloc` left there.
pub local_root_from : (folders : List (List ℕ)) → TreeNode → Outcome (Option ℕ)
unfolding vfs_tree_find_child_with_name
local_root_from [] node = ok none
local_root_from (folder ∷ folders) (tree_node m f d name cs) = if m then fault else (do
  found ← vfs_tree_find_child_with_name folder cs
  elim found [
    | none ↦ ok none
    | some i ↦ (do child ← access (child_at cs i); local_root_from folders child)
  ])

abbrev pub mounted_node : TreeNode → ℕ
mounted_node (tree_node m f d name cs) = f

-- The result is `fs_node`, with "/" as the path to use; `none` is NULL.
pub vfs_tree_find_local_root : TreeNode → (path : List ℕ) → Outcome (Option ℕ)
unfolding parse_path local_root_from
vfs_tree_find_local_root root [] = fault
vfs_tree_find_local_root root (c ∷ path) =
    if c == slash
    then ok (some (mounted_node root))
    else (do folders ← parse_path (c ∷ path); local_root_from folders root)

-- What `vfs_write_fd` writes to, and the value that it returns; `putchar` returns its argument.
pub data Sink : Type 0 where
  screen serial alert nowhere : Sink

pub vfs_write_fd : (file first size : ℕ) → Sink × ℕ
vfs_write_fd file first size =
    if file == 1
    then (screen, first)
    else if file == 3
    then (serial, size)
    else if file == 2
    then (alert, size)
    else (nowhere, size)
