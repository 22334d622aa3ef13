-- ===== src/Fs/Vfs/Paths/Tests.antt =====
-- The path `/a/b` and a mount.
use medusa_os.Prelude.{◌≡◌, arith, [], ◌∷◌, ok, fault}
use medusa_os.Fs.Vfs.{parse_path, vfs_tree_init, vfs_mount, mount_root}
use medusa_os.Fs.Vfs.Paths.{Component, parse_path_lem, vfs_mount_lem}

a_Component : Component (97 ∷ [])
a_Component = ((λ e. omega (arith, e)), (λ e. omega (arith, e)), omega arith)

b_Component : Component (98 ∷ [])
b_Component = ((λ e. omega (arith, e)), (λ e. omega (arith, e)), omega arith)

parse_path_example : parse_path (47 ∷ 97 ∷ 47 ∷ 98 ∷ 0 ∷ []) ≡ ok ((97 ∷ []) ∷ [])
parse_path_example =
    parse_path_lem ((97 ∷ []) ∷ []) (98 ∷ []) [] (a_Component, omega arith, omega arith) b_Component
      (omega arith)

vfs_mount_example :
    (vfs_mount vfs_tree_init (47 ∷ 97 ∷ 0 ∷ []) 5 ≡ ok (mount_root vfs_tree_init 5))
    × (vfs_mount vfs_tree_init (0 ∷ 97 ∷ 0 ∷ []) 5 ≡ ok (mount_root vfs_tree_init 5))
    × (vfs_mount vfs_tree_init (97 ∷ 97 ∷ 0 ∷ []) 5 ≡ fault)
vfs_mount_example =
    vfs_mount_lem vfs_tree_init (97 ∷ 0 ∷ []) 5 97 (λ e. omega (arith, e)) (λ e. omega (arith, e))
