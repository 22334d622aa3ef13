-- ===== src/Fs/Devfs.antt =====
-- kernel/kernel/fs/devfs.c and kernel/kernel/fs/pipe.c: the file system of the devices, and pipes. The
-- nodes that `device_list` points to are a list, in its order.
pub mod Registering
mod Tests
use medusa_os.Prelude.{
  ℕ, zero, suc, ◌==◌, leb, if◌then◌else◌, Bool, true, false, Option, none, some, List, [], ◌∷◌,
  ◌++◌, length, get_elem?, replicate, map, Outcome, ok, fault, ◌>>=◌, access,
}
use medusa_os.Libc.Strings.{copy_over}
use medusa_os.Fs.Names.{find_name}
use medusa_os.Fs.Nodes.{FsNode, fs_directory, ft_directory}

-- `Device`
pub record Device : Type 0 where
  pub name : List ℕ
  pub device_type : ℕ
  pub read_block_fn : ℕ
  pub write_block_fn : ℕ
  pub read_fn : ℕ
  pub write_fn : ℕ
  pub open_fn : ℕ
  pub close_fn : ℕ
  pub private_data : ℕ

-- The variables of devfs.c, with the flag of initrd.c that it reads; `dev_root` is a pointer.
pub record Devices : Type 0 where
  pub device_list : List FsNode
  pub dev_root : ℕ
  pub initrd_readdir_call : Bool

-- A node of zero bytes.
abbrev pub zero_node : FsNode
zero_node = record {
  name = replicate 128 0;
  mask = 0;
  uid = 0;
  gid = 0;
  mode = 0;
  flags = 0;
  inode = 0;
  length = 0;
  impl = 0;
  read_fn = 0;
  write_fn = 0;
  open_fn = 0;
  close_fn = 0;
  readdir_fn = 0;
  finddir_fn = 0;
  read_block_fn = 0;
  write_block_fn = 0;
  get_file_size_fn = 0;
  mount_point = 0;
  parent = 0;
  private_node_data = 0;
  node_type = 0;
}

abbrev pub device_names : Devices → List (List ℕ)
device_names d = map (λ n. n.name) d.device_list

-- The node of a device, with its name copied.
abbrev pub device_node : (device : Device) → (parent : ℕ) → (name : List ℕ) → FsNode
device_node device parent name = record zero_node {
  name = name;
  node_type = device.device_type;
  open_fn = device.open_fn;
  close_fn = device.close_fn;
  read_block_fn = device.read_block_fn;
  write_block_fn = device.write_block_fn;
  read_fn = device.read_fn;
  write_fn = device.write_fn;
  private_node_data = device.private_data;
  parent = parent;
}

-- The rest of `devfs_register_device`, where the loop found a node with the name, or none.
pub add_device : Device → Devices → (found : Option ℕ) → Outcome (Option ℕ × Devices)
add_device device d (some i) = ok (none, d)
add_device device d none = do
  name ← copy_over zero_node.name device.name
  ok (
    some (length d.device_list),
    record d { device_list = d.device_list ++ (device_node device d.dev_root name ∷ []) },
  )

-- The index of the new node, or NULL.
pub devfs_register_device : Device → Devices → Outcome (Option ℕ × Devices)
unfolding add_device
devfs_register_device device d = do
  found ← find_name (length d.device_list) device.name (device_names d)
  add_device device d found

-- The index of the node, or NULL; an index behind the last device starts again at the first one where
-- the last call of a `readdir` was to the ramdisk.
pub devfs_readdir : (index : ℕ) → Devices → Outcome (Option ℕ × Devices)
devfs_readdir index d =
    if leb (length d.device_list) index
    then if d.initrd_readdir_call
      then (do
        first ← access (get_elem? d.device_list 0)
        ok (some 0, record d { initrd_readdir_call = false }))
      else ok (none, d)
    else ok (some index, record d { initrd_readdir_call = false })

pub devfs_finddir : (name : List ℕ) → Option ℕ
devfs_finddir name = none

-- `dev_root` as `devfs_initialize` sets it, for the node `dev/` of the root where there is one.
pub devfs_root : (dev_node : Option FsNode) → Outcome FsNode
devfs_root dev_node = do
  name ← elim dev_node [
    | some n ↦ copy_over zero_node.name n.name
    | none ↦ copy_over zero_node.name (100 ∷ 101 ∷ 118 ∷ 47 ∷ 0 ∷ [])
  ]
  ok (record zero_node {
    name = name;
    parent = elim dev_node [ some n ↦ n.parent | none ↦ 0 ];
    flags = fs_directory;
    node_type = ft_directory;
    open_fn = 1;
    finddir_fn = 2;
    readdir_fn = 3;
  })

-- `pipe_device_t`, without the memory that `wait_queue` points to.
pub record PipeDevice : Type 0 where
  pub buffer : ℕ
  pub write_ptr : ℕ
  pub read_ptr : ℕ
  pub size : ℕ
  pub refcount : ℕ
  pub lock : ℕ

-- `before` is what the allocation of the node held, and `pipe` and `buffer` are the pointers that
-- `kmalloc` returned.
pub make_pipe : (size pipe buffer : ℕ) → (before : FsNode) → FsNode × PipeDevice
make_pipe size pipe buffer before = (
  record before {
    uid = 0;
    gid = 0;
    read_fn = 0;
    write_fn = 0;
    open_fn = 0;
    close_fn = 0;
    readdir_fn = 0;
    finddir_fn = 0;
    inode = pipe;
  },
  record { buffer = buffer; write_ptr = 0; read_ptr = 0; size = size; refcount = 0; lock = 0 },
)
