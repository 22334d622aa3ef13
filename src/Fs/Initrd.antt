-- ===== src/Fs/Initrd.antt =====
-- kernel/kernel/fs/initrd.c: the file system of the initial ramdisk. `initrd_root` is the pointer 1,
-- and `&root_nodes[i]` is `i + 2`; `initrd_dev` is never assigned and is NULL.
pub mod Lookup
pub mod Start
mod Tests
use medusa_os.Prelude.{
  ℕ, zero, suc, ◌+◌, ◌-◌, ◌^◌, ◌==◌, ltb, leb, if◌then◌else◌, Bool, true, false, ◌&&◌, Option, none,
  some, List, [], ◌∷◌, map, length, get_elem?, set, Outcome, ok, fault, ◌>>=◌, access,
}
use medusa_os.Misc.{u32}
use medusa_os.Libc.Strings.{copy_over}
use medusa_os.Fs.Names.{names_equal, find_name}
use medusa_os.Fs.Tar.{
  Memory, size_field, typeflag_field, getsize, HeaderList, generate_list_files_initrd,
  initrd_get_number_files,
}
use medusa_os.Fs.Nodes.{FsNode, ft_file, ft_directory, fs_file, fs_directory, dev_string}

-- The functions of this file, as function pointers.
abbrev pub initrd_read_pointer : ℕ
initrd_read_pointer = 1

abbrev pub initrd_readdir_pointer : ℕ
initrd_readdir_pointer = 2

abbrev pub initrd_finddir_pointer : ℕ
initrd_finddir_pointer = 3

abbrev pub initrd_get_file_size_pointer : ℕ
initrd_get_file_size_pointer = 4

abbrev pub root_pointer : ℕ
root_pointer = 1

abbrev pub node_pointer : ℕ → ℕ
node_pointer i = suc (suc i)

-- The variables of the file; `root` is what `initrd_root` points to.
pub record Ramdisk : Type 0 where
  pub memory : Memory
  pub list_headers : HeaderList
  pub root : FsNode
  pub root_nodes : List FsNode
  pub nroot_nodes : ℕ
  pub pos : ℕ
  pub initrd_readdir_call : Bool

-- What a pointer points to.
abbrev pub pointed_node : Ramdisk → ℕ → Option FsNode
pointed_node r zero = none
pointed_node r (suc zero) = some r.root
pointed_node r (suc (suc i)) = get_elem? r.root_nodes i

abbrev pub write_pointed : Ramdisk → ℕ → FsNode → Ramdisk
write_pointed r zero n = r
write_pointed r (suc zero) n = record r { root = n }
write_pointed r (suc (suc i)) n = record r { root_nodes = set r.root_nodes i n }

abbrev pub names_of : List FsNode → List (List ℕ)
names_of nodes = map (λ n. n.name) nodes

-- `memcpy` from `from` to `to`, one byte after the other.
pub copy_bytes : (size to from : ℕ) → Memory → Memory
copy_bytes zero to from memory = memory
copy_bytes (suc size) to from memory =
    copy_bytes size (to + 1) (from + 1) (λ a. if a == to then memory from else memory a)

-- `buffer[size] = '\0'` stands behind the bytes that were asked for.
pub initrd_read : Ramdisk → (node offset size buffer : ℕ) → Outcome (ℕ × Ramdisk)
unfolding copy_bytes
initrd_read r node offset size buffer = do
  n ← access (pointed_node r node)
  slot ← access (get_elem? r.list_headers.headers n.inode)
  header ← access slot
  let copied = copy_bytes size buffer (header + 512 + offset) r.memory
  ok (size, record r { memory = λ a. if a == buffer + size then 0 else copied a })

-- `vfs_get_depth` of vfs.c: the number of slashes.
pub vfs_get_depth : (path : List ℕ) → Outcome ℕ
vfs_get_depth [] = fault
vfs_get_depth (c ∷ path) =
    if c == 0
    then ok 0
    else (do depth ← vfs_get_depth path; ok (if c == 47 then u32 (depth + 1) else depth))

-- The loop of `initrd_readdir` on the depths, which it does not use.
pub depths_from : (turns : ℕ) → List FsNode → Outcome ℕ
unfolding vfs_get_depth
depths_from zero nodes = ok 0
depths_from (suc turns) [] = fault
depths_from (suc turns) (n ∷ nodes) = do child_depth ← vfs_get_depth n.name; depths_from turns nodes

pub initrd_readdir : Ramdisk → (dir index : ℕ) → Outcome (ℕ × Ramdisk)
unfolding vfs_get_depth depths_from
initrd_readdir r dir index =
    let called = record r { initrd_readdir_call = true } in
    if leb r.nroot_nodes index then ok (0, called) else (do
      d ← access (pointed_node r dir)
      dir_depth ← vfs_get_depth d.name
      last ← depths_from r.nroot_nodes r.root_nodes
      ok (node_pointer index, called))

abbrev pub pointer_to : Option ℕ → ℕ
pointer_to none = 0
pointer_to (some i) = node_pointer i

pub initrd_finddir : Ramdisk → (node : ℕ) → (name : List ℕ) → Outcome ℕ
initrd_finddir r node name = do
  is_dev ← if node == root_pointer then names_equal name dev_string else ok false
  if is_dev
      then ok 0
      else (do found ← find_name r.nroot_nodes name (names_of r.root_nodes); ok (pointer_to found))

-- The result is `list_headers.headers[i]->size`, the address of the field.
pub initrd_get_file_size : Ramdisk → (node : ℕ) → Outcome ℕ
initrd_get_file_size r node = do
  n ← access (pointed_node r node)
  found ← find_name r.nroot_nodes n.name (names_of r.root_nodes)
  elim found [
    | none ↦ ok (2 ^ 32 - 1)
    | some i ↦ (do
      slot ← access (get_elem? r.list_headers.headers i)
      header ← access slot
      ok (u32 (header + size_field)))
  ]

-- The bytes of a header, from the filename on.
abbrev pub bytes_from : (n : ℕ) → Memory → (address : ℕ) → List ℕ
bytes_from zero memory address = []
bytes_from (suc n) memory address = memory address ∷ bytes_from n memory (address + 1)

-- `node_type`, which other type flags leave as it was.
abbrev pub type_of_flag : (typeflag before : ℕ) → ℕ
type_of_flag typeflag before =
    if typeflag == 48 then ft_file else if typeflag == 53 then ft_directory else before

-- A node as one turn of the loop of `initialise_initrd` leaves it; `before` is what the allocation held.
abbrev pub file_node : Memory → (i header : ℕ) → (before : FsNode) → (name : List ℕ) → FsNode
file_node memory i header before name = record before {
  name = name;
  mask = 0;
  uid = 0;
  gid = 0;
  length = getsize memory (u32 (header + size_field));
  inode = i;
  flags = fs_file;
  read_fn = initrd_read_pointer;
  write_fn = 0;
  readdir_fn = initrd_readdir_pointer;
  finddir_fn = 0;
  open_fn = 0;
  close_fn = 0;
  impl = 0;
  get_file_size_fn = initrd_get_file_size_pointer;
  node_type = type_of_flag (memory (u32 (header + typeflag_field))) before.node_type;
}

pub initrd_node : Memory → (i header : ℕ) → (before : FsNode) → Outcome FsNode
initrd_node memory i header before = do
  name ← copy_over before.name (bytes_from 512 memory header)
  ok (file_node memory i header before name)

-- The loop, for the nodes from `i` on, and the node behind them that is not set.
pub initrd_nodes :
    (turns i : ℕ)
    → Memory
    → (headers : List (Option ℕ)) → (before : ℕ → FsNode) → Outcome (List FsNode)
unfolding initrd_node
initrd_nodes zero i memory headers before = ok (before i ∷ [])
initrd_nodes (suc turns) i memory headers before = do
  slot ← access (get_elem? headers i)
  header ← access slot
  node ← initrd_node memory i header (before i)
  rest ← initrd_nodes turns (i + 1) memory headers before
  ok (node ∷ rest)

-- What `initrd_root` points to.
abbrev pub directory_node : (before : FsNode) → (name : List ℕ) → FsNode
directory_node before name = record before {
  name = name;
  mask = 0;
  uid = 0;
  gid = 0;
  inode = 0;
  length = 0;
  flags = fs_directory;
  node_type = ft_directory;
  read_fn = initrd_read_pointer;
  write_fn = 0;
  open_fn = 0;
  close_fn = 0;
  readdir_fn = initrd_readdir_pointer;
  finddir_fn = initrd_finddir_pointer;
  get_file_size_fn = initrd_get_file_size_pointer;
}

abbrev pub initrd_root_node : (before : FsNode) → Outcome FsNode
initrd_root_node before = do
  name ← copy_over before.name (47 ∷ 0 ∷ [])
  ok (directory_node before name)

-- The variables at the end; `initrd_readdir_call` is still what it was at first.
abbrev pub started :
    Memory → HeaderList → (root : FsNode) → (nodes : List FsNode) → (nfiles : ℕ) → Ramdisk
started memory headers root nodes nfiles = record {
  memory = memory;
  list_headers = headers;
  root = root;
  root_nodes = nodes;
  nroot_nodes = nfiles;
  pos = nfiles;
  initrd_readdir_call = false;
}

-- `initrd_header->nfiles = nfiles`, and what is read from there afterwards; `initrd_header` is what the
-- header has in that field before, or `none` for the null pointer, which the repository leaves it.
abbrev pub write_nfiles : (initrd_header : Option ℕ) → (nfiles : ℕ) → Outcome ℕ
write_nfiles none nfiles = fault
write_nfiles (some old) nfiles = ok nfiles

-- The rest of `initialise_initrd`, where both walks have ended; the allocations held `fresh` and
-- `before`.
pub set_nodes :
    Memory
    → (initrd_header : Option ℕ) → (fresh : FsNode) → (before : ℕ → FsNode) → Option HeaderList
    → (files : Option ℕ) → Outcome (Option Ramdisk)
unfolding initrd_nodes
set_nodes memory initrd_header fresh before (some headers) (some files) = do
  nfiles ← write_nfiles initrd_header files
  root ← initrd_root_node fresh
  nodes ← initrd_nodes nfiles 0 memory headers.headers before
  ok (some (started memory headers root nodes nfiles))
set_nodes memory initrd_header fresh before (some headers) none = ok none
set_nodes memory initrd_header fresh before none files = ok none

-- `none` is an archive of `turns` headers or more.
pub initialise_initrd :
    (turns : ℕ)
    → Memory
    → (location : ℕ) → (initrd_header : Option ℕ) → (fresh : FsNode) → (before : ℕ → FsNode)
    → Outcome (Option Ramdisk)
initialise_initrd turns memory location initrd_header fresh before = do
  made ← generate_list_files_initrd turns memory location
  set_nodes memory initrd_header fresh before made (initrd_get_number_files turns memory location)

-- `root_nodes[pos] = *dev`
pub set_dev_node_initrd : (dev : FsNode) → Ramdisk → Outcome Ramdisk
set_dev_node_initrd dev r =
    if ltb r.pos (length r.root_nodes)
    then ok (record r {
      root_nodes = set r.root_nodes r.pos dev;
      nroot_nodes = u32 (r.nroot_nodes + 1);
    })
    else fault
