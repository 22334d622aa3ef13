-- ===== src/Fs/Initrd/Tests.antt =====
-- An archive of one file `a` of five bytes at 512.
use medusa_os.Prelude.{
  ℕ, ◌≡◌, ◌≢◌, refl, arith, ◌==◌, leb, ◌&&◌, if◌then◌else◌, Option, some, List, [], ◌∷◌, ap, get_or,
  false, replicate, true, ok,
}
use medusa_os.Fs.Names.{FirstAt}
use medusa_os.Fs.Nodes.{FsNode, vfs_search_node}
use medusa_os.Fs.Tar.{
  Memory, HeaderList, getsize, generate_list_files_initrd, initrd_get_number_files,
}
use medusa_os.Fs.Tar.Sizes.{Octal, getsize_lem}
use medusa_os.Fs.Tar.Walk.{slots, Archive, generate_list_files_initrd_lem}
use medusa_os.DataStructures.Slots.Laws.{Holds}
use medusa_os.Fs.Initrd.{Ramdisk, initrd_finddir, pointer_to, root_pointer}
use medusa_os.Fs.Initrd.Lookup.{Serve, Listing, initrd_finddir_lem}
use medusa_os.Fs.Initrd.Lookup.Opening.{ramdisk_calls, vfs_search_node-initrd}

abbrev archive : Memory
archive a =
    if a == 512 then 97 else if a == 646 then 53 else if leb 636 a && leb a 645 then 48 else 0

abbrev blank : FsNode
blank = record {
  name = replicate 128 7;
  mask = 0;
  uid = 0;
  gid = 0;
  mode = 0;
  flags = 0;
  inode = 0;
  length = 0;
  impl = 0;
  read_fn = 0;
  write_fn = 0;
  open_fn = 0;
  close_fn = 0;
  readdir_fn = 0;
  finddir_fn = 0;
  read_block_fn = 0;
  write_block_fn = 0;
  get_file_size_fn = 0;
  mount_point = 0;
  parent = 0;
  private_node_data = 0;
  node_type = 0;
}

size_digits : Octal archive 636 11 5
size_digits =
    (refl, (refl, (refl, (refl, (refl, (refl, (refl, (refl, (refl, (refl, (refl, refl)))))))))))

getsize_example : getsize archive 636 ≡ 5
getsize_example = getsize_lem archive 636 5 size_digits (omega arith)

one_file : Archive archive 512 (512 ∷ [])
one_file = (refl, (λ e. omega (arith, e)), (5, (omega arith, size_digits), refl))

generate_list_files_initrd_example :
    (final : HeaderList) × (generate_list_files_initrd 2 archive 512 ≡ ok (some final))
    × Holds (slots final) (512 ∷ [])
    × (initrd_get_number_files 2 archive 512 ≡ some 1)
generate_list_files_initrd_example =
    generate_list_files_initrd_lem (512 ∷ []) 2 archive 512 one_file (omega arith) (omega arith)

-- A ramdisk of a directory `d` and a file `a`.
abbrev named : (name : List ℕ) → (node_type : ℕ) → FsNode
named name node_type = record blank { name = name; node_type = node_type; readdir_fn = 2 }

abbrev disk : Ramdisk
disk = record {
  memory = archive;
  list_headers = record { headers = []; used = 0; size = 0 };
  root = named (47 ∷ 0 ∷ []) 128;
  root_nodes = named (100 ∷ 0 ∷ []) 128 ∷ named (97 ∷ 0 ∷ []) 1 ∷ [];
  nroot_nodes = 2;
  pos = 2;
  initrd_readdir_call = false;
}

disk-Serve : Serve 2 disk.root_nodes ((100 ∷ []) ∷ (97 ∷ []) ∷ [])
disk-Serve = ([], refl, omega arith, refl, ([], refl, omega arith, refl, omega arith))

disk-Listing : Listing disk root_pointer
disk-Listing = record {
  node = named (47 ∷ 0 ∷ []) 128;
  string = 47 ∷ [];
  rest = [];
  at = refl;
  name = refl;
  chars = omega arith;
  readdir = refl;
}

not_d : ◌≢◌ {A = List ℕ} (97 ∷ []) (100 ∷ [])
not_d e = omega (arith, ap (λ l. get_or l 0 0) e)

initrd_finddir_example :
    (o : Option ℕ) × (initrd_finddir disk 1 (97 ∷ 0 ∷ []) ≡ ok (pointer_to o))
    × FirstAt (97 ∷ []) ((100 ∷ []) ∷ (97 ∷ []) ∷ []) o
initrd_finddir_example =
    initrd_finddir_lem disk ((100 ∷ []) ∷ (97 ∷ []) ∷ []) 1 (97 ∷ []) [] disk-Serve (omega arith)
      (λ e. omega (arith, ap (λ l. get_or l 0 0) e))

vfs_search_node-initrd_example :
    vfs_search_node ramdisk_calls 2 disk root_pointer (97 ∷ 0 ∷ []) 0
    ≡ ok (some (3, record disk { initrd_readdir_call = true }))
vfs_search_node-initrd_example =
    vfs_search_node-initrd 2 disk ((100 ∷ []) ∷ (97 ∷ []) ∷ []) 1 (97 ∷ []) [] disk-Serve
      disk-Listing (omega arith) (not_d, refl) (omega arith)
