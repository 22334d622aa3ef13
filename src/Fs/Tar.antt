-- ===== src/Fs/Tar.antt =====
-- kernel/kernel/fs/initrd.c: the archive that the boot loader leaves in memory, its headers, and the
-- list of pointers to them. Memory is a function from addresses to bytes.
pub mod Sizes
pub mod Walk
use medusa_os.Prelude.{
  ℕ, zero, suc, ◌+◌, ◌-◌, ◌*◌, ◌/◌, ◌%◌, ◌^◌, ◌==◌, ltb, if◌then◌else◌, Bool, Option, none, some,
  List, [], ◌∷◌, length, set, Outcome, ok, fault, ◌>>=◌,
}
use medusa_os.Misc.{u32}
use medusa_os.DataStructures.Slots.{resize}

abbrev pub Memory : Type 0
Memory = ℕ → ℕ

-- Where the fields of `struct tar_header` stand.
abbrev pub size_field : ℕ
size_field = 124

abbrev pub typeflag_field : ℕ
typeflag_field = 156

-- The value of a `char`, as a 32-bit word.
abbrev pub char_word : ℕ → ℕ
char_word c = if ltb c 128 then c else c + 2 ^ 32 - 256

-- The loop of `getsize` from `in[j - 1]` down to `in[0]`.
pub getsize_from : (j count size : ℕ) → Memory → (base : ℕ) → ℕ
getsize_from zero count size memory base = size
getsize_from (suc j) count size memory base =
    getsize_from j (u32 (count * 8))
      (u32 (size + (char_word (memory (base + j)) + 2 ^ 32 - 48) * count)) memory base

pub getsize : Memory → (base : ℕ) → ℕ
unfolding getsize_from
getsize memory base = getsize_from 11 1 0 memory base

-- `address` after a header and the blocks of its file.
unfoldable pub next_header : (address size : ℕ) → ℕ
next_header address size =
    let behind = u32 (address + (size / 512 + 1) * 512) in
    if size % 512 == 0 then behind else u32 (behind + 512)

-- `initrd_list_header_t`
pub record HeaderList : Type 0 where
  pub headers : List (Option ℕ)
  pub used : ℕ
  pub size : ℕ

pub init_header_list : (initial_size : ℕ) → HeaderList
init_header_list initial_size = record {
  headers = resize (u32 (initial_size * 4) / 4) [];
  used = 0;
  size = initial_size;
}

-- The branch of a full list.
pub grow_header_list : HeaderList → HeaderList
grow_header_list list = record list {
  headers = resize (u32 (u32 (list.size * 2) * 4) / 4) list.headers;
  size = u32 (list.size * 2);
}

pub add_header_list : HeaderList → (header : ℕ) → Outcome HeaderList
unfolding grow_header_list
add_header_list list header =
    let room = if list.used == list.size then grow_header_list list else list in
    if ltb room.used (length room.headers)
    then ok (record room {
      headers = set room.headers room.used (some header);
      used = u32 (room.used + 1);
    })
    else fault

pub empty_header_list : HeaderList → HeaderList
empty_header_list list = record { headers = []; used = 0; size = 0 }

-- `header->filename[0] == '\0'`
abbrev pub ends_at : Memory → (address : ℕ) → Bool
ends_at memory address = memory address == 0

-- The loop of `generate_list_files_initrd`; `none` is a walk of more than `turns` headers.
pub generate_from : (turns : ℕ) → Memory → (address : ℕ) → HeaderList → Outcome (Option HeaderList)
generate_from zero memory address list = ok none
generate_from (suc turns) memory address list =
    if ends_at memory address then ok (some list) else (do
      list' ← add_header_list list address
      generate_from turns memory (next_header address (getsize memory (u32 (address + size_field))))
          list')

pub generate_list_files_initrd : (turns : ℕ) → Memory → (address : ℕ) → Outcome (Option HeaderList)
generate_list_files_initrd turns memory address =
    generate_from turns memory address (init_header_list 1)

-- The loop of `initrd_get_number_files`.
pub number_from : (turns : ℕ) → Memory → (address i : ℕ) → Option ℕ
number_from zero memory address i = none
number_from (suc turns) memory address i =
    if ends_at memory address
    then some i
    else number_from turns memory
        (next_header address (getsize memory (u32 (address + size_field)))) (u32 (i + 1))

pub initrd_get_number_files : (turns : ℕ) → Memory → (address : ℕ) → Option ℕ
initrd_get_number_files turns memory address = number_from turns memory address 0
