-- ===== src/Mm/Paging.antt =====
-- kernel/kernel/mm/paging.c: the page tables, read and written through the recursive mapping.
-- The last directory entry maps the directory itself, so the page tables appear as one array of
-- entries, one for each virtual page, from 0xFFC00000 on, and the directory is the part of it for
-- the pages of that area: its entry `i` is the entry of the page `1023 * 1024 + i`.
-- The tables stand in frames of their own: `pmm_alloc_page` gives a new one a frame that was free, and
-- the frames of those that are there are in use.
-- The TLB instructions and the log have no state here.
pub mod Entries
pub mod Laws
pub mod Ranges
mod Tests
use medusa_os.Prelude.{
  ℕ, zero, suc, ◌+◌, ◌-◌, ◌*◌, ◌/◌, ◌%◌, ◌^◌, ◌==◌, ltb, if◌then◌else◌, Bool, true, false, not,
  ◌&&◌, Option, none, some, bit_and, bit_or, Outcome, ok, abort, fault, access, ◌>>=◌,
}
use medusa_os.Misc.{u32, sub32}
use medusa_os.Mm.Pmm.{Pmm, update, pmm_alloc_page, pmm_free_page}

pub record Mm : Type 0 where
  pub pmm : Pmm
  pub entries : ℕ → ℕ

abbrev pub page_present : ℕ
page_present = 1

abbrev pub page_rw : ℕ
page_rw = 2

abbrev pub page_user : ℕ
page_user = 4

abbrev pub page_frame : ℕ
page_frame = 0xfffff000

abbrev pub page_flags : ℕ
page_flags = 0xfff

-- `DIRECTORY_INDEX(x)`
abbrev pub directory_index : ℕ → ℕ
directory_index x = x / 2 ^ 22

-- `TABLE_INDEX(x)`
abbrev pub table_index : ℕ → ℕ
table_index x = bit_and (x / 2 ^ 12) 0x3ff

-- The place of `dir[i]` among the entries.
abbrev pub directory_slot : ℕ → ℕ
directory_slot i = 1023 * 1024 + i

-- The place of `table[table_index]`, for the table at `0xFFC00000 + (dir_index << 12)`.
abbrev pub entry_slot : ℕ → ℕ
entry_slot virt = directory_index virt * 1024 + table_index virt

-- `memset(table, 0, 4096)`
abbrev pub clear_table : (ℕ → ℕ) → ℕ → ℕ → ℕ
clear_table f t j = if j / 1024 == t then 0 else f j

-- `*p = v`
abbrev pub write_entry : Mm → (slot v : ℕ) → Mm
write_entry m slot v = record m { entries = update m.entries slot v }

-- `paging_get_page_select_dir`, for the current directory; the result is the place of the entry,
-- or `none` for the null pointer. The code does not test what `pmm_alloc_page` returns: a table at the
-- frame 0 is a `fault`, since every such table would be the one frame at the null address.
pub paging_get_page : Mm → ℕ → Bool → ℕ → Outcome (Option ℕ × Mm)
paging_get_page m virt create flags =
    let d = directory_slot (directory_index virt) in
    if not (virt % 0x1000 == 0)
    then abort
    else if not (bit_and (m.entries d) page_present == 0)
    then ok (some (entry_slot virt), m)
    else if not create
    then ok (none, m)
    else do
      (new_table, pmm') ← pmm_alloc_page m.pmm
      let v = bit_or (bit_or (bit_or new_table page_present) page_rw) (bit_and flags page_flags)
      let m' : Mm = record {
        pmm = pmm';
        entries = clear_table (update m.entries d v) (directory_index virt);
      }
      if new_table == 0
          then fault
          else ok (
            (if bit_and (m'.entries d) page_present == 0 then none else some (entry_slot virt)),
            m',
          )

-- A null pointer is written through, which the callers rule out by `create`.
pub paging_map_page : Mm → (virt phys flags : ℕ) → Outcome Mm
paging_map_page m virt phys flags = do
  (p, m') ← paging_get_page m virt true flags
  slot ← access p
  if not (bit_and (m'.entries slot) page_present == 0)
      then abort
      else ok (write_entry m' slot (bit_or (bit_or phys page_present) (bit_and flags page_flags)))

pub paging_unmap_page : Mm → ℕ → Outcome Mm
paging_unmap_page m virt = do
  (p, m') ← paging_get_page m virt false 0
  elim p [
    | none ↦ ok m'
    | some slot ↦ do
      pmm' ← pmm_free_page m'.pmm (bit_and (m'.entries slot) page_frame)
      ok (write_entry (record m' { pmm = pmm' }) slot 0)
  ]

-- The loops over `num` pages.
pub paging_map_pages : (num : ℕ) → Mm → (virt phys flags : ℕ) → Outcome Mm
paging_map_pages zero m virt phys flags = ok m
paging_map_pages (suc num) m virt phys flags = do
  m' ← paging_map_page m virt phys flags
  paging_map_pages num m' (u32 (virt + 0x1000)) (u32 (phys + 0x1000)) flags

pub paging_unmap_pages : (num : ℕ) → Mm → ℕ → Outcome Mm
paging_unmap_pages zero m virt = ok m
paging_unmap_pages (suc num) m virt = do
  m' ← paging_unmap_page m virt
  paging_unmap_pages num m' (u32 (virt + 0x1000))

-- The loop of `paging_alloc_pages` from the page `i` on; `false` is the null pointer.
pub paging_alloc_from : (left i : ℕ) → Mm → ℕ → Outcome (Bool × Mm)
paging_alloc_from zero i m virt = ok (true, m)
paging_alloc_from (suc left) i m virt = do
  (page, pmm') ← pmm_alloc_page m.pmm
  let m1 : Mm = record m { pmm = pmm' }
  elim (page == 0) [
    | true ↦ ok (false, m1)
    | false ↦ do
      (p, m2) ← paging_get_page m1 (u32 (virt + i * 0x1000)) true 6
      slot ← access p
      paging_alloc_from left (i + 1)
          (write_entry m2 slot (bit_or (bit_or (bit_or page page_present) page_rw) page_user)) virt
  ]

pub paging_alloc_pages : Mm → (virt size : ℕ) → Outcome (Bool × Mm)
unfolding paging_alloc_from
paging_alloc_pages m virt size = paging_alloc_from size 0 m virt

pub paging_virt_to_phys : Mm → ℕ → Outcome ℕ
paging_virt_to_phys m virt = do
  (p, m') ← paging_get_page m (bit_and virt page_frame) false 0
  elim p [
    | none ↦ ok 0
    | some slot ↦ ok (u32 (bit_and (m'.entries slot) page_frame + bit_and virt 0xfff))
  ]
