-- ===== src/Mm/Paging/Ranges.antt =====
-- Ranges of pages, and what unmapping does to the page allocator.
use medusa_os.Prelude.{
  ℕ, zero, suc, ◌+◌, ◌*◌, ◌/◌, ◌%◌, ◌^◌, ◌≤◌, ◌<◌, ◌≡◌, ◌≢◌, ◌∙◌, ap, sym, subst, subst₂, arith,
  bit_and, bit_or, ok, >>=-eq-ok, bit_or-lt-pow,
}
use medusa_os.Misc.{u32}
use medusa_os.Mm.Pmm.{Pmm, pmm_free_page}
use medusa_os.Mm.Pmm.Marks.{mark, Marked}
use medusa_os.Mm.Pmm.Alloc.{pmm_free_page-Marked}
use medusa_os.Mm.Paging.{
  Mm, directory_slot, directory_index, page_present, write_entry, paging_map_page, paging_map_pages,
  paging_unmap_page, paging_virt_to_phys,
}
use medusa_os.Mm.Paging.Entries.{offset_lem, frame_lem, entry_frame}
use medusa_os.Mm.Paging.Laws.{
  HasTable, IsUserArea, translate, paging_get_page-lookup, paging_map_page-Mapped,
  paging_map_page-other,
}

-- The page of `virt` is mapped to the frame `phys` with the given flags.
record IsMapped (m : Mm) (virt phys flags : ℕ) : Type 0 where
  table : HasTable m virt
  entry : m.entries (virt / 4096) ≡ bit_or (bit_or phys 1) (bit_and flags 0xfff)

IsMapped-eq :
    (m : Mm) {virt virt' phys phys' : ℕ} (flags : ℕ)
    → virt ≡ virt'
    → phys ≡ phys'
    → IsMapped m virt phys flags
    → IsMapped m virt' phys' flags
IsMapped-eq m flags p q h = subst₂ (λ v f. IsMapped m v f flags) p q h

IsMapped-translate :
    (m : Mm) (virt phys flags : ℕ)
    → virt < 2 ^ 32
    → phys % 4096 ≡ 0
    → phys < 2 ^ 32
    → IsMapped m virt phys flags
    → paging_virt_to_phys m virt ≡ ok (phys + virt % 4096)
IsMapped-translate m virt phys flags small aligned fits h =
    translate m virt (bit_or (bit_or phys 1) (bit_and flags 0xfff)) small h.table h.entry (
      bit_or-lt-pow 32 _ _ (bit_or-lt-pow 32 phys 1 fits (omega arith))
        (omega (arith, offset_lem flags)))
    ∙ ap ok (omega (arith, entry_frame phys flags aligned))

-- Later mappings above a page keep it.
map_pages-keeps :
    (num : ℕ) (m : Mm) (virt phys flags other w : ℕ) (m' : Mm)
    → virt + num * 4096 ≤ 0xffc00000
    → other / 4096 < virt / 4096
    → HasTable m other
    → m.entries (other / 4096) ≡ w
    → paging_map_pages num m virt phys flags ≡ ok m'
    → HasTable m' other × (m'.entries (other / 4096) ≡ w)
unfolding paging_map_pages
map_pages-keeps zero m virt phys flags other w m' fits below table entry h =
    let same : m ≡ m' = cc in
    subst (λ t. HasTable t other × (t.entries (other / 4096) ≡ w)) same (table, entry)
map_pages-keeps (suc num) m virt phys flags other w m' fits below table entry h =
    let (m1, q, rest) = >>=-eq-ok (paging_map_page m virt phys flags) _ h in
    let (table', same) =
      paging_map_page-other m virt phys flags other m1 (omega arith) (omega arith) (omega arith)
        table q in
    map_pages-keeps num m1 (u32 (virt + 0x1000)) (u32 (phys + 0x1000)) flags other w m'
      (omega arith) (omega arith) table' (same ∙ entry) rest

map_pages-IsMapped :
    (num : ℕ) (m : Mm) (virt phys flags k : ℕ) (m' : Mm)
    → virt + num * 4096 ≤ 0xffc00000
    → phys + num * 4096 ≤ 2 ^ 32
    → k < num
    → paging_map_pages num m virt phys flags ≡ ok m'
    → (virt % 4096 ≡ 0) × IsMapped m' (virt + k * 4096) (phys + k * 4096) flags
unfolding paging_map_pages
map_pages-IsMapped zero m virt phys flags k m' fits fits' lt h = elim lt [ ]
map_pages-IsMapped (suc num) m virt phys flags zero m' fits fits' lt h =
    let (m1, q, rest) = >>=-eq-ok (paging_map_page m virt phys flags) _ h in
    let g = paging_map_page-Mapped m virt phys flags m1 (omega arith) q in
    let (table, entry) =
      map_pages-keeps num m1 (u32 (virt + 0x1000)) (u32 (phys + 0x1000)) flags virt
        (bit_or (bit_or phys 1) (bit_and flags 0xfff)) m' (omega arith) (omega arith) g.table
        g.entry rest in
    let first : IsMapped m' virt phys flags = record { table = table; entry = entry } in
    (g.aligned, IsMapped-eq m' flags (omega arith) (omega arith) first)
map_pages-IsMapped (suc num) m virt phys flags (suc k) m' fits fits' lt h =
    let (m1, q, rest) = >>=-eq-ok (paging_map_page m virt phys flags) _ h in
    let g = paging_map_page-Mapped m virt phys flags m1 (omega arith) q in
    let (aligned, later) =
      map_pages-IsMapped num m1 (u32 (virt + 0x1000)) (u32 (phys + 0x1000)) flags k m' (omega arith)
        (omega arith) (omega arith) rest in
    (g.aligned, IsMapped-eq m' flags (omega arith) (omega arith) later)

-- `paging_map_pages` over a range of user space and a range of frames, where it succeeds, makes
-- every address of the range translate to the frame at the same distance.
pub paging_virt_to_phys-map_pages :
    (num : ℕ) (m : Mm) (virt phys flags k off : ℕ) (m' : Mm)
    → virt + num * 4096 ≤ 0xffc00000
    → phys + num * 4096 ≤ 2 ^ 32
    → phys % 4096 ≡ 0
    → k < num
    → off < 4096
    → paging_map_pages num m virt phys flags ≡ ok m'
    → paging_virt_to_phys m' (virt + k * 4096 + off) ≡ ok (phys + k * 4096 + off)
paging_virt_to_phys-map_pages num m virt phys flags k off m' fits fits' aligned lt small h =
    let (start, mapped) = map_pages-IsMapped num m virt phys flags k m' fits fits' lt h in
    let page : (virt + k * 4096) / 4096 ≡ (virt + k * 4096 + off) / 4096 = omega arith in
    let same_directory : directory_index (virt + k * 4096)
        ≡ directory_index (virt + k * 4096 + off) =
      omega arith in
    let here : IsMapped m' (virt + k * 4096 + off) (phys + k * 4096) flags = record {
      table =
          subst (λ d. bit_and (m'.entries (directory_slot d)) page_present ≢ 0) same_directory
            mapped.table;
      entry = ap m'.entries (sym page) ∙ mapped.entry;
    } in
    IsMapped-translate m' (virt + k * 4096 + off) (phys + k * 4096) flags (omega arith)
      (omega arith) (omega arith) here
    ∙ ap ok (omega arith)

pmm_free_page-frame :
    (s : Pmm) (w : ℕ)
    → w < 2 ^ 32
    → (s' : Pmm) × (pmm_free_page s (bit_and w 0xfffff000) ≡ ok s') × Marked 0 (w / 4096) 1 s s'
pmm_free_page-frame s w small =
    let (t, e, m) = pmm_free_page-Marked s (w / 4096 * 4096) (omega arith) in
    (t, ap (pmm_free_page s) (frame_lem w small) ∙ e, subst (λ b. Marked 0 b 1 s t) (omega arith) m)

-- Unmapping a page of user space whose table is there clears its entry and frees the frame that
-- the entry names, whether or not the entry is present.
pub paging_unmap_page_lem :
    (m : Mm) (virt : ℕ)
    → IsUserArea virt
    → virt % 4096 ≡ 0
    → HasTable m virt
    → m.entries (virt / 4096) < 2 ^ 32
    → (m' : Mm) × (paging_unmap_page m virt ≡ ok m')
      × (m'.entries (virt / 4096) ≡ 0)
      × Marked 0 (m.entries (virt / 4096) / 4096) 1 m.pmm m'.pmm
unfolding paging_unmap_page
paging_unmap_page_lem m virt area aligned table small =
    let (pmm', e, marked) = pmm_free_page-frame m.pmm (m.entries (virt / 4096)) small in
    (
      write_entry (record m { pmm = pmm' }) (virt / 4096) 0,
      rw (paging_get_page-lookup m virt 0 aligned table, e),
      ground arith,
      marked,
    )

-- So unmapping a page that was never mapped, in a table that is there, marks the block 0 as free,
-- which the page allocator reserves for the null address.
pub paging_unmap_page-zero :
    (m : Mm) (virt : ℕ)
    → IsUserArea virt
    → virt % 4096 ≡ 0
    → HasTable m virt
    → m.entries (virt / 4096) ≡ 0
    → (m' : Mm) × (paging_unmap_page m virt ≡ ok m') × (mark m'.pmm 0 ≡ 0)
paging_unmap_page-zero m virt area aligned table zero_entry =
    let (m', e, cleared, marked) = paging_unmap_page_lem m virt area aligned table (omega arith) in
    (m', e, marked.inside 0 (omega arith) (omega arith))

-- In a table that is there, the translation of an address without a mapping is its offset in the
-- page.
pub paging_virt_to_phys-unmapped :
    (m : Mm) (virt : ℕ)
    → virt < 2 ^ 32
    → HasTable m virt
    → m.entries (virt / 4096) ≡ 0
    → paging_virt_to_phys m virt ≡ ok (virt % 4096)
paging_virt_to_phys-unmapped m virt small table zero_entry =
    translate m virt 0 small table zero_entry (omega arith) ∙ ap ok (omega arith)
