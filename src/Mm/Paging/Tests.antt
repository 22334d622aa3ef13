-- ===== src/Mm/Paging/Tests.antt =====
-- Runs of the page tables, and their theorems at concrete states.
use medusa_os.Prelude.{◌+◌, ◌*◌, ◌≡◌, refl, arith, ◌==◌, if◌then◌else◌, ok, abort}
use medusa_os.Mm.Pmm.{Pmm}
use medusa_os.Mm.Pmm.Marks.{mark, Marked}
use medusa_os.Mm.Paging.{
  Mm, write_entry, paging_get_page, paging_map_page, paging_map_pages, paging_unmap_page,
  paging_virt_to_phys,
}
use medusa_os.Mm.Paging.Laws.{paging_virt_to_phys-map, paging_map_page-mapped}
use medusa_os.Mm.Paging.Ranges.{
  paging_virt_to_phys-map_pages, paging_unmap_page_lem, paging_unmap_page-zero,
  paging_virt_to_phys-unmapped,
}

abbrev memory : Pmm
memory = record {
  bitmap = λ i. if i == 0 then 7 else 0;
  mem_size = 16777216;
  used_blocks = 3;
  max_blocks = 4096;
  kernel_end = 12288;
}

-- The first 4 MiB have a table, and nothing is mapped in it.
abbrev tables : Mm
tables = record { pmm = memory; entries = λ i. if i == 1047552 then 0x2003 else 0 }

abbrev mapped : Mm
mapped = write_entry tables 3 0x5003

map_run : paging_map_page tables 0x3000 0x5000 2 ≡ ok mapped
unfolding paging_map_page paging_get_page
map_run = refl

translate_run : paging_virt_to_phys mapped 0x3abc ≡ ok 0x5abc
unfolding paging_virt_to_phys paging_get_page
translate_run = refl

paging_virt_to_phys-map_example : paging_virt_to_phys mapped (0x3000 + 0xabc) ≡ ok (0x5000 + 0xabc)
paging_virt_to_phys-map_example =
    paging_virt_to_phys-map tables 0x3000 0x5000 2 0xabc mapped (omega arith) refl (omega arith)
      (omega arith) map_run

paging_map_page-mapped_example : paging_map_page mapped 0x3000 0x7000 2 ≡ abort
paging_map_page-mapped_example =
    paging_map_page-mapped mapped 0x3000 0x7000 2 refl (λ e. omega (arith, e))
      (λ e. omega (arith, e))

abbrev mapped_two : Mm
mapped_two = write_entry mapped 4 0x6003

map_pages_run : paging_map_pages 2 tables 0x3000 0x5000 2 ≡ ok mapped_two
unfolding paging_map_pages paging_map_page paging_get_page
map_pages_run = refl

paging_virt_to_phys-map_pages_example :
    paging_virt_to_phys mapped_two (0x3000 + 1 * 4096 + 0xabc) ≡ ok (0x5000 + 1 * 4096 + 0xabc)
paging_virt_to_phys-map_pages_example =
    paging_virt_to_phys-map_pages 2 tables 0x3000 0x5000 2 1 0xabc mapped_two (omega arith)
      (omega arith) refl (omega arith) (omega arith) map_pages_run

paging_unmap_page_example :
    (m' : Mm) × (paging_unmap_page mapped 0x3000 ≡ ok m')
    × (m'.entries 3 ≡ 0)
    × Marked 0 5 1 memory m'.pmm
paging_unmap_page_example =
    paging_unmap_page_lem mapped 0x3000 (omega arith) refl (λ e. omega (arith, e)) (omega arith)

paging_unmap_page-zero_example :
    (m' : Mm) × (paging_unmap_page tables 0x3000 ≡ ok m') × (mark m'.pmm 0 ≡ 0)
paging_unmap_page-zero_example =
    paging_unmap_page-zero tables 0x3000 (omega arith) refl (λ e. omega (arith, e)) refl

paging_virt_to_phys-unmapped_example : paging_virt_to_phys tables 0x3abc ≡ ok 0xabc
paging_virt_to_phys-unmapped_example =
    paging_virt_to_phys-unmapped tables 0x3abc (omega arith) (λ e. omega (arith, e)) refl
