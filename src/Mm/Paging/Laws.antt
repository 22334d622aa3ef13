-- ===== src/Mm/Paging/Laws.antt =====
-- Mapping, translation and unmapping.
use medusa_os.Prelude.{
  ℕ, ◌+◌, ◌*◌, ◌/◌, ◌%◌, ◌^◌, ◌<◌, ◌≡◌, ◌≢◌, ◌∙◌, ap, sym, subst, arith, bit_or-lt-pow, bit_and,
  bit_or, Bool, true, false, none, some, ok, abort, access, >>=-eq-ok, access-eq-ok,
}
use medusa_os.Misc.{u32}
use medusa_os.Mm.Paging.{
  Mm, directory_slot, directory_index, entry_slot, page_present, paging_get_page, paging_map_page,
  paging_virt_to_phys,
}
use medusa_os.Mm.Paging.Entries.{entry_slot_lem, offset_lem, frame_lem, entry_frame}

-- The directory entry for the address is present.
abbrev pub HasTable : Mm → ℕ → Type 0
HasTable m virt = bit_and (m.entries (directory_slot (directory_index virt))) page_present ≢ 0

pub paging_get_page-some :
    (m : Mm) (virt : ℕ) (create : Bool) (flags slot : ℕ) (m' : Mm)
    → paging_get_page m virt create flags ≡ ok (some slot, m')
    → (virt % 4096 ≡ 0) × (slot ≡ entry_slot virt) × HasTable m' virt
unfolding paging_get_page
paging_get_page-some m virt create flags slot m' h = ground arith

-- A lookup that does not create a table changes nothing, and finds the entry exactly where the
-- table is present.
pub paging_get_page-lookup :
    (m : Mm) (virt flags : ℕ)
    → virt % 4096 ≡ 0
    → HasTable m virt
    → paging_get_page m virt false flags ≡ ok (some (virt / 4096), m)
unfolding paging_get_page
paging_get_page-lookup m virt flags aligned present = ground (arith, entry_slot_lem virt)

paging_get_page-no_table :
    (m : Mm) (virt flags : ℕ)
    → virt % 4096 ≡ 0
    → bit_and (m.entries (directory_slot (directory_index virt))) page_present ≡ 0
    → paging_get_page m virt false flags ≡ ok (none, m)
unfolding paging_get_page
paging_get_page-no_table m virt flags aligned absent = ground arith

-- Below the area of the tables, the page entries are not directory entries.
abbrev pub IsUserArea : ℕ → Type 0
IsUserArea virt = virt < 0xffc00000

-- What a successful `paging_map_page` leaves: the table is there, and the page's entry is new.
pub record Mapped (m : Mm) (virt phys flags : ℕ) (m' : Mm) : Type 0 where
  pub aligned : virt % 4096 ≡ 0
  pub table : HasTable m' virt
  pub entry : m'.entries (virt / 4096) ≡ bit_or (bit_or phys 1) (bit_and flags 0xfff)

pub paging_map_page-Mapped :
    (m : Mm) (virt phys flags : ℕ) (m' : Mm)
    → IsUserArea virt
    → paging_map_page m virt phys flags ≡ ok m'
    → Mapped m virt phys flags m'
unfolding paging_map_page
paging_map_page-Mapped m virt phys flags m' area h =
    let ((p, m1), q, rest) = >>=-eq-ok (paging_get_page m virt true flags) _ h in
    let (slot, found, rest') = >>=-eq-ok (access p) _ rest in
    let is_some : p ≡ some slot = access-eq-ok p found in
    let (aligned, at, table) =
      paging_get_page-some m virt true flags slot m1 (q ∙ ap (λ t. ok (t, m1)) is_some) in
    ground (arith, entry_slot_lem virt)

-- The translation of an address whose table is there, from the entry of its page.
pub translate :
    (m : Mm) (virt w : ℕ)
    → virt < 2 ^ 32
    → HasTable m virt
    → m.entries (virt / 4096) ≡ w
    → w < 2 ^ 32
    → paging_virt_to_phys m virt ≡ ok (u32 (w / 4096 * 4096 + virt % 4096))
unfolding paging_virt_to_phys
translate m virt w small table entry fits =
    rw (frame_lem virt small, paging_get_page-lookup m (virt / 4096 * 4096) 0 (omega arith) table')
      (ap ok (omega (arith, frame_entry, offset_lem virt)))
  where
    page : virt / 4096 * 4096 / 4096 ≡ virt / 4096
    page = omega arith

    same_directory : directory_index (virt / 4096 * 4096) ≡ directory_index virt
    same_directory = omega arith

    table' : HasTable m (virt / 4096 * 4096)
    table' =
        subst (λ d. bit_and (m.entries (directory_slot d)) page_present ≢ 0) (sym same_directory)
          table

    frame_entry : bit_and (m.entries (virt / 4096 * 4096 / 4096)) 0xfffff000 ≡ w / 4096 * 4096
    frame_entry =
        ap (λ k. bit_and (m.entries k) 0xfffff000) page
        ∙ ap (λ t. bit_and t 0xfffff000) entry
        ∙ frame_lem w fits

-- After `paging_map_page` has mapped a page of user space to a frame, every address of the page
-- is translated to the frame's address plus the offset.
pub paging_virt_to_phys-map :
    (m : Mm) (virt phys flags off : ℕ) (m' : Mm)
    → IsUserArea virt
    → phys % 4096 ≡ 0
    → phys < 2 ^ 32
    → off < 4096
    → paging_map_page m virt phys flags ≡ ok m'
    → paging_virt_to_phys m' (virt + off) ≡ ok (phys + off)
paging_virt_to_phys-map m virt phys flags off m' area aligned fits small h =
    let g = paging_map_page-Mapped m virt phys flags m' area h in
    let w : ℕ = bit_or (bit_or phys 1) (bit_and flags 0xfff) in
    let page : virt / 4096 ≡ (virt + off) / 4096 = omega (arith, g.aligned) in
    let same_directory : directory_index virt ≡ directory_index (virt + off) =
      omega (arith, g.aligned) in
    translate m' (virt + off) w (omega arith)
      (subst (λ d. bit_and (m'.entries (directory_slot d)) page_present ≢ 0) same_directory g.table)
      (ap m'.entries (sym page) ∙ g.entry)
      (bit_or-lt-pow 32 _ _ (bit_or-lt-pow 32 phys 1 fits (omega arith))
        (omega (arith, offset_lem flags)))
    ∙ ap ok (omega (arith, entry_frame phys flags aligned, g.aligned))

-- A page that is mapped already is not mapped again: the kernel aborts.
pub paging_map_page-mapped :
    (m : Mm) (virt phys flags : ℕ)
    → virt % 4096 ≡ 0
    → HasTable m virt
    → bit_and (m.entries (virt / 4096)) page_present ≢ 0
    → paging_map_page m virt phys flags ≡ abort
unfolding paging_map_page paging_get_page
paging_map_page-mapped m virt phys flags aligned table present = ground (arith, entry_slot_lem virt)

-- What a lookup that may create the table of `virt` does to the rest of user space.
get_page-other :
    (m : Mm) (virt flags other slot : ℕ) (m' : Mm)
    → IsUserArea virt
    → IsUserArea other
    → HasTable m other
    → paging_get_page m virt true flags ≡ ok (some slot, m')
    → HasTable m' other × (m'.entries (other / 4096) ≡ m.entries (other / 4096))
unfolding paging_get_page
get_page-other m virt flags other slot m' area area' table h = ground arith

-- Mapping a page leaves the other pages of user space alone whose tables are there.
pub paging_map_page-other :
    (m : Mm) (virt phys flags other : ℕ) (m' : Mm)
    → IsUserArea virt
    → IsUserArea other
    → other / 4096 ≢ virt / 4096
    → HasTable m other
    → paging_map_page m virt phys flags ≡ ok m'
    → HasTable m' other × (m'.entries (other / 4096) ≡ m.entries (other / 4096))
unfolding paging_map_page
paging_map_page-other m virt phys flags other m' area area' ne table h =
    let ((p, m1), q, rest) = >>=-eq-ok (paging_get_page m virt true flags) _ h in
    let (slot, found, rest') = >>=-eq-ok (access p) _ rest in
    let is_some : p ≡ some slot = access-eq-ok p found in
    let q' : paging_get_page m virt true flags ≡ ok (some slot, m1) =
      q ∙ ap (λ t. ok (t, m1)) is_some in
    let (aligned, at, table') = paging_get_page-some m virt true flags slot m1 q' in
    let kept = get_page-other m virt flags other slot m1 area area' table q' in
    ground (arith, entry_slot_lem virt)
