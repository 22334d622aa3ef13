-- ===== src/Mm/Paging/Entries.antt =====
-- What the bits of an entry say.
use medusa_os.Prelude.{
  ℕ, ◌*◌, ◌/◌, ◌%◌, ◌^◌, ◌<◌, ◌≡◌, ◌∙◌, ap₂, arith, bit_and, bit_or, bit_and_mask, bit_or_step,
  bit_or-zero, bit_or-div_pow, bit_and-mul_pow,
}
use medusa_os.Mm.Paging.{entry_slot, page_frame, page_flags}

-- The entry of a virtual page stands at the page's number.
pub entry_slot_lem : (virt : ℕ) → entry_slot virt ≡ virt / 4096
entry_slot_lem virt = omega (arith, bit_and_mask 10 (virt / 2 ^ 12))

-- `& PAGE_FLAGS` and `& 0xFFF`
pub offset_lem : (w : ℕ) → bit_and w 0xfff ≡ w % 4096
offset_lem w = bit_and_mask 12 w

-- `& PAGE_FRAME` of a word clears the low 12 bits.
pub frame_lem : (w : ℕ) → w < 2 ^ 32 → bit_and w page_frame ≡ w / 4096 * 4096
frame_lem w h = omega (arith, bit_and-mul_pow 12 w 0xfffff, bit_and_mask 20 (w / 2 ^ 12))

-- The entry for a frame: the frame can be read back, and it is present.
pub entry_frame :
    (phys flags : ℕ)
    → phys % 4096 ≡ 0
    → bit_or (bit_or phys 1) (bit_and flags page_flags) / 4096 ≡ phys / 4096
entry_frame phys flags aligned =
    bit_or-div_pow 12 (bit_or phys 1) (bit_and flags page_flags)
    ∙ ap₂ bit_or (bit_or-div_pow 12 phys 1) (omega (arith, offset_lem flags))
    ∙ bit_or-zero (bit_or (phys / 4096) 0)
    ∙ bit_or-zero (phys / 4096)

pub present_lem : (w : ℕ) → bit_and w 1 ≡ w % 2
present_lem w = bit_and_mask 1 w

pub entry_present : (phys flags : ℕ) → bit_or (bit_or phys 1) flags % 2 ≡ 1
entry_present phys flags = omega (arith, bit_or_step (bit_or phys 1) flags, bit_or_step phys 1)
