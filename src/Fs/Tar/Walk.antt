-- ===== src/Fs/Tar/Walk.antt =====
-- The walks over the archive.
use medusa_os.Prelude.{
  ℕ, zero, suc, ◌+◌, ◌*◌, ◌^◌, ◌≤◌, ◌<◌, ◌≡◌, ◌≢◌, refl, ap, sym, ◌∙◌, subst, arith, if◌then◌else◌,
  inl, inr, Bool-cases, ◌==◌, eq→==, ==→eq, ==_false→ne, ◌/◌, ◌%◌, ne→==_false, some, none, List,
  [], ◌∷◌, ◌++◌, length, length-append, append_assoc, append-nil, ok, ◌>>=◌, >>=-eq-ok, true, false,
}
use medusa_os.Misc.{u32}
use medusa_os.DataStructures.Slots.{Slots, list_append, grow, write_slot}
use medusa_os.DataStructures.Slots.Laws.{Holds, list_append-Holds}
use medusa_os.Fs.Tar.Sizes.{Octal, getsize_lem}
use medusa_os.Fs.Tar.{
  Memory, size_field, getsize, next_header, HeaderList, init_header_list, add_header_list,
  grow_header_list, ends_at, generate_from, generate_list_files_initrd, number_from,
  initrd_get_number_files,
}

-- The header after the one at `address`.
abbrev after : Memory → (address : ℕ) → ℕ
after memory address = next_header address (getsize memory (u32 (address + size_field)))

-- `used` counts what was added.
add_header_list-used :
    (list : HeaderList) (header : ℕ) {list' : HeaderList}
    → add_header_list list header ≡ ok list'
    → list'.used ≡ u32 (list.used + 1)
unfolding add_header_list grow_header_list
add_header_list-used list header e = ground arith

-- One turn of each walk.
generate-zero :
    (memory : Memory) (address : ℕ) (list : HeaderList)
    → generate_from 0 memory address list ≡ ok none
unfolding generate_from
generate-zero memory address list = refl

generate-end :
    (turns : ℕ) (memory : Memory) (address : ℕ) (list : HeaderList)
    → ends_at memory address ≡ true
    → generate_from (suc turns) memory address list ≡ ok (some list)
unfolding generate_from
generate-end turns memory address list q = rw q refl

generate-next :
    (turns : ℕ) (memory : Memory) (address : ℕ) (list : HeaderList)
    → ends_at memory address ≡ false
    → generate_from (suc turns) memory address list
      ≡ (add_header_list list address >>= generate_from turns memory (after memory address))
unfolding generate_from
generate-next turns memory address list q = rw q refl

number-end :
    (turns : ℕ) (memory : Memory) (address i : ℕ)
    → ends_at memory address ≡ true
    → number_from (suc turns) memory address i ≡ some i
unfolding number_from
number-end turns memory address i q = rw q refl

number-next :
    (turns : ℕ) (memory : Memory) (address i : ℕ)
    → ends_at memory address ≡ false
    → number_from (suc turns) memory address i
      ≡ number_from turns memory (after memory address) (u32 (i + 1))
unfolding number_from
number-next turns memory address i q = rw q refl

-- A walk that makes the list counts its entries.
number_from-generate :
    (turns : ℕ) (memory : Memory) (address : ℕ) (list final : HeaderList)
    → generate_from turns memory address list ≡ ok (some final)
    → number_from turns memory address list.used ≡ some final.used
number_from-generate zero memory address list final e =
    let stop = generate-zero memory address list in cc
number_from-generate (suc turns) memory address list final e =
    elim (Bool-cases (ends_at memory address)) [
      | inl q ↦
          let same = sym (generate-end turns memory address list q) ∙ e in
          number-end turns memory address list.used q
          ∙ ap (λ l. some l.used) (some-injective list final same)
      | inr q ↦
          let (list', added, rest) =
            >>=-eq-ok (add_header_list list address)
              (generate_from turns memory (after memory address))
              (sym (generate-next turns memory address list q) ∙ e) in
          number-next turns memory address list.used q
          ∙ ap (number_from turns memory (after memory address))
              (sym (add_header_list-used list address added))
          ∙ number_from-generate turns memory (after memory address) list' final rest
    ]
  where
    some-injective : (a b : HeaderList) → ok (some a) ≡ ok (some b) → a ≡ b
    some-injective a b e = cc

-- The header at `address` has the octal digits of `size` in its size field.
abbrev pub IsSize : Memory → (address size : ℕ) → Type 0
IsSize memory address size = (size < 2 ^ 32) × Octal memory (u32 (address + 124)) 11 size

-- The blocks of 512 bytes that `size` bytes fill, the last one in part.
abbrev pub blocks_of : (size : ℕ) → ℕ
blocks_of size = (size + 511) / 512

-- The headers of an archive at `address`, up to one whose name is empty: a block for each header, and
-- behind it the blocks of its file.
abbrev pub Archive : Memory → (address : ℕ) → List ℕ → Type 0
Archive memory address [] = memory address ≡ 0
Archive memory address (h ∷ headers) =
    (h ≡ address)
    × (memory address ≢ 0)
    × ((size : ℕ) × IsSize memory address size
        × Archive memory (u32 (address + 512 * (1 + blocks_of size))) headers)

after_blocks :
    (memory : Memory) (address size : ℕ)
    → IsSize memory address size
    → after memory address ≡ u32 (address + 512 * (1 + blocks_of size))
unfolding next_header
after_blocks memory address size (small, digits) =
    ap (next_header address) (getsize_lem memory (u32 (address + 124)) size digits small)
    ∙ step address size
  where
    step : (a n : ℕ) → next_header a n ≡ u32 (a + 512 * (1 + blocks_of n))
    step a n = elim (Bool-cases (n % 512 == 0)) [
      | inl e ↦ rw e (omega (arith, ==→eq (n % 512) 0 e))
      | inr e ↦ rw e (omega (arith, ==_false→ne (n % 512) 0 e))
    ]

-- A header list as an array list.
abbrev pub slots : HeaderList → Slots
slots list = record { used = list.used; size = list.size; list = list.headers }

abbrev headers_of : Slots → HeaderList
headers_of l = record { headers = l.list; used = l.used; size = l.size }

add_header_list-slots :
    (list : HeaderList) (header : ℕ) (l : Slots)
    → list_append header (slots list) ≡ ok l
    → add_header_list list header ≡ ok (headers_of l)
unfolding add_header_list grow_header_list list_append grow write_slot
add_header_list-slots list header l e = ground arith

grown_size :
    (used size n size' : ℕ)
    → size' ≡ (if used == size then size * 2 else size)
    → used ≡ n
    → size ≤ 2 * (n + 1)
    → size' ≤ 2 * (n + 2)
grown_size used size n size' e counted small = ground arith

-- The walk over an archive makes the list of its headers.
generate_from-Archive :
    (headers : List ℕ) (turns : ℕ) (memory : Memory) (address : ℕ) (list : HeaderList) (xs : List ℕ)
    → Archive memory address headers
    → length headers < turns
    → Holds (slots list) xs
    → list.size ≤ 2 * (length xs + 1)
    → length xs + length headers < 2 ^ 27
    → (final : HeaderList) × (generate_from turns memory address list ≡ ok (some final))
      × Holds (slots final) (xs ++ headers)
generate_from-Archive headers zero memory address list xs h turns_ok holds size few =
    absurd (omega (arith, turns_ok))
generate_from-Archive [] (suc turns) memory address list xs h turns_ok holds size few = (
  list,
  generate-end turns memory address list (eq→== (memory address) 0 h),
  subst (Holds (slots list)) (sym (append-nil xs)) holds,
)
generate_from-Archive (x ∷ headers) (suc turns) memory address list xs h turns_ok holds size few =
    let (l, appended, holds', size') =
      list_append-Holds address (slots list) xs holds (omega (arith, size, few)) in
    let added = add_header_list-slots list address l appended in
    let count : length (xs ++ (address ∷ [])) ≡ length xs + 1 =
      omega (arith, length-append xs (address ∷ [])) in
    let grown : l.size ≤ 2 * (length (xs ++ (address ∷ [])) + 1) =
      omega (
        arith,
        count,
        grown_size list.used list.size (length xs) l.size size' holds.counted size,
      ) in
    let (size, is_size, tail) = h.2 in
    let next : Archive memory (after memory address) headers =
      subst (λ a. Archive memory a headers) (sym (after_blocks memory address size is_size)) tail in
    let (final, made, all) =
      generate_from-Archive headers turns memory (after memory address) (headers_of l)
        (xs ++ (address ∷ [])) next (omega (arith, turns_ok)) holds' grown
        (omega (arith, few, count)) in
    (
      final,
      generate-next turns memory address list (ne→==_false (memory address) 0 h.1)
          ∙ ap (λ r. r >>= generate_from turns memory (after memory address)) added
          ∙ made,
      subst (Holds (slots final))
          (append_assoc xs (address ∷ []) headers ∙ ap (λ a. xs ++ (a ∷ headers)) (sym h.0)) all,
    )

init_header_list-Holds : Holds (slots (init_header_list 1)) []
unfolding init_header_list
init_header_list-Holds = record {
  rest = none ∷ [];
  array = refl;
  counted = refl;
  measured = refl;
  roomy = omega arith;
}

init_header_list-size : (init_header_list 1).size ≡ 1
unfolding init_header_list
init_header_list-size = refl

init_header_list-used : (init_header_list 1).used ≡ 0
unfolding init_header_list
init_header_list-used = refl

-- Over an archive of fewer than 2^27 headers, each with its size in octal and its file in whole blocks
-- behind it, with more turns than that, the walk that makes the list
-- succeeds and the list holds the addresses of the headers in their order, and the walk that counts
-- returns their number.
pub generate_list_files_initrd_lem :
    (headers : List ℕ) (turns : ℕ) (memory : Memory) (address : ℕ)
    → Archive memory address headers
    → length headers < turns
    → length headers < 2 ^ 27
    → (final : HeaderList) × (generate_list_files_initrd turns memory address ≡ ok (some final))
      × Holds (slots final) headers
      × (initrd_get_number_files turns memory address ≡ some (length headers))
unfolding generate_list_files_initrd initrd_get_number_files
generate_list_files_initrd_lem headers turns memory address h enough few =
    let (final, made, holds) =
      generate_from-Archive headers turns memory address (init_header_list 1) [] h enough
        init_header_list-Holds (omega (arith, init_header_list-size)) (omega (arith, few)) in
    let counted = number_from-generate turns memory address (init_header_list 1) final made in
    (
      final,
      made,
      holds,
      sym (ap (number_from turns memory address) init_header_list-used)
          ∙ counted
          ∙ ap some holds.counted,
    )
