-- ===== src/DataStructures/Slots.antt =====
-- kernel/kernel/data_structures/list.c: an array of pointers that grows. `Slots.list` is the array
-- that `list` points to, `none` where it was not written since it was allocated; an access behind
-- it is a `fault`. Pointers are numbers, and NULL is 0.
pub mod Laws
pub mod Removal
mod Tests
use medusa_os.Prelude.{
  ℕ, zero, suc, ◌+◌, ◌*◌, ◌/◌, ◌<◌, ◌==◌, ltb, if◌then◌else◌, Bool, true, false, not, Option, none,
  some, List, [], ◌∷◌, length, get_elem?, set, Outcome, ok, fault, ◌>>=◌, access,
}
use medusa_os.Misc.{u32}

-- `list_t`
pub record Slots : Type 0 where
  pub used : ℕ
  pub size : ℕ
  pub list : List (Option ℕ)

-- The array of `n` items after `krealloc`, or from `kmalloc` where there was none.
abbrev pub resize : ℕ → List (Option ℕ) → List (Option ℕ)
resize zero xs = []
resize (suc n) [] = none ∷ resize n []
resize (suc n) (x ∷ xs) = x ∷ resize n xs

-- The items in an allocation of `n * sizeof(struct listItem)` bytes.
abbrev pub capacity : ℕ → ℕ
capacity n = u32 (n * 4) / 4

unfoldable pub list_create_ext : (used size : ℕ) → Slots
list_create_ext used size = record { used = used; size = size; list = resize (capacity size) [] }

pub list_create : Slots
list_create = record { used = 0; size = 1; list = resize (capacity 1) [] }

-- `list->list[index].data`
unfoldable pub list_find_at : (index : ℕ) → Slots → Outcome ℕ
list_find_at index l = do slot ← access (get_elem? l.list index); access slot

-- `list->list[index].data = wanted`
unfoldable pub write_slot : (index wanted : ℕ) → Slots → Outcome Slots
write_slot index wanted l =
    if ltb index (length l.list)
    then ok (record l { list = set l.list index (some wanted) })
    else fault

-- The loop of `list_clear`, with `n` turns left.
abbrev pub clear_from : (n i : ℕ) → Slots → Outcome Slots
clear_from zero i l = ok l
clear_from (suc n) i l = do l' ← write_slot i 0 l; clear_from n (i + 1) l'

pub list_clear : Slots → Outcome Slots
list_clear l = clear_from l.used 0 l

-- `list_destroy` clears the items, and gives the memory back.
pub list_destroy : Slots → Outcome Slots
unfolding list_clear
list_destroy l = list_clear l

pub list_is_empty : Slots → Bool
list_is_empty l = l.used == 0

-- The branch of a full list.
unfoldable pub grow : Slots → Slots
grow l = record l { size = u32 (l.size * 2); list = resize (capacity (u32 (l.size * 2))) l.list }

unfoldable pub list_append : (wanted : ℕ) → Slots → Outcome Slots
unfolding grow write_slot
list_append wanted l = do
  let room = if l.used == l.size then grow l else l
  l' ← write_slot room.used wanted room
  ok (record l' { used = u32 (l'.used + 1) })

-- The loop of `list_remove`: the items from `i` on that are not `wanted` go to `new`.
abbrev pub remove_from : (wanted : ℕ) → Slots → (n i : ℕ) → Slots → Outcome Slots
remove_from wanted l zero i new = ok new
remove_from wanted l (suc n) i new = do
  found ← list_find_at i l
  new' ← if found == wanted then ok new else list_append found new
  remove_from wanted l n (i + 1) new'

pub list_remove : (wanted : ℕ) → Slots → Outcome Slots
unfolding list_create_ext list_destroy list_append
list_remove wanted l = do
  new ← remove_from wanted l l.used 0 (list_create_ext 0 l.size)
  gone ← list_destroy l
  ok new

-- The loop of `list_remove_index`.
abbrev pub remove_index_from : (index : ℕ) → Slots → (n i : ℕ) → Slots → Outcome Slots
remove_index_from index l zero i new = ok new
remove_index_from index l (suc n) i new = do
  new' ← if i == index then ok new else (do found ← list_find_at i l; list_append found new)
  remove_index_from index l n (i + 1) new'

pub list_remove_index : (index : ℕ) → Slots → Outcome Slots
unfolding list_create_ext list_destroy list_append
list_remove_index index l = do
  new ← remove_index_from index l l.used 0 (list_create_ext 0 l.size)
  gone ← list_destroy l
  ok new

-- The loop of `list_find`; it returns NULL at the end.
abbrev pub find_from : (wanted : ℕ) → Slots → (n i : ℕ) → Outcome ℕ
find_from wanted l zero i = ok 0
find_from wanted l (suc n) i = do
  found ← list_find_at i l
  if found == wanted then ok found else find_from wanted l n (i + 1)

pub list_find : (wanted : ℕ) → Slots → Outcome ℕ
unfolding list_find_at
list_find wanted l = find_from wanted l l.used 0
