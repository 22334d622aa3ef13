-- ===== src/DataStructures/Hashtable.antt =====
-- kernel/kernel/data_structures/hashtable.c: a hash table over the array list. The list's items are pointers to entries in
-- `store`; reading through NULL, or any pointer that is not in the store, is a `fault`.
pub mod Fresh
use medusa_os.Prelude.{
  ℕ, zero, suc, ◌+◌, ◌-◌, ◌*◌, ◌/◌, ◌%◌, ◌^◌, ◌==◌, ltb, leb, if◌then◌else◌, Bool, true, false, not,
  ◌&&◌, ◌||◌, Option, none, some, List, [], ◌∷◌, length, set, bit_and, bit_xor, Outcome, ok, fault,
  ◌>>=◌, access,
}
use medusa_os.Misc.{u32}
use medusa_os.Libc.Strings.{strcmp}
use medusa_os.DataStructures.Slots.{Slots, list_create_ext, list_find_at, write_slot}

-- `hashtable_entry`; a key that is NULL is none.
pub record Entry : Type 0 where
  pub key : Option (List ℕ)
  pub value : ℕ

pub record Hashtable : Type 0 where
  pub entries : Slots
  pub store : ℕ → Option Entry

abbrev pub capacity : ℕ
capacity = 16

-- The loop of `hashtable_create` and `hashtable_expand` that sets the items to NULL.
pub nulls_from : (n i : ℕ) → Slots → Outcome Slots
nulls_from zero i l = ok l
nulls_from (suc n) i l = do l' ← write_slot i 0 l; nulls_from n (i + 1) l'

pub hashtable_create : (store : ℕ → Option Entry) → Outcome Hashtable
unfolding nulls_from
hashtable_create store = do
  entries ← nulls_from capacity 0 (list_create_ext 0 capacity)
  ok (record { entries = entries; store = store })

abbrev pub fnv_offset : ℕ
fnv_offset = 14695981039346656037

abbrev pub fnv_prime : ℕ
fnv_prime = 1099511628211

pub fnv_from : (hash : ℕ) → List ℕ → Outcome ℕ
fnv_from hash [] = fault
fnv_from hash (c ∷ key) =
    if c == 0 then ok hash else fnv_from (bit_xor hash c * fnv_prime % 2 ^ 64) key

-- The hash goes through an `int`, so its upper half is the sign of the lower one.
abbrev pub through_int : ℕ → ℕ
through_int hash = if ltb (u32 hash) (2 ^ 31) then u32 hash else u32 hash + (2 ^ 64 - 2 ^ 32)

pub hash_key : List ℕ → Outcome ℕ
unfolding fnv_from
hash_key key = do hash ← fnv_from fnv_offset key; ok (through_int hash)

-- `(size_t)(hash & (uint64_t)(entries->size - 1))`; the difference is a `size_t`.
abbrev pub first_index : (hash size : ℕ) → ℕ
first_index hash size = u32 (bit_and hash (u32 (size + (2 ^ 32 - 1))))

-- `entries->list[index].data`, and the entry behind it.
pub entry_at : Hashtable → (index : ℕ) → Outcome (ℕ × Entry)
entry_at table index = do
  pointer ← list_find_at index table.entries
  entry ← access (if pointer == 0 then none else table.store pointer)
  ok (pointer, entry)

-- `strcmp(key, temp_entry->key) == 0`
abbrev pub same_key : List ℕ → List ℕ → Outcome Bool
same_key key other = do d ← strcmp key other; ok (d.plus == d.minus)

-- The loop of `hashtable_get` and `hashtable_set_entry`, to the entry with the key, or one without a
-- key; the outer `none` is a probe of more than `turns` entries.
pub probe : (turns : ℕ) → Hashtable → (key : List ℕ) → (index : ℕ) → Outcome (Option (ℕ × Entry))
unfolding entry_at
probe zero table key index = ok none
probe (suc turns) table key index = do
  (pointer, entry) ← entry_at table index
  elim entry.key [
    | none ↦ ok (some (pointer, entry))
    | some other ↦ (do
      same ← same_key key other
      if same
          then ok (some (pointer, entry))
          else probe turns table key (if leb table.entries.size (index + 1) then 0 else index + 1))
  ]

abbrev pub value_of : Entry → ℕ
value_of entry = elim entry.key [ none ↦ 0 | some k ↦ entry.value ]

-- The value, or NULL.
pub hashtable_get : (turns : ℕ) → (key : List ℕ) → Hashtable → Outcome (Option ℕ)
unfolding hash_key probe
hashtable_get turns key table = do
  hash ← hash_key key
  found ← probe turns table key (first_index hash table.entries.size)
  elim found [ none ↦ ok none | some (pointer, entry) ↦ ok (some (value_of entry)) ]

abbrev pub write_entry : ℕ → Entry → (ℕ → Option Entry) → (ℕ → Option Entry)
write_entry pointer entry store = λ p. if p == pointer then some entry else store p

-- An entry with the key keeps it and gets the value; one without a key gets both, and is counted.
abbrev pub store_value : (key : List ℕ) → (value pointer : ℕ) → Entry → Hashtable → Hashtable
store_value key value pointer entry table = elim entry.key [
  | some k ↦ record table {
    store = write_entry pointer (record entry { value = value }) table.store;
  }
  | none ↦ record {
    entries = record (table.entries) { used = u32 (table.entries.used + 1) };
    store = write_entry pointer (record { key = some key; value = value }) table.store;
  }
]

pub hashtable_set_entry :
    (turns : ℕ) → (key : List ℕ) → (value : ℕ) → Hashtable → Outcome (Option Hashtable)
unfolding hash_key probe
hashtable_set_entry turns key value table = do
  hash ← hash_key key
  found ← probe turns table key (first_index hash table.entries.size)
  elim found [
    | none ↦ ok none
    | some (pointer, entry) ↦ ok (some (store_value key value pointer entry table))
  ]

-- The loop of `hashtable_expand` on the old items; for a NULL one the test reads its key.
pub move_from : (turns n i : ℕ) → (old : Hashtable) → (new : Hashtable) → Outcome (Option Hashtable)
unfolding hashtable_set_entry entry_at
move_from turns zero i old new = ok (some new)
move_from turns (suc n) i old new = do
  (pointer, entry) ← entry_at (record old { store = new.store }) i
  key ← access entry.key
  moved ← hashtable_set_entry turns key entry.value new
  elim moved [ none ↦ ok none | some new' ↦ move_from turns n (i + 1) old new' ]

-- `none` in the pair is a return of false.
pub hashtable_expand : (turns : ℕ) → Hashtable → Outcome (Option (Option Hashtable))
unfolding nulls_from move_from
hashtable_expand turns table =
    let new_capacity = u32 (table.entries.size * 2) in
    if ltb new_capacity table.entries.used then ok (some none) else (do
      fresh ← nulls_from new_capacity 0 (list_create_ext 0 new_capacity)
      moved ←
          move_from turns table.entries.size 0 table
            (record { entries = fresh; store = table.store })
      elim moved [ none ↦ ok none | some new ↦ ok (some (some new)) ])

-- The table afterwards; the inner `none` is NULL with the table as it was.
pub hashtable_set :
    (turns : ℕ) → (key : List ℕ) → (value : ℕ) → Hashtable → Outcome (Option (Option Hashtable))
unfolding hashtable_expand hashtable_set_entry
hashtable_set turns key value table = if value == 0 then ok (some none) else (do
  expanded ←
      if leb (table.entries.size / 2) table.entries.used
      then hashtable_expand turns table
      else ok (some (some table))
  elim expanded [
    | none ↦ ok none
    | some none ↦ ok (some none)
    | some (some room) ↦ (do
      done ← hashtable_set_entry turns key value room
      elim done [ none ↦ ok none | some t ↦ ok (some (some t)) ])
  ])
