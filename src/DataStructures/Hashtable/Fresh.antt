-- ===== src/DataStructures/Hashtable/Fresh.antt =====
-- A table as `hashtable_create` makes it.
mod Tests
use medusa_os.Prelude.{
  ℕ, zero, suc, ◌+◌, ◌-◌, ◌*◌, ◌/◌, ◌%◌, ◌^◌, ◌≤◌, ◌<◌, ◌≡◌, ◌≢◌, refl, ap, sym, ◌∙◌, arith, ◌==◌,
  if◌then◌else◌, ne→==_false, Option, none, some, List, [], ◌∷◌, ◌++◌, length, get_elem?, bit_and,
  bit_and_mask, bit_and-le, bit_xor, replicate, Outcome, ok, fault, ◌>>=◌, access,
}
use medusa_os.Misc.{u32}
use medusa_os.Libc.Strings.Laws.{Characters}
use medusa_os.DataStructures.Slots.{Slots, list_create_ext, list_find_at, write_slot}
use medusa_os.DataStructures.Hashtable.{
  Entry, Hashtable, hashtable_create, fnv_from, fnv_offset, fnv_prime, hash_key, through_int,
  first_index, entry_at, probe, hashtable_get, hashtable_set, hashtable_set_entry, nulls_from,
}

-- FNV-1a of the characters, as a number.
abbrev pub fnv : (hash : ℕ) → List ℕ → ℕ
fnv hash [] = hash
fnv hash (c ∷ key) = fnv (bit_xor hash c * fnv_prime % 2 ^ 64) key

pub fnv_from-string :
    (hash : ℕ) (s rest : List ℕ) → Characters s → fnv_from hash (s ++ (0 ∷ rest)) ≡ ok (fnv hash s)
unfolding fnv_from
fnv_from-string hash [] rest h = refl
fnv_from-string hash (c ∷ s) rest h =
    rw (ne→==_false c 0 (λ e. omega (arith, e, h.0)))
      (fnv_from-string (bit_xor hash c * fnv_prime % 2 ^ 64) s rest h.2)

abbrev empty_slots : Slots
empty_slots = record { used = 0; size = 16; list = replicate 16 (some 0) }

created :
    (store : ℕ → Option Entry)
    → hashtable_create store ≡ ok (record { entries = empty_slots; store = store })
unfolding hashtable_create nulls_from list_create_ext write_slot
created store = refl

first_index-lt : (hash : ℕ) → first_index hash 16 < 16
first_index-lt hash = omega (arith, bit_and_mask 4 hash)

abbrev null_pointer : Option ℕ
null_pointer = some 0

null_item : (n i : ℕ) → i < n → get_elem? (replicate n null_pointer) i ≡ some null_pointer
null_item zero i h = absurd (omega (arith, h))
null_item (suc n) zero h = refl
null_item (suc n) (suc i) h = null_item n i (omega (arith, h))

null_entry :
    (store : ℕ → Option Entry) (i : ℕ)
    → i < 16
    → entry_at (record { entries = empty_slots; store = store }) i ≡ fault
unfolding entry_at list_find_at
null_entry store i h =
    ap
      (λ s.
        (access s >>= access) >>= λ p. access (if p == 0 then none else store p) >>= λ e. ok (p, e))
      (null_item 16 i h)

probe-null :
    (turns : ℕ) (store : ℕ → Option Entry) (key : List ℕ) (i : ℕ)
    → i < 16
    → probe (suc turns) (record { entries = empty_slots; store = store }) key i ≡ fault
unfolding probe
probe-null turns store key i h = rw (null_entry store i h) refl

-- The table that `hashtable_create` makes has no entries, only NULL: for every string, looking it up
-- is a fault, and so is setting it to a value other than NULL, whatever is allocated elsewhere.
pub hashtable_create-unusable :
    (turns : ℕ) (store : ℕ → Option Entry) (s rest : List ℕ) (value : ℕ)
    → Characters s
    → value ≢ 0
    → (table : Hashtable) × (hashtable_create store ≡ ok table)
      × (hashtable_get (suc turns) (s ++ (0 ∷ rest)) table ≡ fault)
      × (hashtable_set (suc turns) (s ++ (0 ∷ rest)) value table ≡ fault)
unfolding hashtable_get hashtable_set hashtable_set_entry hash_key
hashtable_create-unusable turns store s rest value hs some_value =
    let table : Hashtable = record { entries = empty_slots; store = store } in
    let hash = fnv_from-string fnv_offset s rest hs in
    let gone =
      probe-null turns store (s ++ (0 ∷ rest)) (first_index (through_int (fnv fnv_offset s)) 16)
        (first_index-lt (through_int (fnv fnv_offset s))) in
    (
      table,
      created store,
      rw (hash, gone) refl,
      rw (ne→==_false value 0 some_value, hash, gone) refl,
    )
