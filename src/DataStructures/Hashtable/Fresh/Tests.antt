-- ===== src/DataStructures/Hashtable/Fresh/Tests.antt =====
-- The key `a` in a new table.
use medusa_os.Prelude.{◌≡◌, arith, none, [], ◌∷◌, ok, fault}
use medusa_os.DataStructures.Hashtable.{Hashtable, hashtable_create, hashtable_get, hashtable_set}
use medusa_os.DataStructures.Hashtable.Fresh.{hashtable_create-unusable}

hashtable_create-unusable_example :
    (table : Hashtable) × (hashtable_create (λ p. none) ≡ ok table)
    × (hashtable_get 1 (97 ∷ 0 ∷ []) table ≡ fault)
    × (hashtable_set 1 (97 ∷ 0 ∷ []) 5 table ≡ fault)
hashtable_create-unusable_example =
    hashtable_create-unusable 0 (λ p. none) (97 ∷ []) [] 5 (omega arith) (λ e. omega (arith, e))
