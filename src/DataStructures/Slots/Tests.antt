-- ===== src/DataStructures/Slots/Tests.antt =====
-- A list of three items with one slot to spare.
use medusa_os.Prelude.{ℕ, ◌≡◌, none, some, List, [], ◌∷◌, ◌++◌, refl, arith, ok}
use medusa_os.DataStructures.Slots.{Slots, list_append, list_remove, list_remove_index, list_find}
use medusa_os.DataStructures.Slots.Laws.{Holds, list_append-Holds}
use medusa_os.DataStructures.Slots.Removal.{
  list_remove-Holds, list_remove_index-Holds, list_find-Holds,
}

abbrev three : Slots
three = record { used = 3; size = 4; list = some 7 ∷ some 8 ∷ some 7 ∷ none ∷ [] }

abbrev items : List ℕ
items = 7 ∷ 8 ∷ 7 ∷ []

three-Holds : Holds three items
three-Holds = record {
  rest = none ∷ [];
  array = refl;
  counted = refl;
  measured = refl;
  roomy = omega arith;
}

list_append_example :
    (l' : Slots) × (list_append 9 three ≡ ok l') × Holds l' (items ++ (9 ∷ [])) × (l'.size ≡ 4)
list_append_example = list_append-Holds 9 three items three-Holds (omega arith)

list_remove_example : (l' : Slots) × (list_remove 7 three ≡ ok l') × Holds l' (8 ∷ [])
list_remove_example = list_remove-Holds 7 three items three-Holds (omega arith)

list_remove_index_example :
    (l' : Slots) × (list_remove_index 1 three ≡ ok l') × Holds l' (7 ∷ 7 ∷ [])
list_remove_index_example = list_remove_index-Holds 1 three items three-Holds (omega arith)

list_find_example : list_find 8 three ≡ ok 8
list_find_example = list_find-Holds 8 three items three-Holds
