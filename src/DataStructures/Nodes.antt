-- ===== src/DataStructures/Nodes.antt =====
-- kernel/kernel/data_structures/stack.c and linked_list.c: linked nodes on the heap. A store maps
-- the address of a node to it; `none` in a field is memory that was not written, and an access of
-- either is a `fault`. `place` is the address that `kmalloc` returns, and NULL is 0.
pub mod Chains
pub mod Appending
mod Tests
use medusa_os.Prelude.{
  ℕ, zero, suc, ◌==◌, if◌then◌else◌, Bool, true, false, not, Option, none, some, Outcome, ok, abort,
  fault, ◌>>=◌, access,
}

-- `stack_t` and `linked_list_t`
pub record Node : Type 0 where
  pub value : Option ℕ
  pub next : Option ℕ

abbrev pub Store : Type 0
Store = ℕ → Option Node

abbrev pub put : Store → ℕ → Option Node → Store
put st a n b = if b == a then n else st b

-- `kmalloc(sizeof(...))`
abbrev pub alloc_node : Store → ℕ → Store
alloc_node st place = put st place (some (record { value = none; next = none }))

-- `node->data = v` and `node->next = v`
abbrev pub set_value : Store → (node v : ℕ) → Outcome Store
set_value st node v = do n ← access (st node); ok (put st node (some (record n { value = some v })))

abbrev pub set_next : Store → (node v : ℕ) → Outcome Store
set_next st node v = do n ← access (st node); ok (put st node (some (record n { next = some v })))

abbrev pub get_value : Store → ℕ → Outcome ℕ
get_value st node = do n ← access (st node); access n.value

abbrev pub get_next : Store → ℕ → Outcome ℕ
get_next st node = do n ← access (st node); access n.next

pub create_stack_node : Store → (place v : ℕ) → Outcome Store
create_stack_node st place v = do
  st1 ← set_value (alloc_node st place) place v
  set_next st1 place 0

abbrev pub stack_is_empty : ℕ → Bool
stack_is_empty root = root == 0

-- The store and the new root.
pub stack_push : Store → (place root v : ℕ) → Outcome (Store × ℕ)
unfolding create_stack_node
stack_push st place root v = do
  st1 ← create_stack_node st place v
  st2 ← set_next st1 place root
  ok (st2, place)

-- The popped data, the store and the new root.
pub stack_pop : Store → (root : ℕ) → Outcome (ℕ × Store × ℕ)
stack_pop st root =
    if stack_is_empty root
    then ok (0, st, root)
    else do next ← get_next st root; popped ← get_value st root; ok (popped, put st root none, next)

pub stack_peek : Store → (root : ℕ) → Outcome ℕ
stack_peek st root = if not (stack_is_empty root) then ok 0 else get_value st root

pub linked_list_init : Store → (place : ℕ) → Outcome (Store × ℕ)
linked_list_init st place = do
  st1 ← set_value (alloc_node st place) place 0
  st2 ← set_next st1 place 0
  ok (st2, place)

pub linked_list_insert_beginning : Store → (place v node : ℕ) → Outcome (Store × ℕ)
linked_list_insert_beginning st place v node = do
  st1 ← set_value (alloc_node st place) place v
  st2 ← set_next st1 place node
  ok (st2, place)

-- The loop of `append_linked_list`, in at most as many turns as the fuel: the last node.
abbrev pub last_from : (fuel : ℕ) → Store → (temp : ℕ) → Option (Outcome ℕ)
last_from zero st temp = none
last_from (suc fuel) st temp = elim (get_next st temp) [
  | ok next ↦ if next == 0 then some (ok temp) else last_from fuel st next
  | abort ↦ some fault
  | fault ↦ some fault
]

abbrev pub append_to : (st1 : Store) (place : ℕ) → Outcome ℕ → Outcome Store
append_to st1 place found = do temp ← found; set_next st1 temp place

pub append_linked_list : (fuel : ℕ) → Store → (place v node : ℕ) → Option (Outcome Store)
append_linked_list fuel st place v node = elim (set_value (alloc_node st place) place v) [
  | ok st1 ↦ elim (last_from fuel st1 node) [
    | some found ↦ some (append_to st1 place found)
    | none ↦ none
  ]
  | abort ↦ some fault
  | fault ↦ some fault
]

-- The loop of `linked_list_find`, in at most as many turns as the fuel.
pub linked_list_find : (fuel : ℕ) → Store → (v temp : ℕ) → Option (Outcome Bool)
linked_list_find zero st v temp = none
linked_list_find (suc fuel) st v temp =
    if temp == 0 then some (ok false) else elim (get_value st temp) [
      | ok d ↦ if d == v then some (ok true) else elim (get_next st temp) [
        | ok next ↦ linked_list_find fuel st v next
        | abort ↦ some fault
        | fault ↦ some fault
      ]
      | abort ↦ some fault
      | fault ↦ some fault
    ]
